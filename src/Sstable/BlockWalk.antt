-- ===== src/Sstable/BlockWalk.antt =====
-- What a walk through the entries of a block of pkg/sstable/block shows.
use std.Path.{subst}
use kevo.Base.{
  ℕ, suc, ◌+◌, ◌-◌, ◌%◌, ◌^◌, ◌≤◌, ◌<◌, List, [], ◌∷◌, ◌++◌, Option, none, some, Bool, true, false,
}
use kevo.Base.{
  ◌≡◌, ◌⊎◌, refl, sym, ap, ◌∙◌, inl, inr, arith, Bool-cases, lt→leb, le→leb, ==_iff, append-nil,
  append_assoc,
}
use kevo.Base.{length, drop, ◌==◌, if◌then◌else◌, length-append, drop-append}
use kevo.Base.All.{All, All-map_pred}
use kevo.Base.Bytes.{Bytes}
use kevo.Locks.Releasing.{none_or}
use kevo.Locks.Cycles.{some_inj}
use kevo.Sstable.Block.{Entry, Written, common_prefix, full_entry, delta_entry, write_entries}
use kevo.Sstable.BlockReader.{
  Reader, BlockIterator, with_restart_idx, restart_at, decode_next, is_key, moved_to, block_next,
  block_valid, and_then, to_state, block_walk, skip,
}
use kevo.Sstable.BlockCodec.{
  EntryFits, full-decoded, delta-decoded, length-full_entry, length-delta_entry,
}

-- The two ways in which Finish writes a further entry.
abbrev pub at_restart : Entry → Written → Written
at_restart e w = record {
  buffer = w.buffer ++ full_entry e;
  points = w.points ++ (length w.buffer % 2 ^ 32 ∷ []);
}

abbrev pub at_delta : Bytes → Entry → Written → Written
at_delta prev e w = record w { buffer = w.buffer ++ delta_entry prev e }

branch :
    (b c : Bool) (x y : Option Written) (out : Written)
    → (if b then x else if c then y else none) ≡ some out
    → (x ≡ some out) ⊎ (y ≡ some out)
branch true c x y out h = inl h
branch false true x y out h = inr h
branch false false x y out h = absurd (none_or out h)

pub write_cases :
    (offset : ℕ) (prev : Bytes) (e : Entry) (es : List Entry) (w out : Written)
    → write_entries offset prev (e ∷ es) w ≡ some out
    → (write_entries 1 e.key es (at_restart e w) ≡ some out)
      ⊎ (write_entries (offset + 1) e.key es (at_delta prev e w) ≡ some out)
unfolding write_entries
write_cases offset prev e es w out h = branch _ _ _ _ out h

-- What is written later stands behind what there is, its restart points too.
pub record Grown (w out : Written) : Type 0 where
  pub more : Bytes
  pub later : List ℕ
  pub buffer_grown : out.buffer ≡ w.buffer ++ more
  pub points_grown : out.points ≡ w.points ++ later
  pub late : All (λ p. length w.buffer ≤ p) later

pub write_entries-Grown :
    (offset : ℕ) (prev : Bytes) (es : List Entry) (w out : Written)
    → write_entries offset prev es w ≡ some out
    → length out.buffer < 2 ^ 32
    → Grown w out
unfolding write_entries
write_entries-Grown offset prev [] w out h b = subst (Grown w) (some_inj h) (record {
  more = [];
  later = [];
  buffer_grown = sym (append-nil w.buffer);
  points_grown = sym (append-nil w.points);
  late = tt;
})
write_entries-Grown offset prev (e ∷ es) w out h b = elim (write_cases offset prev e es w out h) [
  | inl q ↦
      let g = write_entries-Grown 1 e.key es (at_restart e w) out q b in
      record {
        more = full_entry e ++ g.more;
        later = length w.buffer % 2 ^ 32 ∷ g.later;
        buffer_grown = g.buffer_grown ∙ append_assoc w.buffer (full_entry e) g.more;
        points_grown =
            g.points_grown ∙ append_assoc w.points (length w.buffer % 2 ^ 32 ∷ []) g.later;
        late = (
          omega (
            arith,
            b,
            ap length g.buffer_grown,
            length-append (w.buffer ++ full_entry e) g.more,
            length-append w.buffer (full_entry e),
          ),
          All-map_pred (λ p. length (w.buffer ++ full_entry e) ≤ p) (λ p. length w.buffer ≤ p)
              g.later (λ p l. omega (arith, l, length-append w.buffer (full_entry e))) g.late,
        );
      }
  | inr q ↦
      let g = write_entries-Grown (offset + 1) e.key es (at_delta prev e w) out q b in
      record {
        more = delta_entry prev e ++ g.more;
        later = g.later;
        buffer_grown = g.buffer_grown ∙ append_assoc w.buffer (delta_entry prev e) g.more;
        points_grown = g.points_grown;
        late =
            All-map_pred (λ p. length (w.buffer ++ delta_entry prev e) ≤ p)
              (λ p. length w.buffer ≤ p) g.later
              (λ p l. omega (arith, l, length-append w.buffer (delta_entry prev e))) g.late;
      }
]

pub restart_at-none :
    (i pos : ℕ) (ps : List ℕ) → All (λ p. (p == pos) ≡ false) ps → restart_at i pos ps ≡ none
unfolding restart_at
restart_at-none i pos [] h = refl
restart_at-none i pos (p ∷ ps) (q, h) = rw q (restart_at-none (i + 1) pos ps h)

pub restart_at-some :
    (i pos : ℕ) (ps qs : List ℕ) → (j : ℕ) × (restart_at i pos (ps ++ (pos ∷ qs)) ≡ some j)
unfolding restart_at
restart_at-some i pos [] qs = (i, rw ((==_iff pos pos).1 refl) refl)
restart_at-some i pos (p ∷ ps) qs = elim (Bool-cases (p == pos)) [
  | inl t ↦ (i, rw t refl)
  | inr t ↦ let (j, e) = restart_at-some (i + 1) pos ps qs in (j, rw t e)
]

pub is_key-has : (key : Bytes) → 0 < length key → is_key (some key) ≡ true
is_key-has [] h = absurd (omega (arith, h))
is_key-has (b ∷ key) h = refl

-- The iterator behind the entry that it shows.
abbrev pub standing : Reader → ℕ → ℕ → ℕ → Bytes → Bytes → BlockIterator
standing r end pos i key value = record {
  reader = r;
  current_pos = pos;
  current_key = some key;
  current_val = some value;
  restart_idx = i;
  initialized = true;
  data_end = end;
}

module _ (r : Reader) (end pos i : ℕ) (key value : Bytes) where
  pub next-full :
      (e : Entry) (pre tail : Bytes) (j : ℕ)
      → EntryFits e
      → r.data_bytes ≡ pre ++ (full_entry e ++ tail)
      → pos ≡ length pre
      → pos < end
      → pos + length (full_entry e) < 2 ^ 32
      → restart_at 0 pos r.restart_points ≡ some j
      → block_next (standing r end pos i key value)
        ≡ some (true, standing r end (pos + length (full_entry e)) j e.key e.value)
  unfolding block_next decode_next
  next-full e pre tail j fits d p h b q =
      let there : drop pos r.data_bytes ≡ full_entry e ++ tail =
        ap (drop pos) d ∙ drop-append pre (full_entry e ++ tail) pos p in
      let it = with_restart_idx (some j) (standing r end pos i key value) in
      let decoded : decode_next (standing r end pos i key value)
          ≡ some (some (e.key, e.value), skip (4 + length e.value) (skip (2 + length e.key) it)) =
        rw (lt→leb pos end h, q, there) (full-decoded e tail fits j (some key) it) in
      ap moved_to decoded
      ∙ ap (λ x. some (true, standing r end x j e.key e.value))
          (omega (arith, b, length-full_entry e))

  pub next-delta :
      (e : Entry) (pre tail : Bytes)
      → EntryFits e
      → length key < 2 ^ 16
      → r.data_bytes ≡ pre ++ (delta_entry key e ++ tail)
      → pos ≡ length pre
      → pos < end
      → pos + length (delta_entry key e) < 2 ^ 32
      → restart_at 0 pos r.restart_points ≡ none
      → block_next (standing r end pos i key value)
        ≡ some (true, standing r end (pos + length (delta_entry key e)) i e.key e.value)
  unfolding block_next decode_next
  next-delta e pre tail fits k d p h b q =
      let there : drop pos r.data_bytes ≡ delta_entry key e ++ tail =
        ap (drop pos) d ∙ drop-append pre (delta_entry key e ++ tail) pos p in
      let it = standing r end pos i key value in
      let decoded : decode_next it
          ≡ some (
            some (e.key, e.value),
            skip (4 + length e.value) (skip (4 + (length e.key - common_prefix key e.key)) it),
          ) =
        rw (lt→leb pos end h, q, there) (delta-decoded e tail fits key it k) in
      ap moved_to decoded
      ∙ ap (λ x. some (true, standing r end x i e.key e.value))
          (omega (arith, b, length-delta_entry key e))

  -- Behind the last entry Next finds nothing.
  pub walk-end :
      (fuel : ℕ)
      → pos ≡ end
      → 0 < length key
      → block_walk (suc (suc fuel)) (some (standing r end pos i key value))
        ≡ some ((key, value) ∷ [])
  unfolding block_walk block_next decode_next block_valid
  walk-end fuel h k = rw (is_key-has key k, le→leb end pos (omega (arith, h))) refl

  -- A step of a walk.
  pub walk-next :
      (fuel : ℕ) (b : Bool) (it : BlockIterator) (out : List (Bytes × Bytes))
      → 0 < length key
      → block_next (standing r end pos i key value) ≡ some (b, it)
      → block_walk fuel (some it) ≡ some out
      → block_walk (suc fuel) (some (standing r end pos i key value)) ≡ some ((key, value) ∷ out)
  unfolding block_walk block_valid
  walk-next fuel b it out k h g = rw (is_key-has key k) (
      ap (λ x. and_then (block_walk fuel (to_state x)) (some key) (some value)) h
      ∙ ap (λ x. and_then x (some key) (some value)) g)
