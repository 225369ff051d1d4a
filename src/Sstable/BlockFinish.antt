-- ===== src/Sstable/BlockFinish.antt =====
-- What Add and Finish of pkg/sstable/block/block_builder.go make of entries in order.
use std.Path.{subst}
use mathlib.Core.Bool.{false≢true}
use kevo.Base.{
  ℕ, ◌+◌, ◌-◌, ◌*◌, ◌%◌, ◌^◌, ◌≤◌, ◌<◌, List, [], ◌∷◌, ◌++◌, Option, none, some, Bool, true, false,
  ◌||◌,
}
use kevo.Base.{
  ◌≡◌, refl, sym, ap, ◌∙◌, inl, inr, arith, Bool-cases, ==_iff, append_assoc, append-nil,
}
use kevo.Base.{length, leb, ◌==◌, length-append}
use kevo.Base.All.{All}
use kevo.Base.Bytes.{Bytes}
use kevo.Base.Compare.{less, equal, equal-eq, less_irrefl}
use kevo.Locks.Cycles.{some_inj}
use kevo.Sstable.Block.{
  Entry, Builder, new_builder, is_empty, with_restart, add, unique_from, unique, common_prefix,
  Written, write_entries, full_entry, delta_entry, restart_interval,
}
use kevo.Sstable.BlockCodec.{EntryFits, length-full_entry, length-delta_entry}
use kevo.Sstable.BlockWalk.{at_restart, at_delta, write_cases}
use kevo.Sstable.BlockRoundTrip.{below_restart, below_delta}

-- Every key is greater than the one in front, the first one than `key`.
abbrev pub Climbing : Bytes → List Entry → Type 0
Climbing key [] = Unit
Climbing key (e ∷ es) = (less key e.key ≡ true) × Climbing e.key es

-- Entries are added, the first one first.
abbrev pub add_to : Option Builder → Entry → Option Builder
add_to none e = none
add_to (some b) e = add e.key e.value b

abbrev pub add_all : List Entry → Option Builder → Option Builder
add_all [] b = b
add_all (e ∷ es) b = add_all es (add_to b e)

or_true : (b : Bool) → b || true ≡ true
or_true true = refl
or_true false = refl

add_all-Climbing :
    (key : Bytes) (es : List Entry) (b : Builder)
    → b.last_key ≡ key
    → Climbing key es
    → (b' : Builder) × (add_all es (some b) ≡ some b') × (b'.entries ≡ b.entries ++ es)
unfolding add
add_all-Climbing key [] b h c = (b, refl, sym (append-nil b.entries))
add_all-Climbing key (e ∷ es) b h (p, c) =
    let ok : is_empty b.entries || less b.last_key e.key ≡ true =
      ap (λ k. is_empty b.entries || less k e.key) h
      ∙ ap (λ x. is_empty b.entries || x) p
      ∙ or_true (is_empty b.entries) in
    let b1 : Builder = record (with_restart b) {
      entries = b.entries ++ (record { key = e.key; value = e.value } ∷ []);
      current_size = (b.current_size + (length e.key + length e.value + 8) % 2 ^ 32) % 2 ^ 32;
      last_key = e.key;
    } in
    let (b', q, r) = add_all-Climbing e.key es b1 refl c in
    (b', rw ok q, r ∙ append_assoc b.entries (e ∷ []) es)

unique_from-Climbing : (e : Entry) (es : List Entry) → Climbing e.key es → unique_from e es ≡ e ∷ es
unfolding unique_from
unique_from-Climbing e [] c = refl
unique_from-Climbing e (f ∷ es) (p, c) = elim (Bool-cases (equal f.key e.key)) [
  | inl t ↦
      absurd
        (false≢true (sym (less_irrefl e.key) ∙ ap (less e.key) (sym (equal-eq f.key e.key t)) ∙ p))
  | inr t ↦ rw t (ap (◌∷◌ e) (unique_from-Climbing f es c))
]

-- Entries in the order of their keys are all taken, and none is dropped as a duplicate.
pub add_all-entries :
    (e : Entry) (es : List Entry)
    → Climbing e.key es
    → (b : Builder) × (add_all (e ∷ es) (some new_builder) ≡ some b) × (unique b.entries ≡ e ∷ es)
unfolding add
add_all-entries e es c =
    let first : Builder = record new_builder {
      entries = e ∷ [];
      restart_points = 0 ∷ [];
      restart_idx = 1;
      current_size = (0 + (length e.key + length e.value + 8) % 2 ^ 32) % 2 ^ 32;
      last_key = e.key;
    } in
    let (b, q, r) = add_all-Climbing e.key es first refl c in
    (b, q, ap unique r ∙ unique_from-Climbing e es c)

-- With lengths that fit nothing is refused.
pub write_entries-fits :
    (offset : ℕ) (prev : Bytes) (es : List Entry) (w : Written)
    → All EntryFits es
    → (out : Written) × (write_entries offset prev es w ≡ some out)
unfolding write_entries
write_entries-fits offset prev [] w h = (w, refl)
write_entries-fits offset prev (e ∷ es) w (p, h) =
    let n = length e.key - common_prefix prev e.key in
    let whole : (n % 2 ^ 16 == n) ≡ true = (==_iff (n % 2 ^ 16) n).1 (omega (arith, p.key_fits)) in
    elim (Bool-cases (leb restart_interval offset)) [
      | inl t ↦ let (out, q) = write_entries-fits 1 e.key es (at_restart e w) h in (out, rw t q)
      | inr t ↦
          let (out, q) = write_entries-fits (offset + 1) e.key es (at_delta prev e w) h in
          (out, rw (t, whole) q)
    ]

pub write_entries-below :
    (offset : ℕ) (prev : Bytes) (es : List Entry) (w out : Written)
    → write_entries offset prev es w ≡ some out
    → All (λ p. p < length w.buffer) w.points
    → All (λ p. p < length out.buffer) out.points
unfolding write_entries
write_entries-below offset prev [] w out h b =
    subst (λ o. All (λ p. p < length o.buffer) o.points) (some_inj h) b
write_entries-below offset prev (e ∷ es) w out h b = elim (write_cases offset prev e es w out h) [
  | inl q ↦ write_entries-below 1 e.key es (at_restart e w) out q (below_restart e w b)
  | inr q ↦
      write_entries-below (offset + 1) e.key es (at_delta prev e w) out q (below_delta prev e w b)
]

-- Room for entries: their parts, three lengths and a restart point for each.
abbrev pub room : List Entry → ℕ
room [] = 0
room (e ∷ es) = length e.key + length e.value + 12 + room es

pub write_entries-room :
    (offset : ℕ) (prev : Bytes) (es : List Entry) (w out : Written)
    → write_entries offset prev es w ≡ some out
    → length out.buffer + 4 * length out.points ≤ length w.buffer + 4 * length w.points + room es
unfolding write_entries
write_entries-room offset prev [] w out h =
    omega (arith, ap (λ o. length o.buffer) (some_inj h), ap (λ o. length o.points) (some_inj h))
write_entries-room offset prev (e ∷ es) w out h = elim (write_cases offset prev e es w out h) [
  | inl q ↦ omega (
    arith,
    write_entries-room 1 e.key es (at_restart e w) out q,
    length-append w.buffer (full_entry e),
    length-full_entry e,
    length-append w.points (length w.buffer % 2 ^ 32 ∷ []),
  )
  | inr q ↦ omega (
    arith,
    write_entries-room (offset + 1) e.key es (at_delta prev e w) out q,
    length-append w.buffer (delta_entry prev e),
    length-delta_entry prev e,
  )
]
