-- ===== src/Sstable/BlockRoundTrip.antt =====
-- What the iterator of pkg/sstable/block shows of the block that Finish makes.
use kevo.Base.{
  ℕ, zero, suc, ◌+◌, ◌%◌, ◌^◌, ◌≤◌, ◌<◌, List, [], ◌∷◌, ◌++◌, none, some, true, false, map,
}
use kevo.Base.{◌≡◌, refl, sym, ap, ◌∙◌, inl, inr, arith, append_assoc}
use kevo.Base.{length, ◌==◌, length-append}
use kevo.Base.All.{All, All-append, All-map_pred}
use kevo.Base.Bytes.{Bytes}
use kevo.Locks.Cycles.{some_inj}
use kevo.Sstable.Block.{Entry, Written, full_entry, delta_entry, write_entries}
use kevo.Sstable.BlockReader.{Reader, BlockIterator, restart_at, block_next, block_walk}
use kevo.Sstable.BlockCodec.{EntryFits, length-full_entry, length-delta_entry}
use kevo.Sstable.BlockWalk.{
  at_restart, at_delta, write_cases, Grown, write_entries-Grown, restart_at-none, restart_at-some,
  standing, next-full, next-delta, walk-end, walk-next,
}

abbrev pub pairs : List Entry → List (Bytes × Bytes)
pairs es = map (λ e. (e.key, e.value)) es

-- A reader of what was written, with what follows it.
abbrev pub reader_of : Written → Bytes → ℕ → Reader
reader_of out trailer c = record {
  data_bytes = out.buffer ++ trailer;
  restart_points = out.points;
  checksum = c;
}

below_ne : (p pos : ℕ) → p < pos → (p == pos) ≡ false
below_ne p pos h = ground arith

above_ne : (p pos : ℕ) → pos < p → (p == pos) ≡ false
above_ne p pos h = ground arith

pub below_restart :
    (e : Entry) (w : Written)
    → All (λ p. p < length w.buffer) w.points
    → All (λ p. p < length (at_restart e w).buffer) (at_restart e w).points
below_restart e w h =
    let l = length-append w.buffer (full_entry e) in
    let m = length-full_entry e in
    All-append (λ p. p < length (at_restart e w).buffer) w.points (length w.buffer % 2 ^ 32 ∷ [])
      (All-map_pred (λ p. p < length w.buffer) (λ p. p < length (at_restart e w).buffer) w.points
        (λ p q. omega (arith, q, l)) h)
      (omega (arith, l, m), tt)

pub below_delta :
    (prev : Bytes) (e : Entry) (w : Written)
    → All (λ p. p < length w.buffer) w.points
    → All (λ p. p < length (at_delta prev e w).buffer) w.points
below_delta prev e w h =
    All-map_pred (λ p. p < length w.buffer) (λ p. p < length (at_delta prev e w).buffer) w.points
      (λ p q. omega (arith, q, length-append w.buffer (delta_entry prev e))) h

module _ (out : Written) (trailer : Bytes) (c : ℕ) (small : length out.buffer < 2 ^ 32) where
  abbrev pub here : ℕ → ℕ → Bytes → Bytes → BlockIterator
  here pos i key value = standing (reader_of out trailer c) (length out.buffer) pos i key value

  layout :
      (w : Written) (enc more : Bytes)
      → out.buffer ≡ (w.buffer ++ enc) ++ more
      → out.buffer ++ trailer ≡ w.buffer ++ (enc ++ (more ++ trailer))
  layout w enc more h =
      ap (λ b. b ++ trailer) h
      ∙ append_assoc (w.buffer ++ enc) more trailer
      ∙ append_assoc w.buffer enc (more ++ trailer)

  size :
      (w : Written) (enc more : Bytes)
      → out.buffer ≡ (w.buffer ++ enc) ++ more
      → length out.buffer ≡ length w.buffer + length enc + length more
  size w enc more h =
      omega (arith, ap length h, length-append (w.buffer ++ enc) more, length-append w.buffer enc)

  pub restart_step :
      (e : Entry) (w : Written) (i : ℕ) (key value : Bytes)
      → EntryFits e
      → Grown (at_restart e w) out
      → (j : ℕ) × (block_next (here (length w.buffer) i key value)
          ≡ some (true, here (length (at_restart e w).buffer) j e.key e.value))
  restart_step e w i key value fits g =
      let pos = length w.buffer in
      let l = size w (full_entry e) g.more g.buffer_grown in
      let m = length-full_entry e in
      let (j, found) = restart_at-some 0 pos w.points g.later in
      let points : out.points ≡ w.points ++ (pos ∷ g.later) =
        g.points_grown
        ∙ append_assoc w.points (pos % 2 ^ 32 ∷ []) g.later
        ∙ ap (λ x. w.points ++ (x ∷ g.later)) (omega (arith, small, l)) in
      (
        j,
        next-full (reader_of out trailer c) (length out.buffer) pos i key value e w.buffer
              (g.more ++ trailer) j fits (layout w (full_entry e) g.more g.buffer_grown) refl
              (omega (arith, l, m)) (omega (arith, small, l)) (ap (restart_at 0 pos) points ∙ found)
            ∙ ap (λ x. some (true, here x j e.key e.value))
                (sym (length-append w.buffer (full_entry e))),
      )

  delta_step :
      (e : Entry) (w : Written) (i : ℕ) (key value : Bytes)
      → EntryFits e
      → length key < 2 ^ 16
      → All (λ p. p < length w.buffer) w.points
      → Grown (at_delta key e w) out
      → block_next (here (length w.buffer) i key value)
        ≡ some (true, here (length (at_delta key e w).buffer) i e.key e.value)
  delta_step e w i key value fits k below g =
      let pos = length w.buffer in
      let l = size w (delta_entry key e) g.more g.buffer_grown in
      let m = length-delta_entry key e in
      let past : All (λ p. (p == pos) ≡ false) g.later =
        All-map_pred (λ p. length (at_delta key e w).buffer ≤ p) (λ p. (p == pos) ≡ false) g.later
          (λ p h. above_ne p pos (omega (arith, h, m, length-append w.buffer (delta_entry key e))))
          g.late in
      let front : All (λ p. (p == pos) ≡ false) w.points =
        All-map_pred (λ p. p < pos) (λ p. (p == pos) ≡ false) w.points (λ p h. below_ne p pos h)
          below in
      let nowhere : restart_at 0 pos out.points ≡ none =
        ap (restart_at 0 pos) g.points_grown
        ∙ restart_at-none 0 pos (w.points ++ g.later)
            (All-append (λ p. (p == pos) ≡ false) w.points g.later front past) in
      next-delta (reader_of out trailer c) (length out.buffer) pos i key value e w.buffer
        (g.more ++ trailer) fits k (layout w (delta_entry key e) g.more g.buffer_grown) refl
        (omega (arith, l, m)) (omega (arith, small, l)) nowhere
      ∙ ap (λ x. some (true, here x i e.key e.value))
          (sym (length-append w.buffer (delta_entry key e)))

  pub walk_written :
      (offset : ℕ) (e : Entry) (i : ℕ) (es : List Entry) (w : Written) (fuel : ℕ)
      → write_entries offset e.key es w ≡ some out
      → EntryFits e
      → All EntryFits es
      → All (λ p. p < length w.buffer) w.points
      → suc (length es) < fuel
      → block_walk fuel (some (here (length w.buffer) i e.key e.value))
        ≡ some ((e.key, e.value) ∷ pairs es)
  unfolding write_entries
  walk_written offset e i es w zero h fits fit below f = absurd (omega (arith, f))
  walk_written offset e i es w (suc zero) h fits fit below f = absurd (omega (arith, f))
  walk_written offset e i [] w (suc (suc fuel)) h fits fit below f =
      walk-end (reader_of out trailer c) (length out.buffer) (length w.buffer) i e.key e.value fuel
        (ap (λ x. length x.buffer) (some_inj h)) fits.has_key
  walk_written offset e i (e' ∷ es) w (suc (suc fuel)) h fits (fits', fit) below f =
      elim (write_cases offset e.key e' es w out h) [
        | inl q ↦
            let (j, step) =
              restart_step e' w i e.key e.value fits'
                (write_entries-Grown 1 e'.key es (at_restart e' w) out q small) in
            walk-next (reader_of out trailer c) (length out.buffer) (length w.buffer) i e.key
              e.value (suc fuel) true _ _ fits.has_key step
              (walk_written 1 e' j es (at_restart e' w) (suc fuel) q fits' fit
                (below_restart e' w below) (omega (arith, f)))
        | inr q ↦
            walk-next (reader_of out trailer c) (length out.buffer) (length w.buffer) i e.key
              e.value (suc fuel) true _ _ fits.has_key
              (delta_step e' w i e.key e.value fits' fits.key_fits below
                (write_entries-Grown (offset + 1) e'.key es (at_delta e.key e' w) out q small))
              (walk_written (offset + 1) e' i es (at_delta e.key e' w) (suc fuel) q fits' fit
                (below_delta e.key e' w below) (omega (arith, f)))
      ]
