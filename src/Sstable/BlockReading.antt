-- ===== src/Sstable/BlockReading.antt =====
-- What a client of pkg/sstable/block reads of the entries that it added.
use kevo.Base.{ℕ, zero, suc, ◌+◌, ◌-◌, ◌*◌, ◌%◌, ◌^◌, ◌<◌, List, [], ◌∷◌, ◌++◌, none, some, true}
use kevo.Base.{◌≡◌, refl, ap, ◌∙◌, arith, lt→leb, append_assoc}
use kevo.Base.{length, length-append}
use kevo.Base.All.{All, All-map_pred}
use kevo.Base.Bytes.{Bytes, put_le}
use kevo.Sstable.Block.{
  Entry, Builder, Written, new_builder, write_entries, write_all_entries, full_entry, value_part,
  points_part, closed, finished, finish,
}
use kevo.Sstable.BlockReader.{
  Reader, BlockIterator, full_key, current_pair, current_value, decode_current, stand_at,
  has_points, opened, new_reader, block_iterator, block_seek_to_first, block_walk,
}
use kevo.Sstable.BlockCodec.{EntryFits, full_key_lem, value_of-value_part, length-full_entry}
use kevo.Sstable.BlockWalk.{write_entries-Grown, standing, walk-next}
use kevo.Sstable.BlockRoundTrip.{pairs, reader_of, restart_step, walk_written}
use kevo.Sstable.BlockFinish.{
  Climbing, add_all, add_all-entries, write_entries-fits, write_entries-below, room,
  write_entries-room,
}
use kevo.Sstable.BlockOpen.{length-closed, new_reader-closed, block_body}

-- What Finish has written of the first entry.
abbrev start : Entry → Written
start e = record { buffer = full_entry e; points = 0 ∷ [] }

module _ (hash : Bytes → ℕ) (out : Written) where
  abbrev trailer : Bytes
  trailer =
      points_part out.points
      ++ put_le 4 (length out.points)
      ++ put_le 8 (hash (block_body hash out))

  abbrev reader : Reader
  reader = reader_of out trailer (hash (block_body hash out))

  closed_lem : closed hash out ≡ out.buffer ++ trailer
  unfolding closed
  closed_lem =
      append_assoc out.buffer (points_part out.points ++ put_le 4 (length out.points))
        (put_le 8 (hash (block_body hash out)))

  -- SeekToFirst shows the first entry and stays in front of it.
  seek_lem :
      (e : Entry) (more : Bytes)
      → EntryFits e
      → out.buffer ≡ full_entry e ++ more
      → (p : ℕ) (ps : List ℕ) → out.points ≡ p ∷ ps
      → length (closed hash out) < 2 ^ 32
      → block_seek_to_first (block_iterator reader)
        ≡ standing reader (length out.buffer) 0 0 e.key e.value
  unfolding block_seek_to_first decode_current block_iterator full_entry
  seek_lem e more fits h p ps q small =
      let it : BlockIterator = record {
        reader = reader;
        current_pos = 0;
        current_key = none;
        current_val = none;
        restart_idx = 0;
        initialized = true;
        data_end = length out.buffer;
      } in
      let rest = value_part e.value ++ (more ++ trailer) in
      let there : out.buffer ++ trailer ≡ put_le 2 (length e.key) ++ (e.key ++ rest) =
        ap (λ b. b ++ trailer) h
        ∙ append_assoc (full_entry e) more trailer
        ∙ ap (λ b. put_le 2 (length e.key) ++ b)
            (append_assoc e.key (value_part e.value) (more ++ trailer)) in
      let end : (length (out.buffer ++ trailer) - (12 + 4 * length out.points)) % 2 ^ 32
          ≡ length out.buffer =
        omega (arith, small, length-closed hash out, ap length closed_lem) in
      let some_end : 0 < length out.buffer =
        omega (arith, ap length h, length-append (full_entry e) more, length-full_entry e) in
      let decoded : current_pair (full_key (out.buffer ++ trailer)) it ≡ (
        some (e.key, e.value),
        record it { current_key = some e.key; current_val = some e.value },
      ) =
        ap (λ b. current_pair (full_key b) it) there
        ∙ ap (λ x. current_pair x it) (full_key_lem e.key rest fits.key_fits)
        ∙ ap (λ x. current_value e.key x it)
            (value_of-value_part e.value (more ++ trailer) fits.value_fits) in
      let at_start : block_seek_to_first (block_iterator reader)
          ≡ stand_at (current_pair (full_key (out.buffer ++ trailer)) it) =
        rw (ap has_points q, end, lt→leb 0 (length out.buffer) some_end) refl in
      at_start ∙ ap stand_at decoded

module _ (hash : Bytes → ℕ) (narrow : (bytes : Bytes) → hash bytes < 2 ^ 64) where
  -- The walk, where the first entry is shown before it is decoded by Next.
  walk_out :
      (e : Entry) (es : List Entry) (out : Written) (fuel : ℕ)
      → EntryFits e
      → All EntryFits es
      → write_entries 1 e.key es (start e) ≡ some out
      → length (closed hash out) < 2 ^ 32
      → 2 + length es < fuel
      → block_walk fuel (some (block_seek_to_first (block_iterator (reader hash out))))
        ≡ some ((e.key, e.value) ∷ pairs (e ∷ es))
  walk_out e es out zero fits fit w small f = absurd (omega (arith, f))
  walk_out e es out (suc fuel) fits fit w small f =
      let c = hash (block_body hash out) in
      let few : length out.buffer < 2 ^ 32 = omega (arith, small, length-closed hash out) in
      let g = write_entries-Grown 1 e.key es (start e) out w few in
      let (j, step) =
        restart_step out (trailer hash out) c few e (record { buffer = []; points = [] }) 0 e.key
          e.value fits g in
      let rest =
        walk_written out (trailer hash out) c few 1 e j es (start e) fuel w fits fit
          (omega (arith, length-full_entry e), tt) (omega (arith, f)) in
      ap (λ it. block_walk (suc fuel) (some it))
        (seek_lem hash out e g.more fits g.buffer_grown 0 g.later g.points_grown small)
      ∙ walk-next (reader hash out) (length out.buffer) 0 0 e.key e.value fuel true _ _ fits.has_key
          step rest

  -- Entries whose keys ascend and are not empty, whose lengths fit their fields and that fit a block
  -- of 2 ^ 32 bytes: Add takes them all, Finish succeeds, NewReader opens what it wrote, and a walk
  -- from SeekToFirst with Next shows them all in order and ends; but it shows the first one twice.
  pub block_walk-finish :
      (e : Entry) (es : List Entry) (fuel : ℕ)
      → EntryFits e
      → All EntryFits es
      → Climbing e.key es
      → room (e ∷ es) + 12 < 2 ^ 32
      → 2 + length es < fuel
      → (b : Builder) × (bytes : Bytes) × (r : Reader) × (add_all (e ∷ es) (some new_builder)
          ≡ some b)
        × (finish hash b ≡ some bytes)
        × (new_reader hash bytes ≡ opened r)
        × (block_walk fuel (some (block_seek_to_first (block_iterator r)))
            ≡ some ((e.key, e.value) ∷ pairs (e ∷ es)))
  unfolding finish
  block_walk-finish e es fuel fits fit c space f =
      let (b, added, kept) = add_all-entries e es c in
      let (out, w) = write_entries-fits 1 e.key es (start e) fit in
      let used = write_entries-room 1 e.key es (start e) out w in
      let m = length-full_entry e in
      let l = length-closed hash out in
      let below = write_entries-below 1 e.key es (start e) out w (omega (arith, m), tt) in
      let narrow_points : All (λ p. p < 2 ^ 32) out.points =
        All-map_pred (λ p. p < length out.buffer) (λ p. p < 2 ^ 32) out.points
          (λ p h. omega (arith, h, used, m, space)) below in
      (
        b,
        closed hash out,
        reader hash out,
        added,
        ap (λ es. finished hash (write_all_entries es)) kept ∙ ap (finished hash) w,
        new_reader-closed hash out narrow narrow_points (omega (arith, used, m, space))
            ∙ ap
                (λ x. opened (record {
                  data_bytes = x;
                  restart_points = out.points;
                  checksum = hash (block_body hash out);
                }))
                (closed_lem hash out),
        walk_out e es out fuel fits fit w (omega (arith, used, m, space, l)) f,
      )
