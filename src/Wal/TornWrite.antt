-- ===== src/Wal/TornWrite.antt =====
-- A log of single operations whose last record was cut off by a crash: ReplayWALFile of
-- pkg/wal/reader.go.
use mathlib.Core.Path.{fun_ext}
use kevo.Base.{
  ℕ, suc, ◌-◌, ◌^◌, ◌≤◌, ◌<◌, List, [], ◌++◌, ◌≡◌, ◌≢◌, refl, ap, ◌∙◌, arith, map, true, ◌&&◌,
  Bool-cases, inl, inr,
}
use kevo.Base.{length, take, leb, ltb, length-take, take-append_past, ltb→lt, ltb→le}
use kevo.Base.Bytes.{Bytes, get-put_16}
use kevo.Wal.Types.{Entry, err, unexpected_eof, record_type_full, record_type_last, header_size}
use kevo.Wal.Exec.{Exec}
use kevo.Wal.Write.{header}
use kevo.Wal.Frames.{frame, length-frame}
use kevo.Wal.Parsing.{read_back}
use kevo.Wal.Reader.{read_full, read_record, read_entry}
use kevo.Wal.Replay.{no_stats, replay_loop, replay_file}
use kevo.Wal.Delivery.{frames_of, AllLoggable, types_after, Last, deliver}
use kevo.Wal.Reading.{reader, read_full_lem}
use kevo.Wal.Durability.{replay_file-tail}

read_full-short :
    (front : Bytes) (c n : ℕ)
    → 0 < length front
    → length front < n
    → read_full n (reader front [] c) ≡ (err unexpected_eof, reader [] [] c)
unfolding read_full
read_full-short front c n pos short = ground arith

read_record-torn_header :
    (front : Bytes) (c : ℕ)
    → 0 < length front
    → length front < 7
    → read_record (reader front [] c) ≡ (err unexpected_eof, reader [] [] c)
unfolding read_record
read_record-torn_header front c pos short = rw (read_full-short front c 7 pos short)

read_record-torn_payload :
    (t : ℕ) (payload front : Bytes) (c : ℕ)
    → (leb record_type_full t && leb t record_type_last) ≡ true
    → length payload < 2 ^ 16
    → 0 < length front
    → length front < length payload
    → read_record (reader (header t payload ++ front) [] c) ≡ (err unexpected_eof, reader [] [] c)
unfolding read_record header
read_record-torn_payload t payload front c known fits pos short = rw (
  read_full_lem (header t payload) front [] c 7 refl,
  known,
  get-put_16 (length payload) fits,
  read_full-short front c (length payload) pos short,
)

take-frame :
    (t : ℕ) (payload : Bytes) (n : ℕ)
    → header_size ≤ n
    → take n (frame t payload) ≡ header t payload ++ take (n - 7) payload
unfolding header
take-frame t payload n h = take-append_past (header t payload) payload n h

-- A proper part of a record, other than its header alone, is a short read.
read_record-torn :
    (t : ℕ) (payload : Bytes) (n c : ℕ)
    → (leb record_type_full t && leb t record_type_last) ≡ true
    → length payload < 2 ^ 16
    → 0 < n
    → n < length (frame t payload)
    → n ≢ header_size
    → read_record (reader (take n (frame t payload)) [] c) ≡ (err unexpected_eof, reader [] [] c)
read_record-torn t payload n c known fits pos short off = elim (Bool-cases (ltb n header_size)) [
  | inl inside ↦
      read_record-torn_header (take n (frame t payload)) c
        (omega (arith, length-take n (frame t payload)))
        (omega (arith, length-take n (frame t payload), ltb→lt _ _ inside))
  | inr past ↦
      let front = take (n - 7) payload in
      ap (λ (z : Bytes). read_record (reader z [] c)) (take-frame t payload n (ltb→le _ _ past))
      ∙ read_record-torn_payload t payload front c known fits
          (omega (arith, length-take (n - 7) payload, length-frame t payload, ltb→le _ _ past, off))
          (omega (arith, length-take (n - 7) payload, length-frame t payload, ltb→le _ _ past))
]

module _ {S : Type 0} (handler : Entry → Exec S (Unit {0})) where
  -- The replay fails where the cut record begins.
  abbrev pub torn_end : Last handler
  torn_end stats s = (err unexpected_eof, stats, s)

  replay_loop-torn :
      (bytes : Bytes) (k c : ℕ)
      → read_record (reader bytes [] c) ≡ (err unexpected_eof, reader [] [] c)
      → replay_loop handler (suc k) (reader bytes [] c) ≡ torn_end
  unfolding replay_loop read_entry
  replay_loop-torn bytes k c h = fun_ext λ stats. fun_ext λ s. rw h

  -- A file that holds whole entries, each a single operation within the limits of Append and in the
  -- records that it writes, and then a proper part of one more record of a known type, but not just its
  -- header of 7 bytes: the replay hands the entries to the handler and then fails with the error
  -- `unexpected EOF`, which is no corruption error. Nothing is said of a file with a batch of
  -- AppendBatch, or with whole fragments of the entry that was cut off.
  pub replay-torn :
      (es : List Entry) (t : ℕ) (payload : Bytes) (n : ℕ) (s : S)
      → AllLoggable es
      → (leb record_type_full t && leb t record_type_last) ≡ true
      → length payload < 2 ^ 16
      → 0 < n
      → n < length (frame t payload)
      → n ≢ header_size
      → replay_file handler (frames_of es ++ take n (frame t payload)) s
        ≡ deliver handler (map read_back es) torn_end no_stats s
  replay-torn es t payload n s v known fits pos short off =
      let bytes = take n (frame t payload) in
      let (k, p) = replay_file-tail handler es bytes s v in
      p
      ∙ ap (λ (l : Last handler). deliver handler (map read_back es) l no_stats s)
          (replay_loop-torn bytes k (types_after es 0)
            (read_record-torn t payload n (types_after es 0) known fits pos short off))
