-- ===== src/Wal/Reader.antt =====
-- pkg/wal/reader.go: reading entries back from the bytes of a log file.
use kevo.Base.{ℕ, zero, suc, List, [], ◌∷◌, ◌++◌, ◌&&◌}
use kevo.Base.{length, take, drop, slice, ltb, leb, ◌==◌, if◌then◌else◌}
use kevo.Base.Bytes.{Bytes, get_le, checksum_ieee}
use mathlib.Core.List.{flatten}
use kevo.Wal.Types.{
  Entry, Result, ok, err, require, index, Error, eof, unexpected_eof, eof_in_fragments,
  corrupt_record, invalid_record_type, stuck, record_type_full, record_type_first,
  record_type_middle, record_type_last, header_size,
}
use kevo.Wal.Exec.{Exec, fail, lift, ◌>>=◌, ◌>>◌}
use kevo.Wal.Parse.{parse_entry}

-- `input` is what has not been read of the file.
pub record Reader : Type 0 where
  pub input : Bytes
  pub fragments : List Bytes
  pub curr_type : ℕ

abbrev pub open_reader : Bytes → Reader
open_reader bytes = record { input = bytes; fragments = []; curr_type = 0 }

-- `io.ReadFull` into a slice of `n` bytes.
unfoldable pub read_full : ℕ → Exec Reader Bytes
read_full n r =
    if leb n (length r.input)
    then (ok (take n r.input), record r { input = drop n r.input })
    else (err (if length r.input == 0 then eof else unexpected_eof), record r { input = [] })

-- `readRecord` behind its header: the record type and the payload.
unfoldable pub read_payload : Bytes → Exec Reader (ℕ × Bytes)
unfolding read_full
read_payload header = do
  record_type ← lift (index header 6)
  lift (
      require (leb record_type_full record_type && leb record_type record_type_last)
        invalid_record_type)
  payload ← read_full (get_le (slice header 4 6))
  lift (require (checksum_ieee payload == get_le (slice header 0 4)) corrupt_record)
  λ r. (ok (record_type, payload), r)

-- `readRecord`
unfoldable pub read_record : Exec Reader (ℕ × Bytes)
unfolding read_full read_payload
read_record = do header ← read_full header_size; read_payload header

-- `processFragments`
unfoldable pub process_fragments : Exec Reader Entry
process_fragments r = (parse_entry (flatten r.fragments), record r { fragments = [] })

abbrev pub add_fragment : Bytes → Exec Reader (Unit {0})
add_fragment payload r = (ok tt, record r { fragments = r.fragments ++ (payload ∷ []) })

-- A middle or a last fragment needs one before it.
abbrev pub need_fragments : Exec Reader (Unit {0})
need_fragments r = (require (ltb 0 (length r.fragments)) corrupt_record, r)

-- What `ReadEntry` does with a record; `next` is the rest of its loop. `record.data[0]` panics on
-- an empty first fragment.
unfoldable pub handle_record : Exec Reader Entry → ℕ × Bytes → Exec Reader Entry
unfolding process_fragments
handle_record next (record_type, payload) =
    if record_type == record_type_full
    then lift (parse_entry payload)
    else if record_type == record_type_first
    then (do
      add_fragment payload
      op ← lift (index payload 0)
      λ r. (ok tt, record r { curr_type = op })
      next)
    else if record_type == record_type_middle
    then (do need_fragments; add_fragment payload; next)
    else if record_type == record_type_last
    then (do need_fragments; add_fragment payload; process_fragments)
    else fail invalid_record_type

-- An end of file among fragments is another error.
abbrev pub end_error : Error → List Bytes → Error
end_error eof [] = eof
end_error eof (f ∷ fs) = eof_in_fragments
end_error e fs = e

abbrev pub on_record : Exec Reader Entry → Result (ℕ × Bytes) → Exec Reader Entry
on_record next (ok p) r = handle_record next p r
on_record next (err e) r = (err (end_error e r.fragments), r)

-- The loop of `ReadEntry`.
unfoldable pub read_loop : ℕ → Exec Reader Entry
read_loop zero r = fail stuck r
read_loop (suc fuel) r = let (p, r') = read_record r in on_record (read_loop fuel) p r'

-- `ReadEntry`: each round takes a header at least off the input.
unfoldable pub read_entry : Exec Reader Entry
unfolding read_loop
read_entry r = read_loop (suc (length r.input)) r
