-- ===== src/Wal/Parsing.antt =====
-- What the reader makes of the payload of an entry.
use kevo.Base.{◌+◌, ◌^◌, ◌<◌, [], ◌∷◌, ◌++◌, ◌≡◌, refl, arith, true, append-nil, ◌||◌}
use kevo.Base.{length, ◌==◌, le→leb}
use kevo.Base.Bytes.{Bytes, put_le, get-put_64}
use kevo.Base.Cursor.{At, At-start, At-advance, At-next, Sized, Sized-At, sized}
use kevo.Wal.Types.{Entry, ok, bytes_of, op_type_put, op_type_delete, op_type_merge, op_type_batch}
use kevo.Wal.Batch.{encode_value}
use kevo.Wal.Codec.{kept_value, decode-encode_value}
use kevo.Wal.Write.{encode_payload}
use kevo.Wal.Parse.{parse_entry}

-- An entry that the log can write and read back.
pub record IsLoggable (e : Entry) : Type 0 where
  pub op_known :
      (e.op == op_type_put
        || e.op == op_type_delete
        || e.op == op_type_merge
        || e.op == op_type_batch)
      ≡ true
  pub seq_fits : e.sequence_number < 2 ^ 64
  pub key_fits : length e.key < 2 ^ 32
  pub value_fits : length (bytes_of e.value) < 2 ^ 32

-- What is read back of an entry: a nil value of a put comes back empty.
abbrev pub read_back : Entry → Entry
read_back e = record e { value = kept_value e.op e.value }

pub parse-encode_payload :
    (e : Entry)
    → IsLoggable e
    → parse_entry (encode_payload e.op e.sequence_number e.key e.value) ≡ ok (read_back e)
unfolding parse_entry encode_payload
parse-encode_payload e v =
    let tail = encode_value e.op e.value in
    let rest = sized e.key ++ tail in
    let bytes : Bytes = encode_payload e.op e.sequence_number e.key e.value in
    let start : At bytes 0 (e.op ∷ (put_le 8 e.sequence_number ++ rest)) = At-start bytes in
    let numbered : At bytes 1 (put_le 8 e.sequence_number ++ rest) = At-next start in
    let z : Sized bytes 9 e.key tail =
      Sized-At e.key tail v.key_fits
        (At-advance (put_le 8 e.sequence_number) rest 8 numbered refl) in
    let ended : At bytes (9 + 4 + length e.key) (tail ++ []) = rw append-nil z.rest in
    rw (
      le→leb 13 (length bytes) (omega arith),
      v.op_known,
      z.length_read,
      z.field_room,
      z.field_read,
      decode-encode_value [] e.op e.value v.value_fits ended,
      get-put_64 e.sequence_number v.seq_fits,
    )
