-- ===== src/Wal/Parse.antt =====
-- `parseEntryData` of pkg/wal/reader.go. Its part on the value reads as that of `DecodeBatch` does.
use kevo.Base.{◌+◌, ◌||◌}
use kevo.Base.{length, slice, leb, ◌==◌}
use kevo.Base.Bytes.{Bytes, get_le}
use kevo.Wal.Types.{
  Entry, Result, ok, require, index, ◌>>=◌, ◌>>◌, corrupt_record, invalid_op_type, op_type_put,
  op_type_delete, op_type_merge, op_type_batch,
}
use kevo.Wal.Batch.{decode_value}

unfoldable pub parse_entry : Bytes → Result Entry
parse_entry bytes = do
  require (leb 13 (length bytes)) corrupt_record
  op ← index bytes 0
  require (op == op_type_put || op == op_type_delete || op == op_type_merge || op == op_type_batch)
      invalid_op_type
  let key_len = get_le (slice bytes 9 (9 + 4))
  require (leb (9 + 4 + key_len) (length bytes)) corrupt_record
  (value, _end) ← decode_value op bytes (9 + 4 + key_len)
  ok (record {
    sequence_number = get_le (slice bytes 1 (1 + 8));
    op = op;
    key = slice bytes (9 + 4) (9 + 4 + key_len);
    value = value;
  })
