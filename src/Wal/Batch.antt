-- ===== src/Wal/Batch.antt =====
-- pkg/wal/batch.go: batches of operations and their encoding. (`Batch.Write` is in Wal/Log.)
use kevo.Base.{ℕ, zero, suc, ◌+◌, List, [], ◌∷◌, ◌++◌, Option, none, some, ◌||◌}
use kevo.Base.{length, slice, leb, ◌==◌, if◌then◌else◌}
use kevo.Base.Bytes.{Bytes, put_le, get_le}
use kevo.Wal.Types.{
  Entry, Result, ok, index, require, ◌>>=◌, ◌>>◌, bytes_of, op_type_put, op_type_delete,
  op_type_merge, op_type_batch, corrupt_record, invalid_op_type, not_a_batch,
}

pub record BatchOperation : Type 0 where
  pub op : ℕ
  pub key : Bytes
  pub value : Option Bytes

pub record Batch : Type 0 where
  pub operations : List BatchOperation
  pub seq : ℕ

abbrev pub batch_header_size : ℕ
batch_header_size = 12

unfoldable pub new_batch : Batch
new_batch = record { operations = []; seq = 0 }

unfoldable pub put : Bytes → Option Bytes → Batch → Batch
put key value b = record b {
  operations = b.operations ++ (record { op = op_type_put; key = key; value = value } ∷ []);
}

unfoldable pub delete : Bytes → Batch → Batch
delete key b = record b {
  operations = b.operations ++ (record { op = op_type_delete; key = key; value = none } ∷ []);
}

unfoldable pub count : Batch → ℕ
count b = length b.operations

unfoldable pub reset : Batch → Batch
reset b = record { operations = []; seq = 0 }

-- The bytes that one operation takes.
unfoldable pub operation_size : BatchOperation → ℕ
operation_size o =
    if o.op == op_type_delete
    then 1 + 4 + length o.key
    else 1 + 4 + length o.key + (4 + length (bytes_of o.value))

unfoldable pub operations_size : List BatchOperation → ℕ
operations_size [] = 0
operations_size (o ∷ os) = operation_size o + operations_size os

unfoldable pub size : Batch → ℕ
size b = batch_header_size + operations_size b.operations

-- The value part of an operation or of an entry; `put_le 4` keeps the low 32 bits of the length.
unfoldable pub encode_value : ℕ → Option Bytes → Bytes
encode_value op value =
    if op == op_type_delete then [] else put_le 4 (length (bytes_of value)) ++ bytes_of value

unfoldable pub encode_operation : BatchOperation → Bytes
encode_operation o = o.op ∷ (put_le 4 (length o.key) ++ (o.key ++ encode_value o.op o.value))

unfoldable pub encode_operations : List BatchOperation → Bytes
encode_operations [] = []
encode_operations (o ∷ os) = encode_operation o ++ encode_operations os

-- The payload of a batch: the count, the base sequence number and the operations.
unfoldable pub serialize : Batch → Bytes
serialize b = put_le 4 (length b.operations) ++ (put_le 8 b.seq ++ encode_operations b.operations)

-- The value behind `offset`, and the offset behind that.
unfoldable pub decode_value : ℕ → Bytes → ℕ → Result (Option Bytes × ℕ)
decode_value op bytes offset = if op == op_type_delete then ok (none, offset) else do
  require (leb (offset + 4) (length bytes)) corrupt_record
  let value_len = get_le (slice bytes offset (offset + 4))
  require (leb (offset + 4 + value_len) (length bytes)) corrupt_record
  ok (some (slice bytes (offset + 4) (offset + 4 + value_len)), offset + 4 + value_len)

-- One round of the loop of `DecodeBatch`.
unfoldable pub decode_operation : Bytes → ℕ → Result (BatchOperation × ℕ)
decode_operation bytes offset = do
  require (leb (offset + 1) (length bytes)) corrupt_record
  op ← index bytes offset
  require (op == op_type_put || op == op_type_delete || op == op_type_merge) invalid_op_type
  require (leb (offset + 1 + 4) (length bytes)) corrupt_record
  let key_len = get_le (slice bytes (offset + 1) (offset + 1 + 4))
  require (leb (offset + 1 + 4 + key_len) (length bytes)) corrupt_record
  let key = slice bytes (offset + 1 + 4) (offset + 1 + 4 + key_len)
  (value, offset') ← decode_value op bytes (offset + 1 + 4 + key_len)
  ok (record { op = op; key = key; value = value }, offset')

unfoldable pub decode_operations : ℕ → Bytes → ℕ → Result (List BatchOperation)
decode_operations zero bytes offset = ok []
decode_operations (suc n) bytes offset = do
  (o, offset') ← decode_operation bytes offset
  os ← decode_operations n bytes offset'
  ok (o ∷ os)

-- `DecodeBatch`: the batch is in the entry's key.
unfoldable pub decode_batch : Entry → Result Batch
decode_batch entry = do
  require (entry.op == op_type_batch) not_a_batch
  require (leb batch_header_size (length entry.key)) corrupt_record
  os ← decode_operations (get_le (slice entry.key 0 4)) entry.key batch_header_size
  ok (record { operations = os; seq = get_le (slice entry.key 4 12) })
