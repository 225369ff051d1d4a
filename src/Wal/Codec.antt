-- ===== src/Wal/Codec.antt =====
-- What `DecodeBatch` reads back from the encoding of a batch.
use kevo.Base.{
  ℕ, ◌+◌, ◌^◌, ◌<◌, List, [], ◌∷◌, ◌++◌, Option, none, some, ◌≡◌, refl, ap, sym, inl, inr,
  append_assoc, append-nil, arith, true, Bool-cases, ◌||◌,
}
use kevo.Base.{length, ◌==◌, if◌then◌else◌, map, length-append, leb, le→leb}
use kevo.Base.Bytes.{Bytes, get-put_32, get-put_64}
use kevo.Base.Cursor.{At, At-next, At-advance, get_elem?-At, leb-At, sized, Sized, Sized-At}
use kevo.Wal.Types.{ok, index, bytes_of, op_type_put, op_type_delete, op_type_merge, op_type_batch}
use kevo.Wal.Batch.{
  Batch, BatchOperation, operation_size, encode_value, encode_operation, encode_operations,
  serialize, decode_value, decode_operation, decode_operations, decode_batch,
}

pub index-At :
    {bytes : Bytes} {offset : ℕ} {x : ℕ} {tail : Bytes}
    → At bytes offset (x ∷ tail)
    → index bytes offset ≡ ok x
index-At {bytes} {offset} a = rw (get_elem?-At a, index)

-- What is left of a value in its encoding: none behind a delete, and the bytes of a nil slice.
abbrev pub kept_value : ℕ → Option Bytes → Option Bytes
kept_value op value = if op == op_type_delete then none else some (bytes_of value)

abbrev pub value_size : ℕ → Option Bytes → ℕ
value_size op value = if op == op_type_delete then 0 else 4 + length (bytes_of value)

pub length-encode_value :
    (op : ℕ) (value : Option Bytes) → length (encode_value op value) ≡ value_size op value
unfolding encode_value
length-encode_value op value = ground arith

pub decode-encode_value :
    {bytes : Bytes} (tail : Bytes) {offset : ℕ} (op : ℕ) (value : Option Bytes)
    → length (bytes_of value) < 2 ^ 32
    → At bytes offset (encode_value op value ++ tail)
    → decode_value op bytes offset ≡ ok (kept_value op value, offset + value_size op value)
unfolding decode_value encode_value
decode-encode_value {bytes} tail {offset} op value h a = elim (Bool-cases (op == op_type_delete)) [
  | inl e ↦ rw e (ground arith)
  | inr e ↦
      let z : Sized bytes offset (bytes_of value) tail =
        Sized-At (bytes_of value) tail h (rw e at a) in
      rw (e, z.length_room, z.length_read, z.field_room, z.field_read) (ground arith)
]

-- What an operation must meet for its encoding to be read back.
pub record IsEncodable (o : BatchOperation) : Type 0 where
  pub op_known : (o.op == op_type_put || o.op == op_type_delete || o.op == op_type_merge) ≡ true
  pub key_fits : length o.key < 2 ^ 32
  pub value_fits : length (bytes_of o.value) < 2 ^ 32

unfoldable pub kept : BatchOperation → BatchOperation
kept o = record o { value = kept_value o.op o.value }

pub decode-encode_operation :
    {bytes : Bytes} (tail : Bytes) {offset : ℕ} (o : BatchOperation)
    → IsEncodable o
    → At bytes offset (encode_operation o ++ tail)
    → decode_operation bytes offset ≡ ok (kept o, offset + operation_size o)
unfolding decode_operation encode_operation kept operation_size
decode-encode_operation {bytes} tail {offset} o v a =
    let value_part = encode_value o.op o.value in
    let start : At bytes offset (o.op ∷ (sized o.key ++ (value_part ++ tail))) =
      simp append_assoc at a in
    let z : Sized bytes (offset + 1) o.key (value_part ++ tail) =
      Sized-At o.key (value_part ++ tail) v.key_fits (At-next start) in
    rw
      (
        leb-At (o.op ∷ []) (sized o.key ++ (value_part ++ tail)) 1 start refl,
        index-At start,
        v.op_known,
        z.length_room,
        z.length_read,
        z.field_room,
        z.field_read,
        decode-encode_value tail o.op o.value v.value_fits z.rest,
      )
      (ground (arith, length-encode_value o.op o.value))

abbrev pub AllEncodable : List BatchOperation → Type 0
AllEncodable [] = Unit {0}
AllEncodable (o ∷ os) = IsEncodable o × AllEncodable os

pub length-encode_operation : (o : BatchOperation) → operation_size o ≡ length (encode_operation o)
unfolding operation_size encode_operation
length-encode_operation o =
    ground
      (arith, length-append o.key (encode_value o.op o.value), length-encode_value o.op o.value)

leb_header : (b : Batch) → leb 12 (length (serialize b)) ≡ true
unfolding serialize
leb_header b = le→leb 12 _ (omega arith)

At-header : (b : Batch) → At (serialize b) 12 (encode_operations b.operations ++ [])
unfolding serialize
At-header b = record {
  behind = sym (append-nil _);
  total = omega (arith, ap length (append-nil (encode_operations b.operations)));
}

decode-encode_operations :
    {bytes : Bytes} (tail : Bytes) {offset : ℕ} (os : List BatchOperation)
    → AllEncodable os
    → At bytes offset (encode_operations os ++ tail)
    → decode_operations (length os) bytes offset ≡ ok (map kept os)
unfolding decode_operations encode_operations
decode-encode_operations tail [] v a = refl
decode-encode_operations {bytes} tail {offset} (o ∷ os) v a =
    let rest = encode_operations os ++ tail in
    let start : At bytes offset (encode_operation o ++ rest) = rw append_assoc at a in
    rw (
      decode-encode_operation rest o v.0 start,
      decode-encode_operations tail {offset = offset + operation_size o} os v.1 (
          At-advance (encode_operation o) rest (operation_size o) start
            (length-encode_operation o)),
    )

-- The decoder reads back every batch whose parts fit their fields: the operations in order, each
-- with its type, key and value (a nil value of a put comes back empty, a deletion has none).
pub decode-serialize :
    (b : Batch) (seq : ℕ) (v : Option Bytes)
    → AllEncodable b.operations
    → length b.operations < 2 ^ 32
    → b.seq < 2 ^ 64
    → decode_batch
        (record { sequence_number = seq; op = op_type_batch; key = serialize b; value = v })
      ≡ ok (record b { operations = map kept b.operations })
unfolding decode_batch serialize
decode-serialize b seq v all hn hs = rw (
  leb_header b,
  get-put_32 (length b.operations) hn,
  decode-encode_operations [] b.operations all (At-header b),
  get-put_64 b.seq hs,
)
