-- ===== src/Wal/Types.antt =====
-- The constants, the entry and the errors of pkg/wal/wal.go and pkg/wal/batch.go.
use kevo.Base.{ℕ, Option, [], none, some, Bool, true, false, get_elem?}
use kevo.Base.Bytes.{Bytes}

-- Record types.
abbrev pub record_type_full : ℕ
record_type_full = 1

abbrev pub record_type_first : ℕ
record_type_first = 2

abbrev pub record_type_middle : ℕ
record_type_middle = 3

abbrev pub record_type_last : ℕ
record_type_last = 4

-- Operation types.
abbrev pub op_type_put : ℕ
op_type_put = 1

abbrev pub op_type_delete : ℕ
op_type_delete = 2

abbrev pub op_type_merge : ℕ
op_type_merge = 3

abbrev pub op_type_batch : ℕ
op_type_batch = 4

abbrev pub header_size : ℕ
header_size = 7

abbrev pub max_record_size : ℕ
max_record_size = 32768

-- A value is a slice that may be nil; the raw bytes kept for replication are not modelled.
pub record Entry : Type 0 where
  pub sequence_number : ℕ
  pub op : ℕ
  pub key : Bytes
  pub value : Option Bytes

-- The bytes of a slice that may be nil.
abbrev pub bytes_of : Option Bytes → Bytes
bytes_of none = []
bytes_of (some bytes) = bytes

pub data Status : Type 0 where
  active rotating closed : Status

pub data SyncMode : Type 0 where
  sync_none sync_batch sync_immediate : SyncMode

pub data Error : Type 0 where
  wal_closed wal_rotating invalid_op_type record_too_large io_error : Error
  raw_too_small raw_size_mismatch empty_batch batch_too_large not_a_batch : Error
  eof unexpected_eof eof_in_fragments corrupt_record invalid_record_type : Error
  too_many_corrupted handler_failed : Error
  -- A Go panic on an index out of range, and a loop of the model that ran out of fuel.
  index_panic stuck : Error

-- What a function returns: an error other than nil, or its value.
pub data Result (Value : Type 0) : Type 0 where
  err : (reason : Error) → Result Value
  ok : (value : Value) → Result Value

-- `if err != nil { return err }` after a call, then the rest of the function.
module _ {Value Next : Type 0} where
  infixl 5 ◌>>=◌
  abbrev pub ◌>>=◌ : Result Value → (Value → Result Next) → Result Next
  err reason >>= rest = err reason
  ok value >>= rest = rest value

module _ {Next : Type 0} where
  infixl 5 ◌>>◌
  abbrev pub ◌>>◌ : Result (Unit {0}) → Result Next → Result Next
  first >> rest = first >>= λ _. rest

-- `if !condition { return reason }`
abbrev pub require : (condition : Bool) (reason : Error) → Result (Unit {0})
require false reason = err reason
require true _ = ok tt

-- `data[i]`, with the panic of an index out of range.
abbrev pub index : Bytes → ℕ → Result ℕ
index bytes i = elim (get_elem? bytes i) [ none ↦ err index_panic | some b ↦ ok b ]
