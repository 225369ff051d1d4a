-- ===== src/Transaction/Buffer.antt =====
-- The operations of pkg/transaction/buffer.go that use its map; the map is an association list with
-- one entry for a key.
use kevo.Base.{ℕ, ◌+◌, List, [], ◌∷◌, Option, none, some, Bool, true, false, length}
use kevo.Base.{if◌then◌else◌}
use kevo.Base.Bytes.{Bytes}
use kevo.Base.Strings.{same}

-- A value may be nil.
pub record Operation : Type 0 where
  pub key : Bytes
  pub value : Option Bytes
  pub is_delete : Bool

pub record Buffer : Type 0 where
  pub operations : List (Bytes × Operation)

abbrev pub new_buffer : Buffer
new_buffer = record { operations = [] }

-- `operations[key]`
abbrev pub operation_of : Bytes → List (Bytes × Operation) → Option Operation
operation_of key [] = none
operation_of key ((k, op) ∷ ops) = if same k key then some op else operation_of key ops

-- `operations[key] = op`
abbrev pub assign : Bytes → Operation → List (Bytes × Operation) → List (Bytes × Operation)
assign key op [] = (key, op) ∷ []
assign key op ((k, o) ∷ ops) =
    let rest = assign key op ops in if same k key then (key, op) ∷ ops else (k, o) ∷ rest

-- The copy of a slice, which is not nil, and the length of a slice.
abbrev pub copy_of : Option Bytes → Bytes
copy_of none = []
copy_of (some value) = value

-- `Put`
unfoldable pub put : Bytes → Option Bytes → Buffer → Buffer
put key value b = record b {
  operations =
      assign key (record { key = key; value = some (copy_of value); is_delete = false })
        b.operations;
}

-- `Delete`
unfoldable pub delete : Bytes → Buffer → Buffer
delete key b = record b {
  operations = assign key (record { key = key; value = none; is_delete = true }) b.operations;
}

abbrev pub answer_of : Option Operation → Option Bytes × Bool
answer_of none = (none, false)
answer_of (some op) = if op.is_delete then (none, true) else (some (copy_of op.value), true)

-- `Get`
unfoldable pub get : Bytes → Buffer → Option Bytes × Bool
get key b = answer_of (operation_of key b.operations)

-- `Clear`
unfoldable pub clear_buffer : Buffer → Buffer
clear_buffer b = new_buffer

abbrev pub sizes : List (Bytes × Operation) → ℕ
sizes [] = 0
sizes ((k, op) ∷ ops) = length k + length op.key + length (copy_of op.value) + 1 + sizes ops

-- `SizeInBytes`
unfoldable pub size_in_bytes : Buffer → ℕ
size_in_bytes b = sizes b.operations

-- `NumberOfQueuedOperations`
unfoldable pub number_of_queued_operations : Buffer → ℕ
number_of_queued_operations b = length b.operations
