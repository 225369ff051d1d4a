-- ===== src/Memtable/Table.antt =====
-- pkg/memtable/memtable.go. The lock of a table makes each method one step; the two ways of Get,
-- with the lock and without it, do the same. The coins of the skip list are an argument.
use kevo.Base.{ℕ, ◌+◌, ◌%◌, ◌^◌, List, [], ◌∷◌, Option, none, some, Bool, true, false}
use kevo.Base.{ltb, ◌==◌, if◌then◌else◌}
use kevo.Base.Bytes.{Bytes}
use kevo.Wal.Types
use kevo.Wal.Types.{Result, ok, err, op_type_put, op_type_delete, op_type_batch}
use kevo.Wal.Batch.{Batch, BatchOperation, decode_batch}
use kevo.Memtable.SkipList.{
  Entry, ValueType, type_value, type_deletion, SkipList, new_skip_list, insert, find, ◌>>=◌,
}

pub record MemTable : Type 0 where
  pub skip_list : SkipList
  pub next_seq_num : ℕ
  pub immutable : Bool

-- `NewMemTable`
abbrev pub new_mem_table : MemTable
new_mem_table = record { skip_list = new_skip_list; next_seq_num = 0; immutable = false }

-- The end of `Put` and of `Delete`.
abbrev pub next_after : ℕ → ℕ → ℕ
next_after seq next = if ltb next seq then (seq + 1) % 2 ^ 64 else next

abbrev pub add_by : Bool → Entry → List Bool → MemTable → Option MemTable
add_by true e coins m = some m
add_by false e coins m = insert e coins m.skip_list >>= λ list.
    some (record m { skip_list = list; next_seq_num = next_after e.seq_num m.next_seq_num })

-- An immutable table ignores its writes.
unfoldable pub add_entry : Entry → List Bool → MemTable → Option MemTable
add_entry e coins m = add_by m.immutable e coins m

-- `Put`
unfoldable pub put : Bytes → Option Bytes → ℕ → List Bool → MemTable → Option MemTable
unfolding add_entry
put key value seq coins m =
    add_entry (record { key = key; value = value; value_type = type_value; seq_num = seq }) coins m

-- `Delete`
unfoldable pub delete : Bytes → ℕ → List Bool → MemTable → Option MemTable
unfolding add_entry
delete key seq coins m =
    add_entry (record { key = key; value = none; value_type = type_deletion; seq_num = seq }) coins
      m

-- What `Get` makes of the entry that it finds.
abbrev pub value_of : ValueType → Option Bytes → Option Bytes × Bool
value_of type_deletion value = (none, true)
value_of type_value value = (value, true)

abbrev pub answer : Option Entry → Option Bytes × Bool
answer none = (none, false)
answer (some e) = value_of e.value_type e.value

-- `Get`
unfoldable pub get : Bytes → MemTable → Option (Option Bytes × Bool)
get key m = find key m.skip_list >>= λ e. some (answer e)

abbrev pub is_some {ℓ} : {A : Type ℓ} → Option A → Bool
is_some none = false
is_some (some a) = true

-- `Contains`
unfoldable pub contains_key : Bytes → MemTable → Option Bool
contains_key key m = find key m.skip_list >>= λ e. some (is_some e)

-- `ApproximateSize`
abbrev pub approximate_size : MemTable → ℕ
approximate_size m = m.skip_list.size

-- `SetImmutable`
abbrev pub set_immutable : MemTable → MemTable
set_immutable m = record m { immutable = true }

-- The operations of a batch, from the number `seq` on.
unfoldable pub apply_operation : BatchOperation → ℕ → List Bool → MemTable → Option MemTable
apply_operation o seq coins m =
    if o.op == op_type_put
    then put o.key o.value seq coins m
    else if o.op == op_type_delete
    then delete o.key seq coins m
    else some m

unfoldable pub apply_operations :
    List BatchOperation → ℕ → (ℕ → List Bool) → MemTable → Option MemTable
unfolding apply_operation
apply_operations [] seq coins m = some m
apply_operations (o ∷ os) seq coins m = do
  m' ← apply_operation o (seq % 2 ^ 64) (coins seq) m
  apply_operations os (seq + 1) coins m'

abbrev pub done : Option MemTable → Option (Result (Unit {0}) × MemTable)
done o = o >>= λ m. some (ok tt, m)

abbrev pub apply_batch :
    (ℕ → List Bool) → Result Batch → MemTable → Option (Result (Unit {0}) × MemTable)
apply_batch coins (err e) m = some (err e, m)
apply_batch coins (ok b) m = done (apply_operations b.operations b.seq coins m)

-- `ProcessWALEntry`, with coins for each number that it may use.
unfoldable pub process_wal_entry :
    Types.Entry → (ℕ → List Bool) → MemTable → Option (Result (Unit {0}) × MemTable)
unfolding apply_operations
process_wal_entry entry coins m =
    if entry.op == op_type_put
    then done (put entry.key entry.value entry.sequence_number (coins entry.sequence_number) m)
    else if entry.op == op_type_delete
    then done (delete entry.key entry.sequence_number (coins entry.sequence_number) m)
    else if entry.op == op_type_batch
    then apply_batch coins (decode_batch entry) m
    else some (ok tt, m)
