-- ===== src/Memtable/Pool.antt =====
-- pkg/memtable/mempool.go. The lock of the pool makes each method one step, and so does that of
-- its active table. Whether that table is too old is an argument; the coins are those of its list.
use kevo.Base.{ℕ, ◌+◌, List, [], ◌∷◌, ◌++◌, Option, none, some, Bool, true, false, ◌||◌, length}
use kevo.Base.{leb, if◌then◌else◌}
use kevo.Base.Bytes.{Bytes}
use kevo.Memtable.SkipList.{◌>>=◌}
use kevo.Memtable.Table
use kevo.Memtable.Table.{MemTable, new_mem_table, approximate_size, set_immutable}

-- The immutable tables, the oldest first; `cfg` only gives the capacity of their slice.
pub record MemTablePool : Type 0 where
  pub active : MemTable
  pub immutables : List MemTable
  pub max_size : ℕ
  pub flush_pending : Bool

-- `NewMemTablePool`
abbrev pub new_mem_table_pool : ℕ → MemTablePool
new_mem_table_pool max_size = record {
  active = new_mem_table;
  immutables = [];
  max_size = max_size;
  flush_pending = false;
}

-- `checkFlushConditions`
unfoldable pub check_flush_conditions : Bool → MemTablePool → MemTablePool
check_flush_conditions too_old p =
    if p.flush_pending
    then p
    else if leb p.max_size (approximate_size p.active) || too_old
    then record p { flush_pending = true }
    else p

abbrev pub after_write : Bool → MemTablePool → Option MemTable → Option MemTablePool
after_write too_old p written =
    written >>= λ m. some (check_flush_conditions too_old (record p { active = m }))

-- `Put`
unfoldable pub put :
    Bytes → Option Bytes → ℕ → List Bool → Bool → MemTablePool → Option MemTablePool
put key value seq coins too_old p = after_write too_old p (Table.put key value seq coins p.active)

-- `Delete`
unfoldable pub delete : Bytes → ℕ → List Bool → Bool → MemTablePool → Option MemTablePool
delete key seq coins too_old p = after_write too_old p (Table.delete key seq coins p.active)

-- A table's answer, or what `rest` says if it has not found the key.
abbrev pub or_else :
    Option Bytes × Bool → Option (Option Bytes × Bool) → Option (Option Bytes × Bool)
or_else (value, true) rest = some (value, true)
or_else (value, false) rest = rest

-- The loop of `Get` from the last table to the first, and behind it the answer (nil, false).
unfoldable pub get_from :
    Bytes → List MemTable → Option (Option Bytes × Bool) → Option (Option Bytes × Bool)
get_from key [] rest = rest
get_from key (m ∷ ms) rest = get_from key ms (Table.get key m >>= λ answer. or_else answer rest)

-- `Get`
unfoldable pub get : Bytes → MemTablePool → Option (Option Bytes × Bool)
get key p = Table.get key p.active >>= λ answer.
    or_else answer (get_from key p.immutables (some (none, false)))

-- `ImmutableCount`
abbrev pub immutable_count : MemTablePool → ℕ
immutable_count p = length p.immutables

-- `SwitchToNewMemTable`
unfoldable pub switch_to_new_mem_table : MemTablePool → MemTable × MemTablePool
switch_to_new_mem_table p =
    let old_active = set_immutable p.active in
    (
      old_active,
      record p {
        flush_pending = false;
        active = new_mem_table;
        immutables = p.immutables ++ (old_active ∷ []);
      },
    )

-- `GetImmutablesForFlush`
unfoldable pub get_immutables_for_flush : MemTablePool → List MemTable × MemTablePool
get_immutables_for_flush p = (p.immutables, record p { immutables = [] })

-- `IsFlushNeeded`
abbrev pub is_flush_needed : MemTablePool → Bool
is_flush_needed p = p.flush_pending

-- `GetNextSequenceNumber`
abbrev pub get_next_sequence_number : MemTablePool → ℕ
get_next_sequence_number p = p.active.next_seq_num

-- `GetMemTables`
abbrev pub get_mem_tables : MemTablePool → List MemTable
get_mem_tables p = p.active ∷ p.immutables

abbrev pub sizes_of : List MemTable → ℕ
sizes_of [] = 0
sizes_of (m ∷ ms) = approximate_size m + sizes_of ms

-- `TotalSize`
unfoldable pub total_size : MemTablePool → ℕ
total_size p = approximate_size p.active + sizes_of p.immutables

-- `SetActiveMemTable`
unfoldable pub set_active_mem_table : MemTable → MemTablePool → MemTablePool
set_active_mem_table mem_table p =
    if leb 1 (approximate_size p.active)
    then record p { active = mem_table; immutables = p.immutables ++ (set_immutable p.active ∷ []) }
    else record p { active = mem_table }
