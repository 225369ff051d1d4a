-- ===== src/Memtable/Tests.antt =====
-- Runs of skip lists, tables, pools and recoveries, with the witnesses of their theorems.
use kevo.Base.{ℕ, ◌+◌, ◌*◌, ◌≤◌, ◌≡◌, refl, arith, ◌⊎◌, map, not}
use kevo.Base.{List, [], ◌∷◌, Option, none, some, Bool, true, false}
use kevo.Base.{List, [], ◌∷◌, none, some, Bool, true, false}
use kevo.Base.Bytes.{Bytes}
use kevo.Wal.Types
use kevo.Wal.Types.{Result, ok, err, handler_failed, op_type_put, op_type_delete, sync_none}
use kevo.Wal.Device.{Wal}
use kevo.Wal.Write.{new_wal}
use kevo.Wal.Durability.{Request, append_requests}
use kevo.Memtable.SkipList.{Entry, type_value, type_deletion, SkipList, find, random_height}
use mathlib.Core.List.{Perm}
use kevo.Base.All.{select}
use kevo.Base.Compare.{less}
use kevo.Memtable.Iterator.{seek_to_first, seek, walk}
use kevo.Memtable.Walking.{InOrderOfKeys, walk-insert_all}
use kevo.Memtable.Newest.{newest_of}
use kevo.Memtable.Lookup.{first_with}
use kevo.Memtable.Views.{new-Shows, total_size}
use kevo.Memtable.Table.{MemTable, new_mem_table, set_immutable, process_wal_entry, answer}
use kevo.Memtable.Writes.{
  insert_all, find-insert_all, Write, puts, deletes, apply_writes, Counted, apply_writes-Counted,
  next_seq_num_stale, process_wal_entry-immutable,
}
use kevo.Memtable.Pool
use kevo.Memtable.Pool.{MemTablePool, new_mem_table_pool, get_from}
use kevo.Memtable.Pools.{Action, writes, switches, flushes, act_all, visible}
use kevo.Memtable.PoolGet.{get-act_all}
use kevo.Memtable.Recovery.{RecoveryOptions, recover_from_wal}
use kevo.Memtable.Durability.{history_of, expected, recover-append_requests}

abbrev key_a : Bytes
key_a = 97 ∷ []

abbrev key_b : Bytes
key_b = 98 ∷ []

abbrev old_a : Entry
old_a = record { key = key_a; value = some (1 ∷ []); value_type = type_value; seq_num = 3 }

abbrev new_a : Entry
new_a = record { key = key_a; value = none; value_type = type_deletion; seq_num = 5 }

abbrev only_b : Entry
only_b = record { key = key_b; value = some (2 ∷ []); value_type = type_value; seq_num = 4 }

-- The last one stands first.
abbrev insertions : List (Entry × List Bool)
insertions = (old_a, true ∷ []) ∷ (only_b, []) ∷ (new_a, true ∷ true ∷ []) ∷ []

three_heads_make_four : random_height (true ∷ true ∷ true ∷ false ∷ true ∷ []) ≡ 4
unfolding random_height
three_heads_make_four = refl

the_newest_counts : newest_of key_a (map (λ p. p.0) insertions) ≡ some new_a
the_newest_counts = refl

find-insert_all_example :
    (s : SkipList) × (insert_all insertions ≡ some s)
    × ((key : Bytes) → find key s ≡ some (newest_of key (map (λ p. p.0) insertions)))
    × (s.size ≡ total_size (map (λ p. p.0) insertions))
find-insert_all_example = find-insert_all insertions

abbrev two_writes : List Write
two_writes = deletes key_a 8 (true ∷ []) ∷ puts key_a (some (1 ∷ [])) 7 [] ∷ []

apply_writes-Counted_example :
    (m : MemTable) × (apply_writes two_writes new_mem_table ≡ some m)
    × Counted m.next_seq_num two_writes
apply_writes-Counted_example = apply_writes-Counted two_writes (omega arith, (omega arith, tt))

next_seq_num_stale_example :
    (m : MemTable) × (apply_writes two_writes new_mem_table ≡ some m) × (m.next_seq_num ≡ 8)
next_seq_num_stale_example =
    next_seq_num_stale (puts key_a (some (1 ∷ [])) 7 []) (deletes key_a 8 (true ∷ [])) new_mem_table
      [] (record { shows = new-Shows; open_for_writes = refl }) (omega arith) (omega arith)
      (omega arith)

abbrev frozen_table : MemTable
frozen_table = set_immutable new_mem_table

abbrev put_entry : Types.Entry
put_entry = record { sequence_number = 1; op = op_type_put; key = key_a; value = some [] }

process_wal_entry-immutable_example :
    (r : Result (Unit {0})) × (process_wal_entry put_entry (λ n. []) frozen_table
      ≡ some (r, frozen_table))
process_wal_entry-immutable_example =
    process_wal_entry-immutable put_entry (λ n. []) frozen_table refl

-- The last one stands first: the flush takes the put of `b`.
abbrev actions : List Action
actions =
    writes (deletes key_a 3 []) false
    ∷ flushes
    ∷ writes (puts key_a (some (9 ∷ [])) 2 (true ∷ [])) true
    ∷ switches
    ∷ writes (puts key_b none 1 []) false
    ∷ []

two_are_visible : map (λ e. e.seq_num) (visible actions) ≡ 3 ∷ 2 ∷ []
two_are_visible = refl

get-act_all_example :
    (p : MemTablePool) × (act_all actions (new_mem_table_pool 100) ≡ some p)
    × ((key : Bytes) → Pool.get key p ≡ some (answer (first_with key (visible actions))))
    × (Pool.total_size p ≡ total_size (visible actions))
get-act_all_example = get-act_all actions 100 ((omega arith, tt), (tt, tt))

abbrev fresh_log : Wal
fresh_log = new_wal sync_none 0 (record { stream = []; flushed = 0; synced = 0; faults = [] }) 1

abbrev requests : List Request
requests =
    record { op = op_type_put; key = key_a; value = none }
    ∷ record { op = op_type_put; key = key_b; value = some (2 ∷ []) }
    ∷ record { op = op_type_delete; key = key_b; value = none }
    ∷ []

abbrev small_tables : RecoveryOptions
small_tables = record { max_sequence_number = 1000; max_mem_tables = 4; mem_table_size = 18 }

b_is_deleted : expected key_b requests (none, false) ≡ (none, true)
b_is_deleted = refl

recover-append_requests_example :
    ((tables : List MemTable) × (number : ℕ) × (recover_from_wal small_tables
          (λ e n. [])
          ((append_requests requests fresh_log).1.device.stream ∷ [])
        ≡ ok (tables, number))
      × ((key : Bytes)
          → get_from key tables (some (none, false)) ≡ some (expected key requests (none, false))))
    ⊎ ((recover_from_wal small_tables
            (λ e n. [])
            ((append_requests requests fresh_log).1.device.stream ∷ [])
          ≡ err handler_failed)
        × (4 * 18 ≤ total_size (history_of 1 requests [])))
recover-append_requests_example =
    recover-append_requests small_tables (λ e n. []) requests fresh_log
      (record { is_open = refl; sound = refl }) refl
      (
        record { op_known = refl; key_fits = omega arith; value_fits = omega arith },
        (
          record { op_known = refl; key_fits = omega arith; value_fits = omega arith },
          (record { op_known = refl; key_fits = omega arith; value_fits = omega arith }, tt),
        ),
      )
      (omega arith) (omega arith)

walk-insert_all_example :
    (s : SkipList) × (shown : List Entry) × (insert_all insertions ≡ some s)
    × (walk s (s.made + 1) (seek_to_first s) ≡ some shown)
    × Perm shown (map (λ p. p.0) insertions)
    × InOrderOfKeys shown
    × ((key : Bytes)
        → (position : Option ℕ) × (seek s key ≡ some position)
          × (walk s (s.made + 1) position ≡ some (select (λ e. not (less e.key key)) shown)))
walk-insert_all_example = walk-insert_all insertions
