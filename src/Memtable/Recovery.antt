-- ===== src/Memtable/Recovery.antt =====
-- pkg/memtable/recovery.go: the tables that a replay of the log builds.
use kevo.Base.{ℕ, ◌+◌, ◌-◌, ◌%◌, ◌^◌, List, [], ◌∷◌, ◌++◌, Option, none, some, Bool}
use kevo.Base.{length, ltb, leb, if◌then◌else◌}
use kevo.Base.Bytes.{Bytes}
use kevo.Wal.Types
use kevo.Wal.Types.{Result, ok, err, handler_failed, index_panic}
use kevo.Wal.Exec.{Exec}
use kevo.Wal.Replay.{Outcome, replay_dir}
use kevo.Memtable.Table.{
  MemTable, new_mem_table, approximate_size, set_immutable, process_wal_entry,
}

-- A size is compared as an int64; a table's size and the options lie below 2 ^ 63.
pub record RecoveryOptions : Type 0 where
  pub max_sequence_number : ℕ
  pub max_mem_tables : ℕ
  pub mem_table_size : ℕ

-- `memTables` without its last one, the last one, and `maxSeqNum`.
pub record Recovered : Type 0 where
  pub older : List MemTable
  pub current : MemTable
  pub max_seq_num : ℕ

abbrev pub start_recovery : Recovered
start_recovery = record { older = []; current = new_mem_table; max_seq_num = 0 }

abbrev pub max_of : ℕ → ℕ → ℕ
max_of seq found = if ltb found seq then seq else found

-- A panic of the table ends the replay; the proofs show that there is none.
abbrev pub finish :
    Recovered → Option (Result (Unit {0}) × MemTable) → Result (Unit {0}) × Recovered
finish r none = (err index_panic, r)
finish r (some (u, table)) = (u, record r { current = table })

module _ (options : RecoveryOptions) (coins : Types.Entry → ℕ → List Bool) where
  abbrev pub process : Types.Entry → Exec Recovered (Unit {0})
  process entry r = finish r (process_wal_entry entry (coins entry) r.current)

  -- A full table is left behind for a new one, unless there are too many.
  abbrev pub rotate : Types.Entry → Exec Recovered (Unit {0})
  rotate entry r =
      if leb options.max_mem_tables (length r.older + 1)
      then (err handler_failed, r)
      else process entry
          (record r { older = r.older ++ (set_immutable r.current ∷ []); current = new_mem_table })

  -- `entryHandler`
  unfoldable pub entry_handler : Types.Entry → Exec Recovered (Unit {0})
  entry_handler entry r =
      if ltb options.max_sequence_number entry.sequence_number
      then (ok tt, r)
      else (let r' : Recovered = record r {
        max_seq_num = max_of entry.sequence_number r.max_seq_num;
      } in
          if leb options.mem_table_size (approximate_size r'.current)
          then rotate entry r'
          else process entry r')

  -- The end of `RecoverFromWAL`: the tables, the last one last, and the greatest number.
  abbrev pub tables_of : Recovered → List MemTable
  tables_of r = r.older ++ (r.current ∷ [])

  abbrev pub final_number : ℕ → ℕ → ℕ
  final_number found next =
      if ltb ((found + 1) % 2 ^ 64) next then (next + 2 ^ 64 - 1) % 2 ^ 64 else found

  abbrev pub recovered : Result (Unit {0}) → Recovered → Result (List MemTable × ℕ)
  recovered (err e) r = err e
  recovered (ok u) r = ok (tables_of r, final_number r.max_seq_num r.current.next_seq_num)

  abbrev pub conclude : Outcome entry_handler → Result (List MemTable × ℕ)
  conclude (u, stats, r) = recovered u r

  -- `RecoverFromWAL` on the files of the log in the order of their names.
  unfoldable pub recover_from_wal : List Bytes → Result (List MemTable × ℕ)
  unfolding entry_handler
  recover_from_wal files = conclude (replay_dir entry_handler files start_recovery)
