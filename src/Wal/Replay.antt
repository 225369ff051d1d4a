-- ===== src/Wal/Replay.antt =====
-- The replay of log files in pkg/wal/reader.go. The handler changes a state of its own.
use kevo.Base.{ℕ, zero, suc, ◌+◌, List, [], ◌∷◌, ◌&&◌, Bool, true, false, Option, none, some}
use kevo.Base.{length, drop, ltb, leb, ◌==◌, if◌then◌else◌}
use kevo.Base.Bytes.{Bytes}
use kevo.Wal.Types.{
  Entry, Result, ok, err, Error, eof, corrupt_record, invalid_record_type, invalid_op_type,
  too_many_corrupted, stuck,
}
use kevo.Wal.Exec.{Exec}
use kevo.Wal.Reader.{Reader, open_reader, read_entry}

pub record RecoveryStats : Type 0 where
  pub entries_processed : ℕ
  pub entries_skipped : ℕ

abbrev pub no_stats : RecoveryStats
no_stats = record { entries_processed = 0; entries_skipped = 0 }

-- The errors whose text holds "corrupt" or "invalid".
abbrev pub is_corruption : Error → Bool
is_corruption corrupt_record = true
is_corruption invalid_record_type = true
is_corruption invalid_op_type = true
is_corruption too_many_corrupted = true
is_corruption _ = false

abbrev pub recovery_span : ℕ
recovery_span = 32768

-- `recoverFromCorruption`: skip 32 KB, or answer false at the end of the file.
unfoldable pub recover_from_corruption : Reader → Bool × Reader
recover_from_corruption r =
    if leb recovery_span (length r.input)
    then (true, record r { input = drop recovery_span r.input })
    else (false, record r { input = [] })

module _ {S : Type 0} (handler : Entry → Exec S (Unit {0})) where
  -- The result, the statistics and the handler's state.
  abbrev pub Outcome : Type 0
  Outcome = Result (Unit {0}) × RecoveryStats × S

  abbrev pub Rounds : Type 0
  Rounds = Reader → RecoveryStats → S → Outcome

  abbrev pub after_handler : Rounds → Result (Unit {0}) → Rounds
  after_handler next (ok u) r stats s =
      next r (record stats { entries_processed = stats.entries_processed + 1 }) s
  after_handler next (err e) r stats s = (err e, stats, s)

  abbrev pub after_recovery : Rounds → Bool → Rounds
  after_recovery next true r stats s = next r stats s
  after_recovery next false r stats s = (ok tt, stats, s)

  -- A corrupted entry is counted, and the replay goes on behind the next 32 KB.
  unfoldable pub skip_corruption : Rounds → Rounds
  skip_corruption next r stats s =
      let stats' : RecoveryStats = record stats { entries_skipped = stats.entries_skipped + 1 } in
      let (found, r') = recover_from_corruption r in
      if ltb 5 stats'.entries_skipped && stats'.entries_processed == 0
      then (err too_many_corrupted, stats', s)
      else after_recovery next found r' stats' s

  abbrev pub after_entry : Rounds → Result Entry → Rounds
  after_entry next (ok entry) r stats s =
      let (u, s') = handler entry s in after_handler next u r stats s'
  after_entry next (err eof) r stats s = (ok tt, stats, s)
  after_entry next (err e) r stats s =
      if is_corruption e then skip_corruption next r stats s else (err e, stats, s)

  -- The loop of `ReplayWALFile`.
  unfoldable pub replay_loop : ℕ → Rounds
  replay_loop zero r stats s = (err stuck, stats, s)
  replay_loop (suc fuel) r stats s =
      let (e, r') = read_entry r in after_entry (replay_loop fuel) e r' stats s

  -- `ReplayWALFile` on the bytes of the file: a round takes a byte at least, or is the last.
  unfoldable pub replay_file : Bytes → S → Outcome
  unfolding replay_loop
  replay_file bytes s = replay_loop (suc (length bytes)) (open_reader bytes) no_stats s

  abbrev pub add_stats : RecoveryStats → RecoveryStats → RecoveryStats
  add_stats a b = record {
    entries_processed = a.entries_processed + b.entries_processed;
    entries_skipped = a.entries_skipped + b.entries_skipped;
  }

  abbrev pub dir_result : ℕ → Option Error → Result (Unit {0})
  dir_result (suc n) last = ok tt
  dir_result zero (some e) = err e
  dir_result zero none = ok tt

  abbrev pub after_file :
      (ℕ → Option Error → RecoveryStats → S → Outcome)
      → ℕ
      → Option Error
      → RecoveryStats
      → Outcome
      → Outcome
  after_file next n last total (ok u, stats, s) = next (suc n) last (add_stats total stats) s
  after_file next n last total (err e, stats, s) =
      if is_corruption e
      then next n (some e) (add_stats total stats) s
      else (err e, add_stats total stats, s)

  -- The loop of `ReplayWALDir` over the files in the order of their names.
  unfoldable pub replay_files : List Bytes → ℕ → Option Error → RecoveryStats → S → Outcome
  replay_files [] n last total s = (dir_result n last, total, s)
  replay_files (file ∷ files) n last total s =
      after_file (replay_files files) n last total (replay_file file s)

  -- `ReplayWALDir`
  unfoldable pub replay_dir : List Bytes → S → Outcome
  unfolding replay_files
  replay_dir files s = replay_files files 0 none no_stats s
