-- ===== src/Wal/Device.antt =====
-- The state of a log (`WAL` in pkg/wal/wal.go). The file behind the `bufio.Writer` is a device whose
-- calls may fail.
use kevo.Base.{ℕ, List, [], ◌∷◌, ◌++◌, Option, none, some}
use kevo.Base.{length, take, Bool}
use kevo.Base.Bytes.{Bytes}
use kevo.Wal.Types.{Result, ok, err, io_error, Entry, Status, SyncMode}
use kevo.Wal.Exec.{Exec, continue}

-- `stream` is every byte that the writer has accepted, in order; the first `flushed` of them have
-- left its buffer by an explicit Flush, and the first `synced` are on disk. `faults` says what the
-- next calls do: `none` succeeds, `some n` fails after `n` bytes, and the end of the list stands for
-- success from there on.
pub record Device : Type 0 where
  pub stream : Bytes
  pub flushed : ℕ
  pub synced : ℕ
  pub faults : List (Option ℕ)

-- What the observers are told, in order.
pub data Notice : Type 0 where
  entry_written : Entry → Notice
  batch_written : ℕ → List Entry → Notice
  wal_synced : ℕ → Notice

-- `sync_mode` and `sync_bytes` are `cfg.WALSyncMode` and `cfg.WALSyncBytes`.
pub record Wal : Type 0 where
  pub sync_mode : SyncMode
  pub sync_bytes : ℕ
  pub device : Device
  pub next_sequence : ℕ
  pub bytes_written : ℕ
  pub batch_byte_size : ℕ
  pub status : Status
  pub closed_flag : Bool
  pub notices : List Notice

abbrev pub Op : Type 0 → Type 0
Op A = Exec Wal A

-- One call of the device: the bytes it accepts, and whether it succeeds.
accept : List (Option ℕ) → Bytes → Bytes × Result (Unit {0}) × List (Option ℕ)
accept [] bytes = (bytes, ok tt, [])
accept (none ∷ faults) bytes = (bytes, ok tt, faults)
accept (some n ∷ faults) bytes = (take n bytes, err io_error, faults)

-- `w.writer.Write(bytes)`
unfoldable pub write : Bytes → Op (Unit {0})
unfolding accept
write bytes w =
    let d = w.device in
    let (taken, r, faults) = accept d.faults bytes in
    (r, record w { device = record d { stream = d.stream ++ taken; faults = faults } })

-- `w.writer.Flush()`
unfoldable pub flush : Op (Unit {0})
unfolding accept
flush w =
    let d = w.device in
    let (_taken, r, faults) = accept d.faults [] in
    continue r
      (λ u w'.
        (ok u, record w' { device = record d { flushed = length d.stream; faults = faults } }))
      (record w { device = record d { faults = faults } })

-- `w.file.Sync()`
unfoldable pub sync_file : Op (Unit {0})
unfolding accept
sync_file w =
    let d = w.device in
    let (_taken, r, faults) = accept d.faults [] in
    continue r
      (λ u w'. (ok u, record w' { device = record d { synced = d.flushed; faults = faults } }))
      (record w { device = record d { faults = faults } })

-- `w.file.Close()`
unfoldable pub close_file : Op (Unit {0})
unfolding accept
close_file w =
    let d = w.device in
    let (_taken, r, faults) = accept d.faults [] in
    (r, record w { device = record d { faults = faults } })
