-- ===== src/Wal/Log.antt =====
-- pkg/wal/wal.go: the operations of an open log, and `Batch.Write` of pkg/wal/batch.go. The mutex
-- `w.mu` makes each of them one step.
use kevo.Base.{ℕ, ◌+◌, ◌%◌, ◌^◌, List, [], ◌∷◌, ◌++◌, Option, none, some, Bool, ◌||◌, not, map}
use kevo.Base.{length, slice, ltb, leb, ◌==◌, if◌then◌else◌}
use kevo.Base.Bytes.{Bytes, put_le, get_le}
use kevo.Wal.Types.{
  Entry, ok, require, index, Status, active, rotating, closed, wal_closed, invalid_op_type,
  raw_too_small, raw_size_mismatch, empty_batch, batch_too_large, record_type_full, op_type_put,
  op_type_delete, op_type_merge, op_type_batch, header_size, max_record_size,
}
use kevo.Wal.Device.{entry_written, batch_written, Op, write, flush, sync_file, close_file}
use kevo.Wal.Exec.{pure, lift, gets, ◌>>=◌, ◌>>◌}
use kevo.Wal.Batch.{Batch, BatchOperation, size, serialize}
use kevo.Wal.Write.{
  check_open, notify, sync_locked, maybe_sync, add_bytes, write_record, write_raw_record,
  write_entry,
}

abbrev pub is_append_op : ℕ → Bool
is_append_op op = op == op_type_put || op == op_type_delete || op == op_type_merge

abbrev pub next_u64 : ℕ → ℕ → ℕ
next_u64 n k = (n + k) % 2 ^ 64

abbrev pub set_next_sequence : ℕ → Op (Unit {0})
set_next_sequence n w = (ok tt, record w { next_sequence = n })

-- `Append`
unfoldable pub append : ℕ → Bytes → Option Bytes → Op ℕ
append op key value = do
  check_open
  lift (require (is_append_op op) invalid_op_type)
  seq ← gets (λ w. w.next_sequence)
  set_next_sequence (next_u64 seq 1)
  write_entry op seq key value
  notify (entry_written (record { sequence_number = seq; op = op; key = key; value = value }))
  maybe_sync
  pure seq

-- `AppendWithSequence`
unfoldable pub append_with_sequence : ℕ → Bytes → Option Bytes → ℕ → Op ℕ
append_with_sequence op key value seq = do
  check_open
  lift (require (is_append_op op) invalid_op_type)
  λ w. (
    ok tt,
    record w {
      next_sequence = if leb w.next_sequence seq then next_u64 seq 1 else w.next_sequence;
    },
  )
  write_entry op seq key value
  notify (entry_written (record { sequence_number = seq; op = op; key = key; value = value }))
  maybe_sync
  pure seq

-- `AppendExactBytes`: a record that was framed elsewhere.
unfoldable pub append_exact_bytes : Bytes → ℕ → Op ℕ
append_exact_bytes raw seq = do
  check_open
  lift (require (leb header_size (length raw)) raw_too_small)
  lift (require (length raw == header_size + get_le (slice raw 4 6)) raw_size_mismatch)
  λ w. (
    ok tt,
    record w {
      next_sequence = if leb w.next_sequence seq then next_u64 seq 1 else w.next_sequence;
    },
  )
  write raw
  add_bytes (length raw)
  op ← lift (index raw header_size)
  notify (entry_written (record { sequence_number = seq; op = op; key = []; value = some [] }))
  maybe_sync
  pure seq

-- The header of a batch of `n` entries.
abbrev pub batch_header : ℕ → ℕ → Bytes
batch_header seq n = op_type_batch ∷ (put_le 8 seq ++ put_le 4 n)

-- A round of the loop of `AppendBatch`: a nil value is logged as a deletion, whatever the entry's type.
unfoldable pub write_batch_entry : ℕ → Bytes → Option Bytes → Op (Unit {0})
write_batch_entry seq key none = write_record record_type_full op_type_delete seq key none
write_batch_entry seq key (some v) = write_record record_type_full op_type_put seq key (some v)

unfoldable pub write_batch_entries : ℕ → ℕ → List Entry → Op (Unit {0})
write_batch_entries start i [] = pure tt
write_batch_entries start i (e ∷ es) = do
  write_batch_entry (next_u64 start i) e.key e.value
  write_batch_entries start (i + 1) es

abbrev append_entries : ℕ → List Entry → Op ℕ
append_entries start [] = pure start
append_entries start (e ∷ es) = do
  let n = length (e ∷ es)
  write_raw_record record_type_full (batch_header start n)
  write_batch_entries start 0 (e ∷ es)
  set_next_sequence (next_u64 start n)
  notify (batch_written start (e ∷ es))
  maybe_sync
  pure start

-- `AppendBatch`
unfoldable pub append_batch : List Entry → Op ℕ
append_batch entries = do
  check_open
  start ← gets (λ w. w.next_sequence)
  append_entries start entries

abbrev pub to_operation : Entry → BatchOperation
to_operation e = record { op = e.op; key = e.key; value = e.value }

-- `AppendBatchWithSequence`: the whole batch as the key of one entry.
unfoldable pub append_batch_with_sequence : List Entry → ℕ → Op ℕ
append_batch_with_sequence [] start = do check_open; pure start
append_batch_with_sequence (e ∷ es) start = do
  check_open
  let n = length (e ∷ es)
  let batch = serialize (record { operations = map to_operation (e ∷ es); seq = start })
  write_record record_type_full op_type_batch start batch none
  λ w. (
    ok tt,
    record w {
      next_sequence =
          if ltb w.next_sequence (next_u64 start n) then next_u64 start n else w.next_sequence;
    },
  )
  notify (batch_written start (e ∷ es))
  maybe_sync
  pure start

-- `Batch.Write`, which hands back the batch with its sequence number set. It tests `w.closed`,
-- and not the status.
unfoldable pub write_batch : Batch → Op Batch
write_batch b = do
  lift (require (ltb 0 (length b.operations)) empty_batch)
  lift (require (leb (size b) max_record_size) batch_too_large)
  is_closed ← gets (λ w. w.closed_flag)
  lift (require (not is_closed) wal_closed)
  seq ← gets (λ w. w.next_sequence)
  let b' = record b { seq = seq }
  set_next_sequence (next_u64 seq (length b.operations))
  write_record record_type_full op_type_batch seq (serialize b') none
  maybe_sync
  pure b'

-- `Sync`
unfoldable pub sync : Op (Unit {0})
sync = sync_locked

abbrev pub set_status : Status → Op (Unit {0})
set_status s w = (ok tt, record w { status = s })

unfoldable pub close_open : Op (Unit {0})
close_open = do flush; sync_file; set_status rotating; close_file; set_status closed

unfoldable pub close_by : Status → Op (Unit {0})
unfolding close_open
close_by closed = pure tt
close_by active = close_open
close_by rotating = close_open

-- `Close`: nothing to do on a closed log.
unfoldable pub close : Op (Unit {0})
unfolding close_by
close w = close_by w.status w

-- `SetRotating` and `SetActive`, which test nothing.
unfoldable pub set_rotating : Op (Unit {0})
set_rotating = set_status rotating

unfoldable pub set_active : Op (Unit {0})
set_active = set_status active

-- `UpdateNextSequence`
unfoldable pub update_next_sequence : ℕ → Op (Unit {0})
update_next_sequence n w =
    (ok tt, record w { next_sequence = if ltb w.next_sequence n then n else w.next_sequence })

-- `GetNextSequence`
unfoldable pub get_next_sequence : Op ℕ
get_next_sequence = gets (λ w. w.next_sequence)
