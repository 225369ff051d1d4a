-- ===== src/Wal/Guards.antt =====
-- What the operations refuse on a log that is not open, and what `Batch.Write` does there.
use kevo.Base.{ℕ, ◌+◌, ◌≤◌, ◌<◌, List, [], ◌∷◌, ◌++◌, Option, ◌∙◌, ◌≡◌, ◌≢◌, refl, ap, arith, false}
use kevo.Base.{length, if◌then◌else◌}
use kevo.Base.Bytes.{Bytes}
use kevo.Wal.Types.{
  Entry, Error, ok, err, Status, active, rotating, closed, wal_closed, max_record_size, sync_none,
}
use kevo.Wal.Device.{Wal, Op, flush, sync_file, close_file}
use kevo.Wal.Write.{sync_due, status_result, check_open, sync_locked, maybe_sync}
use kevo.Wal.Batch.{Batch, size}
use kevo.Wal.Log.{
  close_by, append, append_with_sequence, append_exact_bytes, append_batch,
  append_batch_with_sequence, sync, close, write_batch,
}
use kevo.Wal.Frames.{entry_frames}
use kevo.Wal.Exec.{pure}
use kevo.Wal.Batches.{batch_entry, batch_written_log, write_batch_lem}
use kevo.Wal.Appending.{IsReady}

-- The operation fails with the error of the status, and changes nothing.
pub record Refuses {A : Type 0} (w : Wal) (m : Op A) : Type 0 where
  pub reason : Error
  pub of_status : status_result w.status ≡ err reason
  pub unchanged : m w ≡ (err reason, w)

status_error : (s : Status) → s ≢ active → (e : Error) × (status_result s ≡ err e)
status_error active h = absurd (h refl)
status_error rotating h = (_, refl)
status_error closed h = (_, refl)

check_open_err : (w : Wal) (e : Error) → status_result w.status ≡ err e → check_open w ≡ (err e, w)
unfolding check_open
check_open_err w e h = ap (λ r. (r, w)) h

module _ (w : Wal) (e : Error) (h : status_result w.status ≡ err e) where
  append-err : (op : ℕ) (key : Bytes) (value : Option Bytes) → append op key value w ≡ (err e, w)
  unfolding append
  append-err op key value = rw (check_open_err w e h)

  append_with_sequence-err :
      (op : ℕ) (key : Bytes) (value : Option Bytes) (seq : ℕ)
      → append_with_sequence op key value seq w ≡ (err e, w)
  unfolding append_with_sequence
  append_with_sequence-err op key value seq = rw (check_open_err w e h)

  append_exact_bytes-err : (raw : Bytes) (seq : ℕ) → append_exact_bytes raw seq w ≡ (err e, w)
  unfolding append_exact_bytes
  append_exact_bytes-err raw seq = rw (check_open_err w e h)

  append_batch-err : (es : List Entry) → append_batch es w ≡ (err e, w)
  unfolding append_batch
  append_batch-err es = rw (check_open_err w e h)

  append_batch_with_sequence-err :
      (es : List Entry) (seq : ℕ) → append_batch_with_sequence es seq w ≡ (err e, w)
  unfolding append_batch_with_sequence
  append_batch_with_sequence-err [] seq = rw (check_open_err w e h)
  append_batch_with_sequence-err (x ∷ es) seq = rw (check_open_err w e h)

  sync-err : sync w ≡ (err e, w)
  unfolding sync sync_locked
  sync-err = unfold check_open in rw h

-- On a log that is closed or rotating every append and every sync fails with the error of that
-- status and changes nothing: not the stream, not the counters, not the next sequence number.
pub not_open-Refuses :
    (w : Wal) (op seq : ℕ) (key raw : Bytes) (value : Option Bytes) (es : List Entry)
    → w.status ≢ active
    → Refuses w (append op key value)
      × Refuses w (append_with_sequence op key value seq)
      × Refuses w (append_exact_bytes raw seq)
      × Refuses w (append_batch es)
      × Refuses w (append_batch_with_sequence es seq)
      × Refuses w sync
not_open-Refuses w op seq key raw value es h =
    let (e, p) = status_error w.status h in
    (
      record { reason = e; of_status = p; unchanged = append-err w e p op key value },
      record {
        reason = e;
        of_status = p;
        unchanged = append_with_sequence-err w e p op key value seq;
      },
      record { reason = e; of_status = p; unchanged = append_exact_bytes-err w e p raw seq },
      record { reason = e; of_status = p; unchanged = append_batch-err w e p es },
      record { reason = e; of_status = p; unchanged = append_batch_with_sequence-err w e p es seq },
      record { reason = e; of_status = p; unchanged = sync-err w e p },
    )

flush_lem :
    (w : Wal)
    → w.device.faults ≡ []
    → flush w ≡ (ok tt, record w { device = record w.device { flushed = length w.device.stream } })
unfolding flush
flush_lem w h = ground arith

sync_file_lem :
    (w : Wal)
    → w.device.faults ≡ []
    → sync_file w ≡ (ok tt, record w { device = record w.device { synced = w.device.flushed } })
unfolding sync_file
sync_file_lem w h = ground arith

close_file_lem : (w : Wal) → w.device.faults ≡ [] → close_file w ≡ (ok tt, w)
unfolding close_file
close_file_lem w h = ground arith

-- The log after `Close`: everything is on disk, and the flag that `Batch.Write` tests is as before.
abbrev pub closed_log : Wal → Wal
closed_log w = record w {
  device = record w.device { flushed = length w.device.stream; synced = length w.device.stream };
  status = closed;
}

pub close_lem : (w : Wal) → IsReady w → close w ≡ (ok tt, closed_log w)
unfolding close close_by
close_lem w r =
    ap (λ s. close_by s w) r.is_open
    ∙ rw (
      flush_lem w r.sound,
      sync_file_lem (record w { device = record w.device { flushed = length w.device.stream } })
          r.sound,
      close_file_lem (record (closed_log w) { status = rotating }) r.sound,
    )

maybe_sync-none : (w : Wal) → w.sync_mode ≡ sync_none → maybe_sync w ≡ (ok tt, w)
unfolding maybe_sync
maybe_sync-none w h =
    ap (λ m. (if sync_due m w.batch_byte_size w.sync_bytes then sync_locked else pure tt) w) h

-- `Close` on an open log puts every byte on disk and closes the log, but a batch that fits a record
-- is then still taken by `Batch.Write`, where the log does not sync by itself: it gets a sequence
-- number and its bytes go to the writer of the closed file. `Append` on the same log is refused.
pub close-write_batch :
    (w : Wal) (b : Batch) (op : ℕ) (key : Bytes) (value : Option Bytes)
    → IsReady w
    → w.closed_flag ≡ false
    → w.sync_mode ≡ sync_none
    → 0 < length b.operations
    → 17 + size b ≤ max_record_size
    → ((close w).0 ≡ ok tt)
      × ((close w).1.status ≡ closed)
      × ((close w).1.device.synced ≡ length w.device.stream)
      × (append op key value (close w).1 ≡ (err wal_closed, (close w).1))
      × ((write_batch b (close w).1).0 ≡ ok (record b { seq = w.next_sequence }))
      × ((write_batch b (close w).1).1.device.stream
          ≡ w.device.stream ++ entry_frames (batch_entry b w.next_sequence))
close-write_batch w b op key value r flag mode pos fits =
    let w' = closed_log w in
    let step =
      write_batch_lem b w' (batch_written_log b w') r.sound flag pos fits
        (maybe_sync-none (batch_written_log b w') mode) in
    rw (close_lem w r) (
      refl,
      refl,
      refl,
      append-err w' wal_closed refl op key value,
      ap (λ q. q.0) step,
      ap (λ q. q.1.device.stream) step,
    )
