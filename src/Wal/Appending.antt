-- ===== src/Wal/Appending.antt =====
-- What an append leaves on a log that is open and whose device does not fail.
use kevo.Base.{ℕ, ◌+◌, ◌-◌, ◌%◌, ◌^◌, [], ◌∷◌, ◌++◌, Option, ◌≡◌, ap, arith, true}
use kevo.Base.{length, if◌then◌else◌}
use kevo.Base.Bytes.{Bytes}
use kevo.Wal.Types.{ok, Entry, active}
use kevo.Wal.Device.{Wal, Notice, entry_written, wal_synced}
use kevo.Wal.Write.{status_result, sync_due, maybe_sync, notify, check_open}
use kevo.Wal.Log.{append, is_append_op, next_u64}
use kevo.Wal.Frames.{entry_frames}
use kevo.Wal.Writing.{wrote, write_entry_lem}

pub record IsReady (w : Wal) : Type 0 where
  pub is_open : w.status ≡ active
  pub sound : w.device.faults ≡ []

-- The log after `maybeSync`.
abbrev pub settle : Wal → Wal
settle w =
    if sync_due w.sync_mode w.batch_byte_size w.sync_bytes
    then record w {
      device = record w.device {
        flushed = length w.device.stream;
        synced = length w.device.stream;
      };
      batch_byte_size = 0;
      notices = w.notices ++ (wal_synced ((w.next_sequence + 2 ^ 64 - 1) % 2 ^ 64) ∷ []);
    }
    else w

pub maybe_sync_lem : (w : Wal) → IsReady w → maybe_sync w ≡ (ok tt, settle w)
unfolding maybe_sync
maybe_sync_lem w r = ground arith

abbrev pub noticed : Wal → Notice → Wal
noticed w n = record w { notices = w.notices ++ (n ∷ []) }

-- The log after the entry `e` was appended, with `n` as its next sequence number.
abbrev pub appended : Wal → Entry → ℕ → Wal
appended w e n =
    settle (noticed (wrote (record w { next_sequence = n }) (entry_frames e)) (entry_written e))

pub check_open_lem : (w : Wal) → w.status ≡ active → check_open w ≡ (ok tt, w)
unfolding check_open
check_open_lem w h = ap (λ s. (status_result s, w)) h

pub append_lem :
    (op : ℕ) (key : Bytes) (value : Option Bytes) (w : Wal)
    → IsReady w
    → is_append_op op ≡ true
    → append op key value w ≡ (
      ok w.next_sequence,
      appended w
          (record { sequence_number = w.next_sequence; op = op; key = key; value = value })
          (next_u64 w.next_sequence 1),
    )
unfolding append notify
append_lem op key value w r known =
    let e : Entry = record {
      sequence_number = w.next_sequence;
      op = op;
      key = key;
      value = value;
    } in
    let w1 : Wal = record w { next_sequence = next_u64 w.next_sequence 1 } in
    rw (
      check_open_lem w r.is_open,
      known,
      write_entry_lem e w1 r.sound,
      maybe_sync_lem (noticed (wrote w1 (entry_frames e)) (entry_written e))
          (record { is_open = r.is_open; sound = r.sound }),
    )

-- The parts of the log that the proofs follow through the appends.
pub settle-parts :
    (w : Wal)
    → ((settle w).device.stream ≡ w.device.stream)
      × ((settle w).next_sequence ≡ w.next_sequence)
      × ((settle w).status ≡ w.status)
      × ((settle w).device.faults ≡ w.device.faults)
settle-parts w = (ground arith, ground arith, ground arith, ground arith)
