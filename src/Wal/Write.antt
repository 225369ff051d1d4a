-- ===== src/Wal/Write.antt =====
-- pkg/wal/wal.go: how the log writes, syncs and tells its observers.
use Prim.Native.Nat.{min}
use kevo.Base.{ℕ, zero, suc, ◌+◌, ◌-◌, ◌%◌, ◌^◌, [], ◌∷◌, ◌++◌, Option, Bool, true, false}
use kevo.Base.{length, take, drop, ltb, leb, ◌==◌, if◌then◌else◌}
use kevo.Base.Bytes.{Bytes, put_le, checksum_ieee}
use kevo.Wal.Types.{
  Result, ok, err, require, Status, active, rotating, closed, SyncMode, sync_none, sync_batch,
  sync_immediate, bytes_of, wal_closed, wal_rotating, record_too_large, stuck, record_type_full,
  record_type_first, record_type_middle, record_type_last, op_type_delete, header_size,
  max_record_size,
}
use kevo.Wal.Device.{Device, Wal, Notice, wal_synced, Op, write, flush, sync_file}
use kevo.Wal.Exec.{pure, fail, lift, ◌>>◌}
use kevo.Wal.Batch.{encode_value}

abbrev pub new_wal : SyncMode → ℕ → Device → ℕ → Wal
new_wal mode sync_bytes device next_sequence = record {
  sync_mode = mode;
  sync_bytes = sync_bytes;
  device = device;
  next_sequence = next_sequence;
  bytes_written = length device.stream;
  batch_byte_size = 0;
  status = active;
  closed_flag = false;
  notices = [];
}

abbrev pub status_result : Status → Result (Unit {0})
status_result active = ok tt
status_result rotating = err wal_rotating
status_result closed = err wal_closed

-- The test of the status that most operations begin with.
unfoldable pub check_open : Op (Unit {0})
check_open w = (status_result w.status, w)

unfoldable pub notify : Notice → Op (Unit {0})
notify n w = (ok tt, record w { notices = w.notices ++ (n ∷ []) })

-- `syncLocked`; `w.nextSequence - 1` wraps as a uint64.
unfoldable pub sync_locked : Op (Unit {0})
unfolding check_open flush sync_file notify
sync_locked = do
  check_open
  flush
  sync_file
  λ w. (ok tt, record w { batch_byte_size = 0 })
  λ w. notify (wal_synced ((w.next_sequence + 2 ^ 64 - 1) % 2 ^ 64)) w

abbrev pub sync_due : SyncMode → ℕ → ℕ → Bool
sync_due sync_immediate pending limit = true
sync_due sync_batch pending limit = leb limit pending
sync_due sync_none pending limit = false

unfoldable pub maybe_sync : Op (Unit {0})
unfolding sync_locked
maybe_sync w =
    (if sync_due w.sync_mode w.batch_byte_size w.sync_bytes then sync_locked else pure tt) w

-- The header of a physical record: the checksum, the length in 16 bits and the record type.
unfoldable pub header : ℕ → Bytes → Bytes
header record_type payload =
    put_le 4 (checksum_ieee payload) ++ (put_le 2 (length payload) ++ (record_type ∷ []))

abbrev pub add_bytes : ℕ → Op (Unit {0})
add_bytes n w = (
  ok tt,
  record w { bytes_written = w.bytes_written + n; batch_byte_size = w.batch_byte_size + n },
)

-- The end that `writeRecord` and `writeRawRecord` share: header, payload, counters.
unfoldable pub emit : ℕ → Bytes → Op (Unit {0})
unfolding header write
emit record_type payload = do
  write (header record_type payload)
  write payload
  add_bytes (header_size + length payload)

-- The payload of an entry: type, sequence number, key with its length, value with its length.
abbrev pub payload_size : ℕ → Bytes → Option Bytes → ℕ
payload_size op key value =
    if op == op_type_delete
    then 1 + 8 + 4 + length key
    else 1 + 8 + 4 + length key + (4 + length (bytes_of value))

unfoldable pub encode_payload : ℕ → ℕ → Bytes → Option Bytes → Bytes
encode_payload op seq key value =
    op ∷ (put_le 8 seq ++ (put_le 4 (length key) ++ (key ++ encode_value op value)))

-- `writeRecord`
unfoldable pub write_record : ℕ → ℕ → ℕ → Bytes → Option Bytes → Op (Unit {0})
unfolding emit
write_record record_type op seq key value = do
  lift (require (leb (payload_size op key value) max_record_size) record_too_large)
  emit record_type (encode_payload op seq key value)

-- `writeRawRecord`
unfoldable pub write_raw_record : ℕ → Bytes → Op (Unit {0})
unfolding emit
write_raw_record record_type payload = do
  lift (require (leb (length payload) max_record_size) record_too_large)
  emit record_type payload

-- How much of the key the first fragment holds.
abbrev pub key_in_first : Bytes → ℕ
key_in_first key = min (length key) (max_record_size - 13)

unfoldable pub first_fragment : ℕ → ℕ → Bytes → Bytes
first_fragment op seq key =
    op ∷ (put_le 8 seq ++ (put_le 4 (length key) ++ take (key_in_first key) key))

unfoldable pub remaining_part : ℕ → Bytes → Option Bytes → Bytes
remaining_part op key value = drop (key_in_first key) key ++ encode_value op value

-- The loop over the rest of a fragmented entry; each round takes a whole record off it.
unfoldable pub write_fragments : ℕ → Bytes → Op (Unit {0})
write_fragments zero remaining = fail stuck
write_fragments (suc fuel) remaining = elim (ltb max_record_size (length remaining)) [
  | true ↦
      write_raw_record record_type_middle (take max_record_size remaining)
      >> write_fragments fuel (drop max_record_size remaining)
  | false ↦
      if ltb 0 (length remaining) then write_raw_record record_type_last remaining else pure tt
]

-- `writeFragmentedRecord`
unfoldable pub write_fragmented_record : ℕ → ℕ → Bytes → Option Bytes → Op (Unit {0})
write_fragmented_record op seq key value = do
  write_raw_record record_type_first (first_fragment op seq key)
  let remaining = remaining_part op key value
  write_fragments (suc (length remaining)) remaining

-- The choice between one record and several, which `Append` and `AppendWithSequence` make.
unfoldable pub write_entry : ℕ → ℕ → Bytes → Option Bytes → Op (Unit {0})
write_entry op seq key value =
    if leb (payload_size op key value) max_record_size
    then write_record record_type_full op seq key value
    else write_fragmented_record op seq key value
