-- ===== src/Wal/BatchLoss.antt =====
-- What becomes of a batch that `AppendBatch` logs, when the log is replayed.
use kevo.Base.{
  ℕ, suc, ◌+◌, ◌^◌, ◌≤◌, ◌<◌, List, [], ◌∷◌, ◌++◌, Option, none, some, ◌≡◌, refl, ap, ◌∙◌, arith,
  map, append-nil,
}
use kevo.Base.{length, lt→leb}
use kevo.Base.Bytes.{Bytes, get-put_32}
use kevo.Wal.Types.{
  Entry, ok, err, Result, corrupt_record, record_type_full, op_type_put, op_type_delete,
  max_record_size,
}
use kevo.Wal.Exec.{Exec}
use kevo.Wal.Device.{Wal, batch_written}
use kevo.Wal.Write.{notify, payload_size, encode_payload}
use kevo.Wal.Log.{append_batch, batch_header, write_batch_entry, write_batch_entries, next_u64}
use kevo.Wal.Frames.{frame}
use kevo.Wal.Writing.{wrote, wrote-wrote, write_raw_record_lem, write_record_lem}
use kevo.Wal.Appending.{IsReady, check_open_lem, maybe_sync_lem, settle, settle-parts, noticed}
use kevo.Wal.Parsing.{read_back}
use kevo.Wal.Parse.{parse_entry}
use kevo.Wal.Reading.{reader, read_entry-full}
use kevo.Wal.Replay.{
  RecoveryStats, no_stats, recover_from_corruption, skip_corruption, replay_loop, replay_file,
  recovery_span,
}
use kevo.Wal.Delivery.{frames_of, AllLoggable, types_after, Last, resume, deliver}
use kevo.Wal.Durability.{replay_file-tail}

-- The type under which `AppendBatch` logs an entry.
abbrev pub logged_op : Option Bytes → ℕ
logged_op none = op_type_delete
logged_op (some v) = op_type_put

abbrev pub batch_frames : ℕ → ℕ → List Entry → Bytes
batch_frames start i [] = []
batch_frames start i (e ∷ es) =
    frame record_type_full (encode_payload (logged_op e.value) (next_u64 start i) e.key e.value)
    ++ batch_frames start (i + 1) es

-- Each entry fits one record: `AppendBatch` does not split entries.
abbrev pub AllFit : List Entry → Type 0
AllFit [] = Unit {0}
AllFit (e ∷ es) = (payload_size (logged_op e.value) e.key e.value ≤ max_record_size) × AllFit es

write_batch_entry_lem :
    (seq : ℕ) (key : Bytes) (value : Option Bytes) (w : Wal)
    → w.device.faults ≡ []
    → payload_size (logged_op value) key value ≤ max_record_size
    → write_batch_entry seq key value w
      ≡ (ok tt, wrote w (frame record_type_full (encode_payload (logged_op value) seq key value)))
unfolding write_batch_entry
write_batch_entry_lem seq key none w h fits =
    write_record_lem record_type_full op_type_delete seq key none w h fits
write_batch_entry_lem seq key (some v) w h fits =
    write_record_lem record_type_full op_type_put seq key (some v) w h fits

pub write_batch_entries_lem :
    (start i : ℕ) (es : List Entry) (w : Wal)
    → w.device.faults ≡ []
    → AllFit es
    → write_batch_entries start i es w ≡ (ok tt, wrote w (batch_frames start i es))
unfolding write_batch_entries
write_batch_entries_lem start i [] w h fits = ground (arith, append-nil w.device.stream)
write_batch_entries_lem start i (e ∷ es) w h fits =
    let front =
      frame record_type_full
        (encode_payload (logged_op e.value) (next_u64 start i) e.key e.value) in
    rw (write_batch_entry_lem (next_u64 start i) e.key e.value w h fits.0) (
      write_batch_entries_lem start (i + 1) es (wrote w front) h fits.1
      ∙ ap (λ v. (ok tt, v)) (wrote-wrote w front (batch_frames start (i + 1) es)))

-- The header is taken for an entry whose key is as long as the batch has entries.
parse-batch_header :
    (start n : ℕ) → 0 < n → n < 2 ^ 32 → parse_entry (batch_header start n) ≡ err corrupt_record
unfolding parse_entry
parse-batch_header start n pos fits = rw (get-put_32 n fits, lt→leb 13 (13 + n) (omega arith))

-- The log after a batch was appended.
abbrev pub batch_appended : Wal → Entry → List Entry → Wal
batch_appended w e es =
    let n = length (e ∷ es) in
    let start = w.next_sequence in
    let bytes = frame record_type_full (batch_header start n) ++ batch_frames start 0 (e ∷ es) in
    settle (
      noticed (record (wrote w bytes) { next_sequence = next_u64 start n })
        (batch_written start (e ∷ es)))

pub append_batch_lem :
    (e : Entry) (es : List Entry) (w : Wal)
    → IsReady w
    → AllFit (e ∷ es)
    → append_batch (e ∷ es) w ≡ (ok w.next_sequence, batch_appended w e es)
unfolding append_batch notify
append_batch_lem e es w r fits =
    let n = length (e ∷ es) in
    let start = w.next_sequence in
    let head = frame record_type_full (batch_header start n) in
    let body = batch_frames start 0 (e ∷ es) in
    let w' = record (wrote (wrote w head) body) { next_sequence = next_u64 start n } in
    rw
      (
        check_open_lem w r.is_open,
        write_raw_record_lem record_type_full (batch_header start n) w r.sound (omega arith),
        write_batch_entries_lem start 0 (e ∷ es) (wrote w head) r.sound fits,
        maybe_sync_lem (noticed w' (batch_written start (e ∷ es)))
            (record { is_open = r.is_open; sound = r.sound }),
      )
      (ap
        (λ v. (
          ok start,
          settle (
              noticed (record v { next_sequence = next_u64 start n })
                (batch_written start (e ∷ es))),
        ))
        (wrote-wrote w head body))

module _ {S : Type 0} (handler : Entry → Exec S (Unit {0})) where
  -- The replay ends at the batch, without an error, and counts one skipped entry.
  abbrev pub lost_end : Last handler
  lost_end stats s = (ok tt, record stats { entries_skipped = 1 }, s)

  -- A delivery looks at its end only with no entry skipped, if it began so.
  deliver_cong :
      (l m : Last handler)
      → ((stats : RecoveryStats) (s : S) → stats.entries_skipped ≡ 0 → l stats s ≡ m stats s)
      → (es : List Entry) (stats : RecoveryStats) (s : S) → stats.entries_skipped ≡ 0
      → deliver handler es l stats s ≡ deliver handler es m stats s
  deliver_cong l m h [] stats s z = h stats s z
  deliver_cong l m h (e ∷ es) stats s z = resumed (handler e s).0 (deliver_cong l m h es)
    where
      resumed :
          (u : Result (Unit {0}))
          → ((stats : RecoveryStats) (s : S)
              → stats.entries_skipped ≡ 0
              → deliver handler es l stats s ≡ deliver handler es m stats s)
          → resume handler (deliver handler es l) u stats (handler e s).1
            ≡ resume handler (deliver handler es m) u stats (handler e s).1
      resumed (ok u) ih = ih _ (handler e s).1 z
      resumed (err x) ih = refl

  replay_loop-batch :
      (start n k c : ℕ) (body : Bytes) (stats : RecoveryStats) (s : S)
      → 0 < n
      → n < 2 ^ 32
      → length body < recovery_span
      → stats.entries_skipped ≡ 0
      → replay_loop handler
          (suc k)
          (reader (frame record_type_full (batch_header start n) ++ body) [] c)
          stats
          s
        ≡ lost_end stats s
  unfolding replay_loop skip_corruption recover_from_corruption
  replay_loop-batch start n k c body stats s pos fits small z =
      rw
        (
          read_entry-full (batch_header start n) body c (omega arith),
          parse-batch_header start n pos fits,
          lt→leb (length body) recovery_span small,
        )
        (ground arith)

  -- A batch of entries that `AppendBatch` accepts on an open log is lost when the log is replayed:
  -- if the bytes of its entries are fewer than 32 KB and nothing follows them, the handler gets the
  -- entries `es` that the log held before, and none of the batch; the replay ends without an error
  -- and counts one skipped entry.
  pub append_batch-lost :
      (es : List Entry) (e : Entry) (batch : List Entry) (w : Wal) (s : S)
      → IsReady w
      → w.device.stream ≡ frames_of es
      → AllLoggable es
      → AllFit (e ∷ batch)
      → length (e ∷ batch) < 2 ^ 32
      → length (batch_frames w.next_sequence 0 (e ∷ batch)) < recovery_span
      → ((append_batch (e ∷ batch) w).0 ≡ ok w.next_sequence)
        × (replay_file handler (append_batch (e ∷ batch) w).1.device.stream s
            ≡ deliver handler (map read_back es) lost_end no_stats s)
  append_batch-lost es e batch w s r holds old fits count small =
      let start = w.next_sequence in
      let n = length (e ∷ batch) in
      let tail =
        frame record_type_full (batch_header start n) ++ batch_frames start 0 (e ∷ batch) in
      let (k, p) = replay_file-tail handler es tail s old in
      let step = append_batch_lem e batch w r fits in
      (
        ap (λ q. q.0) step,
        ap (λ (z : Bytes). replay_file handler z s)
              (ap (λ q. q.1.device.stream) step
                ∙ (settle-parts (
                    noticed (record (wrote w tail) { next_sequence = next_u64 start n })
                      (batch_written start (e ∷ batch)))).0
                ∙ ap (λ (z : Bytes). z ++ tail) holds)
            ∙ p
            ∙ deliver_cong (replay_loop handler (suc k) (reader tail [] (types_after es 0)))
                lost_end
                (λ stats s' z.
                  replay_loop-batch start n k (types_after es 0) (batch_frames start 0 (e ∷ batch))
                    stats s' (omega arith) count small z)
                (map read_back es) no_stats s refl,
      )
