-- ===== src/Wal/Batches.antt =====
-- The batches that are logged as one entry: what a replay makes of them.
use kevo.Base.{
  ℕ, ◌+◌, ◌^◌, ◌≤◌, ◌<◌, List, [], ◌∷◌, ◌++◌, none, some, ◌≡◌, refl, sym, ap, ◌∙◌, arith, map,
  append-nil, false, not,
}
use kevo.Base.{length, le→leb, lt→ltb, length-append}
use kevo.Base.Bytes.{Bytes}
use kevo.Wal.Types.{Entry, ok, max_record_size, record_type_full, op_type_batch}
use kevo.Wal.Device.{Wal}
use kevo.Wal.Exec.{Exec}
use kevo.Wal.Batch.{
  Batch, BatchOperation, serialize, size, operations_size, decode_batch, encode_operations,
  encode_operation,
}
use kevo.Wal.Codec.{AllEncodable, kept, decode-serialize, length-encode_operation}
use kevo.Wal.Write.{maybe_sync, payload_size, encode_payload}
use kevo.Wal.Log.{write_batch, next_u64}
use kevo.Wal.Frames.{frame, entry_frames}
use kevo.Wal.Writing.{wrote, write_record_lem}
use kevo.Wal.Appending.{IsReady, maybe_sync_lem, settle, settle-parts}
use kevo.Wal.Parsing.{IsLoggable, read_back}
use kevo.Wal.Replay.{no_stats, replay_file}
use kevo.Wal.Delivery.{frames_of, AllLoggable, deliver, clean_end}
use kevo.Wal.Durability.{replay-frames_of, frames_of-append, AllLoggable-append}

length-encode_operations :
    (os : List BatchOperation) → length (encode_operations os) ≡ operations_size os
unfolding encode_operations operations_size
length-encode_operations [] = refl
length-encode_operations (o ∷ os) = omega (
  arith,
  length-append (encode_operation o) (encode_operations os),
  length-encode_operation o,
  length-encode_operations os,
)

-- `Batch.Size` is the number of bytes that the encoding takes.
pub length-serialize : (b : Batch) → length (serialize b) ≡ size b
unfolding serialize size
length-serialize b = omega (arith, length-encode_operations b.operations)

abbrev pub batch_entry : Batch → ℕ → Entry
batch_entry b n = record {
  sequence_number = n;
  op = op_type_batch;
  key = serialize (record b { seq = n });
  value = none;
}

batch_size : (b : Batch) (n : ℕ) → size (record b { seq = n }) ≡ size b
unfolding size
batch_size b n = refl

batch_room :
    (b : Batch) (n : ℕ)
    → 17 + size b ≤ max_record_size
    → payload_size op_type_batch (serialize (record b { seq = n })) none ≤ max_record_size
batch_room b n fits = omega (arith, length-serialize (record b { seq = n }), batch_size b n)

entry_frames-batch :
    (b : Batch) (n : ℕ)
    → 17 + size b ≤ max_record_size
    → entry_frames (batch_entry b n)
      ≡ frame record_type_full
          (encode_payload op_type_batch n (serialize (record b { seq = n })) none)
unfolding entry_frames
entry_frames-batch b n fits = rw (
    le→leb (payload_size op_type_batch (serialize (record b { seq = n })) none) max_record_size
      (batch_room b n fits))

-- The log after the batch was written, before `maybeSync`.
abbrev pub batch_written_log : Batch → Wal → Wal
batch_written_log b w =
    wrote (record w { next_sequence = next_u64 w.next_sequence (length b.operations) })
      (entry_frames (batch_entry b w.next_sequence))

pub write_batch_lem :
    (b : Batch) (w w' : Wal)
    → w.device.faults ≡ []
    → w.closed_flag ≡ false
    → 0 < length b.operations
    → 17 + size b ≤ max_record_size
    → maybe_sync (batch_written_log b w) ≡ (ok tt, w')
    → write_batch b w ≡ (ok (record b { seq = w.next_sequence }), w')
unfolding write_batch
write_batch_lem b w w' sound flag pos fits synced =
    let n = w.next_sequence in
    let w1 = record w { next_sequence = next_u64 n (length b.operations) } in
    rw (
      lt→ltb 0 (length b.operations) pos,
      le→leb (size b) max_record_size (omega arith),
      ap not flag,
      write_record_lem record_type_full op_type_batch n (serialize (record b { seq = n })) none w1
          sound (batch_room b n fits),
      ← entry_frames-batch b n fits,
      synced,
    )

serialize-lt :
    (b : Batch) (n : ℕ)
    → 17 + size b ≤ max_record_size
    → length (serialize (record b { seq = n })) < 2 ^ 32
serialize-lt b n fits = omega (arith, length-serialize (record b { seq = n }), batch_size b n)

-- A batch of operations whose parts fit their fields, which fits one record and is written by
-- `Batch.Write` to an open log with sequence numbers left, survives: a replay of the log hands its
-- handler the entries `es` that the log held before and then one batch entry, and `DecodeBatch`
-- reads from that entry the operations of the batch, in order, with the sequence number that
-- `Batch.Write` returned (a nil value of a put comes back empty).
pub write_batch-replay :
    {S : Type 0} (handler : Entry → Exec S (Unit {0})) (es : List Entry) (b : Batch) (w : Wal)
    (s : S)
    → IsReady w
    → w.closed_flag ≡ false
    → w.device.stream ≡ frames_of es
    → AllLoggable es
    → AllEncodable b.operations
    → 0 < length b.operations
    → length b.operations < 2 ^ 32
    → 17 + size b ≤ max_record_size
    → w.next_sequence < 2 ^ 64
    → ((write_batch b w).0 ≡ ok (record b { seq = w.next_sequence }))
      × (replay_file handler (write_batch b w).1.device.stream s
          ≡ deliver handler
              (map read_back (es ++ (batch_entry b w.next_sequence ∷ [])))
              (clean_end handler)
              no_stats
              s)
      × (decode_batch (read_back (batch_entry b w.next_sequence))
          ≡ ok (record { operations = map kept b.operations; seq = w.next_sequence }))
write_batch-replay handler es b w s r flag holds old all pos many fits next =
    let n = w.next_sequence in
    let e = batch_entry b n in
    let w' = batch_written_log b w in
    let step =
      write_batch_lem b w (settle w') r.sound flag pos fits
        (maybe_sync_lem w' (record { is_open = r.is_open; sound = r.sound })) in
    let loggable : IsLoggable e = record {
      op_known = refl;
      seq_fits = next;
      key_fits = serialize-lt b n fits;
      value_fits = omega arith;
    } in
    (
      ap (λ q. q.0) step,
      ap (λ (z : Bytes). replay_file handler z s)
            (ap (λ q. q.1.device.stream) step
              ∙ (settle-parts w').0
              ∙ ap (λ (z : Bytes). z ++ entry_frames e) holds
              ∙ ap (λ (z : Bytes). frames_of es ++ z) (sym (append-nil (entry_frames e)))
              ∙ sym (frames_of-append es (e ∷ [])))
          ∙ replay-frames_of handler (es ++ (e ∷ [])) s
              (AllLoggable-append es (e ∷ []) old (loggable, tt)),
      decode-serialize (record b { seq = n }) n (some []) all many next,
    )
