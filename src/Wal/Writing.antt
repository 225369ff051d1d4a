-- ===== src/Wal/Writing.antt =====
-- What the writing operations do on a device that does not fail.
use kevo.Base.{
  ℕ, zero, suc, ◌+◌, ◌≤◌, ◌<◌, [], ◌++◌, Option, ◌≡◌, ap, ◌∙◌, arith, append_assoc, append-nil, inl,
  inr, Bool-cases,
}
use kevo.Base.{
  length, take, drop, ltb, leb, length-append, length-take, length-drop, le→leb, ltb→lt, ltb→le,
  leb→le,
}
use kevo.Base.Bytes.{Bytes}
use kevo.Wal.Types.{
  ok, Entry, max_record_size, record_type_full, record_type_first, record_type_middle,
  record_type_last,
}
use kevo.Wal.Device.{Wal}
use kevo.Wal.Write.{
  header, emit, payload_size, encode_payload, first_fragment, remaining_part, write_record,
  write_raw_record, write_fragments, write_fragmented_record, write_entry,
}
use kevo.Wal.Frames.{frame, fragment_frames, entry_frames, length-frame, length-first_fragment}

-- The log with `bytes` behind its stream and counted.
abbrev pub wrote : Wal → Bytes → Wal
wrote w bytes = record w {
  device = record w.device { stream = w.device.stream ++ bytes };
  bytes_written = w.bytes_written + length bytes;
  batch_byte_size = w.batch_byte_size + length bytes;
}

pub emit_lem :
    (t : ℕ) (payload : Bytes) (w : Wal)
    → w.device.faults ≡ []
    → emit t payload w ≡ (ok tt, wrote w (frame t payload))
unfolding emit
emit_lem t payload w h =
    ground (arith, append_assoc w.device.stream (header t payload) payload, length-frame t payload)

pub wrote-wrote : (w : Wal) (a b : Bytes) → wrote (wrote w a) b ≡ wrote w (a ++ b)
wrote-wrote w a b = ground (arith, append_assoc w.device.stream a b, length-append a b)

pub write_raw_record_lem :
    (t : ℕ) (payload : Bytes) (w : Wal)
    → w.device.faults ≡ []
    → length payload ≤ max_record_size
    → write_raw_record t payload w ≡ (ok tt, wrote w (frame t payload))
unfolding write_raw_record
write_raw_record_lem t payload w h fits = rw (le→leb _ _ fits) (emit_lem t payload w h)

pub write_record_lem :
    (t op seq : ℕ) (key : Bytes) (value : Option Bytes) (w : Wal)
    → w.device.faults ≡ []
    → payload_size op key value ≤ max_record_size
    → write_record t op seq key value w
      ≡ (ok tt, wrote w (frame t (encode_payload op seq key value)))
unfolding write_record
write_record_lem t op seq key value w h fits =
    rw (le→leb _ _ fits) (emit_lem t (encode_payload op seq key value) w h)

pub write_fragments_lem :
    (fuel : ℕ) (remaining : Bytes) (w : Wal)
    → w.device.faults ≡ []
    → length remaining < fuel
    → write_fragments fuel remaining w ≡ (ok tt, wrote w (fragment_frames fuel remaining))
unfolding write_fragments fragment_frames
write_fragments_lem zero remaining w h enough = absurd (omega arith)
write_fragments_lem (suc fuel) remaining w h enough =
    elim (Bool-cases (ltb max_record_size (length remaining))) [
      | inl more ↦
          let chunk = take max_record_size remaining in
          let left = drop max_record_size remaining in
          let w' = wrote w (frame record_type_middle chunk) in
          rw (more, write_fragments, fragment_frames)
            (rw
              (write_raw_record_lem record_type_middle chunk w h
                (omega (arith, length-take max_record_size remaining)))
              (write_fragments_lem fuel left w' h
                  (omega (arith, length-drop max_record_size remaining, ltb→lt _ _ more))
                ∙ ap (λ v. (ok tt, v))
                    (wrote-wrote w (frame record_type_middle chunk) (fragment_frames fuel left))))
      | inr last ↦
          rw (last, write_fragments, fragment_frames)
            (elim (Bool-cases (ltb 0 (length remaining))) [
              | inl more ↦
                  rw more (write_raw_record_lem record_type_last remaining w h (ltb→le _ _ last))
              | inr done ↦ rw done (ground (arith, append-nil w.device.stream))
            ])
    ]

pub write_entry_lem :
    (e : Entry) (w : Wal)
    → w.device.faults ≡ []
    → write_entry e.op e.sequence_number e.key e.value w ≡ (ok tt, wrote w (entry_frames e))
unfolding write_entry entry_frames write_fragmented_record
write_entry_lem e w h = elim (Bool-cases (leb (payload_size e.op e.key e.value) max_record_size)) [
  | inl one ↦
      rw one (
        write_record_lem record_type_full e.op e.sequence_number e.key e.value w h (leb→le _ _ one))
  | inr many ↦
      let first = first_fragment e.op e.sequence_number e.key in
      let left = remaining_part e.op e.key e.value in
      rw many (
        rw
          (write_raw_record_lem record_type_first first w h
            (length-first_fragment e.op e.sequence_number e.key))
          (write_fragments_lem (suc (length left)) left (wrote w (frame record_type_first first)) h
              (omega arith)
            ∙ ap (λ v. (ok tt, v))
                (wrote-wrote w (frame record_type_first first)
                  (fragment_frames (suc (length left)) left))))
]
