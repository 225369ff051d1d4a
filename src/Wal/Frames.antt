-- ===== src/Wal/Frames.antt =====
-- The bytes that an entry takes in a log file: one record, or a chain of fragments.
use kevo.Base.{
  ℕ, zero, suc, ◌+◌, ◌≤◌, [], ◌∷◌, ◌++◌, Option, ◌≡◌, arith, true, false, append_assoc, sym, ap,
  ◌∙◌,
}
use kevo.Base.{
  length, take, drop, ltb, leb, if◌then◌else◌, length-append, length-take, take-append-drop,
}
use kevo.Base.Bytes.{Bytes, put_le}
use kevo.Wal.Types.{
  Entry, record_type_full, record_type_first, record_type_middle, record_type_last, max_record_size,
}
use kevo.Wal.Codec.{length-encode_value}
use kevo.Wal.Batch.{encode_value}
use kevo.Wal.Write.{
  header, payload_size, encode_payload, key_in_first, first_fragment, remaining_part,
}

-- A physical record.
abbrev pub frame : ℕ → Bytes → Bytes
frame record_type payload = header record_type payload ++ payload

pub length-frame : (t : ℕ) (payload : Bytes) → length (frame t payload) ≡ 7 + length payload
unfolding header
length-frame t payload = omega arith

-- The fragments behind the first.
unfoldable pub fragment_frames : ℕ → Bytes → Bytes
fragment_frames zero remaining = []
fragment_frames (suc fuel) remaining = elim (ltb max_record_size (length remaining)) [
  | true ↦
      frame record_type_middle (take max_record_size remaining)
      ++ fragment_frames fuel (drop max_record_size remaining)
  | false ↦ if ltb 0 (length remaining) then frame record_type_last remaining else []
]

unfoldable pub entry_frames : Entry → Bytes
entry_frames e =
    if leb (payload_size e.op e.key e.value) max_record_size
    then frame record_type_full (encode_payload e.op e.sequence_number e.key e.value)
    else (let remaining = remaining_part e.op e.key e.value in
        frame record_type_first (first_fragment e.op e.sequence_number e.key)
        ++ fragment_frames (suc (length remaining)) remaining)

pub length-encode_payload :
    (op seq : ℕ) (key : Bytes) (value : Option Bytes)
    → length (encode_payload op seq key value) ≡ payload_size op key value
unfolding encode_payload
length-encode_payload op seq key value =
    ground (arith, length-append key (encode_value op value), length-encode_value op value)

pub length-first_fragment :
    (op seq : ℕ) (key : Bytes) → length (first_fragment op seq key) ≤ max_record_size
unfolding first_fragment
length-first_fragment op seq key = omega (arith, length-take (key_in_first key) key)

-- The parts of a fragmented entry are its payload.
pub first-append-remaining :
    (op seq : ℕ) (key : Bytes) (value : Option Bytes)
    → first_fragment op seq key ++ remaining_part op key value ≡ encode_payload op seq key value
unfolding first_fragment remaining_part encode_payload
first-append-remaining op seq key value =
    ap (λ (z : Bytes). op ∷ (put_le 8 seq ++ (put_le 4 (length key) ++ z)))
      (sym (append_assoc (take k key) (drop k key) (encode_value op value))
        ∙ ap (λ (z : Bytes). z ++ encode_value op value) (take-append-drop k key))
  where
    k : ℕ
    k = key_in_first key
