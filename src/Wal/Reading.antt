-- ===== src/Wal/Reading.antt =====
-- What the reader makes of the bytes of one entry.
use kevo.Wal.Parsing.{IsLoggable, read_back, parse-encode_payload}
use kevo.Base.{
  ℕ, zero, suc, ◌^◌, ◌≤◌, ◌<◌, List, [], ◌∷◌, ◌++◌, ◌≡◌, refl, sym, ap, ◌∙◌, arith, true, false,
  append_assoc, append-nil, inl, inr, Bool-cases, ◌&&◌,
}
use kevo.Base.{
  length, take, drop, ltb, leb, if◌then◌else◌, length-append, length-take, length-drop, take-append,
  drop-append, take-append-drop, le→leb, lt→ltb, ltb→lt, ltb→le, leb→le, leb→lt, ==_iff,
}
use mathlib.Core.List.{flatten}
use kevo.Base.Bytes.{Bytes, get-put_16, get-put_32, checksum_ieee, checksum_ieee-lt}
use kevo.Wal.Types.{
  Entry, ok, max_record_size, record_type_full, record_type_first, record_type_middle,
  record_type_last,
}
use kevo.Wal.Write.{header, payload_size, encode_payload, first_fragment, remaining_part}
use kevo.Wal.Parse.{parse_entry}
use kevo.Wal.Reader.{Reader, read_full, read_record, read_loop, read_entry, handle_record}
use kevo.Wal.Frames.{
  frame, fragment_frames, entry_frames, length-frame, length-first_fragment, length-encode_payload,
  first-append-remaining,
}

pub read_full_lem :
    (front rest : Bytes) (fs : List Bytes) (c n : ℕ)
    → n ≡ length front
    → read_full n (record { input = front ++ rest; fragments = fs; curr_type = c })
      ≡ (ok front, record { input = rest; fragments = fs; curr_type = c })
unfolding read_full
read_full_lem front rest fs c n h = rw (
  le→leb n (length (front ++ rest)) (omega (arith, length-append front rest)),
  take-append front rest n h,
  drop-append front rest n h,
)

pub read_record-frame :
    (t : ℕ) (payload rest : Bytes) (fs : List Bytes) (c : ℕ)
    → (leb record_type_full t && leb t record_type_last) ≡ true
    → length payload < 2 ^ 16
    → read_record (record { input = frame t payload ++ rest; fragments = fs; curr_type = c })
      ≡ (ok (t, payload), record { input = rest; fragments = fs; curr_type = c })
unfolding read_record header
read_record-frame t payload rest fs c known fits =
    let crc = checksum_ieee payload in
    rw (
      read_full_lem (header t payload) (payload ++ rest) fs c 7 refl,
      known,
      get-put_16 (length payload) fits,
      read_full_lem payload rest fs c (length payload) refl,
      get-put_32 crc (checksum_ieee-lt payload),
      (==_iff crc crc).1 refl,
    )

flatten-snoc :
    (fs : List Bytes) (chunk : Bytes) → flatten (fs ++ (chunk ∷ [])) ≡ flatten fs ++ chunk
unfolding flatten
flatten-snoc [] chunk = append-nil chunk
flatten-snoc (f ∷ fs) chunk =
    ap (λ (z : Bytes). f ++ z) (flatten-snoc fs chunk) ∙ sym (append_assoc f (flatten fs) chunk)

flatten-split :
    (fs : List Bytes) (k : ℕ) (bytes : Bytes)
    → flatten (fs ++ (take k bytes ∷ [])) ++ drop k bytes ≡ flatten fs ++ bytes
flatten-split fs k bytes =
    ap (λ (z : Bytes). z ++ drop k bytes) (flatten-snoc fs (take k bytes))
    ∙ append_assoc (flatten fs) (take k bytes) (drop k bytes)
    ∙ ap (λ (z : Bytes). flatten fs ++ z) (take-append-drop k bytes)

abbrev pub reader : Bytes → List Bytes → ℕ → Reader
reader input fs c = record { input = input; fragments = fs; curr_type = c }

-- A middle fragment joins those before it.
read_loop-middle :
    (fuel : ℕ) (chunk rest : Bytes) (fs : List Bytes) (c : ℕ)
    → 0 < length fs
    → length chunk < 2 ^ 16
    → read_loop (suc fuel) (reader (frame record_type_middle chunk ++ rest) fs c)
      ≡ read_loop fuel (reader rest (fs ++ (chunk ∷ [])) c)
unfolding read_loop handle_record
read_loop-middle fuel chunk rest fs c some_before fits = rw (
  read_record-frame record_type_middle chunk rest fs c refl fits,
  lt→ltb 0 (length fs) some_before,
)

-- The last one ends the entry.
read_loop-last :
    (fuel : ℕ) (chunk rest : Bytes) (fs : List Bytes) (c : ℕ)
    → 0 < length fs
    → length chunk < 2 ^ 16
    → read_loop (suc fuel) (reader (frame record_type_last chunk ++ rest) fs c)
      ≡ (parse_entry (flatten fs ++ chunk), reader rest [] c)
unfolding read_loop handle_record
read_loop-last fuel chunk rest fs c some_before fits = rw (
  read_record-frame record_type_last chunk rest fs c refl fits,
  lt→ltb 0 (length fs) some_before,
  flatten-snoc fs chunk,
)

read_loop-fragments :
    (n fuel : ℕ) (remaining rest : Bytes) (fs : List Bytes) (c : ℕ)
    → 0 < length fs
    → 0 < length remaining
    → length remaining < n
    → n ≤ fuel
    → read_loop fuel (reader (fragment_frames n remaining ++ rest) fs c)
      ≡ (parse_entry (flatten fs ++ remaining), reader rest [] c)
unfolding fragment_frames
read_loop-fragments zero fuel remaining rest fs c hf hr hn hk = absurd (omega arith)
read_loop-fragments (suc n) zero remaining rest fs c hf hr hn hk = absurd (omega arith)
read_loop-fragments (suc n) (suc fuel) remaining rest fs c hf hr hn hk =
    elim (Bool-cases (ltb max_record_size (length remaining))) [
      | inl more ↦
          let chunk = take max_record_size remaining in
          let left = drop max_record_size remaining in
          rw (more, fragment_frames)
            (rw (append_assoc (frame record_type_middle chunk) (fragment_frames n left) rest) (
              read_loop-middle fuel chunk (fragment_frames n left ++ rest) fs c hf
                (omega (arith, length-take max_record_size remaining))
              ∙ read_loop-fragments n fuel left rest (fs ++ (chunk ∷ [])) c
                  (omega (arith, length-append fs (chunk ∷ [])))
                  (omega (arith, length-drop max_record_size remaining, ltb→lt _ _ more))
                  (omega (arith, length-drop max_record_size remaining)) (omega arith)
              ∙ ap (λ (z : Bytes). (parse_entry z, reader rest [] c))
                  (flatten-split fs max_record_size remaining)))
      | inr last ↦
          rw (last, fragment_frames, lt→ltb 0 _ hr)
            (read_loop-last fuel remaining rest fs c hf (omega (arith, ltb→le _ _ last)))
    ]

-- Where an entry is split, something is left behind its first fragment.
remaining_pos :
    (e : Entry)
    → leb (payload_size e.op e.key e.value) max_record_size ≡ false
    → 0 < length (remaining_part e.op e.key e.value)
remaining_pos e many = omega (
  arith,
  leb→lt _ _ many,
  length-first_fragment e.op e.sequence_number e.key,
  length-encode_payload e.op e.sequence_number e.key e.value,
  length-append (first_fragment e.op e.sequence_number e.key) (remaining_part e.op e.key e.value),
  ap length (first-append-remaining e.op e.sequence_number e.key e.value),
)

length-fragment_frames :
    (n : ℕ) (remaining : Bytes)
    → length remaining < n
    → length remaining ≤ length (fragment_frames n remaining)
unfolding fragment_frames
length-fragment_frames zero remaining h = absurd (omega arith)
length-fragment_frames (suc n) remaining h =
    elim (Bool-cases (ltb max_record_size (length remaining))) [
      | inl more ↦
          rw (more, fragment_frames)
            (omega (
              arith,
              length-append (frame record_type_middle (take max_record_size remaining))
                  (fragment_frames n (drop max_record_size remaining)),
              length-frame record_type_middle (take max_record_size remaining),
              length-take max_record_size remaining,
              length-drop max_record_size remaining,
              ltb→lt _ _ more,
              length-fragment_frames n (drop max_record_size remaining)
                  (omega (arith, length-drop max_record_size remaining, ltb→lt _ _ more)),
            ))
      | inr last ↦
          rw (last, fragment_frames) (ground (arith, length-frame record_type_last remaining))
    ]

fuel_enough :
    (first left rest : Bytes)
    → suc (length left)
      ≤ length (frame record_type_first first ++ (fragment_frames (suc (length left)) left ++ rest))
fuel_enough first left rest = omega (
  arith,
  length-append (frame record_type_first first) (fragment_frames (suc (length left)) left ++ rest),
  length-frame record_type_first first,
  length-append (fragment_frames (suc (length left)) left) rest,
  length-fragment_frames (suc (length left)) left,
)

whole :
    (e : Entry)
    → IsLoggable e
    → parse_entry (
        flatten (first_fragment e.op e.sequence_number e.key ∷ [])
        ++ remaining_part e.op e.key e.value)
      ≡ ok (read_back e)
unfolding flatten
whole e v =
    ap (λ (z : Bytes). parse_entry (z ++ remaining_part e.op e.key e.value))
      (append-nil (first_fragment e.op e.sequence_number e.key))
    ∙ ap parse_entry (first-append-remaining e.op e.sequence_number e.key e.value)
    ∙ parse-encode_payload e v

-- The type that the reader remembers of the first fragment.
abbrev pub type_after : Entry → ℕ → ℕ
type_after e c = if leb (payload_size e.op e.key e.value) max_record_size then c else e.op

-- A record of type `full` is an entry by itself.
pub read_entry-full :
    (payload rest : Bytes) (c : ℕ)
    → length payload < 2 ^ 16
    → read_entry (reader (frame record_type_full payload ++ rest) [] c)
      ≡ (parse_entry payload, reader rest [] c)
unfolding read_entry handle_record
read_entry-full payload rest c fits =
    rw (read_record-frame record_type_full payload rest [] c refl fits)

read_entry-first :
    (op seq : ℕ) (key rest : Bytes) (c : ℕ)
    → read_entry (reader (frame record_type_first (first_fragment op seq key) ++ rest) [] c)
      ≡ read_loop
          (length (frame record_type_first (first_fragment op seq key) ++ rest))
          (reader rest (first_fragment op seq key ∷ []) op)
unfolding read_entry handle_record first_fragment
read_entry-first op seq key rest c = rw (
    read_record-frame record_type_first (first_fragment op seq key) rest [] c refl
      (omega (arith, length-first_fragment op seq key)))

-- From the bytes of a loggable entry, whatever follows them, `ReadEntry` returns the entry and
-- stands behind them: one record, or a first fragment with those that follow.
pub read_entry-frames :
    (e : Entry) (rest : Bytes) (c : ℕ)
    → IsLoggable e
    → read_entry (reader (entry_frames e ++ rest) [] c)
      ≡ (ok (read_back e), reader rest [] (type_after e c))
unfolding entry_frames
read_entry-frames e rest c v =
    elim (Bool-cases (leb (payload_size e.op e.key e.value) max_record_size)) [
      | inl one ↦
          rw (one, entry_frames)
            (read_entry-full (encode_payload e.op e.sequence_number e.key e.value) rest c (
                omega (
                  arith,
                  leb→le _ _ one,
                  length-encode_payload e.op e.sequence_number e.key e.value,
                ))
              ∙ ap (λ r. (r, reader rest [] c)) (parse-encode_payload e v))
      | inr many ↦
          rw (many, entry_frames)
            (let first = first_fragment e.op e.sequence_number e.key in
              let left = remaining_part e.op e.key e.value in
              let n = suc (length left) in
              rw (append_assoc (frame record_type_first first) (fragment_frames n left) rest) (
                read_entry-first e.op e.sequence_number e.key (fragment_frames n left ++ rest) c
                ∙ read_loop-fragments n
                    (length (frame record_type_first first ++ (fragment_frames n left ++ rest)))
                    left rest (first ∷ []) e.op (omega arith) (remaining_pos e many) (omega arith)
                    (fuel_enough first left rest)
                ∙ ap (λ r. (r, reader rest [] e.op)) (whole e v)))
    ]
