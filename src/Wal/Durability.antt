-- ===== src/Wal/Durability.antt =====
-- A replay of the bytes that appends have written hands their entries to the handler, in order.
use kevo.Base.{
  ℕ, suc, ◌+◌, ◌-◌, ◌^◌, ◌≤◌, ◌<◌, List, [], ◌∷◌, ◌++◌, Option, ◌≡◌, refl, sym, ap, ◌∙◌, arith, map,
  append_assoc, append-nil, true, ◌||◌, Bool-cases, inl, inr,
}
use kevo.Base.{length, length-append, leb, ◌==◌}
use kevo.Base.Bytes.{Bytes}
use kevo.Wal.Types.{
  Entry, ok, bytes_of, max_record_size, op_type_put, op_type_delete, op_type_merge, op_type_batch,
  record_type_full, record_type_first,
}
use kevo.Wal.Exec.{Exec, pure, ◌>>=◌}
use kevo.Wal.Device.{Wal, Op, entry_written}
use kevo.Wal.Write.{payload_size, encode_payload, first_fragment, remaining_part}
use kevo.Wal.Log.{append, is_append_op, next_u64}
use kevo.Wal.Frames.{frame, fragment_frames, entry_frames, length-frame}
use kevo.Wal.Writing.{wrote}
use kevo.Wal.Appending.{IsReady, settle-parts, append_lem, appended, noticed}
use kevo.Wal.Parsing.{read_back}
use kevo.Wal.Reader.{read_record, read_entry}
use kevo.Wal.Replay.{no_stats, replay_loop, replay_file}
use kevo.Wal.Delivery.{
  frames_of, AllLoggable, types_after, Last, deliver, clean_end, replay_loop-deliver,
}

length-entry_frames_pos : (e : Entry) → 0 < length (entry_frames e)
unfolding entry_frames
length-entry_frames_pos e =
    elim (Bool-cases (leb (payload_size e.op e.key e.value) max_record_size)) [
      | inl one ↦ rw one (
          omega (
            arith,
            length-frame record_type_full (encode_payload e.op e.sequence_number e.key e.value),
          ))
      | inr many ↦
          let first = frame record_type_first (first_fragment e.op e.sequence_number e.key) in
          let left = remaining_part e.op e.key e.value in
          rw many (
            omega (
              arith,
              length-append first (fragment_frames (suc (length left)) left),
              length-frame record_type_first (first_fragment e.op e.sequence_number e.key),
            ))
    ]

length-le-frames_of : (es : List Entry) → length es ≤ length (frames_of es)
length-le-frames_of [] = omega arith
length-le-frames_of (e ∷ es) = omega (
  arith,
  length-append (entry_frames e) (frames_of es),
  length-entry_frames_pos e,
  length-le-frames_of es,
)

module _ {S : Type 0} (handler : Entry → Exec S (Unit {0})) where
  -- Behind the whole entries the replay goes on with at least one round.
  pub replay_file-tail :
      (es : List Entry) (tail : Bytes) (s : S)
      → AllLoggable es
      → (k : ℕ) × (replay_file handler (frames_of es ++ tail) s
          ≡ deliver handler
              (map read_back es)
              (replay_loop handler
                (suc k)
                (record { input = tail; fragments = []; curr_type = types_after es 0 }))
              no_stats
              s)
  unfolding replay_file
  replay_file-tail es tail s v =
      let bytes : Bytes = frames_of es ++ tail in
      (
        length bytes - length es,
        replay_loop-deliver handler es (suc (length bytes)) (suc (length bytes - length es)) tail 0
            no_stats s v (omega (arith, length-append (frames_of es) tail, length-le-frames_of es)),
      )

  replay_loop-empty :
      (k c : ℕ)
      → replay_loop handler (suc k) (record { input = []; fragments = []; curr_type = c })
        ≡ clean_end handler
  unfolding replay_loop read_entry read_record
  replay_loop-empty k c = refl

  pub replay-frames_of :
      (es : List Entry) (s : S)
      → AllLoggable es
      → replay_file handler (frames_of es) s
        ≡ deliver handler (map read_back es) (clean_end handler) no_stats s
  replay-frames_of es s v =
      let (k, p) = replay_file-tail es [] s v in
      ap (λ (z : Bytes). replay_file handler z s) (sym (append-nil (frames_of es)))
      ∙ p
      ∙ ap (λ (l : Last handler). deliver handler (map read_back es) l no_stats s)
          (replay_loop-empty k (types_after es 0))

-- What a client asks the log to append.
pub record Request : Type 0 where
  pub op : ℕ
  pub key : Bytes
  pub value : Option Bytes

-- The client appends one request after the other, and keeps the sequence numbers.
unfoldable pub append_requests : List Request → Op (List ℕ)
append_requests [] = pure []
append_requests (q ∷ qs) = do
  seq ← append q.op q.key q.value
  seqs ← append_requests qs
  pure (seq ∷ seqs)

abbrev pub entry_of : ℕ → Request → Entry
entry_of n q = record { sequence_number = n; op = q.op; key = q.key; value = q.value }

abbrev pub entries_from : ℕ → List Request → List Entry
entries_from n [] = []
entries_from n (q ∷ qs) = entry_of n q ∷ entries_from (n + 1) qs

abbrev pub numbers_from : ℕ → List Request → List ℕ
numbers_from n [] = []
numbers_from n (q ∷ qs) = n ∷ numbers_from (n + 1) qs

-- A request that `Append` takes, and whose parts fit their fields.
pub record IsSound (q : Request) : Type 0 where
  pub op_known : is_append_op q.op ≡ true
  pub key_fits : length q.key < 2 ^ 32
  pub value_fits : length (bytes_of q.value) < 2 ^ 32

abbrev pub AllSound : List Request → Type 0
AllSound [] = Unit {0}
AllSound (q ∷ qs) = IsSound q × AllSound qs

known→loggable :
    (op : ℕ)
    → is_append_op op ≡ true
    → (op == op_type_put || op == op_type_delete || op == op_type_merge || op == op_type_batch)
      ≡ true
known→loggable op h = ground arith

entries_from-AllLoggable :
    (n : ℕ) (qs : List Request)
    → AllSound qs
    → n + length qs < 2 ^ 64
    → AllLoggable (entries_from n qs)
entries_from-AllLoggable n [] v h = tt
entries_from-AllLoggable n (q ∷ qs) v h = (
  record {
    op_known = known→loggable q.op v.0.op_known;
    seq_fits = omega arith;
    key_fits = v.0.key_fits;
    value_fits = v.0.value_fits;
  },
  entries_from-AllLoggable (n + 1) qs v.1 (omega arith),
)

wrap_free : (n : ℕ) → n + 1 < 2 ^ 64 → next_u64 n 1 ≡ n + 1
wrap_free n h = omega arith

append_requests_step :
    (q : Request) (qs : List Request) (w w' : Wal) (n : ℕ) (seqs : List ℕ)
    → append q.op q.key q.value w ≡ (ok n, w')
    → (append_requests qs w').0 ≡ ok seqs
    → append_requests (q ∷ qs) w ≡ (ok (n ∷ seqs), (append_requests qs w').1)
unfolding append_requests
append_requests_step q qs w w' n seqs h k = rw (h, k)

pub append_requests_lem :
    (qs : List Request) (w : Wal)
    → IsReady w
    → AllSound qs
    → w.next_sequence + length qs < 2 ^ 64
    → ((append_requests qs w).0 ≡ ok (numbers_from w.next_sequence qs))
      × ((append_requests qs w).1.device.stream
          ≡ w.device.stream ++ frames_of (entries_from w.next_sequence qs))
unfolding append_requests
append_requests_lem [] w r v h = (refl, sym (append-nil w.device.stream))
append_requests_lem (q ∷ qs) w r v h =
    let n = w.next_sequence in
    let e = entry_of n q in
    let w' = appended w e (next_u64 n 1) in
    let (stream', n', open', sound') = settle-parts (
      noticed (wrote (record w { next_sequence = next_u64 n 1 }) (entry_frames e))
        (entry_written e)) in
    let next : w'.next_sequence ≡ n + 1 = n' ∙ wrap_free n (omega arith) in
    let ih =
      append_requests_lem qs w' (record { is_open = open' ∙ r.is_open; sound = sound' ∙ r.sound })
        v.1 (omega arith) in
    let step =
      append_requests_step q qs w w' n (numbers_from w'.next_sequence qs)
        (append_lem q.op q.key q.value w r v.0.op_known) ih.0 in
    (
      ap (λ p. p.0) step ∙ ap (λ k. ok (n ∷ numbers_from k qs)) next,
      ap (λ p. p.1.device.stream) step
          ∙ ih.1
          ∙ ap (λ (z : Bytes). z ++ frames_of (entries_from w'.next_sequence qs)) stream'
          ∙ append_assoc w.device.stream (entry_frames e)
              (frames_of (entries_from w'.next_sequence qs))
          ∙ ap (λ k. w.device.stream ++ (entry_frames e ++ frames_of (entries_from k qs))) next,
    )

pub frames_of-append : (xs ys : List Entry) → frames_of (xs ++ ys) ≡ frames_of xs ++ frames_of ys
frames_of-append [] ys = refl
frames_of-append (x ∷ xs) ys =
    ap (λ (z : Bytes). entry_frames x ++ z) (frames_of-append xs ys)
    ∙ sym (append_assoc (entry_frames x) (frames_of xs) (frames_of ys))

pub AllLoggable-append :
    (xs ys : List Entry) → AllLoggable xs → AllLoggable ys → AllLoggable (xs ++ ys)
AllLoggable-append [] ys v w = w
AllLoggable-append (x ∷ xs) ys v w = (v.0, AllLoggable-append xs ys v.1 w)

-- On an open log that holds the entries `es`, with a device that does not fail and sequence numbers
-- left, requests that `Append` takes get consecutive sequence numbers, and a replay of the log's
-- bytes hands its handler the entries `es` and then one entry for each request, in order, each as
-- the reader gives it back (a nil value of a put is empty). The replay skips nothing, and ends
-- without an error where the handler never fails. This holds of entries of any size, fragmented
-- ones included.
pub append_requests-replay :
    {S : Type 0} (handler : Entry → Exec S (Unit {0})) (es : List Entry) (qs : List Request)
    (w : Wal) (s : S)
    → IsReady w
    → w.device.stream ≡ frames_of es
    → AllLoggable es
    → AllSound qs
    → w.next_sequence + length qs < 2 ^ 64
    → ((append_requests qs w).0 ≡ ok (numbers_from w.next_sequence qs))
      × (replay_file handler (append_requests qs w).1.device.stream s
          ≡ deliver handler
              (map read_back (es ++ entries_from w.next_sequence qs))
              (clean_end handler)
              no_stats
              s)
append_requests-replay handler es qs w s r holds old new h =
    let fresh = entries_from w.next_sequence qs in
    let (numbers, stream') = append_requests_lem qs w r new h in
    (
      numbers,
      ap (λ (z : Bytes). replay_file handler z s)
            (stream'
              ∙ ap (λ (z : Bytes). z ++ frames_of fresh) holds
              ∙ sym (frames_of-append es fresh))
          ∙ replay-frames_of handler (es ++ fresh) s
              (AllLoggable-append es fresh old (entries_from-AllLoggable w.next_sequence qs new h)),
    )
