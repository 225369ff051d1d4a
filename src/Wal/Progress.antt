-- ===== src/Wal/Progress.antt =====
-- The loops of the reader and of the replay end on every input.
use kevo.Base.{
  ℕ, zero, suc, ◌+◌, ◌-◌, ◌≤◌, ◌<◌, List, [], ◌∷◌, ◌≡◌, ◌≢◌, ◌⊎◌, inl, inr, refl, arith, Bool, true,
  false, ◌&&◌, not, Bool-cases, ◌∙◌, ap, sym,
}
use kevo.Base.{length, take, drop, leb, le→leb, lt→leb, ltb, ◌==◌, length-drop, if◌then◌else◌}
use native.Mathlib.Decide.{dec_lt}
use native.Mathlib.Nat.{le_refl, le_trans}
use mathlib.Core.Bool.{false≢true}
use kevo.Base.Bytes.{Bytes}
use kevo.Wal.Types.{
  Entry, Error, Result, ok, err, stuck, eof, unexpected_eof, eof_in_fragments, too_many_corrupted,
}
use kevo.Wal.Exec.{Exec}
use kevo.Wal.Reader.{
  Reader, open_reader, read_payload, read_record, read_loop, read_entry, on_record, end_error,
}
use kevo.Wal.Replay.{
  RecoveryStats, no_stats, recovery_span, recover_from_corruption, is_corruption, skip_corruption,
  Rounds, after_recovery, after_entry, after_handler, replay_loop, replay_file,
}
use kevo.Wal.Keeping.{Keeps, read_payload-Keeps, handle_record-Keeps}
use kevo.Wal.Sanity.{IsSane, IsSane-ok, IsSane-err}

le_less : (n k : ℕ) → 7 ≤ n → k ≤ n - 7 → k ≤ n
le_less n k h i = omega arith

lt_less : (n k : ℕ) → 7 ≤ n → k ≤ n - 7 → k < n
lt_less n k h i = omega arith

lt_of_le_lt : {a b n : ℕ} → a ≤ b → b < n → a < n
lt_of_le_lt h k = omega arith

eof_ne : eof ≢ stuck
eof_ne p = cc

unexpected_ne : unexpected_eof ≢ stuck
unexpected_ne p = cc

-- An error that ends the replay.
abbrev pub ends_replay : {A : Type 0} → Result A → Bool
ends_replay (ok a) = false
ends_replay (err e) = not (is_corruption e)

recover_from_corruption_le :
    (r : Reader) → length (recover_from_corruption r).1.input ≤ length r.input
unfolding recover_from_corruption
recover_from_corruption_le r = elim (Bool-cases (leb recovery_span (length r.input))) [
  | inl e ↦ rw e (omega (arith, length-drop recovery_span r.input))
  | inr e ↦ rw e (omega arith)
]

too_many_ne : too_many_corrupted ≢ stuck
too_many_ne p = cc

-- What a read leaves of an input of `n` bytes: fewer, unless its error ends the replay.
pub record Reads {A : Type 0} (n : ℕ) (p : Result A × Reader) : Type 0 where
  pub ends : IsSane p.0
  pub le : length p.1.input ≤ n
  pub progress : (length p.1.input < n) ⊎ (ends_replay p.0 ≡ true)

-- Behind a header, whatever is read leaves fewer bytes.
header_taken : (r : Reader) → 7 ≤ length r.input → Reads (length r.input) (read_record r)
unfolding read_record
header_taken r h =
    let m = length r.input - 7 in
    let k : Keeps m (read_payload (take 7 r.input)) = read_payload-Keeps m (take 7 r.input) in
    let r' : Reader = record r { input = drop 7 r.input } in
    let fits : length r'.input ≤ m = omega (arith, length-drop 7 r.input) in
    rw (le→leb 7 (length r.input) h) (record {
      ends = k.ends r' fits;
      le = le_less (length r.input) _ h (k.le r' fits);
      progress = inl (lt_less (length r.input) _ h (k.le r' fits));
    })

no_header : (r : Reader) → length r.input < 7 → Reads (length r.input) (read_record r)
unfolding read_record
no_header r h = elim (Bool-cases (length r.input == 0)) [
  | inl e ↦
      rw (lt→leb (length r.input) 7 h, e)
        (record { ends = IsSane-err eof eof_ne; le = omega arith; progress = inr refl })
  | inr e ↦
      rw (lt→leb (length r.input) 7 h, e)
        (record {
          ends = IsSane-err unexpected_eof unexpected_ne;
          le = omega arith;
          progress = inr refl;
        })
]

read_record-Reads : (r : Reader) → Reads (length r.input) (read_record r)
read_record-Reads r = elim (dec_lt (length r.input) 7) [
  | yes h ↦ no_header r h
  | no h ↦ header_taken r (omega arith)
]

end_error_cases :
    (e : Error) (fs : List Bytes) → (end_error e fs ≡ e) ⊎ (end_error e fs ≡ eof_in_fragments)
end_error_cases eof [] = inl refl
end_error_cases eof (f ∷ fs) = inr refl
end_error_cases _ fs = inl refl

in_fragments_ne : eof_in_fragments ≢ stuck
in_fragments_ne p = cc

-- A Result at another type has the same error.
err_injective : {A : Type 0} (e x : Error) → ◌≡◌ {A = Result A} (err e) (err x) → e ≡ x
err_injective e x p = cc

err_retype : {A B : Type 0} (e : Error) → IsSane {A = A} (err e) → IsSane {A = B} (err e)
err_retype {B = B} e h = record { sane = λ p. h.sane (ap err (err_injective {A = B} e stuck p)) }

on_record-Reads :
    (n : ℕ) (next : Exec Reader Entry) (p : Result (ℕ × Bytes)) (r : Reader)
    → Reads n (p, r)
    → ((m : ℕ) → m < n → Keeps m next)
    → Reads n (on_record next p r)
on_record-Reads n next (ok p) r h k = elim h.progress [
  | inl lt ↦
      let keeps = handle_record-Keeps (length r.input) next p (k (length r.input) lt) in
      let left = keeps.le r (le_refl (length r.input)) in
      record {
        ends = keeps.ends r (le_refl (length r.input));
        le = le_trans left h.le;
        progress = inl (lt_of_le_lt left lt);
      }
  | inr e ↦ absurd (false≢true e)
]
on_record-Reads n next (err e) r h k = elim (end_error_cases e r.fragments) [
  | inl same ↦ rw same (record { ends = err_retype e h.ends; le = h.le; progress = h.progress })
  | inr other ↦ rw other (record {
    ends = IsSane-err eof_in_fragments in_fragments_ne;
    le = h.le;
    progress = inr refl;
  })
]

pub read_loop-Reads :
    (fuel : ℕ) (r : Reader) → length r.input < fuel → Reads (length r.input) (read_loop fuel r)
unfolding read_loop
read_loop-Reads zero r h = absurd (omega arith)
read_loop-Reads (suc fuel) r h =
    on_record-Reads (length r.input) (read_loop fuel) (read_record r).0 (read_record r).1
      (read_record-Reads r)
      (λ m lt. record {
        ends = λ s le. (read_loop-Reads fuel s (omega arith)).ends;
        le = λ s le. le_trans ((read_loop-Reads fuel s (omega arith)).le) le;
      })

-- `ReadEntry` ends on every input: its loop never runs out of fuel.
read_entry-Reads : (r : Reader) → Reads (length r.input) (read_entry r)
unfolding read_entry
read_entry-Reads r = read_loop-Reads (suc (length r.input)) r (omega arith)

module _ {S : Type 0} (handler : Entry → Exec S (Unit {0}))
    (sound : (e : Entry) (s : S) → IsSane (handler e s).0) where
  -- What a round may assume of those behind it: they end on fewer than `n` bytes.
  abbrev Ends : ℕ → Rounds handler → Type 0
  Ends n next =
      (r : Reader) (stats : RecoveryStats) (s : S) → length r.input < n → IsSane (next r stats s).0

  after_handler-IsSane :
      (n : ℕ) (next : Rounds handler) (u : Result (Unit {0})) (r : Reader) (stats : RecoveryStats)
      (s : S)
      → Ends n next
      → IsSane u
      → length r.input < n
      → IsSane (after_handler handler next u r stats s).0
  after_handler-IsSane n next (ok v) r stats s h k lt = h r _ s lt
  after_handler-IsSane n next (err e) r stats s h k lt = k

  after_recovery-IsSane :
      (n : ℕ) (next : Rounds handler) (found : Bool) (r : Reader) (stats : RecoveryStats) (s : S)
      → Ends n next
      → length r.input < n
      → IsSane (after_recovery handler next found r stats s).0
  after_recovery-IsSane n next true r stats s h lt = h r stats s lt
  after_recovery-IsSane n next false r stats s h lt = IsSane-ok tt

  skip_corruption-IsSane :
      (n : ℕ) (next : Rounds handler) (r : Reader) (stats : RecoveryStats) (s : S)
      → Ends n next
      → length r.input < n
      → IsSane (skip_corruption handler next r stats s).0
  unfolding skip_corruption
  skip_corruption-IsSane n next r stats s h lt =
      elim (Bool-cases (ltb 5 (stats.entries_skipped + 1) && stats.entries_processed == 0)) [
        | inl many ↦ rw many (IsSane-err too_many_corrupted too_many_ne)
        | inr few ↦ rw few (
            after_recovery-IsSane n next (recover_from_corruption r).0 (recover_from_corruption r).1
              (record stats { entries_skipped = stats.entries_skipped + 1 }) s h
              (lt_of_le_lt (recover_from_corruption_le r) lt))
      ]

  fail_or_skip :
      (n : ℕ) (next : Rounds handler) (e : Error) (r : Reader) (stats : RecoveryStats) (s : S)
      → Ends n next
      → Reads {A = Entry} n (err e, r)
      → IsSane
          (if is_corruption e then skip_corruption handler next r stats s else (err e, stats, s)).0
  fail_or_skip n next e r stats s h k = elim (Bool-cases (is_corruption e)) [
    | inl corrupt ↦
        rw corrupt (skip_corruption-IsSane n next r stats s h (shorter corrupt k.progress))
    | inr other ↦ rw other (err_retype e k.ends)
  ]
    where
      shorter :
          is_corruption e ≡ true
          → (length r.input < n) ⊎ (not (is_corruption e) ≡ true)
          → length r.input < n
      shorter corrupt (inl lt) = lt
      shorter corrupt (inr no_corruption) =
          absurd (false≢true (ap not (sym corrupt) ∙ no_corruption))

  after_entry-IsSane :
      (n : ℕ) (next : Rounds handler) (p : Result Entry) (r : Reader) (stats : RecoveryStats)
      (s : S)
      → Ends n next
      → Reads n (p, r)
      → IsSane (after_entry handler next p r stats s).0
  after_entry-IsSane n next (ok entry) r stats s h k = elim k.progress [
    | inl lt ↦
        after_handler-IsSane n next (handler entry s).0 r stats (handler entry s).1 h
          (sound entry s) lt
    | inr e ↦ absurd (false≢true e)
  ]
  after_entry-IsSane n next (err eof) r stats s h k = IsSane-ok tt
  after_entry-IsSane n next (err e) r stats s h k = fail_or_skip n next e r stats s h k

  replay_loop-Ends : (fuel : ℕ) → Ends fuel (replay_loop handler fuel)
  unfolding replay_loop
  replay_loop-Ends zero r stats s lt = absurd (omega arith)
  replay_loop-Ends (suc fuel) r stats s lt =
      after_entry-IsSane (length r.input) (replay_loop handler fuel) (read_entry r).0
        (read_entry r).1 stats s
        (λ r' stats' s' less. replay_loop-Ends fuel r' stats' s' (omega arith)) (read_entry-Reads r)

  -- Replaying a file ends on every sequence of bytes, corrupt or not, if the handler does: neither
  -- the loop of the replay nor the one of `ReadEntry` runs out of its fuel.
  pub replay_file-ne-stuck : (bytes : Bytes) (s : S) → (replay_file handler bytes s).0 ≢ err stuck
  unfolding replay_file
  replay_file-ne-stuck bytes s =
      (replay_loop-Ends (suc (length bytes)) (open_reader bytes) no_stats s (omega arith)).sane
