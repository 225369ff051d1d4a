-- ===== src/Common/Exhaustion.antt =====
-- How the loop of pkg/common/retry/retry.go ends.
use kevo.Base.{ℕ, zero, suc, ◌+◌, ◌/◌, ◌≤◌, ◌<◌, ◌≡◌, ◌≢◌, refl, sym, ap, ◌∙◌, arith, inl, inr, ◌⊎◌}
use kevo.Base.{◌&&◌, ◌||◌, Option, none, some, Bool, true, false, ltb, ◌==◌, Bool-cases}
use std.Path.{subst}
use mathlib.Core.Bool.{false≢true}
use kevo.Common.Retry.{
  RetryConfig, Outcome, returned, panicked, endless, sleep, longer, capped, wait, after_operation,
  retry_loop, retry_with_config,
}

module _ {S E : Type 0} (config : RetryConfig) (operation : S → Option E × S)
    (is_retryable : E → Bool) (random : ℕ → ℕ) (during : ℕ → S → S) where
  abbrev cap : ℕ
  cap = config.cap_total_wait_time

  abbrev limited : ℕ → ℕ → ℕ
  limited = capped config operation is_retryable random during

  limited-le : (backoff waited : ℕ) → waited ≤ cap → waited + limited backoff waited ≤ cap
  limited-le backoff waited h = ground arith

  -- A predicate of the ends of the loop, if it is one of each way to end.
  module _ (P : Outcome E → S → Type 0) (I : S → Type 0)
      (stops : (s : S) → I s → P (returned none) s) (panics : (s : S) → I s → P panicked s)
      (fails : (s : S) (e : E) (s' : S)
        → I s
        → operation s ≡ (some e, s')
        → is_retryable e ≡ false
        → P (returned (some e)) s')
      (succeeds : (s s' : S) → I s → operation s ≡ (none, s') → P (returned none) s')
      (goes_on : (s : S) (e : E) (s' : S) → I s → operation s ≡ (some e, s') → I s')
      (sleeps : (i : ℕ) (s : S) → I s → I (during i s)) where
    abbrev End : Outcome E × S → Type 0
    End r = P r.0 r.1

    -- A round behind `waited` nanoseconds ends so if `fuel` is enough.
    abbrev Ends : (ℕ → ℕ → ℕ → S → Outcome E × S) → ℕ → Type 0
    Ends next fuel =
        (i backoff waited : ℕ) (s : S)
        → I s
        → waited ≤ cap
        → cap < waited + fuel
        → End (next i backoff waited s)

    abbrev slept : (ℕ → ℕ → ℕ → S → Outcome E × S) → ℕ → ℕ → ℕ → S → Outcome E × S
    slept next = sleep config operation is_retryable random during next

    sleep-Ends :
        (next : ℕ → ℕ → ℕ → S → Outcome E × S) (fuel : ℕ)
        → Ends next fuel
        → (i backoff waited : ℕ) (s : S) → I s
        → waited + backoff ≤ cap
        → cap < waited + suc fuel
        → End (slept next i backoff waited s)
    sleep-Ends next fuel h i backoff waited s inv le lt = elim (Bool-cases (backoff == 0)) [
      | inl e ↦ rw e (stops s inv)
      | inr e ↦
          let positive : 0 < backoff = ground arith in
          rw e (h (i + 1) backoff (waited + backoff) (during i s) (sleeps i s inv) le (omega arith))
    ]

    wait-Ends :
        (next : ℕ → ℕ → ℕ → S → Outcome E × S) (fuel : ℕ)
        → Ends next fuel
        → (i backoff waited : ℕ) (s : S) → I s
        → waited ≤ cap
        → cap < waited + suc fuel
        → End (wait config operation is_retryable random during next i backoff waited s)
    wait-Ends next fuel h i backoff waited s inv le lt = elim (Bool-cases (backoff / 10 == 0)) [
      | inl e ↦ rw e (panics s inv)
      | inr e ↦
          let next_backoff = longer config operation is_retryable random during i backoff in
          rw e (
            sleep-Ends next fuel h i (limited next_backoff waited) waited s inv
              (limited-le next_backoff waited le) lt)
    ]

    after_operation-Ends :
        (next : ℕ → ℕ → ℕ → S → Outcome E × S) (fuel : ℕ)
        → Ends next fuel
        → (i backoff waited : ℕ) (s : S) → I s
        → waited ≤ cap
        → cap < waited + suc fuel
        → (r : Option E × S) → operation s ≡ r
        → End (after_operation config operation is_retryable random during next i backoff waited r)
    after_operation-Ends next fuel h i backoff waited s inv le lt (none, s') q = succeeds s s' inv q
    after_operation-Ends next fuel h i backoff waited s inv le lt (some e, s') q =
        elim (Bool-cases (is_retryable e)) [
          | inl t ↦ rw t (wait-Ends next fuel h i backoff waited s' (goes_on s e s' inv q) le lt)
          | inr t ↦ rw t (fails s e s' inv q t)
        ]

    retry_loop-Ends :
        (fuel : ℕ) → Ends (retry_loop config operation is_retryable random during fuel) fuel
    unfolding retry_loop
    retry_loop-Ends zero i backoff waited s inv le lt = absurd (omega arith)
    retry_loop-Ends (suc fuel) i backoff waited s inv le lt =
        elim (Bool-cases (ltb i config.max_retries || config.max_retries == 0)) [
          | inl t ↦ rw t (
              after_operation-Ends (retry_loop config operation is_retryable random during fuel)
                fuel (retry_loop-Ends fuel) i backoff waited s inv le lt (operation s) refl)
          | inr t ↦ rw t (stops s inv)
        ]

    pub retry_with_config-Ends :
        (s : S)
        → I s
        → (cap == 0 && config.max_retries == 0) ≡ false
        → End (retry_with_config config operation is_retryable random during s)
    unfolding retry_with_config
    retry_with_config-Ends s inv valid =
        rw valid
          (retry_loop-Ends (cap + 1) 0 config.initial_backoff 0 s inv (omega arith) (omega arith))

  -- The loop of RetryWithConfig ends, whatever the operation, the jitter and the other clients do.
  pub retry_with_config-ne-endless :
      (s : S) → (retry_with_config config operation is_retryable random during s).0 ≢ endless
  unfolding retry_with_config
  retry_with_config-ne-endless s = elim (Bool-cases (cap == 0 && config.max_retries == 0)) [
    | inl t ↦ rw t (λ h. absurd (cc))
    | inr t ↦
        retry_with_config-Ends (λ o s. o ≢ endless) (λ s. Unit) (λ s i h. absurd (cc))
          (λ s i h. absurd (cc)) (λ s e s' i q r h. absurd (cc)) (λ s s' i q h. absurd (cc))
          (λ s e s' i q. tt) (λ i s u. tt) s tt t
  ]

  abbrev is_retried : Option E → Bool
  is_retried none = false
  is_retried (some e) = is_retryable e

  -- If the operation always fails with an error that is retried, RetryWithConfig does not answer
  -- that error but nil, unless Int63n panics. `I` holds of all states on the way.
  pub retry_with_config-exhausted :
      (I : S → Type 0) (s : S)
      → (cap == 0 && config.max_retries == 0) ≡ false
      → ((s : S)
          → I s
          → (e : E) × (s' : S) × (operation s ≡ (some e, s')) × (is_retryable e ≡ true) × I s')
      → ((i : ℕ) (s : S) → I s → I (during i s))
      → I s
      → (((retry_with_config config operation is_retryable random during s).0 ≡ returned none)
          ⊎ ((retry_with_config config operation is_retryable random during s).0 ≡ panicked))
        × I (retry_with_config config operation is_retryable random during s).1
  retry_with_config-exhausted I s valid refused kept inv =
      retry_with_config-Ends (λ o s. ((o ≡ returned none) ⊎ (o ≡ panicked)) × I s) I
        (λ s i. (inl refl, i)) (λ s i. (inr refl, i))
        (λ s e s' i q r.
          let (x, s2, p, t, j) = refused s i in
          absurd (false≢true (sym r ∙ ap (λ o. is_retried o.0) (sym q ∙ p) ∙ t)))
        (λ s s' i q.
          let (x, s2, p, t, j) = refused s i in
          absurd (false≢true (ap (λ o. is_retried o.0) (sym q ∙ p) ∙ t)))
        (λ s e s' i q. let (x, s2, p, t, j) = refused s i in subst I (ap (λ o. o.1) (sym p ∙ q)) j)
        kept s inv valid
