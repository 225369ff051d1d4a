-- ===== src/Common/Tests.antt =====
-- Runs of the retry loop, with the witnesses of its theorems.
use kevo.Base.{ℕ, ◌+◌, ◌≡◌, ◌≢◌, refl, ◌⊎◌, Option, none, some, Bool, true, ltb, if◌then◌else◌}
use kevo.Common.Retry.{
  RetryConfig, default_retry_config, returned, panicked, endless, retry_with_config,
}
use kevo.Common.Exhaustion.{retry_with_config-ne-endless, retry_with_config-exhausted}

-- An operation that counts its calls and fails, and one that succeeds the second time.
abbrev refuses : ℕ → Option Bool × ℕ
refuses n = (some true, n + 1)

abbrev succeeds_second : ℕ → Option Bool × ℕ
succeeds_second n = (if ltb n 1 then some true else none, n + 1)

abbrev retryable : Bool → Bool
retryable b = b

abbrev twice : RetryConfig
twice = record {
  max_retries = 2;
  initial_backoff = 10;
  max_backoff = 50;
  cap_total_wait_time = 1000;
}

nil_after_two_failures :
    retry_with_config twice refuses retryable (λ i. 0) (λ i n. n) 0 ≡ (returned none, 2)
unfolding retry_with_config
nil_after_two_failures = refl

nil_after_a_success :
    retry_with_config twice succeeds_second retryable (λ i. 0) (λ i n. n) 0 ≡ (returned none, 2)
unfolding retry_with_config
nil_after_a_success = refl

a_short_backoff_panics :
    retry_with_config (record twice { initial_backoff = 9 }) refuses retryable (λ i. 0) (λ i n. n) 0
    ≡ (panicked, 1)
unfolding retry_with_config
a_short_backoff_panics = refl

retry_with_config-ne-endless_example :
    (retry_with_config default_retry_config refuses retryable (λ i. i) (λ i n. n) 0).0 ≢ endless
retry_with_config-ne-endless_example =
    retry_with_config-ne-endless default_retry_config refuses retryable (λ i. i) (λ i n. n) 0

abbrev Reached : ℕ → Type 0
Reached n = Unit

refuses-fails :
    (n : ℕ)
    → Reached n
    → (e : Bool) × (n' : ℕ) × (refuses n ≡ (some e, n')) × (retryable e ≡ true) × Reached n'
refuses-fails n u = (true, n + 1, refl, refl, tt)

retry_with_config-exhausted_example :
    (((retry_with_config default_retry_config refuses retryable (λ i. i) (λ i n. n) 0).0
        ≡ returned none)
      ⊎ ((retry_with_config default_retry_config refuses retryable (λ i. i) (λ i n. n) 0).0
          ≡ panicked))
    × Reached (retry_with_config default_retry_config refuses retryable (λ i. i) (λ i n. n) 0).1
retry_with_config-exhausted_example =
    retry_with_config-exhausted default_retry_config refuses retryable (λ i. i) (λ i n. n) Reached 0
      refl refuses-fails (λ i n u. u) tt
