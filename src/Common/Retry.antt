-- ===== src/Common/Retry.antt =====
-- pkg/common/retry/retry.go. Durations are numbers of nanoseconds; a negative number of retries
-- counts as 0. What others do while the loop sleeps changes the state, too.
use kevo.Base.{ℕ, zero, suc, ◌+◌, ◌-◌, ◌/◌, ◌%◌, ◌&&◌, ◌||◌, Option, none, some, Bool}
use kevo.Base.{ltb, ◌==◌, if◌then◌else◌}
use Prim.Native.Nat.{min}

pub record RetryConfig : Type 0 where
  pub max_retries : ℕ
  pub initial_backoff : ℕ
  pub max_backoff : ℕ
  pub cap_total_wait_time : ℕ

-- `DefaultRetryConfig`
abbrev pub default_retry_config : RetryConfig
default_retry_config = record {
  max_retries = 3;
  initial_backoff = 5000000;
  max_backoff = 50000000;
  cap_total_wait_time = 50000000;
}

-- The error or nil; ErrRetryFailedBecauseOfInvalidConfig; the panic of Int63n at 0; a loop that
-- goes on.
pub data Outcome (E : Type 0) : Type 0 where
  returned : (e : Option E) → Outcome E
  invalid_config panicked endless : Outcome E

-- `random` gives the numbers behind Int63n, `during` what happens in the sleep of a round.
module _ {S E : Type 0} (config : RetryConfig) (operation : S → Option E × S)
    (is_retryable : E → Bool) (random : ℕ → ℕ) (during : ℕ → S → S) where
  -- A round of the loop, from its counter, its backoff and the time waited so far.
  abbrev pub Rounds : Type 0
  Rounds = ℕ → ℕ → ℕ → S → Outcome E × S

  -- The sleep of a round, if there is time left.
  abbrev pub sleep : Rounds → Rounds
  sleep next i backoff waited s =
      if backoff == 0
      then (returned none, s)
      else next (i + 1) backoff (waited + backoff) (during i s)

  -- The backoff with its jitter and its two limits.
  abbrev pub longer : ℕ → ℕ → ℕ
  longer i backoff = min (backoff + random i % (backoff / 10)) config.max_backoff

  abbrev pub capped : ℕ → ℕ → ℕ
  capped backoff waited =
      if ltb config.cap_total_wait_time (waited + backoff)
      then config.cap_total_wait_time - waited
      else backoff

  abbrev pub wait : Rounds → Rounds
  wait next i backoff waited s =
      if backoff / 10 == 0
      then (panicked, s)
      else sleep next i (capped (longer i backoff) waited) waited s

  abbrev pub after_operation : Rounds → ℕ → ℕ → ℕ → Option E × S → Outcome E × S
  after_operation next i backoff waited (none, s) = (returned none, s)
  after_operation next i backoff waited (some e, s) =
      if is_retryable e then wait next i backoff waited s else (returned (some e), s)

  unfoldable pub retry_loop : ℕ → Rounds
  retry_loop zero i backoff waited s = (endless, s)
  retry_loop (suc fuel) i backoff waited s =
      if ltb i config.max_retries || config.max_retries == 0
      then after_operation (retry_loop fuel) i backoff waited (operation s)
      else (returned none, s)

  -- `RetryWithConfig`: a round that is not the last sleeps for a nanosecond at least.
  unfoldable pub retry_with_config : S → Outcome E × S
  unfolding retry_loop
  retry_with_config s =
      if config.cap_total_wait_time == 0 && config.max_retries == 0
      then (invalid_config, s)
      else retry_loop (config.cap_total_wait_time + 1) 0 config.initial_backoff 0 s
