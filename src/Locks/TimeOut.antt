-- ===== src/Locks/TimeOut.antt =====
-- AcquireLock of pkg/locks/locks.go when its waiting comes to an end.
use kevo.Base.{
  ℕ, ◌+◌, List, [], ◌∷◌, ◌++◌, none, some, Bool, true, false, ◌&&◌, ◌==◌, ltb, ◌≡◌, refl, ap, ◌∙◌,
  inl, inr, ◌⊎◌,
}
use kevo.Base.{if◌then◌else◌}
use kevo.Base.Bytes.{Bytes}
use kevo.Base.Strings.{same}
use kevo.Common.Retry.{RetryConfig, Outcome, returned, panicked, retry_with_config}
use kevo.Common.Exhaustion.{retry_with_config-exhausted}
use kevo.Locks.Deadlocks.{lookup}
use kevo.Locks.Maps.{is_member}
use kevo.Locks.Table.{
  KeyLocks, AcquireError, failed_to_acquire_lock, is_failed_to_acquire_lock, enqueue, add_awaiting,
  is_free_for, attempt, Action, meanwhile, finish, acquire_lock,
}

-- A registered transaction that is not marked waits for a key of another.
pub record Waits (key tx other : Bytes) (l : KeyLocks) : Type 0 where
  pub known : is_member tx l.registry ≡ true
  pub unmarked : is_member tx l.maps.terminate_for_deadlock ≡ false
  pub held : lookup l.maps.holders key ≡ some other

module _ (key tx other : Bytes) (apart : same tx other ≡ false) where
  enqueue-Waits :
      (count : ℕ) (l : KeyLocks) → Waits key tx other l → Waits key tx other (enqueue count tx l)
  enqueue-Waits count l w = by (ltb 1 count)
    where
      by :
          (b : Bool) → Waits key tx other (if b then record l { jobs = l.jobs ++ (tx ∷ []) } else l)
      by true = record { known = w.known; unmarked = w.unmarked; held = w.held }
      by false = w

  attempt-refused :
      (count : ℕ) (l : KeyLocks)
      → Waits key tx other l
      → attempt key tx (count, l)
        ≡ (some failed_to_acquire_lock, (count + 1, add_awaiting key tx (enqueue count tx l)))
  unfolding attempt
  attempt-refused count l w =
      let taken : is_free_for tx (lookup l.maps.holders key) ≡ false =
        ap (is_free_for tx) w.held ∙ apart in
      rw (w.known, w.unmarked, taken) refl

  refused :
      (s : ℕ × KeyLocks)
      → Waits key tx other s.1
      → (e : AcquireError) × (s' : ℕ × KeyLocks) × (attempt key tx s ≡ (some e, s'))
        × (is_failed_to_acquire_lock e ≡ true)
        × Waits key tx other s'.1
  refused (count, l) w =
      let w' = enqueue-Waits count l w in
      (
        failed_to_acquire_lock,
        _,
        attempt-refused count l w,
        refl,
        record { known = w'.known; unmarked = w'.unmarked; held = w'.held },
      )

  finish-kept :
      (last : List Action) (o : Outcome AcquireError) (s : ℕ × KeyLocks)
      → (o ≡ returned none) ⊎ (o ≡ panicked)
      → finish tx last (o, s) ≡ (o, s.1)
  finish-kept last o (n, l) (inl h) = rw h refl
  finish-kept last o (n, l) (inr h) = rw h refl

-- If a registered transaction that is not marked waits for a key of another, and nobody does
-- anything, AcquireLock answers nil, or Int63n panics, and the other still holds the key. The
-- configuration has a limit.
pub acquire_lock-granted_to_nobody :
    (config : RetryConfig) (random : ℕ → ℕ) (last : List Action) (key tx other : Bytes)
    (l : KeyLocks)
    → (config.cap_total_wait_time == 0 && config.max_retries == 0) ≡ false
    → same tx other ≡ false
    → is_member tx l.registry ≡ true
    → is_member tx l.maps.terminate_for_deadlock ≡ false
    → lookup l.maps.holders key ≡ some other
    → (((acquire_lock config random (λ i. []) last key tx l).0 ≡ returned none)
        ⊎ ((acquire_lock config random (λ i. []) last key tx l).0 ≡ panicked))
      × (lookup (acquire_lock config random (λ i. []) last key tx l).1.maps.holders key
          ≡ some other)
unfolding acquire_lock
acquire_lock-granted_to_nobody config random last key tx other l valid apart known unmarked held =
    let quiet : ℕ → ℕ × KeyLocks → ℕ × KeyLocks = meanwhile (λ i. []) in
    let r =
      retry_with_config config (attempt key tx) is_failed_to_acquire_lock random quiet (0, l) in
    let (ends, w) =
      retry_with_config-exhausted config (attempt key tx) is_failed_to_acquire_lock random quiet
        (λ s. Waits key tx other s.1) (0, l) valid (refused key tx other apart) (λ i s w. w)
        (record { known = known; unmarked = unmarked; held = held }) in
    let kept = finish-kept key tx other apart last r.0 r.1 ends in
    (rw kept ends, ap (λ x. lookup x.1.maps.holders key) kept ∙ w.held)
