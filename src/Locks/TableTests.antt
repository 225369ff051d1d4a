-- ===== src/Locks/TableTests.antt =====
-- Runs of the tables of locks, with the witnesses of their theorems.
use kevo.Base.{List, [], ◌∷◌, none, some, true, false, ◌≡◌, ◌≢◌, refl, ◌⊎◌}
use kevo.Base.{if◌then◌else◌}
use kevo.Base.Bytes.{Bytes}
use kevo.Common.Retry.{RetryConfig, returned, panicked, retry_with_config}
use kevo.Locks.Deadlocks.{lookup}
use kevo.Locks.Maps.{is_member}
use kevo.Locks.Table.{
  KeyLocks, new_locks, attempt, release_locks_and_unregister_tx, Action, registers, attempts,
  releases, detects, act_all, acquire_lock,
}
use kevo.Locks.Consistency.{has}
use kevo.Locks.Exclusion.{Consistent}
use kevo.Locks.Holding.{new-Consistent, act_all-Consistent, act_all-held, release-Freed}
use kevo.Locks.TimeOut.{acquire_lock-granted_to_nobody}

abbrev key : Bytes
key = 107 ∷ []

abbrev t1 : Bytes
t1 = 1 ∷ []

abbrev t2 : Bytes
t2 = 2 ∷ []

-- The first one acquires the key, the second one has to wait.
abbrev start : List Action
start = registers t1 true ∷ registers t2 false ∷ attempts key t1 0 ∷ attempts key t2 0 ∷ []

abbrev contended : KeyLocks
contended = act_all start new_locks

t1_holds : lookup contended.maps.holders key ≡ some t1
unfolding attempt
t1_holds = refl

t2_waits : lookup contended.maps.awaiting_tx_to_key t2 ≡ some key
unfolding attempt
t2_waits = refl

t1_known : is_member t1 contended.registry ≡ true
unfolding attempt
t1_known = refl

t2_known : is_member t2 contended.registry ≡ true
unfolding attempt
t2_known = refl

t2_unmarked : is_member t2 contended.maps.terminate_for_deadlock ≡ false
unfolding attempt
t2_unmarked = refl

t2_after_release :
    lookup (act_all (releases t1 ∷ attempts key t2 1 ∷ []) contended).maps.holders key ≡ some t2
unfolding attempt release_locks_and_unregister_tx
t2_after_release = refl

abbrev twice : RetryConfig
twice = record {
  max_retries = 2;
  initial_backoff = 10;
  max_backoff = 50;
  cap_total_wait_time = 1000;
}

nil_without_the_lock : (acquire_lock twice (λ i. 0) (λ i. []) [] key t2 contended).0 ≡ returned none
unfolding acquire_lock retry_with_config attempt
nil_without_the_lock = refl

contended-Consistent : Consistent contended
contended-Consistent = act_all-Consistent start new_locks new-Consistent

act_all-Consistent_example : Consistent (act_all start new_locks)
act_all-Consistent_example = act_all-Consistent start new_locks new-Consistent

abbrev more : List Action
more = attempts key t2 1 ∷ releases t2 ∷ detects t1 ∷ attempts key t1 0 ∷ []

act_all-held_example : lookup (act_all more contended).maps.holders key ≡ some t1
act_all-held_example =
    act_all-held key t1 more contended contended-Consistent (tt, (refl, (tt, (tt, tt)))) t1_holds

release-Freed_example :
    ((k : Bytes)
      → lookup (release_locks_and_unregister_tx t1 contended).maps.holders k
        ≡ (if has contended.maps t1 k then none else lookup contended.maps.holders k))
    × ((k : Bytes) → lookup (release_locks_and_unregister_tx t1 contended).maps.holders k ≢ some t1)
    × (is_member t1 (release_locks_and_unregister_tx t1 contended).registry ≡ false)
release-Freed_example = release-Freed t1 contended contended-Consistent t1_known

acquire_lock-granted_to_nobody_example :
    (((acquire_lock twice (λ i. 0) (λ i. []) [] key t2 contended).0 ≡ returned none)
      ⊎ ((acquire_lock twice (λ i. 0) (λ i. []) [] key t2 contended).0 ≡ panicked))
    × (lookup (acquire_lock twice (λ i. 0) (λ i. []) [] key t2 contended).1.maps.holders key
        ≡ some t1)
acquire_lock-granted_to_nobody_example =
    acquire_lock-granted_to_nobody twice (λ i. 0) [] key t2 t1 contended refl refl t2_known
      t2_unmarked t1_holds
