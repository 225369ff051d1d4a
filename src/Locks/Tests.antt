-- ===== src/Locks/Tests.antt =====
-- Runs of the detection and the choice, with the witness of their theorem.
use kevo.Base.{◌≡◌, refl, [], ◌∷◌, none, some}
use kevo.Base.{if◌then◌else◌}
use kevo.Base.Bytes.{Bytes}
use kevo.Base.Strings.{same}
use kevo.Locks.Deadlocks.{
  Locks, detect, detect_deadlock, Waits, deadlock, no_deadlock, detect_deadlock_cycle,
}
use kevo.Locks.Victims.{Chooses, detect_deadlock-Chooses}

abbrev t1 : Bytes
t1 = 1 ∷ []

abbrev t2 : Bytes
t2 = 2 ∷ []

abbrev t3 : Bytes
t3 = 3 ∷ []

-- The first transaction waits for the second, and the second and the third for each other.
abbrev tangled : Waits
tangled n =
    if same n t1
    then some t2
    else if same n t2
    then some t3
    else if same n t3
    then some t2
    else none

start_outside_cycle : detect_deadlock_cycle tangled 3 t1 ≡ deadlock (t2 ∷ t3 ∷ [])
unfolding detect_deadlock_cycle
start_outside_cycle = refl

start_on_cycle : detect_deadlock_cycle tangled 3 t2 ≡ deadlock (t3 ∷ t2 ∷ [])
unfolding detect_deadlock_cycle
start_on_cycle = refl

does_not_wait : detect_deadlock_cycle tangled 3 (9 ∷ []) ≡ no_deadlock
unfolding detect_deadlock_cycle
does_not_wait = refl

abbrev k1 : Bytes
k1 = 101 ∷ []

abbrev k2 : Bytes
k2 = 102 ∷ []

abbrev k3 : Bytes
k3 = 103 ∷ []

-- t1 waits for a key of t2, and t2 and t3, who holds two keys, for each other's.
abbrev busy : Locks
busy = record {
  awaiting_tx_to_key = (t1, k1) ∷ (t2, k2) ∷ (t3, k1) ∷ [];
  holders = (k1, t2) ∷ (k2, t3) ∷ (k3, t3) ∷ [];
  tx_to_keys = (t2, k1 ∷ []) ∷ (t3, k2 ∷ k3 ∷ []) ∷ [];
  terminate_for_deadlock = [];
}

the_one_with_one_lock : (detect_deadlock busy t1).0 ≡ some t2
unfolding detect_deadlock detect_deadlock_cycle
the_one_with_one_lock = refl

detect_deadlock-Chooses_example : Chooses busy t1 (detect busy t1) (detect_deadlock busy t1)
detect_deadlock-Chooses_example = detect_deadlock-Chooses busy t1
