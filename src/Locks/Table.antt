-- ===== src/Locks/Table.antt =====
-- The tables of pkg/locks/locks.go. Its mutex makes each method one step, and so each attempt of
-- AcquireLock; what the others do between its attempts is an argument.
use kevo.Base.{ℕ, ◌+◌, List, [], ◌∷◌, ◌++◌, Option, none, some, Bool, true, false, ltb}
use kevo.Base.{if◌then◌else◌}
use kevo.Base.Bytes.{Bytes}
use kevo.Base.Strings.{same}
use kevo.Common.Retry.{
  RetryConfig, Outcome, returned, invalid_config, panicked, endless, retry_with_config,
}
use kevo.Locks.Deadlocks.{Locks, lookup, or_empty, detect_deadlock}
use kevo.Locks.Maps.{assign, remove, is_member, insert_member, delete_member, is_empty}

-- `maps` are the four maps that the detection reads. A callback is only whether it is nil;
-- `called` are the transactions whose callback was called, `jobs` the requests for a detection.
pub record KeyLocks : Type 0 where
  pub registry : List Bytes
  pub on_release : List (Bytes × Bool)
  pub maps : Locks
  pub awaiting_locks : List (Bytes × List Bytes)
  pub jobs : List Bytes
  pub called : List Bytes

-- `NewLocks`
abbrev pub new_locks : KeyLocks
new_locks = record {
  registry = [];
  on_release = [];
  maps = record {
    awaiting_tx_to_key = [];
    holders = [];
    tx_to_keys = [];
    terminate_for_deadlock = [];
  };
  awaiting_locks = [];
  jobs = [];
  called = [];
}

-- The set that a key maps to; a missing key reads as an empty one.
abbrev pub members : Option (List Bytes) → List Bytes
members none = []
members (some keys) = keys

-- `addToLockLocked`
abbrev pub add_to_lock : Bytes → Bytes → Locks → Locks
add_to_lock key tx m = record m {
  holders = assign key tx m.holders;
  tx_to_keys = assign tx (insert_member key (members (lookup m.tx_to_keys tx))) m.tx_to_keys;
}

-- Removes a member of the set that `k` maps to, and the set when it is empty then.
abbrev pub drop_member :
    Bytes → Bytes → Option (List Bytes) → List (Bytes × List Bytes) → List (Bytes × List Bytes)
drop_member k member none sets = sets
drop_member k member (some keys) sets =
    if is_empty (delete_member member keys)
    then remove k sets
    else assign k (delete_member member keys) sets

-- `removeFromLockLocked`
abbrev pub remove_from_lock : Bytes → Bytes → Locks → Locks
remove_from_lock key tx m = record m {
  holders = remove key m.holders;
  tx_to_keys = drop_member tx key (lookup m.tx_to_keys tx) m.tx_to_keys;
}

-- `addAwaitingLocked`
abbrev pub add_awaiting : Bytes → Bytes → KeyLocks → KeyLocks
add_awaiting key tx l = record l {
  awaiting_locks =
      assign key (insert_member tx (members (lookup l.awaiting_locks key))) l.awaiting_locks;
  maps = record l.maps { awaiting_tx_to_key = assign tx key l.maps.awaiting_tx_to_key };
}

-- `removeAwaitingLocked`
abbrev pub remove_awaiting : Bytes → Bytes → KeyLocks → KeyLocks
remove_awaiting key tx l = record l {
  awaiting_locks = drop_member key tx (lookup l.awaiting_locks key) l.awaiting_locks;
  maps = record l.maps { awaiting_tx_to_key = remove tx l.maps.awaiting_tx_to_key };
}

-- `RegisterTx`
abbrev pub register_tx : Bytes → Bool → KeyLocks → KeyLocks
register_tx tx callback l = record l {
  registry = insert_member tx l.registry;
  on_release = assign tx callback l.on_release;
}

-- ErrFailedToAcquireLock, ErrTerminatingToResolveDeadlock and
-- ErrTransactionNotRegisteredAsKVLock.
pub data AcquireError : Type 0 where
  failed_to_acquire_lock terminating_to_resolve_deadlock not_registered : AcquireError

-- `!ok || txID == owningTxID`
abbrev pub is_free_for : Bytes → Option Bytes → Bool
is_free_for tx none = true
is_free_for tx (some owner) = same tx owner

abbrev pub enqueue : ℕ → Bytes → KeyLocks → KeyLocks
enqueue count tx l = if ltb 1 count then record l { jobs = l.jobs ++ (tx ∷ []) } else l

abbrev pub take_lock : Bytes → Bytes → KeyLocks → KeyLocks
take_lock key tx l = remove_awaiting key tx (record l { maps = add_to_lock key tx l.maps })

-- One attempt of `AcquireLock`, with the count of those that failed.
unfoldable pub attempt : Bytes → Bytes → ℕ × KeyLocks → Option AcquireError × (ℕ × KeyLocks)
attempt key tx (count, l) =
    let l' = enqueue count tx l in
    if is_member tx l.registry
    then if is_member tx l.maps.terminate_for_deadlock
      then (some terminating_to_resolve_deadlock, (count, l'))
      else if is_free_for tx (lookup l.maps.holders key)
      then (none, (count, take_lock key tx l'))
      else (some failed_to_acquire_lock, (count + 1, add_awaiting key tx l'))
    else (some not_registered, (count, l))

-- The loop of `ReleaseLocksAndUnregisterTx`.
abbrev pub remove_from_locks : List Bytes → Bytes → Locks → Locks
remove_from_locks [] tx m = m
remove_from_locks (key ∷ keys) tx m = remove_from_locks keys tx (remove_from_lock key tx m)

abbrev pub call_back : Option Bool → Bytes → KeyLocks → KeyLocks
call_back (some true) tx l = record l { called = l.called ++ (tx ∷ []) }
call_back (some false) tx l = l
call_back none tx l = l

abbrev pub unregister : Bytes → KeyLocks → KeyLocks
unregister tx l = record l {
  maps = record l.maps { terminate_for_deadlock = delete_member tx l.maps.terminate_for_deadlock };
  registry = delete_member tx l.registry;
}

-- `ReleaseLocksAndUnregisterTx`
unfoldable pub release_locks_and_unregister_tx : Bytes → KeyLocks → KeyLocks
release_locks_and_unregister_tx tx l =
    let keys = members (lookup l.maps.tx_to_keys tx) in
    let released : KeyLocks = record l { maps = remove_from_locks keys tx l.maps } in
    let key = or_empty (lookup released.maps.awaiting_tx_to_key tx) in
    if is_member tx l.registry
    then call_back (lookup l.on_release tx) tx (unregister tx (remove_awaiting key tx released))
    else l

-- What a client or the detection does to the tables, as one step.
pub data Action : Type 0 where
  registers : (tx : Bytes) (callback : Bool) → Action
  attempts : (key tx : Bytes) (count : ℕ) → Action
  releases : (tx : Bytes) → Action
  detects : (start : Bytes) → Action

abbrev pub act : Action → KeyLocks → KeyLocks
act (registers tx callback) l = register_tx tx callback l
act (attempts key tx count) l = (attempt key tx (count, l)).1.1
act (releases tx) l = release_locks_and_unregister_tx tx l
act (detects start) l = record l { maps = (detect_deadlock l.maps start).1 }

-- Actions, the first one first.
abbrev pub act_all : List Action → KeyLocks → KeyLocks
act_all [] l = l
act_all (a ∷ actions) l = act_all actions (act a l)

-- `IsFailedToAcquireLockErr`
abbrev pub is_failed_to_acquire_lock : AcquireError → Bool
is_failed_to_acquire_lock failed_to_acquire_lock = true
is_failed_to_acquire_lock terminating_to_resolve_deadlock = false
is_failed_to_acquire_lock not_registered = false

-- The end of `AcquireLock`: on an error it releases, behind what the others do in `last`; a panic
-- goes on to the caller.
abbrev pub finish :
    Bytes → List Action → Outcome AcquireError × (ℕ × KeyLocks) → Outcome AcquireError × KeyLocks
finish tx last (returned none, (n, l)) = (returned none, l)
finish tx last (returned (some e), (n, l)) =
    (returned (some e), release_locks_and_unregister_tx tx (act_all last l))
finish tx last (invalid_config, (n, l)) =
    (invalid_config, release_locks_and_unregister_tx tx (act_all last l))
finish tx last (panicked, (n, l)) = (panicked, l)
finish tx last (endless, (n, l)) = (endless, l)

-- What the others do in the sleep of a round.
abbrev pub meanwhile : (ℕ → List Action) → ℕ → ℕ × KeyLocks → ℕ × KeyLocks
meanwhile others i (n, l) = (n, act_all (others i) l)

-- `AcquireLock`
unfoldable pub acquire_lock :
    RetryConfig
    → (ℕ → ℕ)
    → (ℕ → List Action)
    → List Action
    → Bytes
    → Bytes
    → KeyLocks
    → Outcome AcquireError × KeyLocks
acquire_lock config random others last key tx l = finish tx last (
    retry_with_config config (attempt key tx) is_failed_to_acquire_lock random (meanwhile others)
      (0, l))
