-- ===== src/Replication/State.antt =====
-- pkg/replication/state.go: the states of a replica and the tracker that keeps them.
use kevo.Base.{ℕ, ◌+◌, ◌-◌, List, [], ◌∷◌, ◌++◌, Option, none, some, Bool, true, false, ◌||◌}
use kevo.Base.{◌==◌, if◌then◌else◌}

-- A Go integer with seven named values; `unknown n` is the integer 7 + n.
pub data ReplicaState : Type 0 where
  connecting streaming_entries applying_entries fsync_pending : ReplicaState
  acknowledging waiting_for_data error : ReplicaState
  unknown : (n : ℕ) → ReplicaState

abbrev pub number : ReplicaState → ℕ
number connecting = 0
number streaming_entries = 1
number applying_entries = 2
number fsync_pending = 3
number acknowledging = 4
number waiting_for_data = 5
number error = 6
number (unknown n) = 7 + n

abbrev pub same_state : ReplicaState → ReplicaState → Bool
same_state a b = number a == number b

-- A time is a number; 0 is Go's zero time.
pub record StateTransition : Type 0 where
  pub from : ReplicaState
  pub to : ReplicaState
  pub timestamp : ℕ

-- The map `transitions`, which `NewStateTracker` fills and nothing changes, is `valid_states`.
pub record StateTracker (Failure : Type 0) : Type 0 where
  pub current_state : ReplicaState
  pub last_error : Option Failure
  pub start_time : ℕ
  pub transitions1 : List StateTransition

abbrev pub valid_states : ReplicaState → Option (List ReplicaState)
valid_states connecting = some (streaming_entries ∷ error ∷ [])
valid_states streaming_entries = some (applying_entries ∷ waiting_for_data ∷ error ∷ [])
valid_states applying_entries = some (fsync_pending ∷ error ∷ [])
valid_states fsync_pending = some (acknowledging ∷ error ∷ [])
valid_states acknowledging = some (streaming_entries ∷ waiting_for_data ∷ error ∷ [])
valid_states waiting_for_data = some (streaming_entries ∷ waiting_for_data ∷ error ∷ [])
valid_states error = some (connecting ∷ [])
valid_states (unknown n) = none

-- The loop of `isValidTransition`.
abbrev pub is_listed : List ReplicaState → ReplicaState → Bool
is_listed [] to = false
is_listed (s ∷ ss) to = same_state s to || is_listed ss to

abbrev pub is_listed_in : Option (List ReplicaState) → ReplicaState → Bool
is_listed_in none to = false
is_listed_in (some ss) to = is_listed ss to

-- `isValidTransition`
unfoldable pub is_valid_transition : ReplicaState → ReplicaState → Bool
is_valid_transition from to = is_listed_in (valid_states from) to

-- The time of the last transition to a state, and 0 where there is none: the loop of
-- `GetStateDuration`, which runs backwards.
abbrev pub last_entry : ReplicaState → List StateTransition → ℕ → ℕ
last_entry s [] found = found
last_entry s (t ∷ ts) found = last_entry s ts (if same_state t.to s then t.timestamp else found)

-- What others may do to a tracker.
pub data Command (Failure : Type 0) : Type 0 where
  to_state : (now : ℕ) (s : ReplicaState) → Command Failure
  to_error : (now : ℕ) (failure : Failure) → Command Failure
  reset : (now : ℕ) → Command Failure

module _ {Failure : Type 0} where
  -- `NewStateTracker`, at the time `now`.
  abbrev pub new_state_tracker : ℕ → StateTracker Failure
  new_state_tracker now = record {
    current_state = connecting;
    last_error = none;
    start_time = now;
    transitions1 = [];
  }

  -- What `SetState` and `SetError` do to the states.
  abbrev pub move : ℕ → ReplicaState → StateTracker Failure → StateTracker Failure
  move now to t = record t {
    transitions1 =
        t.transitions1 ++ (record { from = t.current_state; to = to; timestamp = now } ∷ []);
    current_state = to;
  }

  -- `SetState`: true where it returns no error.
  unfoldable pub set_state : ℕ → ReplicaState → StateTracker Failure → Bool × StateTracker Failure
  set_state now to t =
      if is_valid_transition t.current_state to then (true, move now to t) else (false, t)

  -- `SetError`
  unfoldable pub set_error : ℕ → Failure → StateTracker Failure → StateTracker Failure
  set_error now failure t = move now error (record t { last_error = some failure })

  -- `ResetState`
  unfoldable pub reset_state : ℕ → StateTracker Failure → StateTracker Failure
  reset_state now t = record t {
    current_state = connecting;
    last_error = none;
    start_time = now;
    transitions1 = [];
  }

  -- `GetStateDuration`, at the time `now`; a clock that runs backwards would make it negative.
  unfoldable pub get_state_duration : ℕ → StateTracker Failure → ℕ
  get_state_duration now t =
      let begin = last_entry t.current_state t.transitions1 0 in
      now - (if begin == 0 then t.start_time else begin)

  abbrev pub obey : Command Failure → StateTracker Failure → StateTracker Failure
  obey (to_state now s) t = (set_state now s t).1
  obey (to_error now failure) t = set_error now failure t
  obey (reset now) t = reset_state now t

  abbrev pub obey_all : List (Command Failure) → StateTracker Failure → StateTracker Failure
  obey_all [] t = t
  obey_all (c ∷ cs) t = obey_all cs (obey c t)
