-- ===== src/Replication/Tests.antt =====
-- Runs of a tracker, with the witnesses of its theorems.
use kevo.Base.{if◌then◌else◌, ℕ, ◌≡◌, refl, ◌+◌, ◌≤◌, ◌↔◌, List, [], ◌∷◌, true, false}
use kevo.Replication.State.{
  connecting, streaming_entries, applying_entries, fsync_pending, acknowledging, StateTracker,
  new_state_tracker, set_state, move, is_valid_transition, Command, to_state, to_error, obey_all,
  same_state,
}
use kevo.Replication.Protocol.{◌⟶◌}
use kevo.Replication.History.{Run, entries, tracker-Run, set_state_iff, acknowledged-le-synced}

-- A round of a replica, a refused shortcut, and a failure; an error is a number here.
abbrev round : List (Command ℕ)
round =
    to_state 10 streaming_entries
    ∷ to_state 11 acknowledging
    ∷ to_state 12 applying_entries
    ∷ to_state 13 fsync_pending
    ∷ to_state 14 acknowledging
    ∷ to_state 15 streaming_entries
    ∷ to_error 16 7
    ∷ to_state 17 connecting
    ∷ []

abbrev after_round : StateTracker ℕ
after_round = obey_all round (new_state_tracker 9)

shortcut_is_refused :
    (set_state 11 acknowledging
      (obey_all (to_state 10 streaming_entries ∷ []) (new_state_tracker {Failure = ℕ} 9))).0
    ≡ false
unfolding set_state is_valid_transition
shortcut_is_refused = refl

tracker-Run_example : Run after_round.transitions1 after_round.current_state
tracker-Run_example = tracker-Run 9 round

set_state_iff_example :
    (((set_state 18 streaming_entries after_round).0 ≡ true)
      ↔ (after_round.current_state ⟶ streaming_entries))
    × (((set_state 18 streaming_entries after_round).0 ≡ true)
        → (set_state 18 streaming_entries after_round).1 ≡ move 18 streaming_entries after_round)
    × (((set_state 18 streaming_entries after_round).0 ≡ false)
        → (set_state 18 streaming_entries after_round).1 ≡ after_round)
set_state_iff_example = set_state_iff 18 streaming_entries after_round

acknowledged-le-synced_example :
    (entries acknowledging after_round.transitions1
        + (if same_state after_round.current_state fsync_pending then 1 else 0)
      ≤ entries fsync_pending after_round.transitions1)
    × (entries fsync_pending after_round.transitions1
          + (if same_state after_round.current_state applying_entries then 1 else 0)
        ≤ entries applying_entries after_round.transitions1)
    × (entries applying_entries after_round.transitions1
          + (if same_state after_round.current_state streaming_entries then 1 else 0)
        ≤ entries streaming_entries after_round.transitions1)
acknowledged-le-synced_example = acknowledged-le-synced 9 round
