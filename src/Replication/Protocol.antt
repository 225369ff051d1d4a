-- ===== src/Replication/Protocol.antt =====
-- The protocol of a replica as a step relation, and the tracker of pkg/replication/state.go as an
-- implementation of it.
use std.Path.{subst}
use kevo.Base.{
  Option, ℕ, ◌≡◌, refl, ◌↔◌, inl, inr, none, some, arith, List, [], ◌∷◌, true, ◌||◌, sym, ap, ◌∙◌,
  ◌<◌, ◌-◌,
}
use kevo.Base.{◌==◌, if◌then◌else◌, Bool-cases, ==_iff}
use kevo.Replication.State.{
  ReplicaState, number, connecting, streaming_entries, applying_entries, fsync_pending,
  acknowledging, waiting_for_data, error, unknown, same_state, valid_states, is_listed,
  is_listed_in, is_valid_transition,
}

-- The steps of a replica: it receives entries, applies them, syncs them, and acknowledges them.
infix 5 ◌⟶◌
pub data ◌⟶◌ : ReplicaState → ReplicaState → Type 0 where
  connect : connecting ⟶ streaming_entries
  receive : streaming_entries ⟶ applying_entries
  idle : streaming_entries ⟶ waiting_for_data
  apply : applying_entries ⟶ fsync_pending
  sync : fsync_pending ⟶ acknowledging
  stream_again : acknowledging ⟶ streaming_entries
  await : acknowledging ⟶ waiting_for_data
  wake : waiting_for_data ⟶ streaming_entries
  wait : waiting_for_data ⟶ waiting_for_data
  reconnect : error ⟶ connecting
  give_up : (s : ReplicaState) → number s < 6 → s ⟶ error

-- The state of a number; the other direction of `number`.
state_of : ℕ → ReplicaState
state_of n =
    if n == 0
    then connecting
    else if n == 1
    then streaming_entries
    else if n == 2
    then applying_entries
    else if n == 3
    then fsync_pending
    else if n == 4
    then acknowledging
    else if n == 5
    then waiting_for_data
    else if n == 6
    then error
    else unknown (n - 7)

state_of-number : (s : ReplicaState) → state_of (number s) ≡ s
unfolding state_of
state_of-number connecting = refl
state_of-number streaming_entries = refl
state_of-number applying_entries = refl
state_of-number fsync_pending = refl
state_of-number acknowledging = refl
state_of-number waiting_for_data = refl
state_of-number error = refl
state_of-number (unknown n) = ground arith

pub same_state-eq : (a b : ReplicaState) → same_state a b ≡ true → a ≡ b
same_state-eq a b h =
    sym (state_of-number a) ∙ ap state_of ((==_iff (number a) (number b)).0 h) ∙ state_of-number b

pub same_state_refl : (a : ReplicaState) → same_state a a ≡ true
same_state_refl a = (==_iff (number a) (number a)).1 refl

-- A property of every state in a list.
AllOf : (ReplicaState → Type 0) → List ReplicaState → Type 0
AllOf P [] = Unit {0}
AllOf P (s ∷ ss) = P s × AllOf P ss

AllOf-is_listed :
    (P : ReplicaState → Type 0) (ss : List ReplicaState) (to : ReplicaState)
    → is_listed ss to ≡ true
    → AllOf P ss
    → P to
unfolding AllOf
AllOf-is_listed P [] to h all = absurd cc
AllOf-is_listed P (s ∷ ss) to h (p, all) = elim (Bool-cases (same_state s to)) [
  | inl e ↦ subst P (same_state-eq s to e) p
  | inr e ↦ AllOf-is_listed P ss to (sym (ap (λ b. b || is_listed ss to) e) ∙ h) all
]

abbrev named : Option (List ReplicaState) → List ReplicaState
named none = []
named (some ss) = ss

is_listed-named :
    (o : Option (List ReplicaState)) (to : ReplicaState)
    → is_listed_in o to ≡ true
    → is_listed (named o) to ≡ true
is_listed-named none to h = absurd cc
is_listed-named (some ss) to h = h

by_table :
    (from to : ReplicaState)
    → is_listed_in (valid_states from) to ≡ true
    → AllOf (◌⟶◌ from) (named (valid_states from))
    → from ⟶ to
by_table from to h all = AllOf-is_listed _ _ to (is_listed-named (valid_states from) to h) all

-- The table has the steps and nothing else.
listed-step : (s s' : ReplicaState) → is_listed_in (valid_states s) s' ≡ true → s ⟶ s'
unfolding AllOf
listed-step connecting s' h = by_table connecting s' h (connect, (give_up _ (omega arith), tt))
listed-step streaming_entries s' h =
    by_table streaming_entries s' h (receive, (idle, (give_up _ (omega arith), tt)))
listed-step applying_entries s' h =
    by_table applying_entries s' h (apply, (give_up _ (omega arith), tt))
listed-step fsync_pending s' h = by_table fsync_pending s' h (sync, (give_up _ (omega arith), tt))
listed-step acknowledging s' h =
    by_table acknowledging s' h (stream_again, (await, (give_up _ (omega arith), tt)))
listed-step waiting_for_data s' h =
    by_table waiting_for_data s' h (wake, (wait, (give_up _ (omega arith), tt)))
listed-step error s' h = by_table error s' h (reconnect, tt)
listed-step (unknown n) s' h = absurd cc

give_up-listed : (s : ReplicaState) → number s < 6 → is_listed_in (valid_states s) error ≡ true
give_up-listed connecting h = refl
give_up-listed streaming_entries h = refl
give_up-listed applying_entries h = refl
give_up-listed fsync_pending h = refl
give_up-listed acknowledging h = refl
give_up-listed waiting_for_data h = refl
give_up-listed error h = absurd (omega arith)
give_up-listed (unknown n) h = absurd (omega arith)

step-listed : {s s' : ReplicaState} → s ⟶ s' → is_listed_in (valid_states s) s' ≡ true
step-listed connect = refl
step-listed receive = refl
step-listed idle = refl
step-listed apply = refl
step-listed sync = refl
step-listed stream_again = refl
step-listed await = refl
step-listed wake = refl
step-listed wait = refl
step-listed reconnect = refl
step-listed (give_up s h) = give_up-listed s h

pub is_valid_transition_iff : (s s' : ReplicaState) → (is_valid_transition s s' ≡ true) ↔ (s ⟶ s')
unfolding is_valid_transition
is_valid_transition_iff s s' = (listed-step s s', step-listed)
