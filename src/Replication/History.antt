-- ===== src/Replication/History.antt =====
-- The histories that the tracker of pkg/replication/state.go can have.
use std.Path.{subst}
use kevo.Base.{ℕ, some, ◌+◌, ◌≤◌, ◌≡◌, refl, sym, ◌∙◌, arith, List, [], ◌∷◌, ◌++◌, true, false, ◌<◌}
use kevo.Base.{if◌then◌else◌, Bool-cases, inl, inr, ◌↔◌, ◌-◌}
use kevo.Replication.State.{
  ReplicaState, connecting, streaming_entries, applying_entries, fsync_pending, acknowledging,
  error, same_state, StateTransition, StateTracker, is_valid_transition, new_state_tracker, move,
  set_state, set_error, reset_state, last_entry, get_state_duration, Command, to_state, to_error,
  reset, obey, obey_all,
}
use kevo.Replication.Protocol.{
  ◌⟶◌, connect, receive, idle, apply, sync, stream_again, await, wake, wait, reconnect, give_up,
  is_valid_transition_iff, same_state_refl,
}

-- A history since the last reset, and the state that it ends in.
pub data Run : List StateTransition → ReplicaState → Type 0 where
  fresh : Run [] connecting
  step :
      {h : List StateTransition} {s s' : ReplicaState} (now : ℕ)
      → Run h s
      → s ⟶ s'
      → Run (h ++ (record { from = s; to = s'; timestamp = now } ∷ [])) s'
  -- `SetError`, from any state.
  break :
      {h : List StateTransition} {s : ReplicaState} (now : ℕ)
      → Run h s
      → Run (h ++ (record { from = s; to = error; timestamp = now } ∷ [])) error

-- The history of a tracker is a run that ends in its state.
module _ {Failure : Type 0} where
  abbrev pub Follows : StateTracker Failure → Type 0
  Follows t = Run t.transitions1 t.current_state

  module _ (now : ℕ) (s : ReplicaState) (t : StateTracker Failure) where
    set_state-valid :
        is_valid_transition t.current_state s ≡ true → set_state now s t ≡ (true, move now s t)
    unfolding set_state
    set_state-valid e = rw e refl

    set_state-invalid :
        is_valid_transition t.current_state s ≡ false → set_state now s t ≡ (false, t)
    unfolding set_state
    set_state-invalid e = rw e refl

    -- SetState takes exactly the steps of the protocol, and a call that it refuses changes nothing.
    pub set_state_iff :
        (((set_state now s t).0 ≡ true) ↔ (t.current_state ⟶ s))
        × (((set_state now s t).0 ≡ true) → (set_state now s t).1 ≡ move now s t)
        × (((set_state now s t).0 ≡ false) → (set_state now s t).1 ≡ t)
    set_state_iff = elim (Bool-cases (is_valid_transition t.current_state s)) [
      | inl e ↦
          let p = (is_valid_transition_iff t.current_state s).0 e in
          rw (set_state-valid e) ((λ h. p, λ h. refl), λ h. refl, λ h. absurd cc)
      | inr e ↦
          let no = (is_valid_transition_iff t.current_state s).1 in
          rw (set_state-invalid e) ((λ h. absurd cc, λ p. sym e ∙ no p), λ h. absurd cc, λ h. refl)
    ]

    set_state-Follows : Follows t → Follows (set_state now s t).1
    set_state-Follows r = elim (Bool-cases (is_valid_transition t.current_state s)) [
      | inl e ↦
          subst (λ p. Follows p.1) (sym (set_state-valid e))
            (step now r ((is_valid_transition_iff t.current_state s).0 e))
      | inr e ↦ subst (λ p. Follows p.1) (sym (set_state-invalid e)) r
    ]

  obey-Follows : (c : Command Failure) (t : StateTracker Failure) → Follows t → Follows (obey c t)
  unfolding set_error reset_state
  obey-Follows (to_state now s) t r = set_state-Follows now s t r
  obey-Follows (to_error now failure) t r = break now r
  obey-Follows (reset now) t r = fresh

  obey_all-Follows :
      (cs : List (Command Failure)) (t : StateTracker Failure) → Follows t → Follows (obey_all cs t)
  obey_all-Follows [] t r = r
  obey_all-Follows (c ∷ cs) t r = obey_all-Follows cs (obey c t) (obey-Follows c t r)

  -- Whatever is done to a new tracker, its history is a run of the protocol from connecting that
  -- ends in its state.
  pub tracker-Run :
      (now : ℕ) (cs : List (Command Failure))
      → let t = obey_all cs (new_state_tracker now) in Run t.transitions1 t.current_state
  tracker-Run now cs = obey_all-Follows cs (new_state_tracker now) fresh

-- How often a history enters a state.
abbrev entry_of : ReplicaState → ReplicaState → ℕ
entry_of s to = if same_state to s then 1 else 0

abbrev pub entries : ReplicaState → List StateTransition → ℕ
entries s [] = 0
entries s (t ∷ ts) = entry_of s t.to + entries s ts

entries-snoc :
    (s : ReplicaState) (h : List StateTransition) (t : StateTransition)
    → entries s (h ++ (t ∷ [])) ≡ entries s h + entry_of s t.to
entries-snoc s [] t = omega arith
entries-snoc s (x ∷ h) t = omega (arith, entries-snoc s h t)

-- Every step to `after` comes from `before`; neither is where runs begin or break.
record Leads (before after : ReplicaState) : Type 0 where
  leads : (s s' : ReplicaState) → s ⟶ s' → entry_of after s' ≤ entry_of before s
  breaks : entry_of after error ≡ 0
  begins : entry_of before connecting ≡ 0

entries-Leads :
    (before after : ReplicaState) {h : List StateTransition} {s : ReplicaState}
    → Leads before after
    → Run h s
    → entries after h + entry_of before s ≤ entries before h
entries-Leads before after l fresh = omega (arith, l.begins)
entries-Leads before after l (step {h} {s} {s'} now r p) =
    let ih = entries-Leads before after l r in
    let t : StateTransition = record { from = s; to = s'; timestamp = now } in
    omega (arith, ih, l.leads s s' p, entries-snoc after h t, entries-snoc before h t)
entries-Leads before after l (break {h} {s} now r) =
    let ih = entries-Leads before after l r in
    let t : StateTransition = record { from = s; to = error; timestamp = now } in
    omega (arith, ih, l.breaks, entries-snoc after h t, entries-snoc before h t)

-- What can lead to the states in which entries are applied, synced and acknowledged.
abbrev Stages : ReplicaState → ReplicaState → Type 0
Stages s s' =
    (entry_of applying_entries s' ≤ entry_of streaming_entries s)
    × (entry_of fsync_pending s' ≤ entry_of applying_entries s)
    × (entry_of acknowledging s' ≤ entry_of fsync_pending s)

step-Stages : (s s' : ReplicaState) → s ⟶ s' → Stages s s'
step-Stages s s' connect = (omega arith, omega arith, omega arith)
step-Stages s s' receive = (omega arith, omega arith, omega arith)
step-Stages s s' idle = (omega arith, omega arith, omega arith)
step-Stages s s' apply = (omega arith, omega arith, omega arith)
step-Stages s s' sync = (omega arith, omega arith, omega arith)
step-Stages s s' stream_again = (omega arith, omega arith, omega arith)
step-Stages s s' await = (omega arith, omega arith, omega arith)
step-Stages s s' wake = (omega arith, omega arith, omega arith)
step-Stages s s' wait = (omega arith, omega arith, omega arith)
step-Stages s s' reconnect = (omega arith, omega arith, omega arith)
step-Stages s s' (give_up q h) = (omega arith, omega arith, omega arith)

streaming-Leads : Leads streaming_entries applying_entries
streaming-Leads = record { leads = λ s s' p. (step-Stages s s' p).0; breaks = refl; begins = refl }

applying-Leads : Leads applying_entries fsync_pending
applying-Leads = record { leads = λ s s' p. (step-Stages s s' p).1; breaks = refl; begins = refl }

fsync-Leads : Leads fsync_pending acknowledging
fsync-Leads = record { leads = λ s s' p. (step-Stages s s' p).2; breaks = refl; begins = refl }

module _ {Failure : Type 0} where
  -- Whatever is done to a new tracker, its history since the last reset has no more
  -- acknowledgments than syncs, no more syncs than rounds of applying, and no more of those than
  -- of streaming, where a stage that is not over counts for one less.
  pub acknowledged-le-synced :
      (now : ℕ) (cs : List (Command Failure))
      → let t = obey_all cs (new_state_tracker now) in
        let count : ReplicaState → ℕ = λ s. entries s t.transitions1 in
        (count acknowledging + entry_of fsync_pending t.current_state ≤ count fsync_pending)
        × (count fsync_pending + entry_of applying_entries t.current_state ≤ count applying_entries)
        × (count applying_entries + entry_of streaming_entries t.current_state
            ≤ count streaming_entries)
  acknowledged-le-synced now cs =
      let r = tracker-Run now cs in
      (
        entries-Leads _ _ fsync-Leads r,
        entries-Leads _ _ applying-Leads r,
        entries-Leads _ _ streaming-Leads r,
      )

last_entry-snoc :
    (s : ReplicaState) (h : List StateTransition) (t : StateTransition) (found : ℕ)
    → same_state t.to s ≡ true
    → last_entry s (h ++ (t ∷ [])) found ≡ t.timestamp
last_entry-snoc s [] t found e = rw e refl
last_entry-snoc s (x ∷ h) t found e = last_entry-snoc s h t _ e

module _ {Failure : Type 0} (now later : ℕ) (now_pos : 0 < now) where
  get_state_duration-move :
      (s : ReplicaState) (t : StateTracker Failure)
      → get_state_duration later (move now s t) ≡ later - now
  unfolding get_state_duration
  get_state_duration-move s t =
      let x : StateTransition = record { from = t.current_state; to = s; timestamp = now } in
      let e = last_entry-snoc s t.transitions1 x 0 (same_state_refl s) in rw e (ground arith)

  -- GetStateDuration counts from the last change: an accepted SetState, also one to the state
  -- before, a SetError or a ResetState.
  pub get_state_duration-changes :
      (s : ReplicaState) (failure : Failure) (t : StateTracker Failure)
      → ((t.current_state ⟶ s) → get_state_duration later (set_state now s t).1 ≡ later - now)
        × (get_state_duration later (set_error now failure t) ≡ later - now)
        × (get_state_duration later (reset_state now t) ≡ later - now)
  unfolding set_error reset_state get_state_duration
  get_state_duration-changes s failure t = (
    λ p.
        subst (λ q. get_state_duration later q.1 ≡ later - now)
          (sym (set_state-valid now s t ((is_valid_transition_iff t.current_state s).1 p)))
          (get_state_duration-move s t),
    get_state_duration-move error (record t { last_error = some failure }),
    refl,
  )
