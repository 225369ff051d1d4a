-- ===== src/Locks/Holding.antt =====
-- Who holds a key, after any steps of the clients of pkg/locks/locks.go.
use std.Path.{subst}
use mathlib.Core.Bool.{false≢true}
use kevo.Base.{ℕ, List, [], ◌∷◌, none, some, true, false, ◌≡◌, ◌≢◌, sym, ap, ◌∙◌, inl, inr}
use kevo.Base.{if◌then◌else◌, Bool-cases}
use kevo.Base.All.{All}
use kevo.Base.Bytes.{Bytes}
use kevo.Base.Strings.{same, same_refl}
use kevo.Locks.Cycles.{some_inj}
use kevo.Locks.Deadlocks.{lookup, or_empty}
use kevo.Locks.Maps.{is_member, delete_member, is_member-delete_other, is_member-delete_self}
use kevo.Locks.Table.{
  KeyLocks, new_locks, members, remove_from_locks, enqueue, remove_awaiting, is_free_for, attempt,
  unregister, release_locks_and_unregister_tx, Action, registers, attempts, releases, detects, act,
  act_all,
}
use kevo.Locks.Consistency.{has, Agrees, same_cases, different}
use kevo.Locks.Releasing.{none_or, remove_from_locks-Agrees, holders-remove_from_locks}
use kevo.Locks.Exclusion.{
  Consistent, Unmoved, Unmoved-Consistent, enqueue-Unmoved, call_back-Unmoved, detects-Unmoved,
  register_tx-Consistent, is_free_for-FreeFor, attempt-Consistent,
}

module _ (tx : Bytes) (l : KeyLocks) (known : is_member tx l.registry ≡ true) where
  abbrev mine : List Bytes
  mine = members (lookup l.maps.tx_to_keys tx)

  -- The tables behind the loop, and without the transaction.
  abbrev behind_release : KeyLocks
  behind_release =
      let released : KeyLocks = record l { maps = remove_from_locks mine tx l.maps } in
      unregister tx
        (remove_awaiting (or_empty (lookup released.maps.awaiting_tx_to_key tx)) tx released)

  released-behind_release : Unmoved behind_release (release_locks_and_unregister_tx tx l)
  unfolding release_locks_and_unregister_tx
  released-behind_release = rw known (call_back-Unmoved (lookup l.on_release tx) tx behind_release)

  pub holders-released :
      (k : Bytes)
      → lookup (release_locks_and_unregister_tx tx l).maps.holders k
        ≡ (if has l.maps tx k then none else lookup l.maps.holders k)
  holders-released k =
      ap (λ e. lookup e k) released-behind_release.same_holders
      ∙ holders-remove_from_locks mine tx l.maps k

  registry-released : (release_locks_and_unregister_tx tx l).registry ≡ delete_member tx l.registry
  registry-released = released-behind_release.same_registry

  -- Behind a release nobody is left who holds a key and is `tx`.
  not_mine :
      (t k : Bytes)
      → Consistent l
      → (if has l.maps tx k then none else lookup l.maps.holders k) ≡ some t
      → (lookup l.maps.holders k ≡ some t) × (same tx t ≡ false)
  not_mine t k c h = elim (Bool-cases (has l.maps tx k)) [
    | inl m ↦ absurd (none_or t (sym (ap (λ b. if b then none else lookup l.maps.holders k) m) ∙ h))
    | inr m ↦
        let old : lookup l.maps.holders k ≡ some t =
          sym (ap (λ b. if b then none else lookup l.maps.holders k) m) ∙ h in
        elim (same_cases tx t) [
          | inl e ↦ absurd (false≢true (sym m ∙ c.agrees.owned tx k (old ∙ ap some (sym e))))
          | inr d ↦ (old, d)
        ]
  ]

  behind_release-Consistent : Consistent l → Consistent behind_release
  behind_release-Consistent c = record {
    agrees = record { owned = a.owned; own = a.own };
    registered = λ t k h.
        let (old, d) = not_mine t k c (sym (holders-remove_from_locks mine tx l.maps k) ∙ h) in
        is_member-delete_other tx t l.registry d ∙ c.registered t k old;
  }
    where
      a : Agrees (remove_from_locks mine tx l.maps)
      a =
          remove_from_locks-Agrees mine tx l.maps c.agrees
            (λ key h other q. some_inj (sym q ∙ c.agrees.own tx key h))

  known-Consistent : Consistent l → Consistent (release_locks_and_unregister_tx tx l)
  known-Consistent c =
      Unmoved-Consistent behind_release (release_locks_and_unregister_tx tx l)
        released-behind_release (behind_release-Consistent c)

release-Consistent :
    (tx : Bytes) (l : KeyLocks) → Consistent l → Consistent (release_locks_and_unregister_tx tx l)
unfolding release_locks_and_unregister_tx
release-Consistent tx l c = elim (Bool-cases (is_member tx l.registry)) [
  | inl t ↦ known-Consistent tx l t c
  | inr t ↦ rw t c
]

act-Consistent : (a : Action) (l : KeyLocks) → Consistent l → Consistent (act a l)
act-Consistent (registers tx callback) l c = register_tx-Consistent tx callback l c
act-Consistent (attempts key tx count) l c = attempt-Consistent key tx count l c
act-Consistent (releases tx) l c = release-Consistent tx l c
act-Consistent (detects start) l c =
    Unmoved-Consistent l (act (detects start) l) (detects-Unmoved start l) c

pub new-Consistent : Consistent new_locks
new-Consistent = record {
  agrees = record {
    owned = λ tx key h. absurd (none_or tx h);
    own = λ tx key h. absurd (false≢true h);
  };
  registered = λ tx key h. absurd (none_or tx h);
}

-- Registrations, attempts to acquire, releases and detections, in any order, keep the tables
-- consistent: the map of the holders and the sets of their keys say the same, and every holder is
-- registered.
pub act_all-Consistent :
    (actions : List Action) (l : KeyLocks) → Consistent l → Consistent (act_all actions l)
act_all-Consistent [] l c = c
act_all-Consistent (a ∷ actions) l c = act_all-Consistent actions (act a l) (act-Consistent a l c)

-- What a transaction other than `tx` may do, and `tx` itself but for a release.
abbrev pub Spares : Bytes → Action → Type 0
Spares tx (registers other callback) = Unit
Spares tx (attempts key other count) = Unit
Spares tx (releases other) = same other tx ≡ false
Spares tx (detects start) = Unit

attempt-held :
    (key tx k other : Bytes) (count : ℕ) (l : KeyLocks)
    → lookup l.maps.holders key ≡ some tx
    → lookup (attempt k other (count, l)).1.1.maps.holders key ≡ some tx
unfolding attempt
attempt-held key tx k other count l h = elim (Bool-cases (is_member other l.registry)) [
  | inr t ↦ rw t h
  | inl t ↦
      let h' : lookup (enqueue count other l).maps.holders key ≡ some tx =
        ap (λ e. lookup e key) (enqueue-Unmoved count other l).same_holders ∙ h in
      elim (Bool-cases (is_member other l.maps.terminate_for_deadlock)) [
        | inl m ↦ rw (t, m) h'
        | inr m ↦ elim (Bool-cases (is_free_for other (lookup l.maps.holders k))) [
          | inr f ↦ rw (t, m, f) h'
          | inl f ↦ elim (same_cases k key) [
            | inr d ↦ rw (t, m, f, d) h'
            | inl e ↦
                let own : tx ≡ other =
                  is_free_for-FreeFor k other l.maps f tx (ap (lookup l.maps.holders) e ∙ h) in
                let hit : same k key ≡ true = subst (λ x. same k x ≡ true) e (same_refl k) in
                rw (t, m, f, hit) (ap some (sym own))
          ]
        ]
      ]
]

act-held :
    (key tx : Bytes) (a : Action) (l : KeyLocks)
    → Consistent l
    → Spares tx a
    → lookup l.maps.holders key ≡ some tx
    → lookup (act a l).maps.holders key ≡ some tx
unfolding release_locks_and_unregister_tx
act-held key tx (registers other callback) l c s h = h
act-held key tx (attempts k other count) l c s h = attempt-held key tx k other count l h
act-held key tx (releases other) l c s h = elim (Bool-cases (is_member other l.registry)) [
  | inr t ↦ rw t h
  | inl t ↦ elim (Bool-cases (has l.maps other key)) [
    | inl m ↦ absurd (different other tx s (some_inj (sym (c.agrees.own other key m) ∙ h)))
    | inr m ↦
        holders-released other l t key
        ∙ ap (λ b. if b then none else lookup l.maps.holders key) m
        ∙ h
  ]
]
act-held key tx (detects start) l c s h =
    ap (λ e. lookup e key) (detects-Unmoved start l).same_holders ∙ h

-- A key stays with the transaction that holds it, whatever registrations, attempts of others or its
-- own, releases of others and detections come, in any order.
pub act_all-held :
    (key tx : Bytes) (actions : List Action) (l : KeyLocks)
    → Consistent l
    → All (Spares tx) actions
    → lookup l.maps.holders key ≡ some tx
    → lookup (act_all actions l).maps.holders key ≡ some tx
act_all-held key tx [] l c s h = h
act_all-held key tx (a ∷ actions) l c (s, ss) h =
    act_all-held key tx actions (act a l) (act-Consistent a l c) ss (act-held key tx a l c s h)

-- ReleaseLocksAndUnregisterTx of a registered transaction frees every key that it holds and leaves
-- every other key as it is; the transaction then holds no key and is not registered.
pub release-Freed :
    (tx : Bytes) (l : KeyLocks)
    → Consistent l
    → is_member tx l.registry ≡ true
    → ((key : Bytes)
        → lookup (release_locks_and_unregister_tx tx l).maps.holders key
          ≡ (if has l.maps tx key then none else lookup l.maps.holders key))
      × ((key : Bytes) → lookup (release_locks_and_unregister_tx tx l).maps.holders key ≢ some tx)
      × (is_member tx (release_locks_and_unregister_tx tx l).registry ≡ false)
release-Freed tx l c known = (
  holders-released tx l known,
  λ key h.
      let (old, d) = not_mine tx l known tx key c (sym (holders-released tx l known key) ∙ h) in
      false≢true (sym d ∙ same_refl tx),
  ap (is_member tx) (registry-released tx l known) ∙ is_member-delete_self tx l.registry,
)
