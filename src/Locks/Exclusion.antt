-- ===== src/Locks/Exclusion.antt =====
-- The steps of pkg/locks/locks.go other than a release keep its tables consistent.
use std.Path.{subst}
use kevo.Base.{
  ℕ, List, [], ◌∷◌, ◌++◌, Option, none, some, Bool, true, false, ◌≡◌, refl, sym, ap, ◌∙◌, inl, inr,
}
use kevo.Base.{ltb, if◌then◌else◌, Bool-cases}
use kevo.Base.Bytes.{Bytes}
use kevo.Base.Strings.{same-eq, same_refl}
use kevo.Locks.Cycles.{some_inj}
use kevo.Locks.Deadlocks.{Locks, lookup, detect_deadlock, detect, victim, mark}
use kevo.Locks.Maps.{is_member, insert_member, is_member-insert_self, is_member-insert_other}
use kevo.Locks.Table.{
  KeyLocks, members, add_to_lock, enqueue, take_lock, add_awaiting, is_free_for, register_tx,
  attempt, call_back, detects, act,
}
use kevo.Locks.Consistency.{Agrees, same_cases, add_to_lock-Agrees}
use kevo.Locks.Releasing.{FreeFor}

-- The map of the holders agrees with the sets of their keys, and every holder is registered.
pub record Consistent (l : KeyLocks) : Type 0 where
  pub agrees : Agrees l.maps
  pub registered :
      (tx key : Bytes) → lookup l.maps.holders key ≡ some tx → is_member tx l.registry ≡ true

-- A step that leaves the keys and the registry as they are.
pub record Unmoved (l l' : KeyLocks) : Type 0 where
  pub same_holders : l'.maps.holders ≡ l.maps.holders
  pub same_keys : l'.maps.tx_to_keys ≡ l.maps.tx_to_keys
  pub same_registry : l'.registry ≡ l.registry

abbrev pub still : (l : KeyLocks) → Unmoved l l
still l = record { same_holders = refl; same_keys = refl; same_registry = refl }

pub Unmoved-Consistent : (l l' : KeyLocks) → Unmoved l l' → Consistent l → Consistent l'
Unmoved-Consistent l l' u c = record {
  agrees = record {
    owned = λ t k h.
        ap (λ e. is_member k (members (lookup e t))) u.same_keys
        ∙ c.agrees.owned t k (ap (λ e. lookup e k) (sym u.same_holders) ∙ h);
    own = λ t k h.
        ap (λ e. lookup e k) u.same_holders
        ∙ c.agrees.own t k (ap (λ e. is_member k (members (lookup e t))) (sym u.same_keys) ∙ h);
  };
  registered = λ t k h.
      ap (is_member t) u.same_registry
      ∙ c.registered t k (ap (λ e. lookup e k) (sym u.same_holders) ∙ h);
}

pub enqueue-Unmoved : (count : ℕ) (tx : Bytes) (l : KeyLocks) → Unmoved l (enqueue count tx l)
enqueue-Unmoved count tx l = by (ltb 1 count)
  where
    by : (b : Bool) → Unmoved l (if b then record l { jobs = l.jobs ++ (tx ∷ []) } else l)
    by true = record { same_holders = refl; same_keys = refl; same_registry = refl }
    by false = still l

pub call_back-Unmoved : (o : Option Bool) (tx : Bytes) (l : KeyLocks) → Unmoved l (call_back o tx l)
call_back-Unmoved (some true) tx l = record {
  same_holders = refl;
  same_keys = refl;
  same_registry = refl;
}
call_back-Unmoved (some false) tx l = still l
call_back-Unmoved none tx l = still l

mark-holders :
    (o : Option Bytes) (m : Locks)
    → ((mark o m).holders ≡ m.holders) × ((mark o m).tx_to_keys ≡ m.tx_to_keys)
mark-holders none m = (refl, refl)
mark-holders (some tx) m = (refl, refl)

pub detects-Unmoved : (start : Bytes) (l : KeyLocks) → Unmoved l (act (detects start) l)
unfolding detect_deadlock
detects-Unmoved start l =
    let (h, k) = mark-holders (victim l.maps (detect l.maps start)) l.maps in
    record { same_holders = h; same_keys = k; same_registry = refl }

-- A registration keeps the members.
member-register :
    (tx other : Bytes) (keys : List Bytes)
    → is_member other keys ≡ true
    → is_member other (insert_member tx keys) ≡ true
member-register tx other keys h = elim (same_cases tx other) [
  | inl e ↦
      subst (λ x. is_member x (insert_member tx keys) ≡ true) e (is_member-insert_self tx keys)
  | inr d ↦ is_member-insert_other tx other keys d ∙ h
]

pub register_tx-Consistent :
    (tx : Bytes) (callback : Bool) (l : KeyLocks)
    → Consistent l
    → Consistent (register_tx tx callback l)
register_tx-Consistent tx callback l c = record {
  agrees = c.agrees;
  registered = λ t k h. member-register tx t l.registry (c.registered t k h);
}

-- A free key is taken by a registered transaction.
taken-Consistent :
    (key tx : Bytes) (l : KeyLocks)
    → Consistent l
    → is_member tx l.registry ≡ true
    → FreeFor tx key l.maps
    → Consistent (take_lock key tx l)
taken-Consistent key tx l c known free = record {
  agrees = record { owned = a.owned; own = a.own };
  registered = λ t k h. elim (same_cases key k) [
    | inl e ↦
        let to : tx ≡ t = some_inj (
          sym (
            subst (λ x. lookup (add_to_lock key tx l.maps).holders x ≡ some tx) e
              (rw (same_refl key) refl))
          ∙ h) in
        subst (λ x. is_member x l.registry ≡ true) to known
    | inr d ↦
        c.registered t k (sym (ap (λ b. if b then some tx else lookup l.maps.holders k) d) ∙ h)
  ];
}
  where
    a : Agrees (add_to_lock key tx l.maps)
    a = add_to_lock-Agrees key tx l.maps c.agrees free

pub is_free_for-FreeFor :
    (key tx : Bytes) (m : Locks) → is_free_for tx (lookup m.holders key) ≡ true → FreeFor tx key m
is_free_for-FreeFor key tx m h other q = sym (same-eq tx other (sym (ap (is_free_for tx) q) ∙ h))

pub attempt-Consistent :
    (key tx : Bytes) (count : ℕ) (l : KeyLocks)
    → Consistent l
    → Consistent (attempt key tx (count, l)).1.1
unfolding attempt
attempt-Consistent key tx count l c = elim (Bool-cases (is_member tx l.registry)) [
  | inr t ↦ rw t c
  | inl t ↦
      let l' = enqueue count tx l in
      let u = enqueue-Unmoved count tx l in
      let c' : Consistent l' = Unmoved-Consistent l l' u c in
      elim (Bool-cases (is_member tx l.maps.terminate_for_deadlock)) [
        | inl m ↦ rw (t, m) c'
        | inr m ↦ elim (Bool-cases (is_free_for tx (lookup l.maps.holders key))) [
          | inl f ↦
              rw (t, m, f)
                (taken-Consistent key tx l' c' (ap (is_member tx) u.same_registry ∙ t) (
                  is_free_for-FreeFor key tx l'.maps
                    (ap (λ e. is_free_for tx (lookup e key)) u.same_holders ∙ f)))
          | inr f ↦
              rw (t, m, f)
                (Unmoved-Consistent l' (add_awaiting key tx l')
                  (record { same_holders = refl; same_keys = refl; same_registry = refl }) c')
        ]
      ]
]
