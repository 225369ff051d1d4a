-- ===== src/Locks/Consistency.antt =====
-- The tables of pkg/locks/locks.go agree with each other.
use std.Path.{subst}
use mathlib.Core.Bool.{false≢true}
use kevo.Base.{
  List, [], ◌∷◌, Option, none, some, Bool, true, false, ◌≡◌, ◌≢◌, refl, sym, ap, ◌∙◌, inl, inr, ◌⊎◌,
}
use kevo.Base.{if◌then◌else◌, Bool-cases}
use kevo.Base.Bytes.{Bytes}
use kevo.Base.Strings.{same, same-eq, same_refl}
use kevo.Locks.Deadlocks.{Locks, lookup}
use kevo.Locks.Cycles.{some_inj}
use kevo.Locks.Maps.{
  is_member, insert_member, delete_member, is_empty, lookup-remove_self, lookup-remove_other,
  is_member-insert_self, is_member-insert_other,
}
use kevo.Locks.Table.{members, drop_member, add_to_lock, remove_from_lock}

-- A transaction's set has the key.
abbrev pub has : Locks → Bytes → Bytes → Bool
has m tx key = is_member key (members (lookup m.tx_to_keys tx))

-- The map of the holders and the sets of their keys say the same.
pub record Agrees (m : Locks) : Type 0 where
  pub owned : (tx key : Bytes) → lookup m.holders key ≡ some tx → has m tx key ≡ true
  pub own : (tx key : Bytes) → has m tx key ≡ true → lookup m.holders key ≡ some tx

-- Two strings are equal or not.
pub same_cases : (s t : Bytes) → (s ≡ t) ⊎ (same s t ≡ false)
same_cases s t = elim (Bool-cases (same s t)) [ inl h ↦ inl (same-eq s t h) | inr h ↦ inr h ]

pub different : (s t : Bytes) → same s t ≡ false → s ≢ t
different s t h e = false≢true (sym h ∙ subst (λ x. same s x ≡ true) e (same_refl s))

-- A lock that is free, or the transaction's own, is taken.
pub add_to_lock-Agrees :
    (key tx : Bytes) (m : Locks)
    → Agrees m
    → ((other : Bytes) → lookup m.holders key ≡ some other → other ≡ tx)
    → Agrees (add_to_lock key tx m)
add_to_lock-Agrees key tx m a free = record { owned = owned; own = own }
  where
    mine : List Bytes
    mine = members (lookup m.tx_to_keys tx)

    changed : Locks
    changed = add_to_lock key tx m

    -- The sets after the change.
    has_mine : (k : Bytes) → has changed tx k ≡ is_member k (insert_member key mine)
    has_mine k = rw (same_refl tx) refl

    has_other : (t k : Bytes) → same tx t ≡ false → has changed t k ≡ has m t k
    has_other t k d = rw d refl

    holder_self : (k : Bytes) → key ≡ k → lookup changed.holders k ≡ some tx
    holder_self k e = subst (λ x. lookup changed.holders x ≡ some tx) e (rw (same_refl key) refl)

    in_mine : (k : Bytes) → key ≡ k → has changed tx k ≡ true
    in_mine k e =
        has_mine k
        ∙ subst (λ x. is_member x (insert_member key mine) ≡ true) e
            (is_member-insert_self key mine)

    owned : (t k : Bytes) → lookup changed.holders k ≡ some t → has changed t k ≡ true
    owned t k h = elim (same_cases key k) [
      | inl e ↦
          let to : tx ≡ t = some_inj (sym (holder_self k e) ∙ h) in
          subst (λ x. has changed x k ≡ true) to (in_mine k e)
      | inr d ↦
          let old : lookup m.holders k ≡ some t =
            sym (ap (λ b. if b then some tx else lookup m.holders k) d) ∙ h in
          elim (same_cases tx t) [
            | inl e ↦
                subst (λ x. has changed x k ≡ true) e
                  (has_mine k
                    ∙ is_member-insert_other key k mine d
                    ∙ a.owned tx k (old ∙ ap some (sym e)))
            | inr apart ↦ has_other t k apart ∙ a.owned t k old
          ]
    ]

    own : (t k : Bytes) → has changed t k ≡ true → lookup changed.holders k ≡ some t
    own t k h = elim (same_cases tx t) [
      | inl e ↦ elim (same_cases key k) [
        | inl f ↦ holder_self k f ∙ ap some e
        | inr d ↦
            let mine_then : has m tx k ≡ true =
              sym (has_mine k ∙ is_member-insert_other key k mine d)
              ∙ subst (λ x. has changed x k ≡ true) (sym e) h in
            rw d (a.own tx k mine_then ∙ ap some e)
      ]
      | inr apart ↦
          let old : lookup m.holders k ≡ some t = a.own t k (sym (has_other t k apart) ∙ h) in
          elim (same_cases key k) [
            | inl e ↦
                let taken : t ≡ tx = free t (ap (lookup m.holders) e ∙ old) in
                absurd (different tx t apart (sym taken))
            | inr d ↦ rw d old
          ]
    ]

-- Without one key of a transaction.
module _ (key tx : Bytes) (m : Locks) where
  abbrev pub without : Locks
  without = remove_from_lock key tx m

  pub holders-without : (k : Bytes) → key ≡ k → lookup without.holders k ≡ none
  holders-without k e =
      subst (λ x. lookup without.holders x ≡ none) e (lookup-remove_self key m.holders)

  pub holders-without_other :
      (k : Bytes) → same key k ≡ false → lookup without.holders k ≡ lookup m.holders k
  holders-without_other k d = lookup-remove_other key k m.holders d

  dropped_self :
      (o : Option (List Bytes))
      → lookup m.tx_to_keys tx ≡ o
      → members (lookup (drop_member tx key o m.tx_to_keys) tx) ≡ delete_member key (members o)
  dropped_self none h = ap members h
  dropped_self (some keys) h = elim (Bool-cases (is_empty (delete_member key keys))) [
    | inl t ↦ rw (t, lookup-remove_self tx m.tx_to_keys) (sym (nothing (delete_member key keys) t))
    | inr t ↦ rw (t, same_refl tx) refl
  ]
    where
      nothing : (xs : List Bytes) → is_empty xs ≡ true → xs ≡ []
      nothing [] h = refl
      nothing (x ∷ xs) h = absurd (cc)

  dropped_other :
      (t : Bytes) (o : Option (List Bytes))
      → same tx t ≡ false
      → lookup (drop_member tx key o m.tx_to_keys) t ≡ lookup m.tx_to_keys t
  dropped_other t none d = refl
  dropped_other t (some keys) d = elim (Bool-cases (is_empty (delete_member key keys))) [
    | inl e ↦ rw e (lookup-remove_other tx t m.tx_to_keys d)
    | inr e ↦ rw (e, d) refl
  ]

  pub keys-without :
      members (lookup without.tx_to_keys tx) ≡ delete_member key (members (lookup m.tx_to_keys tx))
  keys-without = dropped_self (lookup m.tx_to_keys tx) refl

  pub has-without_other : (t k : Bytes) → same tx t ≡ false → has without t k ≡ has m t k
  has-without_other t k d =
      ap (λ o. is_member k (members o)) (dropped_other t (lookup m.tx_to_keys tx) d)
