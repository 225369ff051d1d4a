-- ===== src/Locks/Releasing.antt =====
-- The loop of ReleaseLocksAndUnregisterTx in pkg/locks/locks.go.
use std.Path.{subst}
use mathlib.Core.Bool.{false≢true}
use kevo.Base.{
  List, [], ◌∷◌, Option, none, some, Bool, true, false, ◌||◌, ◌≡◌, ◌≢◌, refl, sym, ap, ◌∙◌, inl,
  inr,
}
use kevo.Base.{if◌then◌else◌}
use kevo.Base.Bytes.{Bytes}
use kevo.Base.Strings.{same, same_refl}
use kevo.Locks.Deadlocks.{Locks, lookup}
use kevo.Locks.Maps.{is_member, delete_member, is_member-delete_self, is_member-delete_other}
use kevo.Locks.Table.{members, remove_from_lock, remove_from_locks}
use kevo.Locks.Consistency.{
  has, Agrees, same_cases, different, without, holders-without, holders-without_other, keys-without,
  has-without_other,
}

pub none_or : {A : Type 0} (a : A) → ◌≢◌ {A = Option A} none (some a)
none_or a h = absurd (cc)

-- Nobody but `tx` holds the key.
abbrev pub FreeFor : Bytes → Bytes → Locks → Type 0
FreeFor tx key m = (other : Bytes) → lookup m.holders key ≡ some other → other ≡ tx

remove_from_lock-Agrees :
    (key tx : Bytes) (m : Locks) → Agrees m → FreeFor tx key m → Agrees (remove_from_lock key tx m)
remove_from_lock-Agrees key tx m a free = record { owned = owned; own = own }
  where
    after : Locks
    after = without key tx m

    mine : List Bytes
    mine = members (lookup m.tx_to_keys tx)

    has_mine : (k : Bytes) → has after tx k ≡ is_member k (delete_member key mine)
    has_mine k = ap (is_member k) (keys-without key tx m)

    owned : (t k : Bytes) → lookup after.holders k ≡ some t → has after t k ≡ true
    owned t k h = elim (same_cases key k) [
      | inl e ↦ absurd (none_or t (sym (holders-without key tx m k e) ∙ h))
      | inr d ↦
          let old : has m t k ≡ true = a.owned t k (sym (holders-without_other key tx m k d) ∙ h) in
          elim (same_cases tx t) [
            | inl e ↦
                subst (λ x. has after x k ≡ true) e
                  (has_mine k
                    ∙ is_member-delete_other key k mine d
                    ∙ subst (λ x. has m x k ≡ true) (sym e) old)
            | inr apart ↦ has-without_other key tx m t k apart ∙ old
          ]
    ]

    own : (t k : Bytes) → has after t k ≡ true → lookup after.holders k ≡ some t
    own t k h = elim (same_cases tx t) [
      | inl e ↦
          let here : is_member k (delete_member key mine) ≡ true =
            sym (has_mine k) ∙ subst (λ x. has after x k ≡ true) (sym e) h in
          elim (same_cases key k) [
            | inl f ↦ absurd (
                false≢true (
                  sym (
                    subst (λ x. is_member x (delete_member key mine) ≡ false) f
                      (is_member-delete_self key mine))
                  ∙ here))
            | inr d ↦
                holders-without_other key tx m k d
                ∙ a.own tx k (sym (is_member-delete_other key k mine d) ∙ here)
                ∙ ap some e
          ]
      | inr apart ↦
          let old : lookup m.holders k ≡ some t =
            a.own t k (sym (has-without_other key tx m t k apart) ∙ h) in
          elim (same_cases key k) [
            | inl f ↦ absurd (different tx t apart (sym (free t (ap (lookup m.holders) f ∙ old))))
            | inr d ↦ holders-without_other key tx m k d ∙ old
          ]
    ]

still_free :
    (key other tx : Bytes) (m : Locks)
    → FreeFor tx other m
    → FreeFor tx other (remove_from_lock key tx m)
still_free key other tx m free t h = elim (same_cases key other) [
  | inl e ↦ absurd (none_or t (sym (holders-without key tx m other e) ∙ h))
  | inr d ↦ free t (sym (holders-without_other key tx m other d) ∙ h)
]

-- The loop over keys that nobody else holds.
pub remove_from_locks-Agrees :
    (keys : List Bytes) (tx : Bytes) (m : Locks)
    → Agrees m
    → ((key : Bytes) → is_member key keys ≡ true → FreeFor tx key m)
    → Agrees (remove_from_locks keys tx m)
remove_from_locks-Agrees [] tx m a free = a
remove_from_locks-Agrees (key ∷ keys) tx m a free =
    remove_from_locks-Agrees keys tx (remove_from_lock key tx m)
      (remove_from_lock-Agrees key tx m a (free key (rw (same_refl key) refl)))
      (λ other member. still_free key other tx m (free other (either (same key other) member)))
  where
    either : (b : Bool) {c : Bool} → c ≡ true → (b || c) ≡ true
    either true h = refl
    either false h = h

-- The keys of the loop are free behind it, and the others are as they were.
pub holders-remove_from_locks :
    (keys : List Bytes) (tx : Bytes) (m : Locks) (k : Bytes)
    → lookup (remove_from_locks keys tx m).holders k
      ≡ (if is_member k keys then none else lookup m.holders k)
holders-remove_from_locks [] tx m k = refl
holders-remove_from_locks (key ∷ keys) tx m k =
    holders-remove_from_locks keys tx (remove_from_lock key tx m) k ∙ one (is_member k keys)
  where
    one :
        (b : Bool)
        → (if b then none else lookup (without key tx m).holders k)
          ≡ (if same key k || b then none else lookup m.holders k)
    one b = elim (same_cases key k) [
      | inl e ↦
          let hit : same key k ≡ true = subst (λ x. same key x ≡ true) e (same_refl key) in
          rw (hit, holders-without key tx m k e) (both b)
      | inr d ↦ rw (d, holders-without_other key tx m k d) refl
    ]
      where
        both : (b : Bool) → ◌≡◌ {A = Option Bytes} (if b then none else none) none
        both true = refl
        both false = refl
