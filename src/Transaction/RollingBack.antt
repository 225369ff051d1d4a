-- ===== src/Transaction/RollingBack.antt =====
-- What Rollback of pkg/transaction/transaction.go answers.
use std.Path.{subst}
use kevo.Base.{◌+◌, List, [], ◌∷◌, Option, none, some, true, false}
use kevo.Base.{◌≡◌, refl, ap, ◌∙◌, inl, inr, if◌then◌else◌, Bool-cases}
use kevo.Base.Bytes.{Bytes}
use kevo.Base.Strings.{same}
use kevo.Locks.Cycles.{some_inj}
use kevo.Locks.Releasing.{none_or}
use kevo.Locks.Maps.{is_member}
use kevo.Locks.Table.{release_locks_and_unregister_tx}
use kevo.Transaction.Lifecycle.{
  TransactionMode, unknown_tx_mode, read_only, read_write_serialized, write_read_committed,
  is_valid, Transaction, RwLock, transaction_closed, Manager, tx_of, update_tx, discard, ◌>>=◌,
  change, set_tx_lock, release_tx_lock, count_abort, rollback_safe, release_and_call_back,
  release_key_locks, rollback_locked, rollback,
}
use kevo.Transaction.Accounting.{Accounts, Yields, change-Owes, release_tx_lock-Owes, same_account}

Yields-some :
    {A : Type 0} (P : A → Type 0) (o : Option A) → Yields P o → (a : A) × (o ≡ some a) × P a
Yields-some P none h = absurd h
Yields-some P (some a) h = (a, refl, h)

tx_of-discard :
    (id : Bytes) (ts : List Transaction) → (tx_of id (update_tx id discard ts)).is_active ≡ false
tx_of-discard id [] = refl
tx_of-discard id (t ∷ ts) = elim (Bool-cases (same t.id id)) [
  | inl e ↦ rw (e, e) refl
  | inr e ↦ rw (e, e) (tx_of-discard id ts)
]

module _ {S : Type 0} where
  set_tx_lock-keeps :
      (o : Option RwLock) (m m' : Manager S)
      → (o >>= set_tx_lock m) ≡ some m'
      → m' ≡ record m { tx_lock = m'.tx_lock }
  set_tx_lock-keeps none m m' h = absurd (none_or m' h)
  set_tx_lock-keeps (some l) m m' h =
      subst (λ x. x ≡ record m { tx_lock = x.tx_lock }) (some_inj h) refl

  release_tx_lock-keeps :
      (mode : TransactionMode) (m m' : Manager S)
      → release_tx_lock mode m ≡ some m'
      → m' ≡ record m { tx_lock = m'.tx_lock }
  release_tx_lock-keeps unknown_tx_mode m m' h =
      subst (λ x. x ≡ record m { tx_lock = x.tx_lock }) (some_inj h) refl
  release_tx_lock-keeps read_only m m' h = set_tx_lock-keeps _ m m' h
  release_tx_lock-keeps read_write_serialized m m' h = set_tx_lock-keeps _ m m' h
  release_tx_lock-keeps write_read_committed m m' h = set_tx_lock-keeps _ m m' h

  -- The state behind the rollback of an active transaction.
  pub record RolledBack (id : Bytes) (m m' : Manager S) : Type 0 where
    pub inactive : (tx_of id m'.transactions).is_active ≡ false
    pub same_storage : m'.storage ≡ m.storage
    pub counted : m'.tx_aborted ≡ m.tx_aborted + 1
    pub accounts : Accounts m'

  abbrev aborted : Manager S → Manager S
  aborted m = record m { tx_aborted = m.tx_aborted + 1 }

  count_abort-valid :
      (mode : TransactionMode) (m : Manager S)
      → is_valid mode ≡ true
      → count_abort mode m ≡ some (none, aborted m)
  count_abort-valid mode m h = rw h refl

  -- The lock of the closed transaction is given back.
  gives_back :
      (id : Bytes) (m : Manager S)
      → (tx_of id m.transactions).is_active ≡ true
      → Accounts m
      → (m' : Manager S) × (release_tx_lock (tx_of id m.transactions).mode (change id discard m)
          ≡ some m')
        × RolledBack id m (aborted m')
        × (m'.locks ≡ m.locks)
  gives_back id m on o =
      let mode = (tx_of id m.transactions).mode in
      let (m', e, o') = Yields-some Accounts (release_tx_lock mode (change id discard m)) (
        release_tx_lock-Owes mode 0 0 (change id discard m)
          (change-Owes id discard 0 0 m (λ t. refl) on o)) in
      let k = release_tx_lock-keeps mode (change id discard m) m' e in
      (
        m',
        e,
        record {
          inactive =
              ap (λ x. (tx_of id x.transactions).is_active) k ∙ tx_of-discard id m.transactions;
          same_storage = ap (λ x. x.storage) k;
          counted = ap (λ x. x.tx_aborted + 1) k;
          accounts = same_account 0 0 m' _ refl refl o';
        },
        ap (λ x. x.locks) k,
      )

  -- Where the transaction is registered with the key locks, the callback closes it first.
  rollback-registered :
      (id : Bytes) (m : Manager S)
      → is_member id m.locks.registry ≡ true
      → (tx_of id m.transactions).is_active ≡ true
      → is_valid (tx_of id m.transactions).mode ≡ true
      → Accounts m
      → (m' : Manager S) × (rollback id m ≡ some (some transaction_closed, m')) × RolledBack id m m'
  unfolding rollback release_and_call_back rollback_safe rollback_locked
  rollback-registered id m known on valid o =
      let m1 : Manager S = record m { locks = release_locks_and_unregister_tx id m.locks } in
      let (m', e, r, l) = gives_back id m1 on (same_account 0 0 m m1 refl refl o) in
      let closed : (tx_of id m'.transactions).is_active ≡ false = r.inactive in
      (
        aborted m',
        rw (known, on, e, count_abort-valid (tx_of id m.transactions).mode m' valid, closed) refl,
        record {
          inactive = r.inactive;
          same_storage = r.same_storage;
          counted = r.counted;
          accounts = r.accounts;
        },
      )

  release_key_locks-unknown :
      (mode : TransactionMode) (id : Bytes) (m : Manager S)
      → is_member id m.locks.registry ≡ false
      → release_key_locks mode id m ≡ some m
  unfolding release_and_call_back
  release_key_locks-unknown unknown_tx_mode id m h = refl
  release_key_locks-unknown read_only id m h = refl
  release_key_locks-unknown read_write_serialized id m h = refl
  release_key_locks-unknown write_read_committed id m h = rw h refl

  rollback-unregistered :
      (id : Bytes) (m : Manager S)
      → is_member id m.locks.registry ≡ false
      → (tx_of id m.transactions).is_active ≡ true
      → is_valid (tx_of id m.transactions).mode ≡ true
      → Accounts m
      → (m' : Manager S) × (rollback id m ≡ some (none, m')) × RolledBack id m m'
  unfolding rollback release_and_call_back rollback_locked
  rollback-unregistered id m unknown on valid o =
      let mode = (tx_of id m.transactions).mode in
      let (m', e, r, l) = gives_back id m on o in
      (
        aborted m',
        rw
            (
              unknown,
              on,
              release_key_locks-unknown mode id (change id discard m) unknown,
              e,
              count_abort-valid mode m' valid,
            )
            refl,
        r,
      )

  -- Rollback of an active transaction closes it, leaves the storage as it was, counts an abort and
  -- gives its share of the read-write lock back; but it answers nil only where the transaction is not
  -- registered with the key locks: a registered one is closed by the callback, and Rollback answers
  -- ErrTransactionClosed.
  pub rollback-answers :
      (id : Bytes) (m : Manager S)
      → (tx_of id m.transactions).is_active ≡ true
      → is_valid (tx_of id m.transactions).mode ≡ true
      → Accounts m
      → (m' : Manager S) × (rollback id m
          ≡ some ((if is_member id m.locks.registry then some transaction_closed else none), m'))
        × RolledBack id m m'
  rollback-answers id m on valid o = elim (Bool-cases (is_member id m.locks.registry)) [
    | inl known ↦ rw known (rollback-registered id m known on valid o)
    | inr unknown ↦ rw unknown (rollback-unregistered id m unknown on valid o)
  ]
