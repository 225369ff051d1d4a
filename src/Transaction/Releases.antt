-- ===== src/Transaction/Releases.antt =====
-- What a rollback of pkg/transaction/transaction.go, also by the callback of the key locks, leaves of
-- the read-write lock.
use kevo.Base.{ℕ, ◌+◌, none, some}
use kevo.Base.{refl, ◌≡◌, true}
use kevo.Base.Bytes.{Bytes}
use kevo.Locks.Maps.{is_member}
use kevo.Locks.Table.{release_locks_and_unregister_tx}
use kevo.Transaction.Lifecycle.{
  TransactionMode, unknown_tx_mode, read_only, read_write_serialized, write_read_committed, Manager,
  tx_of, discard, Step, change, release_tx_lock, count_abort, roll_back_active, rollback_safe,
  ignore_result, release_and_call_back, release_key_locks, rollback_locked, rollback,
}
use kevo.Transaction.Accounting.{
  shares, excludes, Owes, Yields, Yields-bind, Yields-if, change-Owes, same_account, OwesAfter,
  release_tx_lock-Owes,
}

module _ {S : Type 0} where
  count_abort-Owes :
      (mode : TransactionMode) (r w : ℕ) (m : Manager S)
      → Owes r w m
      → Yields (OwesAfter r w) (count_abort mode m)
  count_abort-Owes unknown_tx_mode r w m o = o
  count_abort-Owes read_only r w m o = same_account r w m _ refl refl o
  count_abort-Owes read_write_serialized r w m o = same_account r w m _ refl refl o
  count_abort-Owes write_read_committed r w m o = same_account r w m _ refl refl o

  pub roll_back_active-Owes :
      (id : Bytes) (r w : ℕ) (m : Manager S)
      → (tx_of id m.transactions).is_active ≡ true
      → Owes r w m
      → Yields (OwesAfter r w) (roll_back_active id m)
  roll_back_active-Owes id r w m on o =
      let mode = (tx_of id m.transactions).mode in
      Yields-bind (Owes r w) (OwesAfter r w) (release_tx_lock mode (change id discard m))
        (count_abort mode)
        (release_tx_lock-Owes mode r w (change id discard m)
          (change-Owes id discard r w m (λ t. refl) on o))
        (count_abort-Owes mode r w)

  rollback_safe-Owes :
      (id : Bytes) (r w : ℕ) (m : Manager S)
      → Owes r w m
      → Yields (OwesAfter r w) (rollback_safe id m)
  unfolding rollback_safe
  rollback_safe-Owes id r w m o =
      Yields-if (OwesAfter r w) (tx_of id m.transactions).is_active _ _
        (λ on. roll_back_active-Owes id r w m on o) (λ off. o)

  pub ignore_result-Owes :
      (r w : ℕ) (step : Step S)
      → Yields (OwesAfter r w) step
      → Yields (Owes r w) (ignore_result step)
  ignore_result-Owes r w none h = h
  ignore_result-Owes r w (some (e, m)) h = h

  -- Also where the callback closes the transaction on the way.
  pub release_and_call_back-Owes :
      (id : Bytes) (r w : ℕ) (m : Manager S)
      → Owes r w m
      → Yields (Owes r w) (release_and_call_back id m)
  unfolding release_and_call_back
  release_and_call_back-Owes id r w m o =
      Yields-if (Owes r w) (is_member id m.locks.registry) _ _
        (λ known. ignore_result-Owes r w _ (
          rollback_safe-Owes id r w
            (record m { locks = release_locks_and_unregister_tx id m.locks })
            (same_account r w m _ refl refl o)))
        (λ unknown. o)

  pub release_key_locks-Owes :
      (mode : TransactionMode) (id : Bytes) (r w : ℕ) (m : Manager S)
      → Owes r w m
      → Yields (Owes r w) (release_key_locks mode id m)
  release_key_locks-Owes unknown_tx_mode id r w m o = o
  release_key_locks-Owes read_only id r w m o = o
  release_key_locks-Owes read_write_serialized id r w m o = o
  release_key_locks-Owes write_read_committed id r w m o = release_and_call_back-Owes id r w m o

  pub rollback_locked-Owes :
      (id : Bytes) (r w : ℕ) (m : Manager S)
      → Owes r w m
      → Yields (OwesAfter r w) (rollback_locked id m)
  unfolding rollback_locked
  rollback_locked-Owes id r w m o =
      let t = tx_of id m.transactions in
      let r' = shares t.mode + r in
      let w' = excludes t.mode + w in
      Yields-if (OwesAfter r w) t.is_active _ _
        (λ on.
          Yields-bind (Owes r w) (OwesAfter r w) _ (count_abort t.mode)
            (Yields-bind (Owes r' w') (Owes r w) (release_key_locks t.mode id (change id discard m))
              (release_tx_lock t.mode)
              (release_key_locks-Owes t.mode id r' w' (change id discard m)
                (change-Owes id discard r w m (λ t. refl) on o))
              (release_tx_lock-Owes t.mode r w))
            (count_abort-Owes t.mode r w))
        (λ off. o)

  pub rollback-Owes :
      (id : Bytes) (r w : ℕ) (m : Manager S) → Owes r w m → Yields (OwesAfter r w) (rollback id m)
  unfolding rollback
  rollback-Owes id r w m o =
      Yields-bind (Owes r w) (OwesAfter r w) (release_and_call_back id m) (rollback_locked id)
        (release_and_call_back-Owes id r w m o) (rollback_locked-Owes id r w)
