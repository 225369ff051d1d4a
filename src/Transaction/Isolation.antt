-- ===== src/Transaction/Isolation.antt =====
-- What the transactions of pkg/transaction hold of the read-write lock behind a whole call: Begin, Put,
-- Delete, Commit and Rollback of pkg/transaction/transaction.go and manager.go.
use kevo.Base.{ℕ, List, Option, none, some, Bool}
use kevo.Base.{refl, sym, ap, ◌+◌, ◌∙◌, inl, inr, arith, ltb, Bool-cases}
use kevo.Base.Bytes.{Bytes}
use kevo.Locks.Table.{
  AcquireError, failed_to_acquire_lock, terminating_to_resolve_deadlock, not_registered, attempt,
  KeyLocks,
}
use kevo.Transaction.Buffer
use kevo.Transaction.Buffer.{Buffer, Operation, new_buffer, number_of_queued_operations}
use kevo.Transaction.Lifecycle.{
  TransactionMode, unknown_tx_mode, read_only, read_write_serialized, write_read_committed,
  Transaction, Storage, lock_error, Manager, tx_of, deactivate, ◌>>=◌, change, ignore_result,
  release_and_call_back, rollback_locked,
}
use kevo.Transaction.Commit.{
  Progress, granted, waiting, refused, count_end, apply_queued, release_deferred, commit_by, commit,
  Try, refuse, after_attempt, acquire_write_tx_lock, buffer_change, write_key, Action, begins, puts,
  deletes, commits, rolls_back, detects, state_of, act,
}
use kevo.Transaction.Accounting.{
  shares, excludes, Owes, Yields, Yields-bind, Yields-if, active-goes_on, change-Owes, reweigh,
  same_account, OwesAfter, release_non_serialize_lock-Owes, release_serialize_lock-Owes,
}
use kevo.Transaction.Releases.{
  ignore_result-Owes, release_and_call_back-Owes, rollback_locked-Owes, rollback-Owes,
}
use kevo.Transaction.Beginning.{begin-Owes}

module _ {S : Type 0} (r w : ℕ) where
  goes_on-Owes :
      (id : Bytes) (f : Buffer → Buffer) (m : Manager S)
      → Owes r w m
      → Owes r w (change id (λ t. record t { buffer = f t.buffer }) m)
  goes_on-Owes id f m o =
      let g = λ (t : Transaction). record t { buffer = f t.buffer } in
      record {
        readers =
            o.readers
            ∙ ap (λ k. k + r) (sym (active-goes_on shares id g m.transactions (λ t. (refl, refl))));
        writer =
            o.writer
            ∙ ap (λ k. k + w)
                (sym (active-goes_on excludes id g m.transactions (λ t. (refl, refl))));
        excluded = o.excluded;
      }

  pub count_end-Owes :
      (e : Option Bytes) (m : Manager S) → Owes r w m → Yields (OwesAfter r w) (count_end e m)
  count_end-Owes none m o = same_account r w m _ refl refl o
  count_end-Owes (some e) m o = same_account r w m _ refl refl o

  end_committed-Owes :
      (id : Bytes) (m : Manager S)
      → Owes (1 + r) w m
      → Yields (Owes r w) (release_deferred write_read_committed id m)
  end_committed-Owes id m o =
      Yields-bind (Owes (1 + r) w) (Owes r w) (release_and_call_back id m) _
        (release_and_call_back-Owes id (1 + r) w m o) (release_non_serialize_lock-Owes r w)

  leaves-Owes :
      (e : AcquireError) (id : Bytes) (m : Manager S)
      → Owes r w m
      → Yields (OwesAfter r w) (
          (release_and_call_back id m >>= λ m'. ignore_result (rollback_locked id m'))
          >>= refuse (lock_error e))
  leaves-Owes e id m o =
      Yields-bind (Owes r w) (OwesAfter r w) _ (refuse (lock_error e))
        (Yields-bind (Owes r w) (Owes r w) (release_and_call_back id m) _
          (release_and_call_back-Owes id r w m o)
          (λ m' o'. ignore_result-Owes r w _ (rollback_locked-Owes id r w m' o')))
        (λ m' o'. o')

  after_attempt-Owes :
      (id : Bytes) (gives_up : Bool) (m : Manager S) (a : Option AcquireError × (ℕ × KeyLocks))
      → Owes r w m
      → Yields (OwesAfter r w) (after_attempt id gives_up m a)
  after_attempt-Owes id gives_up m (none, (n, l)) o = same_account r w m _ refl refl o
  after_attempt-Owes id gives_up m (some failed_to_acquire_lock, (n, l)) o =
      same_account r w m _ refl refl o
  after_attempt-Owes id gives_up m (some terminating_to_resolve_deadlock, (n, l)) o =
      leaves-Owes terminating_to_resolve_deadlock id _ (same_account r w m _ refl refl o)
  after_attempt-Owes id gives_up m (some not_registered, (n, l)) o =
      leaves-Owes not_registered id _ (same_account r w m _ refl refl o)

  acquire_write_tx_lock-Owes :
      (mode : TransactionMode) (key id : Bytes) (count : ℕ) (gives_up : Bool) (m : Manager S)
      → Owes r w m
      → Yields (OwesAfter r w) (acquire_write_tx_lock mode key id count gives_up m)
  acquire_write_tx_lock-Owes unknown_tx_mode key id count gives_up m o = o
  acquire_write_tx_lock-Owes read_only key id count gives_up m o = o
  acquire_write_tx_lock-Owes read_write_serialized key id count gives_up m o = o
  acquire_write_tx_lock-Owes write_read_committed key id count gives_up m o =
      after_attempt-Owes id gives_up m (attempt key id (count, m.locks)) o

  buffer_change-Owes :
      (id : Bytes) (f : Buffer → Buffer) (x : Progress × Manager S)
      → OwesAfter r w x
      → Yields (OwesAfter r w) (buffer_change id f x)
  buffer_change-Owes id f (granted, m) o = goes_on-Owes id f m o
  buffer_change-Owes id f (waiting, m) o = o
  buffer_change-Owes id f (refused e, m) o = o

  state_of-Owes : (t : Try S) → Yields (OwesAfter r w) t → Yields (Owes r w) (state_of t)
  state_of-Owes none h = h
  state_of-Owes (some x) h = h

  write_key-Owes :
      (key : Bytes) (f : Buffer → Buffer) (id : Bytes) (count : ℕ) (gives_up : Bool) (m : Manager S)
      → Owes r w m
      → Yields (Owes r w) (state_of (write_key key f id count gives_up m))
  unfolding write_key
  write_key-Owes key f id count gives_up m o =
      let t = tx_of id m.transactions in
      state_of-Owes _ (
        Yields-if (OwesAfter r w) t.is_active _ _
          (λ on.
            Yields-bind (OwesAfter r w) (OwesAfter r w) _ (buffer_change id f)
              (acquire_write_tx_lock-Owes t.mode key id count gives_up m o)
              (buffer_change-Owes id f))
          (λ off. o))

module _ {S : Type 0} (storage : Storage S) (sort : List Operation → List Operation) where
  pub apply_queued-Owes :
      (b : Buffer) (r w : ℕ) (m : Manager S)
      → Owes r w m
      → Owes r w (apply_queued storage sort b m).1
  apply_queued-Owes b r w m o = elim (Bool-cases (ltb 0 (number_of_queued_operations b))) [
    | inl e ↦ rw e (same_account r w m _ refl refl o)
    | inr e ↦ rw e o
  ]

module _ {S : Type 0} (r w : ℕ) (storage : Storage S) (sort : List Operation → List Operation) where
  commit_by-Owes :
      (mode : TransactionMode) (id : Bytes) (b : Buffer) (m : Manager S)
      → Owes (shares mode + r) (excludes mode + w) m
      → Yields (OwesAfter r w) (commit_by storage sort mode id b m)
  commit_by-Owes unknown_tx_mode id b m o = reweigh m (omega arith) (omega arith) o
  commit_by-Owes read_only id b m o =
      Yields-bind (Owes r w) (OwesAfter r w) _ (count_end none)
        (release_non_serialize_lock-Owes r w m (reweigh m refl (omega arith) o))
        (count_end-Owes r w none)
  commit_by-Owes read_write_serialized id b m o =
      Yields-bind (Owes r w) (OwesAfter r w) _ _
        (release_serialize_lock-Owes r w _
          (apply_queued-Owes storage sort b r (1 + w) m (reweigh m (omega arith) refl o)))
        (count_end-Owes r w (apply_queued storage sort b m).0)
  commit_by-Owes write_read_committed id b m o =
      Yields-bind (Owes r w) (OwesAfter r w) _ _
        (end_committed-Owes r w id _
          (apply_queued-Owes storage sort b (1 + r) w m (reweigh m refl (omega arith) o)))
        (count_end-Owes r w (apply_queued storage sort b m).0)

  commit-Owes :
      (id : Bytes) (m : Manager S) → Owes r w m → Yields (OwesAfter r w) (commit storage sort id m)
  unfolding commit
  commit-Owes id m o =
      let t = tx_of id m.transactions in
      Yields-if (OwesAfter r w) t.is_active _ _
        (λ on.
          commit_by-Owes t.mode id t.buffer (change id deactivate m)
            (change-Owes id deactivate r w m (λ t. refl) on o))
        (λ off. o)

  pub act-Owes :
      (a : Action) (m : Manager S) → Owes r w m → Yields (Owes r w) (act storage sort a m)
  act-Owes (begins mode id) m o = begin-Owes r w mode id m o
  act-Owes (puts key value id count gives_up) m o =
      write_key-Owes r w key (Buffer.put key value) id count gives_up m o
  act-Owes (deletes key id count gives_up) m o =
      write_key-Owes r w key (Buffer.delete key) id count gives_up m o
  act-Owes (commits id) m o = ignore_result-Owes r w _ (commit-Owes id m o)
  act-Owes (rolls_back id) m o = ignore_result-Owes r w _ (rollback-Owes id r w m o)
  act-Owes (detects start) m o = same_account r w m _ refl refl o
