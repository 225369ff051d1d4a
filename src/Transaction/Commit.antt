-- ===== src/Transaction/Commit.antt =====
-- The reads, the writes and Commit of pkg/transaction/transaction.go, and Operations of
-- pkg/transaction/buffer.go, as whole calls.
use kevo.Base.{ℕ, ◌+◌, List, [], ◌∷◌, Option, none, some, Bool, true, false, map, ltb}
use kevo.Base.{if◌then◌else◌}
use kevo.Base.Bytes.{Bytes}
use kevo.Wal.Types
use kevo.Wal.Types.{op_type_put, op_type_delete}
use kevo.Locks.Deadlocks.{detect_deadlock}
use kevo.Locks.Table.{
  AcquireError, failed_to_acquire_lock, terminating_to_resolve_deadlock, not_registered, attempt,
  KeyLocks,
}
use kevo.Transaction.Buffer
use kevo.Transaction.Buffer.{Buffer, Operation, number_of_queued_operations, copy_of}
use kevo.Transaction.Lifecycle.{
  TransactionMode, unknown_tx_mode, read_only, read_write_serialized, write_read_committed, Storage,
  TxError, transaction_closed, read_only_transaction, invalid_tx_mode, lock_error, storage_error,
  Manager, tx_of, deactivate, release_non_serialize_lock, release_serialize_lock, Step, change,
  set_tx_lock, ignore_result, release_and_call_back, rollback_locked, rollback, begin_transaction,
  ◌>>=◌,
}

-- The copy of an operation that `Operations` makes.
abbrev pub copy_operation : Operation → Operation
copy_operation op = record { key = op.key; value = op.value; is_delete = op.is_delete }

-- `Operations`, with what `sort.Slice` makes of the copies
abbrev pub operations : (List Operation → List Operation) → Buffer → List Operation
operations sort b = sort (map (λ entry. copy_operation entry.1) b.operations)

-- The loop of `Commit`; a sequence number is left at 0.
abbrev pub batch_entry : Operation → Types.Entry
batch_entry op =
    if op.is_delete
    then record { sequence_number = 0; op = op_type_delete; key = op.key; value = none }
    else record { sequence_number = 0; op = op_type_put; key = op.key; value = op.value }

-- The batch that `Commit` makes of a buffer
abbrev pub batch : (List Operation → List Operation) → Buffer → List Types.Entry
batch sort b = map batch_entry (operations sort b)

-- What a Put or a Delete has come to: nil, still trying, or an error.
pub data Progress : Type 0 where
  granted waiting : Progress
  refused : (e : TxError) → Progress

abbrev pub read_storage :
    (Option Bytes × Bool) × Option Bytes → (Option Bytes × Bool) × Option TxError
read_storage (r, none) = (r, none)
read_storage (r, some e) = (r, some (storage_error e))

-- A buffered nil is a deletion.
abbrev pub buffered_or :
    Option Bytes × Bool
    → (Option Bytes × Bool) × Option TxError
    → (Option Bytes × Bool) × Option TxError
buffered_or (none, true) stored = ((none, false), none)
buffered_or (some value, true) stored = ((some value, true), none)
buffered_or (value, false) stored = stored

-- A step of a client, or of the detection of deadlocks.
pub data Action : Type 0 where
  begins : (mode : TransactionMode) (id : Bytes) → Action
  puts : (key : Bytes) (value : Option Bytes) (id : Bytes) (count : ℕ) (gives_up : Bool) → Action
  deletes : (key id : Bytes) (count : ℕ) (gives_up : Bool) → Action
  commits rolls_back : (id : Bytes) → Action
  detects : (start : Bytes) → Action

-- What a Put or a Delete has come to, with the state
abbrev pub Try : Type 0 → Type 0
Try S = Option (Progress × Manager S)

module _ {S : Type 0} where
  abbrev pub count_end : Option Bytes → Manager S → Step S
  count_end none m = some (none, record m { tx_completed = m.tx_completed + 1 })
  count_end (some e) m = some (some (storage_error e), record m { tx_aborted = m.tx_aborted + 1 })

  -- What is deferred: the locks are released behind the batch.
  abbrev pub release_deferred : TransactionMode → Bytes → Manager S → Option (Manager S)
  release_deferred read_write_serialized id m = release_serialize_lock m.tx_lock >>= set_tx_lock m
  release_deferred write_read_committed id m =
      release_and_call_back id m >>= λ m'. release_non_serialize_lock m'.tx_lock >>= set_tx_lock m'
  release_deferred read_only id m = some m
  release_deferred unknown_tx_mode id m = some m

  abbrev pub refuse : TxError → Manager S → Try S
  refuse e m = some (refused e, m)

  -- What `AcquireLock` and its caller make of an attempt; the loop that gives up answers nil.
  abbrev pub after_attempt : Bytes → Bool → Manager S → Option AcquireError × (ℕ × KeyLocks) → Try S
  after_attempt id gives_up m (none, (n, l)) = some (granted, record m { locks = l })
  after_attempt id gives_up m (some failed_to_acquire_lock, (n, l)) =
      some (if gives_up then granted else waiting, record m { locks = l })
  after_attempt id gives_up m (some terminating_to_resolve_deadlock, (n, l)) =
      (release_and_call_back id (record m { locks = l }) >>= λ m'.
      ignore_result (rollback_locked id m'))
      >>= refuse (lock_error terminating_to_resolve_deadlock)
  after_attempt id gives_up m (some not_registered, (n, l)) =
      (release_and_call_back id (record m { locks = l }) >>= λ m'.
      ignore_result (rollback_locked id m'))
      >>= refuse (lock_error not_registered)

  -- `acquireWriteTxLock`, an attempt behind `count` others, the last one if the loop gives up
  abbrev pub acquire_write_tx_lock : TransactionMode → Bytes → Bytes → ℕ → Bool → Manager S → Try S
  acquire_write_tx_lock unknown_tx_mode key id count gives_up m = some (refused invalid_tx_mode, m)
  acquire_write_tx_lock read_only key id count gives_up m = some (refused read_only_transaction, m)
  acquire_write_tx_lock read_write_serialized key id count gives_up m = some (granted, m)
  acquire_write_tx_lock write_read_committed key id count gives_up m =
      after_attempt id gives_up m (attempt key id (count, m.locks))

  abbrev pub buffer_change : Bytes → (Buffer → Buffer) → Progress × Manager S → Try S
  buffer_change id f (granted, m) =
      some (granted, change id (λ t. record t { buffer = f t.buffer }) m)
  buffer_change id f (waiting, m) = some (waiting, m)
  buffer_change id f (refused e, m) = some (refused e, m)

  -- `Put` and `Delete`
  unfoldable pub write_key : Bytes → (Buffer → Buffer) → Bytes → ℕ → Bool → Manager S → Try S
  write_key key f id count gives_up m =
      let t = tx_of id m.transactions in
      if t.is_active
      then acquire_write_tx_lock t.mode key id count gives_up m >>= buffer_change id f
      else some (refused transaction_closed, m)

  abbrev pub put : Bytes → Option Bytes → Bytes → ℕ → Bool → Manager S → Try S
  put key value id count gives_up m = write_key key (Buffer.put key value) id count gives_up m

  abbrev pub delete : Bytes → Bytes → ℕ → Bool → Manager S → Try S
  delete key id count gives_up m = write_key key (Buffer.delete key) id count gives_up m

  -- A transaction that has to wait begins later.
  abbrev pub or_same : Manager S → Step S → Manager S
  or_same m none = m
  or_same m (some (e, m')) = m'

  abbrev pub state_of : Try S → Option (Manager S)
  state_of tried = tried >>= λ r. some r.1

module _ {S : Type 0} (storage : Storage S) (sort : List Operation → List Operation) where
  -- The buffer goes to the storage as one batch, if it holds something.
  abbrev pub apply_queued : Buffer → Manager S → Option Bytes × Manager S
  apply_queued b m =
      let (e, s) = storage.apply_batch (batch sort b) m.storage in
      if ltb 0 (number_of_queued_operations b) then (e, record m { storage = s }) else (none, m)

  abbrev pub commit_writes : TransactionMode → Bytes → Buffer → Manager S → Step S
  commit_writes mode id b m =
      let (e, m') = apply_queued b m in release_deferred mode id m' >>= count_end e

  abbrev pub commit_by : TransactionMode → Bytes → Buffer → Manager S → Step S
  commit_by unknown_tx_mode id b m = some (some invalid_tx_mode, m)
  commit_by read_only id b m =
      (release_non_serialize_lock m.tx_lock >>= set_tx_lock m) >>= count_end none
  commit_by read_write_serialized id b m = commit_writes read_write_serialized id b m
  commit_by write_read_committed id b m = commit_writes write_read_committed id b m

  -- `Commit`, where no Rollback of the transaction comes between its parts.
  unfoldable pub commit : Bytes → Manager S → Step S
  commit id m =
      let t = tx_of id m.transactions in
      if t.is_active
      then commit_by t.mode id t.buffer (change id deactivate m)
      else some (some transaction_closed, m)

  -- `Get`
  unfoldable pub get : Bytes → Bytes → Manager S → (Option Bytes × Bool) × Option TxError
  get key id m =
      let t = tx_of id m.transactions in
      if t.is_active
      then buffered_or (Buffer.get key t.buffer) (read_storage (storage.get key m.storage))
      else ((none, false), some transaction_closed)

  abbrev pub act : Action → Manager S → Option (Manager S)
  act (begins mode id) m = some (or_same m (begin_transaction mode id m))
  act (puts key value id count gives_up) m = state_of (put key value id count gives_up m)
  act (deletes key id count gives_up) m = state_of (delete key id count gives_up m)
  act (commits id) m = ignore_result (commit id m)
  act (rolls_back id) m = ignore_result (rollback id m)
  act (detects start) m =
      some (record m { locks = record m.locks { maps = (detect_deadlock m.locks.maps start).1 } })

  -- Actions, the first one first.
  abbrev pub act_all : List Action → Manager S → Option (Manager S)
  act_all [] m = some m
  act_all (a ∷ actions) m = act a m >>= act_all actions
