-- ===== src/Transaction/Lifecycle.antt =====
-- pkg/transaction/transaction.go, manager.go and common.go. A method that cannot go on is not
-- called: what a client does is one step, also each attempt of AcquireLock that Put and Delete make;
-- what the others do between two attempts are steps of their own. A call is whole here: nothing comes
-- between its parts; Transaction/Stages cuts Commit and Rollback where something can. `none` is the fatal error of a
-- mutex that is unlocked twice. The panic of Int63n in the retry loop is left out.
use kevo.Base.{
  ℕ, zero, suc, ◌+◌, List, [], ◌∷◌, ◌++◌, Option, none, some, Bool, true, false, ◌||◌, ltb,
}
use kevo.Base.{if◌then◌else◌}
use kevo.Base.Bytes.{Bytes}
use kevo.Base.Strings.{same}
use kevo.Wal.Types.{op_type_put, op_type_delete}
use kevo.Wal.Types
use kevo.Locks.Maps.{is_member}
use kevo.Locks.Table.{
  KeyLocks, new_locks, AcquireError, register_tx, release_locks_and_unregister_tx,
}
use kevo.Transaction.Buffer.{Buffer, new_buffer, clear_buffer}

pub data TransactionMode : Type 0 where
  unknown_tx_mode read_only read_write_serialized write_read_committed : TransactionMode

-- `IsValid`
abbrev pub is_valid : TransactionMode → Bool
is_valid unknown_tx_mode = false
is_valid read_only = true
is_valid read_write_serialized = true
is_valid write_read_committed = true

pub record Transaction : Type 0 where
  pub id : Bytes
  pub mode : TransactionMode
  pub buffer : Buffer
  pub is_active : Bool

pub record RwLock : Type 0 where
  pub readers : ℕ
  pub writer : Bool

-- `AcquireSerializeLock`, `AcquireNonSerializeLock`: `none` has to wait.
abbrev pub acquire_serialize_lock : RwLock → Option RwLock
acquire_serialize_lock l =
    if l.writer || ltb 0 l.readers then none else some (record l { writer = true })

abbrev pub acquire_non_serialize_lock : RwLock → Option RwLock
acquire_non_serialize_lock l =
    if l.writer then none else some (record l { readers = l.readers + 1 })

-- `ReleaseSerializeLock`, `ReleaseNonSerializeLock`
abbrev pub release_serialize_lock : RwLock → Option RwLock
release_serialize_lock l = if l.writer then some (record l { writer = false }) else none

abbrev pub one_reader_less : ℕ → RwLock → Option RwLock
one_reader_less zero l = none
one_reader_less (suc n) l = some (record l { readers = n })

abbrev pub release_non_serialize_lock : RwLock → Option RwLock
release_non_serialize_lock l = one_reader_less l.readers l

-- What a transaction asks of the storage; an error is its message.
pub record Storage (S : Type 0) : Type 0 where
  pub get : Bytes → S → (Option Bytes × Bool) × Option Bytes
  pub apply_batch : List Types.Entry → S → Option Bytes × S

pub data TxError : Type 0 where
  transaction_closed read_only_transaction invalid_tx_mode unknown_transaction_mode : TxError
  lock_error : (e : AcquireError) → TxError
  storage_error : (message : Bytes) → TxError

-- The manager, the shared state and the transactions that it has begun.
pub record Manager (S : Type 0) : Type 0 where
  pub storage : S
  pub locks : KeyLocks
  pub tx_lock : RwLock
  pub tx_started : ℕ
  pub tx_completed : ℕ
  pub tx_aborted : ℕ
  pub transactions : List Transaction

-- `NewManager`
abbrev pub new_manager : {S : Type 0} → S → Manager S
new_manager s = record {
  storage = s;
  locks = new_locks;
  tx_lock = record { readers = 0; writer = false };
  tx_started = 0;
  tx_completed = 0;
  tx_aborted = 0;
  transactions = [];
}

-- The transaction with an id; none reads as a closed one.
abbrev pub tx_of : Bytes → List Transaction → Transaction
tx_of id [] = record { id = id; mode = read_only; buffer = new_buffer; is_active = false }
tx_of id (t ∷ ts) = if same t.id id then t else tx_of id ts

abbrev pub update_tx : Bytes → (Transaction → Transaction) → List Transaction → List Transaction
update_tx id f [] = []
update_tx id f (t ∷ ts) =
    let rest = update_tx id f ts in if same t.id id then f t ∷ ts else t ∷ rest

abbrev pub deactivate : Transaction → Transaction
deactivate t = record t { is_active = false }

abbrev pub discard : Transaction → Transaction
discard t = record t { is_active = false; buffer = clear_buffer t.buffer }

infixl 5 ◌>>=◌
abbrev pub ◌>>=◌ : {A B : Type 0} → Option A → (A → Option B) → Option B
o >>= rest = elim o [ none ↦ none | some a ↦ rest a ]

-- The error or nil, with the state behind the call
abbrev pub Step : Type 0 → Type 0
Step S = Option (Option TxError × Manager S)

module _ {S : Type 0} where
  abbrev pub change : Bytes → (Transaction → Transaction) → Manager S → Manager S
  change id f m = record m { transactions = update_tx id f m.transactions }

  abbrev pub set_tx_lock : Manager S → RwLock → Option (Manager S)
  set_tx_lock m l = some (record m { tx_lock = l })

  -- The switch over the modes in a rollback.
  abbrev pub release_tx_lock : TransactionMode → Manager S → Option (Manager S)
  release_tx_lock unknown_tx_mode m = some m
  release_tx_lock read_only m = release_non_serialize_lock m.tx_lock >>= set_tx_lock m
  release_tx_lock read_write_serialized m = release_serialize_lock m.tx_lock >>= set_tx_lock m
  release_tx_lock write_read_committed m = release_non_serialize_lock m.tx_lock >>= set_tx_lock m

  abbrev pub count_abort : TransactionMode → Manager S → Step S
  count_abort mode m =
      if is_valid mode
      then some (none, record m { tx_aborted = m.tx_aborted + 1 })
      else some (some unknown_transaction_mode, m)

  -- `rollbackSafeForRegisterTxLocked` behind its test.
  abbrev pub roll_back_active : Bytes → Manager S → Step S
  roll_back_active id m =
      let mode = (tx_of id m.transactions).mode in
      release_tx_lock mode (change id discard m) >>= count_abort mode

  -- `rollbackSafeForRegisterTxLocked`
  unfoldable pub rollback_safe : Bytes → Manager S → Step S
  rollback_safe id m =
      let t = tx_of id m.transactions in
      if t.is_active then roll_back_active id m else some (some transaction_closed, m)

  abbrev pub ignore_result : Step S → Option (Manager S)
  ignore_result step = step >>= λ r. some r.1

  -- `ReleaseLocksAndUnregisterTx` with the callback that `BeginTransaction` registers
  unfoldable pub release_and_call_back : Bytes → Manager S → Option (Manager S)
  release_and_call_back id m =
      if is_member id m.locks.registry
      then ignore_result
          (rollback_safe id (record m { locks = release_locks_and_unregister_tx id m.locks }))
      else some m

  abbrev pub release_key_locks : TransactionMode → Bytes → Manager S → Option (Manager S)
  release_key_locks write_read_committed id m = release_and_call_back id m
  release_key_locks unknown_tx_mode id m = some m
  release_key_locks read_only id m = some m
  release_key_locks read_write_serialized id m = some m

  -- `rollbackLocked`
  unfoldable pub rollback_locked : Bytes → Manager S → Step S
  rollback_locked id m =
      let t = tx_of id m.transactions in
      if t.is_active
      then release_key_locks t.mode id (change id discard m)
        >>= release_tx_lock t.mode
        >>= count_abort t.mode
      else some (some transaction_closed, m)

  -- `Rollback`
  unfoldable pub rollback : Bytes → Manager S → Step S
  unfolding rollback_locked
  rollback id m = release_and_call_back id m >>= rollback_locked id

  abbrev pub begun : TransactionMode → Bytes → Manager S → RwLock → Manager S
  begun mode id m l = record m {
    tx_lock = l;
    tx_started = m.tx_started + 1;
    transactions =
        m.transactions
        ++ (record { id = id; mode = mode; buffer = new_buffer; is_active = true } ∷ []);
  }

  abbrev pub with_registration : Bytes → Manager S → Manager S
  with_registration id m = record m { locks = register_tx id true m.locks }

  -- `BeginTransaction`, with the random id; `none` has to wait, and is counted when it goes on.
  unfoldable pub begin_transaction : TransactionMode → Bytes → Manager S → Step S
  begin_transaction unknown_tx_mode id m =
      some (some unknown_transaction_mode, record m { tx_started = m.tx_started + 1 })
  begin_transaction read_only id m =
      acquire_non_serialize_lock m.tx_lock >>= λ l. some (none, begun read_only id m l)
  begin_transaction read_write_serialized id m =
      acquire_serialize_lock m.tx_lock >>= λ l. some (none, begun read_write_serialized id m l)
  begin_transaction write_read_committed id m = acquire_non_serialize_lock m.tx_lock >>= λ l.
      some (none, with_registration id (begun write_read_committed id m l))
