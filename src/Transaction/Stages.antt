-- ===== src/Transaction/Stages.antt =====
-- Commit and Rollback of pkg/transaction/transaction.go cut where other calls come between. Rollback
-- calls ReleaseLocksAndUnregisterTx in front of tx.mu, and the callback of it tests `active` and then
-- assigns it, under the mutex of the key locks alone; Commit tests it and then assigns it under tx.mu.
-- So both tests are steps of their own. The others run in one go: an assignment with what follows up
-- to the batch, the batch with what the storage answers, the release of the key locks at the end of
-- a Commit (whose callback finds the transaction closed), the release of the read-write lock, and
-- rollbackLocked: it goes on only where the callback has not run, and then none is registered.
-- A step that has to wait for a mutex is not kept back: more orders of these steps are runs here than
-- in the program. Begin, Put and Delete stay whole calls.
use kevo.Base.{ℕ, zero, suc, List, [], ◌∷◌, ◌++◌, Option, none, some}
use kevo.Base.{Bool, true, ◌&&◌, if◌then◌else◌}
use kevo.Locks.Maps.{is_member}
use kevo.Locks.Table.{release_locks_and_unregister_tx}
use kevo.Base.Bytes.{Bytes}
use kevo.Transaction.Buffer.{Operation}
use kevo.Transaction.Lifecycle.{
  TransactionMode, unknown_tx_mode, read_only, read_write_serialized, write_read_committed, Storage,
  Manager, tx_of, deactivate, ◌>>=◌, change, ignore_result, release_key_locks, release_tx_lock,
  roll_back_active, rollback_locked,
}
use kevo.Transaction.Commit.{Action, act, apply_queued, count_end}

-- Where a call stands that is not through: Commit behind its test, with its transaction closed and
-- the batch not yet applied, behind the batch, and behind the release of the key locks; Rollback in
-- its callback behind the test, and behind ReleaseLocksAndUnregisterTx.
pub data Stage : Type 0 where
  tested : (id : Bytes) → Stage
  applies : (mode : TransactionMode) (id : Bytes) → Stage
  releases : (mode : TransactionMode) (id : Bytes) (e : Option Bytes) → Stage
  unlocks : (mode : TransactionMode) (e : Option Bytes) → Stage
  called_back : (id : Bytes) → Stage
  rolls_on : (id : Bytes) → Stage

-- A whole call, the first step of a Commit or of a Rollback, or the next one of the nth call that
-- is not through, the last one begun first.
pub data Move : Type 0 where
  calls : (a : Action) → Move
  commits rolls_back : (id : Bytes) → Move
  goes_on : (n : ℕ) → Move

-- The calls that are not through, with the state, or the fatal error of a mutex.
abbrev pub Running : Type 0 → Type 0
Running S = Option (List Stage × Manager S)

-- What Commit does next, by the mode; in an unknown one it answers ErrInvalidTxMode.
abbrev pub committing : TransactionMode → Bytes → List Stage
committing unknown_tx_mode id = []
committing read_only id = unlocks read_only none ∷ []
committing read_write_serialized id = applies read_write_serialized id ∷ []
committing write_read_committed id = applies write_read_committed id ∷ []

module _ {S : Type 0} where
  -- `active` of a transaction.
  abbrev pub is_open : Bytes → Manager S → Bool
  is_open id m = (tx_of id m.transactions).is_active

  -- Commit up to its test; a closed transaction is answered ErrTransactionClosed.
  abbrev pub begin_commit : Bytes → Manager S → List Stage
  begin_commit id m = if is_open id m then tested id ∷ [] else []

  -- Rollback up to the test of its callback; without a registration there is no callback.
  abbrev pub begin_rollback : Bytes → Manager S → List Stage
  begin_rollback id m =
      if is_member id m.locks.registry && is_open id m
      then called_back id ∷ []
      else rolls_on id ∷ []

  -- Where the transaction is registered, its key locks go and it is registered no more.
  abbrev pub drop_registration : Bytes → Manager S → Manager S
  drop_registration id m =
      if is_member id m.locks.registry
      then record m { locks = release_locks_and_unregister_tx id m.locks }
      else m

  abbrev pub stands : List Stage → Manager S → Running S
  stands stages m = some (stages, m)

  -- What a step of one call makes of the calls that are not through.
  abbrev pub beside : Stage → List Stage × Manager S → Running S
  beside stage (stages, m) = some (stage ∷ stages, m)

  abbrev pub before : List Stage → List Stage × Manager S → Running S
  before rest (stages, m) = some (stages ++ rest, m)

  -- Whether a call that has passed its test still finds its transaction active.
  abbrev pub finds_open : Stage → Manager S → Bool
  finds_open (tested id) m = is_open id m
  finds_open (called_back id) m = is_open id m
  finds_open (applies mode id) m = true
  finds_open (releases mode id e) m = true
  finds_open (unlocks mode e) m = true
  finds_open (rolls_on id) m = true

  abbrev pub finds_open_nth : ℕ → List Stage → Manager S → Bool
  finds_open_nth n [] m = true
  finds_open_nth zero (stage ∷ stages) m = finds_open stage m
  finds_open_nth (suc n) (stage ∷ stages) m = finds_open_nth n stages m

  abbrev pub undisturbed_move : Move → List Stage → Manager S → Bool
  undisturbed_move (calls a) stages m = true
  undisturbed_move (commits id) stages m = true
  undisturbed_move (rolls_back id) stages m = true
  undisturbed_move (goes_on n) stages m = finds_open_nth n stages m

module _ {S : Type 0} (storage : Storage S) (sort : List Operation → List Operation) where
  abbrev pub applied : TransactionMode → Bytes → Option Bytes × Manager S → Running S
  applied mode id (e, m) = some (releases mode id e ∷ [], m)

  -- The next step of a call.
  unfoldable pub advance : Stage → Manager S → Running S
  advance (tested id) m =
      some (committing (tx_of id m.transactions).mode id, change id deactivate m)
  advance (applies mode id) m =
      applied mode id (apply_queued storage sort (tx_of id m.transactions).buffer m)
  advance (releases mode id e) m = release_key_locks mode id m >>= stands (unlocks mode e ∷ [])
  advance (unlocks mode e) m = ignore_result (release_tx_lock mode m >>= count_end e) >>= stands []
  advance (called_back id) m = ignore_result (roll_back_active id m) >>= stands (rolls_on id ∷ [])
  advance (rolls_on id) m = ignore_result (rollback_locked id m) >>= stands []

  abbrev pub advance_nth : ℕ → List Stage → Manager S → Running S
  advance_nth n [] m = some ([], m)
  advance_nth zero (stage ∷ stages) m = advance stage m >>= before stages
  advance_nth (suc n) (stage ∷ stages) m = advance_nth n stages m >>= beside stage

  unfoldable pub move : Move → List Stage → Manager S → Running S
  unfolding advance
  move (calls a) stages m = act storage sort a m >>= stands stages
  move (commits id) stages m = some (begin_commit id m ++ stages, m)
  move (rolls_back id) stages m = some (begin_rollback id m ++ stages, drop_registration id m)
  move (goes_on n) stages m = advance_nth n stages m

  -- Moves, the first one first.
  unfoldable pub run : List Move → List Stage × Manager S → Running S
  unfolding move
  run [] x = some x
  run (a ∷ moves) (stages, m) = move a stages m >>= run moves

  -- A run in which no other call closes a transaction between the test of `active` and the assignment
  -- in a Commit or a callback.
  unfoldable pub undisturbed : List Move → List Stage × Manager S → Bool
  unfolding move
  undisturbed [] x = true
  undisturbed (a ∷ moves) (stages, m) =
      undisturbed_move a stages m
      && elim (move a stages m) [ none ↦ true | some y ↦ undisturbed moves y ]
