-- ===== src/Transaction/Sessions.antt =====
-- Runs of transactions, with the witnesses of their theorems.
use mathlib.Core.Bool.{false≢true}
use kevo.Base.{
  ◌≡◌, refl, List, [], ◌∷◌, ◌++◌, Option, none, some, Bool, true, false, map, if◌then◌else◌,
}
use kevo.Base.All.{select}
use kevo.Base.Bytes.{Bytes}
use kevo.Base.Strings.{same}
use kevo.Locks.Maps.{is_member}
use kevo.Locks.Table.{attempt, release_locks_and_unregister_tx}
use kevo.Wal.Types
use kevo.Common.Bounds.{Ascending}
use kevo.Transaction.Buffer
use kevo.Transaction.Buffer.{Operation, new_buffer}
use kevo.Transaction.Writes.{Write, puts, deletes, write_all, last_effect}
use kevo.Transaction.Lifecycle.{
  read_only, read_write_serialized, write_read_committed, Storage, Manager, new_manager,
  transaction_closed, rollback, rollback_locked, rollback_safe, release_and_call_back, RwLock,
  begin_transaction,
}
use kevo.Transaction.Commit.{
  batch, buffered_or, read_storage, get, commit, Action, begins, commits, rolls_back, or_same,
  act_all,
}
use kevo.Transaction.Commit
use kevo.Transaction.Accounting.{Yields}
use kevo.Transaction.Stages.{Move, calls, goes_on, advance, undisturbed, run}
use kevo.Transaction.Stages
use kevo.Transaction.Interleaving.{Held, run-Held}
use kevo.Transaction.Batches.{entries_for, batch_lem}
use kevo.Transaction.Atomicity.{written, handed, reported, commit-writes}
use kevo.Transaction.RollingBack.{RolledBack, rollback-answers}
use kevo.Transaction.Sorting.{sort, sort-Sorts}

abbrev find : Bytes → List Types.Entry → Option Bytes × Bool
find key [] = (none, false)
find key (e ∷ es) = let rest = find key es in if same e.key key then (e.value, true) else rest

-- A storage that keeps the entries of its batches.
abbrev log : Storage (List Types.Entry)
log = record { get = λ key s. (find key s, none); apply_batch = λ es s. (none, es ++ s) }

abbrev a : Bytes
a = 1 ∷ []

abbrev b : Bytes
b = 2 ∷ []

abbrev writes : List Write
writes = puts b (some (20 ∷ [])) ∷ puts a (some (10 ∷ [])) ∷ deletes b ∷ []

-- A Commit and a Rollback of two transactions, each step between those of the other.
abbrev interleaved : List Move
interleaved =
    calls (begins write_read_committed a)
    ∷ calls (begins read_only b)
    ∷ calls (Commit.puts a (some (10 ∷ [])) a 0 false)
    ∷ Stages.commits a
    ∷ Stages.rolls_back b
    ∷ goes_on 1
    ∷ calls (begins read_write_serialized (3 ∷ []))
    ∷ goes_on 0
    ∷ goes_on 0
    ∷ goes_on 0
    ∷ goes_on 0
    ∷ calls (begins read_write_serialized (3 ∷ []))
    ∷ []

run-Held_example : Yields (Held 0 0) (run log sort interleaved ([], new_manager []))
unfolding undisturbed advance begin_transaction Commit.write_key Buffer.put
    Buffer.number_of_queued_operations rollback_locked attempt release_and_call_back rollback_safe
run-Held_example = run-Held log sort interleaved [] refl

-- The writer waited for both, and is in.
abbrev last_lock : Option (List Stages.Stage × Manager (List Types.Entry)) → Option RwLock
last_lock none = none
last_lock (some x) = some x.1.tx_lock

writer_is_in :
    last_lock (run log sort interleaved ([], new_manager []))
    ≡ some (record { readers = 0; writer = true })
unfolding run advance begin_transaction Commit.write_key Buffer.put
    Buffer.number_of_queued_operations rollback_locked attempt release_and_call_back rollback_safe
writer_is_in = refl

-- A Rollback whose callback closes the transaction between the test of its Commit and the assignment.
abbrev overlap : List Move
overlap =
    Stages.commits a
    ∷ Stages.rolls_back a
    ∷ goes_on 0
    ∷ goes_on 1
    ∷ goes_on 1
    ∷ goes_on 1
    ∷ goes_on 1
    ∷ []

-- Such a run is not undisturbed, and the Commit unlocks the mutex again: a fatal error.
overlap_is_fatal :
    (undisturbed log sort (calls (begins write_read_committed a) ∷ overlap) ([], new_manager [])
      ≡ false)
    × (run log sort (calls (begins write_read_committed a) ∷ overlap) ([], new_manager []) ≡ none)
unfolding run undisturbed advance begin_transaction rollback_locked
    Buffer.number_of_queued_operations release_and_call_back Buffer.clear_buffer
    release_locks_and_unregister_tx
overlap_is_fatal = (refl, refl)

-- With another reader it is the share of that one that goes: nobody holds the lock, though it is active.
overlap_takes_share :
    last_lock (
      run log sort
        (calls (begins write_read_committed a) ∷ calls (begins read_only b) ∷ overlap)
        ([], new_manager []))
    ≡ some (record { readers = 0; writer = false })
unfolding run advance begin_transaction rollback_locked Buffer.number_of_queued_operations
    release_and_call_back Buffer.clear_buffer release_locks_and_unregister_tx
overlap_takes_share = refl

batch_lem_example :
    Ascending (map (λ e. e.key) (batch sort (write_all writes new_buffer)))
    × ((key : Bytes)
        → select (λ e. same e.key key) (batch sort (write_all writes new_buffer))
          ≡ entries_for key (last_effect key writes (none, false)))
batch_lem_example = batch_lem sort sort-Sorts writes

commit-writes_example :
    (m1 : Manager (List Types.Entry)) × (act_all log sort
        (begins read_write_serialized a ∷ map (written a) writes)
        (new_manager [])
      ≡ some m1)
    × (m1.storage ≡ [])
    × ((key : Bytes)
        → get log sort key a m1
          ≡ buffered_or (last_effect key writes (none, false)) (read_storage (log.get key [])))
    × ((m2 : Manager (List Types.Entry)) × (commit log sort a m1
          ≡ some (reported (handed log sort writes []).0, m2))
        × (m2.storage ≡ (handed log sort writes []).1)
        × (m2.tx_lock ≡ record { readers = 0; writer = false }))
commit-writes_example = commit-writes log sort a (new_manager []) tt refl writes

abbrev registered : Manager (List Types.Entry)
registered = or_same (new_manager []) (begin_transaction write_read_committed a (new_manager []))

rollback-answers_example :
    (m' : Manager (List Types.Entry)) × (rollback a registered
      ≡ some
          ((if is_member a registered.locks.registry then some transaction_closed else none), m'))
    × RolledBack a registered m'
unfolding begin_transaction
rollback-answers_example =
    rollback-answers a registered refl refl
      (record { readers = refl; writer = refl; excluded = λ h. absurd (false≢true h) })

-- Both keys of the session are stored, in their order.
abbrev storage_of : Option (Manager (List Types.Entry)) → List Bytes
storage_of none = []
storage_of (some m) = map (λ e. e.key) m.storage

batch_is_stored :
    storage_of (
      act_all log sort
        (begins read_write_serialized a ∷ map (written a) writes ++ (commits a ∷ []))
        (new_manager []))
    ≡ a ∷ b ∷ []
unfolding begin_transaction Commit.commit Commit.write_key Buffer.number_of_queued_operations
    Buffer.delete Buffer.put
batch_is_stored = refl
