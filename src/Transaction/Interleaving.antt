-- ===== src/Transaction/Interleaving.antt =====
-- The read-write lock of pkg/transaction/transaction.go where Commits and Rollbacks stand in the
-- middle: what is held belongs to an active transaction, or to a Commit that has closed its own.
use kevo.Base.{ℕ, zero, suc, ◌+◌, List, [], ◌∷◌, ◌++◌, Option, none, some}
use mathlib.Core.Bool.{false≢true}
use kevo.Base.{◌≡◌, refl, arith, true, false, ◌&&◌, Bool, Bool-cases, inl, inr}
use kevo.Locks.Maps.{is_member}
use kevo.Base.Bytes.{Bytes}
use kevo.Transaction.Buffer.{Operation}
use kevo.Transaction.Lifecycle.{
  TransactionMode, unknown_tx_mode, read_only, read_write_serialized, write_read_committed, Storage,
  Manager, new_manager, tx_of, deactivate, ◌>>=◌, change, release_key_locks, release_tx_lock,
}
use kevo.Transaction.Commit.{apply_queued, count_end}
use kevo.Transaction.Accounting.{
  shares, excludes, Owes, Yields, Yields-bind, change-Owes, reweigh, same_account, OwesAfter,
  release_tx_lock-Owes,
}
use kevo.Transaction.Releases.{
  ignore_result-Owes, roll_back_active-Owes, release_key_locks-Owes, rollback_locked-Owes,
}
use kevo.Transaction.Isolation.{apply_queued-Owes, count_end-Owes, act-Owes}
use kevo.Transaction.Stages.{
  Stage, tested, applies, releases, unlocks, called_back, rolls_on, Move, calls, commits,
  rolls_back, goes_on, Running, is_open, begin_commit, begin_rollback, drop_registration,
  finds_open, finds_open_nth, undisturbed_move, undisturbed, committing, stands, beside, before,
  advance, advance_nth, move, run,
}

both_true : (x y : Bool) → x && y ≡ true → (x ≡ true) × (y ≡ true)
both_true true y h = (refl, h)
both_true false y h = absurd (false≢true h)

-- The Commits that have closed their transactions and not yet released the lock, weighed by modes.
abbrev pub weight_of : (TransactionMode → ℕ) → Stage → ℕ
weight_of weight (tested id) = 0
weight_of weight (applies mode id) = weight mode
weight_of weight (releases mode id e) = weight mode
weight_of weight (unlocks mode e) = weight mode
weight_of weight (called_back id) = 0
weight_of weight (rolls_on id) = 0

abbrev pub committers : (TransactionMode → ℕ) → List Stage → ℕ
committers weight [] = 0
committers weight (stage ∷ stages) = weight_of weight stage + committers weight stages

committers-append :
    (weight : TransactionMode → ℕ) (stages rest : List Stage)
    → committers weight (stages ++ rest) ≡ committers weight stages + committers weight rest
committers-append weight [] rest = omega arith
committers-append weight (stage ∷ stages) rest = omega (arith, committers-append weight stages rest)

-- The read-write lock is held once for each active transaction and each such Commit, and `r` and
-- `w` times besides.
abbrev pub Held : {S : Type 0} → ℕ → ℕ → List Stage × Manager S → Type 0
Held r w (stages, m) = Owes (committers shares stages + r) (committers excludes stages + w) m

module _ {S : Type 0} where
  stands-Held :
      (r w : ℕ) (stages : List Stage) (o : Option (Manager S))
      → Yields (Owes (committers shares stages + r) (committers excludes stages + w)) o
      → Yields (Held r w) (o >>= stands stages)
  stands-Held r w stages none h = h
  stands-Held r w stages (some m) h = h

  -- One call's weight, given to the ones beside it.
  beside-Held :
      (r w : ℕ) (stage : Stage) (o : Running S)
      → Yields (Held (weight_of shares stage + r) (weight_of excludes stage + w)) o
      → Yields (Held r w) (o >>= beside stage)
  beside-Held r w stage none h = h
  beside-Held r w stage (some (stages, m)) h = reweigh m (omega arith) (omega arith) h

  before-Held :
      (r w : ℕ) (rest : List Stage) (o : Running S)
      → Yields (Held (committers shares rest + r) (committers excludes rest + w)) o
      → Yields (Held r w) (o >>= before rest)
  before-Held r w rest none h = h
  before-Held r w rest (some (stages, m)) h =
      reweigh m (omega (arith, committers-append shares stages rest))
        (omega (arith, committers-append excludes stages rest)) h

  committing-Held :
      (r w : ℕ) (mode : TransactionMode) (id : Bytes) (m : Manager S)
      → Owes (shares mode + r) (excludes mode + w) m
      → Held r w (committing mode id, m)
  committing-Held r w unknown_tx_mode id m o = o
  committing-Held r w read_only id m o = reweigh m (omega arith) (omega arith) o
  committing-Held r w read_write_serialized id m o = reweigh m (omega arith) (omega arith) o
  committing-Held r w write_read_committed id m o = reweigh m (omega arith) (omega arith) o

  -- Stages without weight change nothing.
  begin_commit-Held :
      (r w : ℕ) (id : Bytes) (stages : List Stage) (m : Manager S)
      → Held r w (stages, m)
      → Held r w (begin_commit id m ++ stages, m)
  begin_commit-Held r w id stages m o = elim (Bool-cases (is_open id m)) [
    | inl e ↦ rw e (reweigh m (omega arith) (omega arith) o)
    | inr e ↦ rw e o
  ]

  begin_rollback-Held :
      (r w : ℕ) (id : Bytes) (stages : List Stage) (m m' : Manager S)
      → Held r w (stages, m')
      → Held r w (begin_rollback id m ++ stages, m')
  begin_rollback-Held r w id stages m m' o =
      elim (Bool-cases (is_member id m.locks.registry && is_open id m)) [
        | inl e ↦ rw e (reweigh m' (omega arith) (omega arith) o)
        | inr e ↦ rw e (reweigh m' (omega arith) (omega arith) o)
      ]

  drop_registration-Owes :
      (r w : ℕ) (id : Bytes) (m : Manager S) → Owes r w m → Owes r w (drop_registration id m)
  drop_registration-Owes r w id m o = elim (Bool-cases (is_member id m.locks.registry)) [
    | inl e ↦ rw e (same_account r w m _ refl refl o)
    | inr e ↦ rw e o
  ]

module _ {S : Type 0} (storage : Storage S) (sort : List Operation → List Operation) where
  advance-Held :
      (r w : ℕ) (stage : Stage) (m : Manager S)
      → finds_open stage m ≡ true
      → Owes (weight_of shares stage + r) (weight_of excludes stage + w) m
      → Yields (Held r w) (advance storage sort stage m)
  unfolding advance
  advance-Held r w (tested id) m on o =
      committing-Held r w (tx_of id m.transactions).mode id (change id deactivate m)
        (change-Owes id deactivate r w m (λ t. refl) on (reweigh m (omega arith) (omega arith) o))
  advance-Held r w (called_back id) m on o = stands-Held r w (rolls_on id ∷ []) _ (
      ignore_result-Owes _ _ _ (
        roll_back_active-Owes id (committers shares (rolls_on id ∷ []) + r)
          (committers excludes (rolls_on id ∷ []) + w) m on
          (reweigh m (omega arith) (omega arith) o)))
  advance-Held r w (applies mode id) m on o =
      let b = (tx_of id m.transactions).buffer in
      reweigh (apply_queued storage sort b m).1 (omega arith) (omega arith)
        (apply_queued-Owes storage sort b (shares mode + r) (excludes mode + w) m o)
  advance-Held r w (releases mode id e) m on o =
      stands-Held r w (unlocks mode e ∷ []) (release_key_locks mode id m) (
        release_key_locks-Owes mode id (committers shares (unlocks mode e ∷ []) + r)
          (committers excludes (unlocks mode e ∷ []) + w) m
          (reweigh m (omega arith) (omega arith) o))
  advance-Held r w (unlocks mode e) m on o = stands-Held r w [] _ (
      ignore_result-Owes (0 + r) (0 + w) _ (
        Yields-bind (Owes (0 + r) (0 + w)) (OwesAfter (0 + r) (0 + w)) (release_tx_lock mode m)
          (count_end e)
          (release_tx_lock-Owes mode (0 + r) (0 + w) m (reweigh m (omega arith) (omega arith) o))
          (count_end-Owes (0 + r) (0 + w) e)))
  advance-Held r w (rolls_on id) m on o =
      stands-Held r w [] _
        (ignore_result-Owes (0 + r) (0 + w) _ (rollback_locked-Owes id (0 + r) (0 + w) m o))

  advance_nth-Held :
      (n r w : ℕ) (stages : List Stage) (m : Manager S)
      → finds_open_nth n stages m ≡ true
      → Held r w (stages, m)
      → Yields (Held r w) (advance_nth storage sort n stages m)
  advance_nth-Held n r w [] m on o = o
  advance_nth-Held zero r w (stage ∷ stages) m on o =
      before-Held r w stages (advance storage sort stage m) (
        advance-Held (committers shares stages + r) (committers excludes stages + w) stage m on
          (reweigh m (omega arith) (omega arith) o))
  advance_nth-Held (suc n) r w (stage ∷ stages) m on o =
      beside-Held r w stage (advance_nth storage sort n stages m) (
        advance_nth-Held n (weight_of shares stage + r) (weight_of excludes stage + w) stages m on
          (reweigh m (omega arith) (omega arith) o))

  move-Held :
      (a : Move) (stages : List Stage) (m : Manager S)
      → undisturbed_move a stages m ≡ true
      → Held 0 0 (stages, m)
      → Yields (Held 0 0) (move storage sort a stages m)
  unfolding move
  move-Held (calls a) stages m on o =
      let r = committers shares stages + 0 in
      let w = committers excludes stages + 0 in
      stands-Held 0 0 stages _ (act-Owes r w storage sort a m o)
  move-Held (commits id) stages m on o = begin_commit-Held 0 0 id stages m o
  move-Held (rolls_back id) stages m on o =
      let r = committers shares stages + 0 in
      let w = committers excludes stages + 0 in
      begin_rollback-Held 0 0 id stages m (drop_registration id m)
        (drop_registration-Owes r w id m o)
  move-Held (goes_on n) stages m on o = advance_nth-Held n 0 0 stages m on o

  goes_well :
      (moves : List Move)
      → ((stages : List Stage) (m : Manager S)
          → undisturbed storage sort moves (stages, m) ≡ true
          → Held 0 0 (stages, m)
          → Yields (Held 0 0) (run storage sort moves (stages, m)))
      → (o : Running S) → Yields (Held 0 0) o
      → (elim o [ none ↦ true | some y ↦ undisturbed storage sort moves y ]) ≡ true
      → Yields (Held 0 0) (o >>= run storage sort moves)
  goes_well moves keeps none h later = h
  goes_well moves keeps (some y) h later = keeps y.0 y.1 later h

  run-keeps :
      (moves : List Move) (stages : List Stage) (m : Manager S)
      → undisturbed storage sort moves (stages, m) ≡ true
      → Held 0 0 (stages, m)
      → Yields (Held 0 0) (run storage sort moves (stages, m))
  unfolding run undisturbed
  run-keeps [] stages m u o = o
  run-keeps (a ∷ moves) stages m u o =
      let (here, later) = both_true (undisturbed_move a stages m) _ u in
      goes_well moves (run-keeps moves) (move storage sort a stages m) (move-Held a stages m here o)
        later

  -- Begin, Put, Delete, Commit and Rollback on a new manager, each a whole call, or Commit and
  -- Rollback in their steps with any steps of the others between them, in a run in which no other call
  -- closes a transaction between the test of `active` and its assignment in a Commit or in the callback
  -- of a Rollback: no mutex is unlocked twice, and behind every such run the read-write lock is held
  -- for reading once for each ReadOnly and WriteReadCommitted transaction that is active or that a
  -- Commit has closed and not yet released, for writing once for each such ReadWriteSerialized one, and
  -- never for both. The code does not keep runs of the other kind out.
  pub run-Held :
      (moves : List Move) (s : S)
      → undisturbed storage sort moves ([], new_manager s) ≡ true
      → Yields (Held 0 0) (run storage sort moves ([], new_manager s))
  run-Held moves s u =
      run-keeps moves [] (new_manager s) u
        (record { readers = omega arith; writer = omega arith; excluded = λ h. refl })
