-- ===== src/Transaction/Wholes.antt =====
-- Commit and Rollback of pkg/transaction/transaction.go in their steps, with nothing between them,
-- against the whole calls.
use kevo.Base.{List, [], ◌∷◌, ◌++◌, Option, none, some}
use kevo.Base.{◌≡◌, refl, ap, ◌∙◌, inl, inr, Bool-cases}
use kevo.Base.Bytes.{Bytes}
use kevo.Base.Strings.{same}
use kevo.Locks.Maps.{is_member}
use kevo.Locks.Table.{release_locks_and_unregister_tx}
use kevo.Transaction.Buffer.{Buffer, Operation}
use kevo.Transaction.Lifecycle.{
  TransactionMode, unknown_tx_mode, read_only, read_write_serialized, write_read_committed,
  Transaction, Storage, Manager, tx_of, update_tx, deactivate, ◌>>=◌, change, ignore_result,
  release_tx_lock, release_and_call_back, roll_back_active, rollback_safe, rollback_locked,
  rollback,
}
use kevo.Transaction.Commit.{apply_queued, commit_by, commit, count_end}
use kevo.Transaction.Stages.{
  unlocks, rolls_on, Move, commits, rolls_back, goes_on, is_open, committing, stands, before,
  advance, run,
}

deactivate-buffer :
    (id : Bytes) (ts : List Transaction)
    → (tx_of id (update_tx id deactivate ts)).buffer ≡ (tx_of id ts).buffer
deactivate-buffer id [] = refl
deactivate-buffer id (t ∷ ts) = elim (Bool-cases (same t.id id)) [
  | inl e ↦ rw (e, e) refl
  | inr e ↦ rw (e, e) (deactivate-buffer id ts)
]

committing-whole :
    (mode : TransactionMode) (id : Bytes) → committing mode id ++ [] ≡ committing mode id
committing-whole unknown_tx_mode id = refl
committing-whole read_only id = refl
committing-whole read_write_serialized id = refl
committing-whole write_read_committed id = refl

-- The steps of a call that are left, at most three.
abbrev one : List Move
one = goes_on 0 ∷ []

abbrev two : List Move
two = goes_on 0 ∷ one

abbrev three : List Move
three = goes_on 0 ∷ two

module _ {S : Type 0} (storage : Storage S) (sort : List Operation → List Operation) where
  -- A call that is through stays so.
  settled :
      (rest : List Move)
      → ((m : Manager S) → run storage sort rest ([], m) ≡ some ([], m))
      → (o : Option (Manager S))
      → (((o >>= stands []) >>= before []) >>= run storage sort rest) ≡ (o >>= stands [])
  settled rest idle none = refl
  settled rest idle (some m) = idle m

  -- Behind the batch, where the key locks are released.
  unlocked :
      (e : Option Bytes) (o : Option (Manager S))
      → (((o >>= stands (unlocks write_read_committed e ∷ [])) >>= before [])
          >>= run storage sort one)
        ≡ (ignore_result ((o >>= release_tx_lock write_read_committed) >>= count_end e)
            >>= stands [])
  unfolding run advance
  unlocked e none = refl
  unlocked e (some m) =
      settled [] (λ m. refl)
        (ignore_result (release_tx_lock write_read_committed m >>= count_end e))

  committing-steps :
      (mode : TransactionMode) (id : Bytes) (m : Manager S)
      → run storage sort three (committing mode id, m) ≡ (
          ignore_result (commit_by storage sort mode id (tx_of id m.transactions).buffer m)
          >>= stands [])
  unfolding run advance
  committing-steps unknown_tx_mode id m = refl
  committing-steps read_only id m =
      settled two (λ m. refl) (ignore_result (release_tx_lock read_only m >>= count_end none))
  committing-steps read_write_serialized id m =
      let (e, m') = apply_queued storage sort (tx_of id m.transactions).buffer m in
      settled [] (λ m. refl)
        (ignore_result (release_tx_lock read_write_serialized m' >>= count_end e))
  committing-steps write_read_committed id m =
      let (e, m') = apply_queued storage sort (tx_of id m.transactions).buffer m in
      unlocked e (release_and_call_back id m')

  -- Commit, with nothing between its steps, is the whole call.
  pub commit-steps :
      (id : Bytes) (m : Manager S)
      → run storage sort (commits id ∷ goes_on 0 ∷ three) ([], m)
        ≡ (ignore_result (commit storage sort id m) >>= stands [])
  unfolding run advance commit
  commit-steps id m = elim (Bool-cases (is_open id m)) [
    | inr off ↦ rw off refl
    | inl on ↦
        let t = tx_of id m.transactions in
        let m' = change id deactivate m in
        rw on (
          ap (λ stages. run storage sort three (stages, m')) (committing-whole t.mode id)
          ∙ committing-steps t.mode id m'
          ∙ ap (λ (b : Buffer). ignore_result (commit_by storage sort t.mode id b m') >>= stands [])
              (deactivate-buffer id m.transactions))
  ]

  rolled_on :
      (id : Bytes) (o : Option (Manager S))
      → (((o >>= stands (rolls_on id ∷ [])) >>= before []) >>= run storage sort one)
        ≡ (ignore_result (o >>= rollback_locked id) >>= stands [])
  unfolding run advance
  rolled_on id none = refl
  rolled_on id (some m) = settled [] (λ m. refl) (ignore_result (rollback_locked id m))

  -- Rollback, with nothing between its steps, is the whole call; without a callback the second one is
  -- none.
  pub rollback-steps :
      (id : Bytes) (m : Manager S)
      → run storage sort (rolls_back id ∷ two) ([], m)
        ≡ (ignore_result (rollback id m) >>= stands [])
  unfolding run advance rollback release_and_call_back rollback_safe
  rollback-steps id m =
      let m' : Manager S = record m { locks = release_locks_and_unregister_tx id m.locks } in
      elim (Bool-cases (is_member id m.locks.registry)) [
        | inr off ↦ rw off (settled one (λ m. refl) (ignore_result (rollback_locked id m)))
        | inl on ↦ elim (Bool-cases (is_open id m)) [
          | inr closed ↦
              rw (on, closed) (settled one (λ m. refl) (ignore_result (rollback_locked id m')))
          | inl open_now ↦ rw (on, open_now) (rolled_on id (ignore_result (roll_back_active id m')))
        ]
      ]
