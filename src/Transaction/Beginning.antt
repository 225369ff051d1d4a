-- ===== src/Transaction/Beginning.antt =====
-- What BeginTransaction of pkg/transaction/manager.go takes of the read-write lock.
use std.Path.{subst}
use mathlib.Core.Bool.{false≢true}
use kevo.Base.{ℕ, ◌+◌, List, [], ◌∷◌, ◌++◌, Option, none, some, Bool, true, false, ◌||◌}
use kevo.Base.{◌≡◌, refl, sym, ap, ◌∙◌, inl, inr, arith, ltb, if◌then◌else◌, Bool-cases}
use kevo.Base.Bytes.{Bytes}
use kevo.Locks.Cycles.{some_inj}
use kevo.Locks.Releasing.{none_or}
use kevo.Transaction.Buffer.{new_buffer}
use kevo.Transaction.Lifecycle.{
  TransactionMode, unknown_tx_mode, read_only, read_write_serialized, write_read_committed,
  Transaction, RwLock, acquire_serialize_lock, acquire_non_serialize_lock, Manager, ◌>>=◌, begun,
  begin_transaction,
}
use kevo.Transaction.Commit.{or_same}
use kevo.Transaction.Accounting.{shares, excludes, active, held_count, Owes, same_account}

active-begins :
    (weight : TransactionMode → ℕ) (mode : TransactionMode) (id : Bytes) (ts : List Transaction)
    → active weight
        (ts ++ (record { id = id; mode = mode; buffer = new_buffer; is_active = true } ∷ []))
      ≡ active weight ts + weight mode
active-begins weight mode id [] = omega arith
active-begins weight mode id (t ∷ ts) = omega (arith, active-begins weight mode id ts)

is_idle : (b : Bool) (n : ℕ) → (b || ltb 0 n) ≡ false → (b ≡ false) × (n ≡ 0)
is_idle true n h = absurd (false≢true (sym h))
is_idle false n h = (refl, ground arith)

module _ {S : Type 0} (r w : ℕ) where
  -- A reader comes in where nobody writes, and a writer where nobody is in.
  begun_shared :
      (mode : TransactionMode) (id : Bytes) (m : Manager S)
      → shares mode ≡ 1
      → excludes mode ≡ 0
      → Owes r w m
      → (l : RwLock) → acquire_non_serialize_lock m.tx_lock ≡ some l
      → Owes r w (begun mode id m l)
  begun_shared mode id m e f o l h = elim (Bool-cases m.tx_lock.writer) [
    | inl taken ↦ absurd (
        none_or l (
          sym (
            ap
              (λ b. if b then none else some (record m.tx_lock { readers = m.tx_lock.readers + 1 }))
              taken)
          ∙ h))
    | inr taken ↦
        let got : record m.tx_lock { readers = m.tx_lock.readers + 1 } ≡ l = some_inj (
          sym (
            ap
              (λ b. if b then none else some (record m.tx_lock { readers = m.tx_lock.readers + 1 }))
              taken)
          ∙ h) in
        subst (λ k. Owes r w (begun mode id m k)) got
          (record {
            readers = omega (arith, o.readers, e, active-begins shares mode id m.transactions);
            writer = omega (arith, o.writer, f, active-begins excludes mode id m.transactions);
            excluded = λ t. absurd (false≢true (sym taken ∙ t));
          })
  ]

  begun_serialized :
      (id : Bytes) (m : Manager S)
      → Owes r w m
      → (l : RwLock) → acquire_serialize_lock m.tx_lock ≡ some l
      → Owes r w (begun read_write_serialized id m l)
  begun_serialized id m o l h =
      let busy = m.tx_lock.writer || ltb 0 m.tx_lock.readers in
      elim (Bool-cases busy) [
        | inl taken ↦ absurd (
            none_or l (
              sym (ap (λ b. if b then none else some (record m.tx_lock { writer = true })) taken)
              ∙ h))
        | inr taken ↦
            let got : record m.tx_lock { writer = true } ≡ l = some_inj (
              sym (ap (λ b. if b then none else some (record m.tx_lock { writer = true })) taken)
              ∙ h) in
            let (no_writer, no_reader) = is_idle m.tx_lock.writer m.tx_lock.readers taken in
            subst (λ k. Owes r w (begun read_write_serialized id m k)) got
              (record {
                readers = omega (
                  arith,
                  o.readers,
                  active-begins shares read_write_serialized id m.transactions,
                );
                writer = omega (
                  arith,
                  o.writer,
                  ap held_count no_writer,
                  active-begins excludes read_write_serialized id m.transactions,
                );
                excluded = λ t. no_reader;
              })
      ]

  waited-Owes :
      (lock : Option RwLock) (f : RwLock → Manager S) (m : Manager S)
      → Owes r w m
      → ((l : RwLock) → lock ≡ some l → Owes r w (f l))
      → Owes r w (or_same m (lock >>= λ l. some (none, f l)))
  waited-Owes none f m o h = o
  waited-Owes (some l) f m o h = h l refl

  pub begin-Owes :
      (mode : TransactionMode) (id : Bytes) (m : Manager S)
      → Owes r w m
      → Owes r w (or_same m (begin_transaction mode id m))
  unfolding begin_transaction
  begin-Owes unknown_tx_mode id m o = same_account r w m _ refl refl o
  begin-Owes read_only id m o = waited-Owes _ _ m o (begun_shared read_only id m refl refl o)
  begin-Owes read_write_serialized id m o = waited-Owes _ _ m o (begun_serialized id m o)
  begin-Owes write_read_committed id m o = waited-Owes _ _ m o (λ l h.
      same_account r w _ _ refl refl (begun_shared write_read_committed id m refl refl o l h))
