-- ===== src/Transaction/Accounting.antt =====
-- The read-write lock of pkg/transaction/transaction.go against the transactions that are active: an
-- account of who holds it.
use std.Path.{subst}
use kevo.Base.{ℕ, suc, ◌+◌, List, [], ◌∷◌, Option, none, some, Bool, true, false}
use kevo.Base.{◌≡◌, ◌≢◌, refl, sym, ap, ◌∙◌, inl, inr, arith, if◌then◌else◌, Bool-cases}
use kevo.Base.Bytes.{Bytes}
use kevo.Base.Strings.{same}
use mathlib.Core.Bool.{false≢true}
use kevo.Transaction.Lifecycle.{
  TransactionMode, unknown_tx_mode, read_only, read_write_serialized, write_read_committed,
  Transaction, release_serialize_lock, release_non_serialize_lock, one_reader_less, Manager, tx_of,
  update_tx, ◌>>=◌, change, set_tx_lock, release_tx_lock,
}

-- Whether a mode takes the lock for reading, and for writing.
abbrev pub shares : TransactionMode → ℕ
shares unknown_tx_mode = 0
shares read_only = 1
shares read_write_serialized = 0
shares write_read_committed = 1

abbrev pub excludes : TransactionMode → ℕ
excludes unknown_tx_mode = 0
excludes read_only = 0
excludes read_write_serialized = 1
excludes write_read_committed = 0

-- The active transactions, weighed by their modes.
abbrev pub active : (TransactionMode → ℕ) → List Transaction → ℕ
active weight [] = 0
active weight (t ∷ ts) = (if t.is_active then weight t.mode else 0) + active weight ts

abbrev pub held_count : Bool → ℕ
held_count true = 1
held_count false = 0

-- The lock is held once for each active transaction, and `r` times for reading and `w` times for
-- writing besides; who writes excludes all others.
pub record Owes {S : Type 0} (r w : ℕ) (m : Manager S) : Type 0 where
  pub readers : m.tx_lock.readers ≡ active shares m.transactions + r
  pub writer : held_count m.tx_lock.writer ≡ active excludes m.transactions + w
  pub excluded : m.tx_lock.writer ≡ true → m.tx_lock.readers ≡ 0

abbrev pub Accounts : {S : Type 0} → Manager S → Type 0
Accounts m = Owes 0 0 m

-- A call goes well, and what it answers has `P`.
abbrev pub Yields : {A : Type 0} → (A → Type 0) → Option A → Type 0
Yields P none = ⊥
Yields P (some a) = P a

pub Yields-bind :
    {A B : Type 0} (P : A → Type 0) (Q : B → Type 0) (o : Option A) (f : A → Option B)
    → Yields P o
    → ((a : A) → P a → Yields Q (f a))
    → Yields Q (o >>= f)
Yields-bind P Q none f h k = absurd h
Yields-bind P Q (some a) f h k = k a h

pub Yields-if :
    {A : Type 0} (P : A → Type 0) (b : Bool) (x y : Option A)
    → (b ≡ true → Yields P x)
    → (b ≡ false → Yields P y)
    → Yields P (if b then x else y)
Yields-if P true x y h k = h refl
Yields-if P false x y h k = k refl

-- The transaction of an id that ends weighs no more, and one that goes on weighs the same.
module _ (weight : TransactionMode → ℕ) (id : Bytes) (f : Transaction → Transaction) where
  pub active-ends :
      (ts : List Transaction)
      → ((t : Transaction) → (f t).is_active ≡ false)
      → (tx_of id ts).is_active ≡ true
      → active weight ts ≡ active weight (update_tx id f ts) + weight (tx_of id ts).mode
  active-ends [] ends on = absurd (false≢true on)
  active-ends (t ∷ ts) ends on = elim (Bool-cases (same t.id id)) [
    | inl e ↦
        let now : t.is_active ≡ true =
          sym (ap (λ b. (if b then t else tx_of id ts).is_active) e) ∙ on in
        rw (e, ends t, now) (omega arith)
    | inr e ↦
        let now : (tx_of id ts).is_active ≡ true =
          sym (ap (λ b. (if b then t else tx_of id ts).is_active) e) ∙ on in
        rw (e, active-ends ts ends now) (omega arith)
  ]

  pub active-goes_on :
      (ts : List Transaction)
      → ((t : Transaction) → ((f t).is_active ≡ t.is_active) × ((f t).mode ≡ t.mode))
      → active weight (update_tx id f ts) ≡ active weight ts
  active-goes_on [] same_t = refl
  active-goes_on (t ∷ ts) same_t = elim (Bool-cases (same t.id id)) [
    | inl e ↦ rw (e, (same_t t).0, (same_t t).1) refl
    | inr e ↦ rw (e, active-goes_on ts same_t) refl
  ]

positive : {n : ℕ} → suc n ≢ 0
positive h = omega (arith, h)

held : {w : ℕ} (b : Bool) → held_count b ≡ suc w → b ≡ true
held true h = refl
held false h = absurd (positive (sym h))

module _ {S : Type 0} where
  pub change-Owes :
      (id : Bytes) (f : Transaction → Transaction) (r w : ℕ) (m : Manager S)
      → ((t : Transaction) → (f t).is_active ≡ false)
      → (tx_of id m.transactions).is_active ≡ true
      → Owes r w m
      → Owes
          (shares (tx_of id m.transactions).mode + r)
          (excludes (tx_of id m.transactions).mode + w)
          (change id f m)
  change-Owes id f r w m ends on o = record {
    readers = omega (arith, o.readers, active-ends shares id f m.transactions ends on);
    writer = omega (arith, o.writer, active-ends excludes id f m.transactions ends on);
    excluded = o.excluded;
  }

  pub reweigh : {r w r' w' : ℕ} (m : Manager S) → r ≡ r' → w ≡ w' → Owes r w m → Owes r' w' m
  reweigh m e f o = record {
    readers = omega (arith, o.readers, e);
    writer = omega (arith, o.writer, f);
    excluded = o.excluded;
  }

  -- Nothing else of a state counts.
  pub same_account :
      (r w : ℕ) (m m' : Manager S)
      → m'.tx_lock ≡ m.tx_lock
      → m'.transactions ≡ m.transactions
      → Owes r w m
      → Owes r w m'
  same_account r w m m' e f o = record {
    readers = ap (λ l. l.readers) e ∙ o.readers ∙ ap (λ ts. active shares ts + r) (sym f);
    writer = ap (λ l. held_count l.writer) e ∙ o.writer ∙ ap (λ ts. active excludes ts + w) (sym f);
    excluded = λ h. ap (λ l. l.readers) e ∙ o.excluded (sym (ap (λ l. l.writer) e) ∙ h);
  }

  -- The same for what a call answers beside the state.
  abbrev pub OwesAfter : {R : Type 0} → ℕ → ℕ → R × Manager S → Type 0
  OwesAfter r w x = Owes r w x.1

  pub release_non_serialize_lock-Owes :
      (r w : ℕ) (m : Manager S)
      → Owes (1 + r) w m
      → Yields (Owes r w) (release_non_serialize_lock m.tx_lock >>= set_tx_lock m)
  release_non_serialize_lock-Owes r w m o =
      let n = active shares m.transactions + r in
      let e : m.tx_lock.readers ≡ suc n = omega (arith, o.readers) in
      subst (λ k. Yields (Owes r w) (one_reader_less k m.tx_lock >>= set_tx_lock m)) (sym e)
        (record {
          readers = refl;
          writer = o.writer;
          excluded = λ h. absurd (positive (sym e ∙ o.excluded h));
        })

  pub release_serialize_lock-Owes :
      (r w : ℕ) (m : Manager S)
      → Owes r (1 + w) m
      → Yields (Owes r w) (release_serialize_lock m.tx_lock >>= set_tx_lock m)
  release_serialize_lock-Owes r w m o =
      let e : m.tx_lock.writer ≡ true =
        held {w = active excludes m.transactions + w} m.tx_lock.writer (omega (arith, o.writer)) in
      subst
        (λ b.
          Yields (Owes r w)
            ((if b then some (record m.tx_lock { writer = false }) else none) >>= set_tx_lock m))
        (sym e)
        (record {
          readers = o.readers;
          writer = omega (arith, o.writer, ap held_count e);
          excluded = λ h. absurd (false≢true h);
        })

  pub release_tx_lock-Owes :
      (mode : TransactionMode) (r w : ℕ) (m : Manager S)
      → Owes (shares mode + r) (excludes mode + w) m
      → Yields (Owes r w) (release_tx_lock mode m)
  release_tx_lock-Owes unknown_tx_mode r w m o = reweigh m (omega arith) (omega arith) o
  release_tx_lock-Owes read_only r w m o =
      release_non_serialize_lock-Owes r w m (reweigh m refl (omega arith) o)
  release_tx_lock-Owes read_write_serialized r w m o =
      release_serialize_lock-Owes r w m (reweigh m (omega arith) refl o)
  release_tx_lock-Owes write_read_committed r w m o =
      release_non_serialize_lock-Owes r w m (reweigh m refl (omega arith) o)
