-- ===== src/Common/Bounds.antt =====
-- What a bounded iterator of pkg/common/iterator/bounded/bounded.go shows.
use mathlib.Core.Bool.{false≢true}
use kevo.Base.{ℕ, zero, suc, ◌≤◌, Option, none, some, Bool, true, false, ◌&&◌, not, Bool-cases}
use kevo.Base.{List, [], ◌∷◌, ◌≡◌, refl, sym, ap, ◌∙◌, arith, inl, inr, length}
use kevo.Base.All.{All, All-select, select}
use kevo.Base.Bytes.{Bytes}
use kevo.Base.Compare.{less, equal, less-split}
use kevo.Common.Iterators.{
  Iterator, BoundedIterator, below, beyond, check_bounds, bounded_valid, bounded_seek_to_first,
  bounded_next, bounded_walk, bounded_seek_to_last,
}

-- No key is less than one in front of it.
abbrev pub Ascending : List Bytes → Type 0
Ascending [] = Unit
Ascending (k ∷ ks) = All (λ y. less y k ≡ false) ks × Ascending ks

-- An iterator that does what the interface says: it stands in front of `rest`, of the keys `all`.
pub record Shown {S : Type 0} (it : Iterator S) (all : List Bytes) : Type 0 where
  pub rest : S → List Bytes
  pub ended : (s : S) → rest s ≡ [] → it.valid s ≡ false
  pub at_key :
      (s : S) (k : Bytes) (ks : List Bytes)
      → rest s ≡ k ∷ ks
      → (it.valid s ≡ true) × (it.key s ≡ k) × (rest (it.next s) ≡ ks)
  pub rest-first : (s : S) → rest (it.seek_to_first s) ≡ all
  pub rest-seek : (key : Bytes) (s : S) → rest (it.seek key s) ≡ select (λ k. not (less k key)) all
  pub ascending : Ascending all

select-Ascending :
    (test : Bytes → Bool) (ks : List Bytes) → Ascending ks → Ascending (select test ks)
select-Ascending test [] a = tt
select-Ascending test (k ∷ ks) (h, a) = elim (Bool-cases (test k)) [
  | inl t ↦ rw t (All-select test (λ y. less y k ≡ false) ks h, select-Ascending test ks a)
  | inr t ↦ rw t (select-Ascending test ks a)
]

-- Behind a key that is beyond the end, every key is.
select-beyond :
    (end : Option Bytes) (k : Bytes) (ks : List Bytes)
    → beyond end k ≡ true
    → All (λ y. less y k ≡ false) ks
    → select (λ y. not (beyond end y)) ks ≡ []
select-beyond end k [] h a = refl
select-beyond none k (y ∷ ys) h a = absurd (false≢true h)
select-beyond (some end) k (y ∷ ys) h (p, a) = elim (Bool-cases (less y end)) [
  | inr t ↦ rw t (select-beyond (some end) k ys h a)
  | inl t ↦ elim (Bool-cases (less k end)) [
    | inl u ↦ absurd (false≢true (sym (ap not u) ∙ h))
    | inr u ↦ absurd (false≢true (sym p ∙ less-split y k end t u))
  ]
]

abbrev pub in_range : Option Bytes → Option Bytes → Bytes → Bool
in_range start end k = not (below start k) && not (beyond end k)

module _ {S : Type 0} (it : Iterator S) (all : List Bytes) (shown : Shown it all) where
  walk_lem :
      (fuel : ℕ) (start end : Option Bytes) (s : S) (ks : List Bytes)
      → shown.rest s ≡ ks
      → Ascending ks
      → All (λ k. below start k ≡ false) ks
      → length ks ≤ fuel
      → bounded_walk it fuel (record { inner = s; start = start; end = end })
        ≡ select (λ k. not (beyond end k)) ks
  unfolding bounded_walk bounded_valid bounded_next check_bounds
  walk_lem zero start end s [] r a h le = refl
  walk_lem zero start end s (k ∷ ks) r a h le = absurd (omega arith)
  walk_lem (suc fuel) start end s [] r a h le = rw (shown.ended s r) refl
  walk_lem (suc fuel) start end s (k ∷ ks) r (p, a) (q, h) le =
      let (valid, key, next) = shown.at_key s k ks r in
      elim (Bool-cases (beyond end k)) [
        | inl t ↦ rw (valid, key, q, t) (sym (select-beyond end k ks t p))
        | inr t ↦
            rw (valid, key, q, t)
              (ap (λ xs. k ∷ xs) (walk_lem fuel start end (it.next s) ks next a h (omega arith)))
      ]

  below-none :
      (start : Option Bytes) (ks : List Bytes) → start ≡ none → All (λ k. below start k ≡ false) ks
  below-none start [] h = tt
  below-none start (k ∷ ks) h = (ap (λ o. below o k) h, below-none start ks h)

  selected_reach :
      (start : Bytes) (ks : List Bytes)
      → All (λ k. below (some start) k ≡ false) (select (λ k. not (less k start)) ks)
  selected_reach start [] = tt
  selected_reach start (k ∷ ks) = elim (Bool-cases (less k start)) [
    | inl t ↦ rw t (selected_reach start ks)
    | inr t ↦ rw t (t, selected_reach start ks)
  ]

  select-both :
      (start : Bytes) (end : Option Bytes) (ks : List Bytes)
      → select (λ k. not (beyond end k)) (select (λ k. not (less k start)) ks)
        ≡ select (in_range (some start) end) ks
  select-both start end [] = refl
  select-both start end (k ∷ ks) = elim (Bool-cases (less k start)) [
    | inl t ↦ rw t (select-both start end ks)
    | inr t ↦ elim (Bool-cases (beyond end k)) [
      | inl u ↦ rw (t, u) (select-both start end ks)
      | inr u ↦ rw (t, u) (ap (λ xs. k ∷ xs) (select-both start end ks))
    ]
  ]

  length-select : (test : Bytes → Bool) (ks : List Bytes) → length (select test ks) ≤ length ks
  length-select test [] = omega arith
  length-select test (k ∷ ks) = elim (Bool-cases (test k)) [
    | inl t ↦ rw t (omega (arith, length-select test ks))
    | inr t ↦ rw t (omega (arith, length-select test ks))
  ]

  -- From SeekToFirst, a walk with Next shows all keys of the wrapped iterator that lie in the
  -- bounds, in their order, and no others; a missing bound is none.
  pub bounded_walk-in_range :
      (inner : S) (start end : Option Bytes)
      → bounded_walk it
          (length all)
          (bounded_seek_to_first it (record { inner = inner; start = start; end = end }))
        ≡ select (in_range start end) all
  unfolding bounded_seek_to_first
  bounded_walk-in_range inner none end =
      walk_lem (length all) none end (it.seek_to_first inner) all (shown.rest-first inner)
        shown.ascending (below-none none all refl) (omega arith)
  bounded_walk-in_range inner (some start) end =
      walk_lem (length all) (some start) end (it.seek start inner)
        (select (λ k. not (less k start)) all) (shown.rest-seek start inner)
        (select-Ascending (λ k. not (less k start)) all shown.ascending) (selected_reach start all)
        (length-select (λ k. not (less k start)) all)
      ∙ select-both start end all

  misses :
      (inner found : S) (start : Option Bytes) (end : Bytes) (xs : List Bytes)
      → shown.rest found ≡ xs
      → All (λ k. equal k end ≡ false) xs
      → All (λ k. below (some end) k ≡ false) xs
      → ((it.valid found && equal (it.key found) end) ≡ false)
        × (bounded_valid it (record { inner = found; start = start; end = some end }) ≡ false)
  unfolding bounded_valid check_bounds
  misses inner found start end [] r h k =
      (rw (shown.ended found r) refl, rw (shown.ended found r) refl)
  misses inner found start end (x ∷ xs) r (p, h) (q, k) =
      let (valid, key, next) = shown.at_key found x xs r in
      (rw (valid, key, p) refl, rw (valid, key, q) (out (below start x)))
    where
      out : (b : Bool) → (not b && false) ≡ false
      out true = refl
      out false = refl

  -- If the end bound is not itself a key, SeekToLast leaves a bounded iterator that is not valid,
  -- whatever keys lie in its bounds.
  pub bounded_seek_to_last-invalid :
      (fuel : ℕ) (inner : S) (start : Option Bytes) (end : Bytes)
      → All (λ k. equal k end ≡ false) all
      → (b : BoundedIterator S) × (bounded_seek_to_last it fuel
            (record { inner = inner; start = start; end = some end })
          ≡ some b)
        × (bounded_valid it b ≡ false)
  unfolding bounded_seek_to_last
  bounded_seek_to_last-invalid fuel inner start end h =
      let found = it.seek end inner in
      let (missed, invalid) =
        misses inner found start end (select (λ k. not (less k end)) all)
          (shown.rest-seek end inner)
          (All-select (λ k. not (less k end)) (λ k. equal k end ≡ false) all h)
          (selected_reach end all) in
      (record { inner = found; start = start; end = some end }, rw missed refl, invalid)
