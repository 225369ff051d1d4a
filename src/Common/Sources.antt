-- ===== src/Common/Sources.antt =====
-- What the sources of the iterator of pkg/common/iterator/composite/hierarchical.go still have to
-- show, as lists of keys with their values.
use mathlib.Core.Bool.{false≢true}
use kevo.Base.{ℕ, ◌+◌, ◌≤◌, ◌<◌, List, [], ◌∷◌, ◌++◌, Option, none, some, Bool, true, false, map}
use kevo.Base.{
  ◌≡◌, refl, sym, ap, ◌∙◌, inl, inr, arith, length, if◌then◌else◌, Bool-cases, Option-cases,
}
use kevo.Base.All.{All, All-map_pred}
use kevo.Base.Bytes.{Bytes}
use kevo.Base.Compare.{less, equal, equal-eq, less-split, less_asym, less_irrefl}
use kevo.Locks.Releasing.{none_or}

abbrev pub Pairs : Type 0
Pairs = List (Bytes × Option Bytes)

abbrev pub concat : List Pairs → Pairs
concat [] = []
concat (r ∷ rs) = r ++ concat rs

-- The value of the first pair with a key.
abbrev pub find_in : Bytes → Pairs → Option (Option Bytes)
find_in key [] = none
find_in key ((k, v) ∷ r) = let rest = find_in key r in if equal k key then some v else rest

-- Whether a key lies above the one in front, if there is one.
abbrev pub above : Option Bytes → Bytes → Bool
above none key = true
above (some prev) key = less prev key

abbrev pub drop_to : Option Bytes → Pairs → Pairs
drop_to prev [] = []
drop_to prev ((k, v) ∷ r) = let rest = drop_to prev r in if above prev k then (k, v) ∷ r else rest

abbrev pub AtLeast : Bytes → Pairs → Type 0
AtLeast key r = All (λ e. less e.0 key ≡ false) r

-- The keys of a source ascend; a key may come again, with an older value.
abbrev pub Rising : Pairs → Type 0
Rising [] = Unit
Rising ((k, v) ∷ r) = AtLeast k r × Rising r

pub less_trans : (s t u : Bytes) → less s t ≡ true → less t u ≡ true → less s u ≡ true
less_trans s t u h k = less-split s u t h (less_asym t u k)

abbrev pub or_in : {A : Type 0} → Option A → Option A → Option A
or_in none o = o
or_in (some v) o = some v

pub find_in-append :
    (key : Bytes) (xs ys : Pairs) → find_in key (xs ++ ys) ≡ or_in (find_in key xs) (find_in key ys)
find_in-append key [] ys = refl
find_in-append key ((k, v) ∷ xs) ys = elim (Bool-cases (equal k key)) [
  | inl e ↦ rw e refl
  | inr e ↦ rw e (find_in-append key xs ys)
]

-- A key below all others is not found.
pub find_in-below :
    (key k : Bytes) (r : Pairs) → less key k ≡ true → AtLeast k r → find_in key r ≡ none
find_in-below key k [] h a = refl
find_in-below key k ((j, v) ∷ r) h (p, a) = elim (Bool-cases (equal j key)) [
  | inl e ↦ absurd (false≢true (sym p ∙ ap (λ x. less x k) (equal-eq j key e) ∙ h))
  | inr e ↦ rw e (find_in-below key k r h a)
]

pub AtLeast-lower : (k b : Bytes) (r : Pairs) → less k b ≡ false → AtLeast k r → AtLeast b r
AtLeast-lower k b [] h a = tt
AtLeast-lower k b ((j, v) ∷ r) h (p, a) = (
  elim (Bool-cases (less j b)) [
    | inl t ↦ absurd (false≢true (sym p ∙ less-split j k b t h))
    | inr t ↦ t
  ],
  AtLeast-lower k b r h a,
)

above_up :
    (prev : Option Bytes) (k j : Bytes)
    → above prev k ≡ true
    → less j k ≡ false
    → above prev j ≡ true
above_up none k j h p = refl
above_up (some prev) k j h p = less-split prev j k h p

module _ (prev : Option Bytes) where
  pub drop_to-Rising : (r : Pairs) → Rising r → Rising (drop_to prev r)
  drop_to-Rising [] h = tt
  drop_to-Rising ((k, v) ∷ r) (p, h) = elim (Bool-cases (above prev k)) [
    | inl t ↦ rw t (p, h)
    | inr t ↦ rw t (drop_to-Rising r h)
  ]

  -- Nothing above the key is dropped.
  pub find_in-drop_to :
      (key : Bytes) (r : Pairs)
      → above prev key ≡ true
      → find_in key (drop_to prev r) ≡ find_in key r
  find_in-drop_to key [] h = refl
  find_in-drop_to key ((k, v) ∷ r) h = elim (Bool-cases (above prev k)) [
    | inl t ↦ rw t refl
    | inr t ↦ elim (Bool-cases (equal k key)) [
      | inl e ↦ absurd (false≢true (sym t ∙ ap (above prev) (equal-eq k key e) ∙ h))
      | inr e ↦ rw (t, e) (find_in-drop_to key r h)
    ]
  ]

  pub find_in-concat-drop_to :
      (key : Bytes) (rs : List Pairs)
      → above prev key ≡ true
      → find_in key (concat (map (drop_to prev) rs)) ≡ find_in key (concat rs)
  find_in-concat-drop_to key [] h = refl
  find_in-concat-drop_to key (r ∷ rs) h =
      find_in-append key (drop_to prev r) (concat (map (drop_to prev) rs))
      ∙ ap (λ o. or_in o (find_in key (concat (map (drop_to prev) rs)))) (find_in-drop_to key r h)
      ∙ ap (or_in (find_in key r)) (find_in-concat-drop_to key rs h)
      ∙ sym (find_in-append key r (concat rs))

  -- What is left of a source lies above the key.
  pub drop_to-above : (r : Pairs) → Rising r → All (λ e. above prev e.0 ≡ true) (drop_to prev r)
  drop_to-above [] h = tt
  drop_to-above ((k, v) ∷ r) (p, h) = elim (Bool-cases (above prev k)) [
    | inl t ↦ rw t (
      t,
      All-map_pred (λ e. less e.0 k ≡ false) (λ e. above prev e.0 ≡ true) r
          (λ e. above_up prev k e.0 t) p,
    )
    | inr t ↦ rw t (drop_to-above r h)
  ]

  pub length-drop_to : (r : Pairs) → length (drop_to prev r) ≤ length r
  length-drop_to [] = omega arith
  length-drop_to ((k, v) ∷ r) = elim (Bool-cases (above prev k)) [
    | inl t ↦ rw t (omega arith)
    | inr t ↦ rw t (omega (arith, length-drop_to r))
  ]

  pub drop_to-suc :
      (k : Bytes) (v : Option Bytes) (r : Pairs)
      → above prev k ≡ false
      → length (drop_to prev ((k, v) ∷ r)) < length ((k, v) ∷ r)
  drop_to-suc k v r h = rw h (omega (arith, length-drop_to r))

-- All that sources hold.
abbrev pub total : List Pairs → ℕ
total [] = 0
total (r ∷ rs) = length r + total rs

pub total-drop_to :
    (prev : Option Bytes) (rs : List Pairs) → total (map (drop_to prev) rs) ≤ total rs
total-drop_to prev [] = omega arith
total-drop_to prev (r ∷ rs) = omega (arith, length-drop_to prev r, total-drop_to prev rs)

-- A key that is found at no key below it is dropped when it is passed.
drop_to-found :
    (key : Bytes) (v : Option Bytes) (r : Pairs)
    → Rising r
    → find_in key r ≡ some v
    → length (drop_to (some key) r) < length r
drop_to-found key v [] h e = absurd (none_or v e)
drop_to-found key v ((k, w) ∷ r) (p, h) e = elim (Bool-cases (less key k)) [
  | inr t ↦ drop_to-suc (some key) k w r t
  | inl t ↦ absurd (none_or v (sym (find_in-below key k ((k, w) ∷ r) t (less_irrefl k, p)) ∙ e))
]

pub total-found :
    (key : Bytes) (v : Option Bytes) (rs : List Pairs)
    → All Rising rs
    → find_in key (concat rs) ≡ some v
    → total (map (drop_to (some key)) rs) < total rs
total-found key v [] h e = absurd (none_or v e)
total-found key v (r ∷ rs) (p, h) e = elim (Option-cases (find_in key r)) [
  | inl q ↦
      let later : find_in key (concat rs) ≡ some v =
        sym (ap (λ o. or_in o (find_in key (concat rs))) q)
        ∙ sym (find_in-append key r (concat rs))
        ∙ e in
      omega (arith, length-drop_to (some key) r, total-found key v rs h later)
  | inr (w, q) ↦ omega (arith, drop_to-found key w r p q, total-drop_to (some key) rs)
]
