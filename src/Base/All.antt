-- ===== src/Base/All.antt =====
-- Predicates of all members of a list, the members that pass a test, and the last one.
use mathlib.Core.Path.{◌≡◌, refl, sym, ap, ◌∙◌}
use mathlib.Core.Logic.{inl, inr}
use mathlib.Core.Bool.{Bool, true, false, false≢true}
use mathlib.Core.List.{List, [], ◌∷◌, ◌++◌, map}
use kevo.Base.Tests.{Bool-cases, if◌then◌else◌}

abbrev pub All {ℓ κ} : {A : Type ℓ} → (A → Type κ) → List A → Type κ
All P [] = Unit
All P (x ∷ xs) = P x × All P xs

module _ {ℓ κ} {A : Type ℓ} (P : A → Type κ) where
  pub All-append : (xs ys : List A) → All P xs → All P ys → All P (xs ++ ys)
  All-append [] ys h k = k
  All-append (x ∷ xs) ys (p, h) k = (p, All-append xs ys h k)

  pub All-front : (xs ys : List A) → All P (xs ++ ys) → All P xs
  All-front [] ys h = tt
  All-front (x ∷ xs) ys (p, h) = (p, All-front xs ys h)

  pub All-back : (xs ys : List A) → All P (xs ++ ys) → All P ys
  All-back [] ys h = h
  All-back (x ∷ xs) ys (p, h) = All-back xs ys h

  -- One more member in the middle.
  pub All-insert : (xs ys : List A) (x : A) → All P (xs ++ ys) → P x → All P (xs ++ (x ∷ ys))
  All-insert [] ys x h p = (p, h)
  All-insert (y ∷ xs) ys x (q, h) p = (q, All-insert xs ys x h p)

  pub All-map_pred {μ} :
      (Q : A → Type μ) (xs : List A) → ((x : A) → P x → Q x) → All P xs → All Q xs
  All-map_pred Q [] f h = tt
  All-map_pred Q (x ∷ xs) f (p, h) = (f x p, All-map_pred Q xs f h)

pub All-zip {ℓ κ} :
    {A : Type ℓ} (P Q R : A → Type κ) (xs : List A)
    → ((x : A) → P x → Q x → R x)
    → All P xs
    → All Q xs
    → All R xs
All-zip P Q R [] f h k = tt
All-zip P Q R (x ∷ xs) f (p, h) (q, k) = (f x p q, All-zip P Q R xs f h k)

pub All-map {ℓ κ} :
    {A : Type ℓ} {B : Type ℓ} (P : B → Type κ) (f : A → B) (xs : List A)
    → All (λ x. P (f x)) xs
    → All P (map f xs)
All-map P f [] h = tt
All-map P f (x ∷ xs) (p, h) = (p, All-map P f xs h)

module _ {ℓ} {A : Type ℓ} where
  -- The members that pass a test.
  abbrev pub select : (A → Bool) → List A → List A
  select test [] = []
  select test (x ∷ xs) = let rest = select test xs in if test x then x ∷ rest else rest

  -- The last member, or `a` where there is none.
  abbrev pub last_from : A → List A → A
  last_from a [] = a
  last_from a (x ∷ xs) = last_from x xs

  module _ (test : A → Bool) where
    pub select-append : (xs ys : List A) → select test (xs ++ ys) ≡ select test xs ++ select test ys
    select-append [] ys = refl
    select-append (x ∷ xs) ys = elim (Bool-cases (test x)) [
      | inl e ↦ rw e (ap (◌∷◌ x) (select-append xs ys))
      | inr e ↦ rw e (select-append xs ys)
    ]

    pub select-none : (xs : List A) → All (λ x. test x ≡ false) xs → select test xs ≡ []
    select-none [] h = refl
    select-none (x ∷ xs) (e, h) = rw e (select-none xs h)

    pub select-All : (xs : List A) → All (λ x. test x ≡ true) xs → select test xs ≡ xs
    select-All [] h = refl
    select-All (x ∷ xs) (e, h) = rw e (ap (◌∷◌ x) (select-All xs h))

    pub All-select {κ} : (P : A → Type κ) (xs : List A) → All P xs → All P (select test xs)
    All-select P [] h = tt
    All-select P (x ∷ xs) (p, h) = elim (Bool-cases (test x)) [
      | inl e ↦ rw e (p, All-select P xs h)
      | inr e ↦ rw e (All-select P xs h)
    ]

  pub select_congr :
      (f g : A → Bool) (xs : List A) → All (λ x. f x ≡ g x) xs → select f xs ≡ select g xs
  select_congr f g [] h = refl
  select_congr f g (x ∷ xs) (e, h) =
      rw e (ap (λ l. if g x then x ∷ l else l) (select_congr f g xs h))

  -- A narrower test selects among those that a wider one has selected.
  pub select-select :
      (f g : A → Bool) (xs : List A)
      → ((x : A) → f x ≡ true → g x ≡ true)
      → select f (select g xs) ≡ select f xs
  select-select f g [] h = refl
  select-select f g (x ∷ xs) h = elim (Bool-cases (g x)) [
    | inl e ↦ rw e (ap (λ l. if f x then x ∷ l else l) (select-select f g xs h))
    | inr e ↦ elim (Bool-cases (f x)) [
      | inl p ↦ absurd (false≢true (sym e ∙ h x p))
      | inr p ↦ rw (e, p) (select-select f g xs h)
    ]
  ]

  pub All-last {κ} : (P : A → Type κ) (a : A) (xs : List A) → P a → All P xs → P (last_from a xs)
  All-last P a [] p h = p
  All-last P a (x ∷ xs) p (q, h) = All-last P x xs q h

  pub map_congr {κ} :
      {B : Type κ} (f g : A → B) (xs : List A) → All (λ x. f x ≡ g x) xs → map f xs ≡ map g xs
  map_congr f g [] h = refl
  map_congr f g (x ∷ xs) (e, h) = rw e (ap (◌∷◌ (g x)) (map_congr f g xs h))
