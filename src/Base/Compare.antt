-- ===== src/Base/Compare.antt =====
-- `bytes.Compare`: the lexicographic order of byte slices.
use Prim.Native.Nat.{compare, Ordering}
use mathlib.Core.Path.{◌≡◌, refl}
use mathlib.Core.Logic.{◌⊎◌, inl, inr}
use mathlib.Core.Bool.{Bool, true, false}
use mathlib.Core.List.{[], ◌∷◌}
use native.Mathlib.Omega.{arith}
use kevo.Base.Bytes.{Bytes}

abbrev pub compare_bytes : Bytes → Bytes → Ordering
compare_bytes [] [] = Ordering.eq
compare_bytes [] (c ∷ t) = Ordering.lt
compare_bytes (b ∷ s) [] = Ordering.gt
compare_bytes (b ∷ s) (c ∷ t) = elim (compare b c) [
  | Ordering.lt ↦ Ordering.lt
  | Ordering.eq ↦ compare_bytes s t
  | Ordering.gt ↦ Ordering.gt
]

abbrev pub is_lt : Ordering → Bool
is_lt Ordering.lt = true
is_lt Ordering.eq = false
is_lt Ordering.gt = false

abbrev pub is_eq : Ordering → Bool
is_eq Ordering.lt = false
is_eq Ordering.eq = true
is_eq Ordering.gt = false

-- `bytes.Compare(s, t) < 0`
abbrev pub less : Bytes → Bytes → Bool
less s t = is_lt (compare_bytes s t)

-- `bytes.Compare(s, t) == 0`
abbrev pub equal : Bytes → Bytes → Bool
equal s t = is_eq (compare_bytes s t)

-- What lies below `u` lies below everything that does not.
pub less-split : (s t u : Bytes) → less s u ≡ true → less t u ≡ false → less s t ≡ true
less-split [] t [] h k = cc
less-split [] [] (d ∷ u) h k = cc
less-split [] (c ∷ t) (d ∷ u) h k = refl
less-split (b ∷ s) t [] h k = cc
less-split (b ∷ s) [] (d ∷ u) h k = cc
less-split (b ∷ s) (c ∷ t) (d ∷ u) h k = ground (arith, less-split s t u)

pub equal-eq : (s t : Bytes) → equal s t ≡ true → s ≡ t
equal-eq [] [] h = refl
equal-eq [] (c ∷ t) h = absurd (cc)
equal-eq (b ∷ s) [] h = absurd (cc)
equal-eq (b ∷ s) (c ∷ t) h = ground (arith, equal-eq s t)

pub equal_refl : (s : Bytes) → equal s s ≡ true
equal_refl [] = refl
equal_refl (b ∷ s) = ground (arith, equal_refl s)

pub less_irrefl : (s : Bytes) → less s s ≡ false
less_irrefl [] = refl
less_irrefl (b ∷ s) = ground (arith, less_irrefl s)

pub less_asym : (s t : Bytes) → less s t ≡ true → less t s ≡ false
less_asym [] [] h = cc
less_asym [] (c ∷ t) h = refl
less_asym (b ∷ s) [] h = cc
less_asym (b ∷ s) (c ∷ t) h = ground (arith, less_asym s t)

-- Of two slices one lies below the other, or they are equal.
pub compare_cases : (s t : Bytes) → (less s t ≡ true) ⊎ ((equal s t ≡ true) ⊎ (less t s ≡ true))
compare_cases [] [] = inr (inl refl)
compare_cases [] (c ∷ t) = inl refl
compare_cases (b ∷ s) [] = inr (inr refl)
compare_cases (b ∷ s) (c ∷ t) = ground (arith, compare_cases s t)
