-- ===== src/Transaction/Sorting.antt =====
-- An insertion sort of the operations of a buffer: an instance of what Operations of
-- pkg/transaction/buffer.go takes from sort.Slice.
use mathlib.Core.Bool.{false≢true}
use mathlib.Core.List.{Permᴰ}
use mathlib.Core.List.Permᴰ
use kevo.Base.{List, [], ◌∷◌, true, false, map}
use kevo.Base.{◌≡◌, refl, sym, ◌∙◌, inl, inr, if◌then◌else◌, Bool-cases}
use kevo.Base.All.{All}
use kevo.Base.Bytes.{Bytes}
use kevo.Base.Compare.{less, less-split, less_asym}
use kevo.Common.Bounds.{Ascending}
use kevo.Transaction.Buffer.{Operation}
use kevo.Transaction.Batches.{Sorts}

abbrev keys : List Operation → List Bytes
keys ops = map (λ op. op.key) ops

abbrev put_in : Operation → List Operation → List Operation
put_in x [] = x ∷ []
put_in x (y ∷ ys) = let rest = put_in x ys in if less x.key y.key then x ∷ y ∷ ys else y ∷ rest

abbrev pub sort : List Operation → List Operation
sort [] = []
sort (x ∷ xs) = put_in x (sort xs)

put_in-permuted : (x : Operation) (ys : List Operation) → Permᴰ (put_in x ys) (x ∷ ys)
put_in-permuted x [] = Permᴰ.refl (x ∷ [])
put_in-permuted x (y ∷ ys) = elim (Bool-cases (less x.key y.key)) [
  | inl t ↦ rw t (Permᴰ.refl (x ∷ y ∷ ys))
  | inr t ↦ rw t (Permᴰ.trans (Permᴰ.cons refl (put_in-permuted x ys)) (Permᴰ.swap refl refl))
]

sort-permuted : (xs : List Operation) → Permᴰ (sort xs) xs
sort-permuted [] = Permᴰ.nil
sort-permuted (x ∷ xs) =
    Permᴰ.trans (put_in-permuted x (sort xs)) (Permᴰ.cons refl (sort-permuted xs))

-- What is not below `y` is not below a key below `y`.
above :
    (x y : Bytes) (zs : List Bytes)
    → less x y ≡ true
    → All (λ z. less z y ≡ false) zs
    → All (λ z. less z x ≡ false) zs
above x y [] h a = tt
above x y (z ∷ zs) h (p, a) = (
  elim (Bool-cases (less z x)) [
    | inl t ↦ absurd (false≢true (sym p ∙ less-split z y x t (less_asym x y h)))
    | inr t ↦ t
  ],
  above x y zs h a,
)

put_in-All :
    (k : Bytes) (x : Operation) (ys : List Operation)
    → less x.key k ≡ false
    → All (λ z. less z k ≡ false) (keys ys)
    → All (λ z. less z k ≡ false) (keys (put_in x ys))
put_in-All k x [] h a = (h, tt)
put_in-All k x (y ∷ ys) h (p, a) = elim (Bool-cases (less x.key y.key)) [
  | inl t ↦ rw t (h, (p, a))
  | inr t ↦ rw t (p, put_in-All k x ys h a)
]

put_in-Ascending :
    (x : Operation) (ys : List Operation) → Ascending (keys ys) → Ascending (keys (put_in x ys))
put_in-Ascending x [] a = (tt, tt)
put_in-Ascending x (y ∷ ys) (p, a) = elim (Bool-cases (less x.key y.key)) [
  | inl t ↦ rw t ((less_asym x.key y.key t, above x.key y.key (keys ys) t p), (p, a))
  | inr t ↦ rw t (put_in-All y.key x ys t p, put_in-Ascending x ys a)
]

sort-Ascending : (xs : List Operation) → Ascending (keys (sort xs))
sort-Ascending [] = tt
sort-Ascending (x ∷ xs) = put_in-Ascending x (sort xs) (sort-Ascending xs)

pub sort-Sorts : Sorts sort
sort-Sorts = record { permuted = sort-permuted; ascending = sort-Ascending }
