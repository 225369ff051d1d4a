-- ===== src/Base/Cursor.antt =====
-- An offset into a byte slice, and what lies behind it: the way the decoders read.
use Prim.Native.Nat.{ℕ, zero, suc, ◌+◌, ◌-◌, ◌^◌, ◌<◌}
use mathlib.Core.Path.{◌≡◌, refl, sym, ap, ◌∙◌}
use mathlib.Core.Bool.{true}
use mathlib.Core.List.{List, [], ◌∷◌, ◌++◌}
use mathlib.Core.Option.{some}
use native.Mathlib.Omega.{arith}
use kevo.Base.Bytes.{Bytes, put_le, get_le, get-put_32}
use kevo.Base.Tests.{leb, le→leb}
use kevo.Base.Lists.{
  length, get_elem?, take, drop, slice, length-append, take-append, drop-append, drop-drop,
}

module _ {ℓ} {A : Type ℓ} where
  -- Behind the first `offset` items of `xs` stands `tail`.
  pub record At (xs : List A) (offset : ℕ) (tail : List A) : Type ℓ where
    pub behind : drop offset xs ≡ tail
    pub total : length xs ≡ offset + length tail

module _ {ℓ} {A : Type ℓ} where
  pub At-start : (xs : List A) → At xs 0 xs
  At-start xs = record { behind = refl; total = omega arith }

  get_elem?-drop : (n : ℕ) (xs : List A) → get_elem? xs n ≡ get_elem? (drop n xs) 0
  get_elem?-drop zero xs = refl
  get_elem?-drop (suc n) [] = refl
  get_elem?-drop (suc n) (x ∷ xs) = get_elem?-drop n xs

  module _ {xs : List A} {offset : ℕ} where
    pub At-advance :
        (front tail : List A) (k : ℕ)
        → At xs offset (front ++ tail)
        → k ≡ length front
        → At xs (offset + k) tail
    At-advance front tail k a h = record {
      behind = sym (drop-drop offset k xs) ∙ ap (drop k) a.behind ∙ drop-append front tail k h;
      total = omega (arith, a.total, length-append front tail);
    }

    pub At-next : {x : A} {tail : List A} → At xs offset (x ∷ tail) → At xs (offset + 1) tail
    At-next {x} {tail} a = At-advance (x ∷ []) tail 1 a (omega arith)

    pub get_elem?-At :
        {x : A} {tail : List A} → At xs offset (x ∷ tail) → get_elem? xs offset ≡ some x
    get_elem?-At a = get_elem?-drop offset xs ∙ ap (λ l. get_elem? l 0) a.behind

    pub slice-At :
        (front tail : List A) (k : ℕ)
        → At xs offset (front ++ tail)
        → k ≡ length front
        → slice xs offset (offset + k) ≡ front
    slice-At front tail k a h =
        ap (take (offset + k - offset)) a.behind
        ∙ take-append front tail (offset + k - offset) (omega arith)

    pub leb-At :
        (front tail : List A) (k : ℕ)
        → At xs offset (front ++ tail)
        → k ≡ length front
        → leb (offset + k) (length xs) ≡ true
    leb-At front tail k a h =
        le→leb (offset + k) (length xs) (omega (arith, a.total, length-append front tail))

-- A field behind its length in four bytes, as `binary.LittleEndian.PutUint32` writes it.
abbrev pub sized : Bytes → Bytes
sized field = put_le 4 (length field) ++ field

-- What a decoder sees of such a field at an offset.
pub record Sized (bytes : Bytes) (offset : ℕ) (field tail : Bytes) : Type 0 where
  pub length_room : leb (offset + 4) (length bytes) ≡ true
  pub length_read : get_le (slice bytes offset (offset + 4)) ≡ length field
  pub field_room : leb (offset + 4 + length field) (length bytes) ≡ true
  pub field_read : slice bytes (offset + 4) (offset + 4 + length field) ≡ field
  pub rest : At bytes (offset + 4 + length field) tail

pub Sized-At :
    {bytes : Bytes} {offset : ℕ} (field tail : Bytes)
    → length field < 2 ^ 32
    → At bytes offset (sized field ++ tail)
    → Sized bytes offset field tail
Sized-At {bytes} {offset} field tail h a =
    let front = put_le 4 (length field) in
    let b : At bytes (offset + 4) (field ++ tail) = At-advance front (field ++ tail) 4 a refl in
    record {
      length_room = leb-At front (field ++ tail) 4 a refl;
      length_read =
          ap get_le (slice-At front (field ++ tail) 4 a refl) ∙ get-put_32 (length field) h;
      field_room = leb-At field tail (length field) b refl;
      field_read = slice-At field tail (length field) b refl;
      rest = At-advance field tail (length field) b refl;
    }
