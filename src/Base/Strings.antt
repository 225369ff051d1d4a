-- ===== src/Base/Strings.antt =====
-- Go strings and map keys as byte lists, with their equality.
use mathlib.Core.Path.{◌≡◌, refl, ap, ◌∙◌}
use mathlib.Core.Bool.{Bool, true, false, ◌&&◌}
use native.Mathlib.Omega.{arith}
use mathlib.Core.List.{[], ◌∷◌}
use kevo.Base.Tests.{◌==◌, ==_iff}
use kevo.Base.Bytes.{Bytes}

abbrev pub same : Bytes → Bytes → Bool
same [] [] = true
same [] (c ∷ t) = false
same (b ∷ s) [] = false
same (b ∷ s) (c ∷ t) = b == c && same s t

pub same-eq : (s t : Bytes) → same s t ≡ true → s ≡ t
same-eq [] [] h = refl
same-eq [] (c ∷ t) h = absurd cc
same-eq (b ∷ s) [] h = absurd cc
same-eq (b ∷ s) (c ∷ t) h =
    let (p, q) = both (b == c) (same s t) h in
    ap (λ x. x ∷ s) ((==_iff b c).0 p) ∙ ap (◌∷◌ c) (same-eq s t q)
  where
    both : (x y : Bool) → x && y ≡ true → (x ≡ true) × (y ≡ true)
    both true true h = (refl, refl)
    both true false h = absurd cc
    both false y h = absurd cc

pub same_refl : (s : Bytes) → same s s ≡ true
same_refl [] = refl
same_refl (b ∷ s) = rw ((==_iff b b).1 refl) (same_refl s)

pub same_sym : (s t : Bytes) → same s t ≡ false → same t s ≡ false
same_sym [] [] h = h
same_sym [] (c ∷ t) h = refl
same_sym (b ∷ s) [] h = refl
same_sym (b ∷ s) (c ∷ t) h = ground (arith, same_sym s t)
