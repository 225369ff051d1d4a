-- ===== src/Common/Choosing.antt =====
-- The two passes of findNextUniqueKey of pkg/common/iterator/composite/hierarchical.go: the choice of
-- the smallest key and of its newest value.
use std.Path.{subst}
use mathlib.Core.Bool.{false≢true}
use kevo.Base.{ℕ, zero, suc, ◌+◌, List, [], ◌∷◌, ◌++◌, Option, none, some, true, false, map}
use kevo.Base.{
  ◌≡◌, ◌⊎◌, refl, sym, ap, ◌∙◌, inl, inr, if◌then◌else◌, Bool-cases, append-nil, append_assoc,
}
use kevo.Base.All.{All-append, All-back}
use kevo.Base.Bytes.{Bytes}
use kevo.Base.Compare.{less, equal, equal_refl, less_asym, less_irrefl, compare_cases}
use kevo.Locks.Cycles.{some_inj}
use kevo.Common.Iterators.{Iterator}
use kevo.Common.Hierarchical.{Best, better, smallest, newest_value}
use kevo.Common.Sources.{
  Pairs, concat, find_in, AtLeast, Rising, or_in, find_in-append, find_in-below, AtLeast-lower,
}

-- A source does what the interface says: it stands in front of `rest`.
pub record Source {S : Type 0} (it : Iterator S) : Type 0 where
  pub rest : S → Pairs
  pub all : S → Pairs
  pub ended : (s : S) → rest s ≡ [] → it.valid s ≡ false
  pub at_pair :
      (s : S) (k : Bytes) (v : Option Bytes) (r : Pairs)
      → rest s ≡ (k, v) ∷ r
      → (it.valid s ≡ true) × (it.key s ≡ k) × (it.value s ≡ v) × (rest (it.next s) ≡ r)
  pub rest-first : (s : S) → rest (it.seek_to_first s) ≡ all s
  pub rising : (s : S) → Rising (rest s)

-- Nothing is held, or the key is the least of what is held, with its first value.
abbrev pub Chosen : Pairs → Option Best → Type 0
Chosen r none = r ≡ []
Chosen r (some b) = (find_in b.key r ≡ some b.value) × AtLeast b.key r

pub pair_cases :
    (r : Pairs) → (r ≡ []) ⊎ ((k : Bytes) × (v : Option Bytes) × (q : Pairs) × (r ≡ (k, v) ∷ q))
pair_cases [] = inl refl
pair_cases ((k, v) ∷ q) = inr (k, v, q, refl)

-- A further source, whose first pair is smaller or not.
Chosen-first_pair :
    (i : ℕ) (k : Bytes) (v : Option Bytes) (q : Pairs)
    → Rising ((k, v) ∷ q)
    → Chosen ((k, v) ∷ q) (some (record { key = k; value = v; source = i }))
Chosen-first_pair i k v q (a, h) = (rw (equal_refl k) refl, (less_irrefl k, a))

Chosen-smaller :
    (b : Best) (i : ℕ) (k : Bytes) (v : Option Bytes) (p q : Pairs)
    → Rising ((k, v) ∷ q)
    → Chosen p (some b)
    → less k b.key ≡ true
    → Chosen (p ++ ((k, v) ∷ q)) (some (record { key = k; value = v; source = i }))
Chosen-smaller b i k v p q h (e, a) t = (
  find_in-append k p ((k, v) ∷ q)
      ∙ ap (λ o. or_in o (find_in k ((k, v) ∷ q))) (find_in-below k b.key p t a)
      ∙ (Chosen-first_pair i k v q h).0,
  All-append (λ e. less e.0 k ≡ false) p ((k, v) ∷ q)
      (AtLeast-lower b.key k p (less_asym k b.key t) a) (Chosen-first_pair i k v q h).1,
)

Chosen-kept :
    (b : Best) (k : Bytes) (v : Option Bytes) (p q : Pairs)
    → Rising ((k, v) ∷ q)
    → Chosen p (some b)
    → less k b.key ≡ false
    → Chosen (p ++ ((k, v) ∷ q)) (some b)
Chosen-kept b k v p q (c, h) (e, a) t = (
  find_in-append b.key p ((k, v) ∷ q) ∙ ap (λ o. or_in o (find_in b.key ((k, v) ∷ q))) e,
  All-append (λ e. less e.0 b.key ≡ false) p ((k, v) ∷ q) a (t, AtLeast-lower k b.key q t c),
)

-- The choice between a pair and what was chosen before it
abbrev pick : Bytes → Option Bytes → ℕ → Option Best → Option Best
pick k v i none = some (record { key = k; value = v; source = i })
pick k v i (some b) =
    if less k b.key then some (record { key = k; value = v; source = i }) else some b

pick-Chosen :
    (i : ℕ) (k : Bytes) (v : Option Bytes) (p q : Pairs) (best : Option Best)
    → Rising ((k, v) ∷ q)
    → Chosen p best
    → Chosen (p ++ ((k, v) ∷ q)) (pick k v i best)
pick-Chosen i k v p q none h c =
    subst (λ r. Chosen (r ++ ((k, v) ∷ q)) (pick k v i none)) (sym c) (Chosen-first_pair i k v q h)
pick-Chosen i k v p q (some b) h c = elim (Bool-cases (less k b.key)) [
  | inl t ↦ rw t (Chosen-smaller b i k v p q h c t)
  | inr t ↦ rw t (Chosen-kept b k v p q h c t)
]

not_in_front :
    (b : Best) (k : Bytes) (v : Option Bytes) (q r : Pairs)
    → equal k b.key ≡ false
    → Rising ((k, v) ∷ q)
    → Chosen (((k, v) ∷ q) ++ r) (some b)
    → Chosen r (some b)
not_in_front b k v q r t (h, h') (c, (p, a)) =
    let front : less b.key k ≡ true = elim (compare_cases k b.key) [
      | inl u ↦ absurd (false≢true (sym p ∙ u))
      | inr (inl u) ↦ absurd (false≢true (sym t ∙ u))
      | inr (inr u) ↦ u
    ] in
    let none_here : find_in b.key ((k, v) ∷ q) ≡ none =
      find_in-below b.key k ((k, v) ∷ q) front (less_irrefl k, h) in
    (
      sym (ap (λ o. or_in o (find_in b.key r)) none_here)
          ∙ sym (find_in-append b.key ((k, v) ∷ q) r)
          ∙ c,
      All-back (λ e. less e.0 b.key ≡ false) q r a,
    )

module _ {S : Type 0} (it : Iterator S) (source : Source it) where
  abbrev pub held : List S → Pairs
  held ss = concat (map source.rest ss)

  pick-better :
      (s : S) (i : ℕ) (best : Option Best)
      → pick (it.key s) (it.value s) i best ≡ better it s i best
  pick-better s i none = refl
  pick-better s i (some b) = refl

  better-Chosen :
      (s : S) (i : ℕ) (p : Pairs) (best : Option Best)
      → Chosen p best
      → Chosen (p ++ source.rest s) (if it.valid s then better it s i best else best)
  better-Chosen s i p best c = elim (pair_cases (source.rest s)) [
    | inl e ↦ rw (e, source.ended s e) (subst (λ r. Chosen r best) (sym (append-nil p)) c)
    | inr (k, v, q, e) ↦
        let (valid, f, g, n) = source.at_pair s k v q e in
        rw (e, valid)
          (subst (Chosen (p ++ ((k, v) ∷ q)))
            (ap (λ x. pick x v i best) (sym f)
              ∙ ap (λ x. pick (it.key s) x i best) (sym g)
              ∙ pick-better s i best)
            (pick-Chosen i k v p q best (subst Rising e (source.rising s)) c))
  ]

  pub smallest-Chosen :
      (ss : List S) (i : ℕ) (p : Pairs) (best : Option Best)
      → Chosen p best
      → Chosen (p ++ held ss) (smallest it ss i best)
  unfolding smallest
  smallest-Chosen [] i p best c = subst (λ r. Chosen r best) (sym (append-nil p)) c
  smallest-Chosen (s ∷ ss) i p best c =
      subst
        (λ r. Chosen r (smallest it ss (i + 1) (if it.valid s then better it s i best else best)))
        (append_assoc p (source.rest s) (held ss))
        (smallest-Chosen ss (i + 1) (p ++ source.rest s) _ (better-Chosen s i p best c))

  -- No newer source has the chosen key with another value.
  pub newest_value-Chosen :
      (n : ℕ) (b : Best) (ss : List S)
      → Chosen (held ss) (some b)
      → newest_value it n b.key b.value ss ≡ b.value
  unfolding newest_value
  newest_value-Chosen zero b ss c = refl
  newest_value-Chosen (suc n) b [] c = refl
  newest_value-Chosen (suc n) b (s ∷ ss) (c, a) = elim (pair_cases (source.rest s)) [
    | inl e ↦
        let later : Chosen (held ss) (some b) =
          subst (λ r. Chosen (r ++ held ss) (some b)) e (c, a) in
        rw (source.ended s e) (newest_value-Chosen n b ss later)
    | inr (k, v, q, e) ↦
        let (valid, f, g, m) = source.at_pair s k v q e in
        let at : Chosen (((k, v) ∷ q) ++ held ss) (some b) =
          subst (λ r. Chosen (r ++ held ss) (some b)) e (c, a) in
        elim (Bool-cases (equal k b.key)) [
          | inl t ↦
              rw (valid, f, t)
                (g
                  ∙ some_inj
                      (sym (ap (λ x. if x then some v else find_in b.key (q ++ held ss)) t) ∙ at.0))
          | inr t ↦
              rw (valid, f, t)
                (newest_value-Chosen n b ss
                  (not_in_front b k v q (held ss) t (subst Rising e (source.rising s)) at))
        ]
  ]
