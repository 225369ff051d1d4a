-- ===== src/Memtable/Descent.antt =====
-- The search down the levels of a skip list in pkg/memtable/skiplist.go.
use kevo.Base.{ℕ, zero, suc, ◌+◌, ◌≤◌, ◌<◌, ◌≡◌, refl, ap, ◌∙◌, arith, inl, inr, ◌⊎◌}
use kevo.Base.{
  List, [], ◌∷◌, ◌++◌, Option, some, Bool, true, false, length, get_elem?, get_elem?-append,
  get_elem?-append_front, length-append, ltb, Bool-cases,
}
use std.Path.{subst}
use native.Mathlib.Decide.{dec_lt}
use kevo.Base.All.{All, last_from, select, select-append, select-select, All-select}
use kevo.Memtable.SkipList.{SkipList, head, advance, descend}
use kevo.Memtable.Chains.{Chain, advance-Chain}

List-cases {ℓ} : {A : Type ℓ} (xs : List A) → (xs ≡ []) ⊎ ((y : A) × (ys : List A) × (xs ≡ y ∷ ys))
List-cases [] = inl refl
List-cases (y ∷ ys) = inr (y, ys, refl)

-- The rest of a chain behind the last of those nodes that pass a test.
record Rest (next : ℕ → Option ℕ) (start finish : ℕ) (front back : List ℕ) : Type 0 where
  between : List ℕ
  chain : Chain next start (between ++ back)
  ends : last_from start between ≡ finish
  shorter : length between ≤ length front
  within : (test : ℕ → Bool) → All (λ x. test x ≡ true) front → All (λ x. test x ≡ true) between

Rest-all :
    (next : ℕ → Option ℕ) (a : ℕ) (front back : List ℕ)
    → Chain next a (front ++ back)
    → Rest next a (last_from a front) front back
Rest-all next a front back c = record {
  between = front;
  chain = c;
  ends = refl;
  shorter = omega arith;
  within = λ test h. h;
}

Rest-cons :
    {next : ℕ → Option ℕ} {start finish b : ℕ} {front back : List ℕ}
    → Rest next start finish front back
    → Rest next start finish (b ∷ front) back
Rest-cons r = record {
  between = r.between;
  chain = r.chain;
  ends = r.ends;
  shorter = omega (arith, r.shorter);
  within = λ test h. r.within test h.1;
}

Rest-behind :
    (next : ℕ → Option ℕ) (wider : ℕ → Bool) (a : ℕ) (front back : List ℕ)
    → Chain next a (front ++ back)
    → Rest next (last_from a (select wider front)) (last_from a front) front back
Rest-behind next wider a [] back c = Rest-all next a [] back c
Rest-behind next wider a (b ∷ front) back (e, c) = elim (Bool-cases (wider b)) [
  | inl p ↦ rw p (Rest-cons (Rest-behind next wider b front back c))
  | inr p ↦ elim (List-cases (select wider front)) [
    | inl nobody ↦ rw (p, nobody) (Rest-all next a (b ∷ front) back (e, c))
    | inr (y, ys, q) ↦
        rw (p, q)
          (Rest-cons (
            subst (λ l. Rest next (last_from b l) (last_from b front) front back) q
              (Rest-behind next wider b front back c)))
  ]
]

-- The nodes that have a level.
abbrev pub tall : SkipList → ℕ → List ℕ → List ℕ
tall s level order = select (λ a. ltb level (s.height a)) order

tall-tall :
    (s : SkipList) (level : ℕ) (order : List ℕ)
    → select (λ a. ltb (suc level) (s.height a)) (tall s level order) ≡ tall s (suc level) order
tall-tall s level order =
    select-select (λ a. ltb (suc level) (s.height a)) (λ a. ltb level (s.height a)) order
      λ x h. ground arith

module _ (before : ℕ → Bool) (s : SkipList) (low high : List ℕ)
    (chains : (level : ℕ) → Chain (s.next level) head (tall s level (low ++ high)))
    (low_before : All (λ x. before x ≡ true) low) (high_after : All (λ x. before x ≡ false) high)
    (bounded : length low ≤ s.made) where
  -- Where the search ends on a level.
  abbrev stop : ℕ → ℕ
  stop level = last_from head (tall s level low)

  length-select_le : (test : ℕ → Bool) (xs : List ℕ) → length (select test xs) ≤ length xs
  length-select_le test [] = omega arith
  length-select_le test (x ∷ xs) = elim (Bool-cases (test x)) [
    | inl e ↦ rw e (omega (arith, length-select_le test xs))
    | inr e ↦ rw e (omega (arith, length-select_le test xs))
  ]

  advance_lem :
      (level : ℕ)
      → advance before (s.next level) (s.made + 1) (stop (suc level)) ≡ some (stop level)
  advance_lem level =
      let tall_low = tall s level low in
      let tall_high = tall s level high in
      let whole : Chain (s.next level) head (tall_low ++ tall_high) =
        subst (Chain (s.next level) head) (select-append (λ a. ltb level (s.height a)) low high)
          (chains level) in
      let r : Rest (s.next level) (stop (suc level)) (stop level) tall_low tall_high =
        subst (λ l. Rest (s.next level) (last_from head l) (stop level) tall_low tall_high)
          (tall-tall s level low)
          (Rest-behind (s.next level) (λ a. ltb (suc level) (s.height a)) head tall_low tall_high
            whole) in
      advance-Chain before (s.next level) (s.made + 1) (stop (suc level)) r.between tall_high
        r.chain
        (r.within before
          (All-select (λ a. ltb level (s.height a)) (λ x. before x ≡ true) low low_before))
        (All-select (λ a. ltb level (s.height a)) (λ x. before x ≡ false) high high_after)
        (omega (arith, r.shorter, length-select_le (λ a. ltb level (s.height a)) low))
      ∙ ap some r.ends

  -- The search from the top ends on every level behind the last node there that lies before its
  -- target, and hands these nodes over.
  pub descend_lem :
      (levels : ℕ)
      → (prev : List ℕ) × (descend before s levels (stop levels) ≡ some (prev, stop 0))
        × (length prev ≡ levels)
        × ((level : ℕ) → level < levels → get_elem? prev level ≡ some (stop level))
  unfolding descend
  descend_lem zero = ([], refl, refl, λ level lt. absurd (omega arith))
  descend_lem (suc levels) =
      let (prev, e, len, at) = descend_lem levels in
      (
        prev ++ (stop levels ∷ []),
        rw (advance_lem levels, e) refl,
        omega (arith, len, length-append prev (stop levels ∷ [])),
        λ level lt. elim (dec_lt level levels) [
          | yes h ↦
              get_elem?-append_front prev (stop levels ∷ []) level (omega (arith, len)) ∙ at level h
          | no h ↦
              get_elem?-append prev (stop levels ∷ []) level (omega (arith, len))
              ∙ ap (λ k. some (stop k)) {x = levels} {y = level} (omega arith)
        ],
      )
