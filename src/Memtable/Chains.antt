-- ===== src/Memtable/Chains.antt =====
-- Linked lists: what a pointer function reaches, and a node put into it.
use kevo.Base.{ℕ, zero, suc, ◌<◌, ◌≡◌, ◌≢◌, refl, sym, ◌∙◌, arith, inl, inr}
use kevo.Base.{
  List, [], ◌∷◌, ◌++◌, Option, none, some, Bool, true, false, length, ◌==◌, Bool-cases, ==_iff,
}
use kevo.Base.All.{All, last_from, select, All-append, All-front, All-back, All-last, All-select}
use kevo.Memtable.SkipList.{advance, set_at}

-- From `a` the pointers lead through these nodes, and then to nil.
abbrev pub Chain : (ℕ → Option ℕ) → ℕ → List ℕ → Type 0
Chain next a [] = next a ≡ none
Chain next a (x ∷ xs) = (next a ≡ some x) × Chain next x xs

-- No node stands twice.
abbrev pub Distinct : List ℕ → Type 0
Distinct [] = Unit
Distinct (x ∷ xs) = All (λ y. y ≢ x) xs × Distinct xs

pub Distinct-select : (test : ℕ → Bool) (xs : List ℕ) → Distinct xs → Distinct (select test xs)
Distinct-select test [] d = tt
Distinct-select test (x ∷ xs) (h, d) = elim (Bool-cases (test x)) [
  | inl e ↦ rw e (All-select test (λ y. y ≢ x) xs h, Distinct-select test xs d)
  | inr e ↦ rw e (Distinct-select test xs d)
]

-- The search passes the nodes that lie before its target.
pub advance-Chain :
    (before : ℕ → Bool) (next : ℕ → Option ℕ) (fuel a : ℕ) (xs ys : List ℕ)
    → Chain next a (xs ++ ys)
    → All (λ x. before x ≡ true) xs
    → All (λ y. before y ≡ false) ys
    → length xs < fuel
    → advance before next fuel a ≡ some (last_from a xs)
unfolding advance
advance-Chain before next zero a xs ys c h k lt = absurd (omega arith)
advance-Chain before next (suc fuel) a [] [] c h k lt = rw (c, advance) refl
advance-Chain before next (suc fuel) a [] (y ∷ ys) (e, c) h (q, k) lt = rw (e, q, advance) refl
advance-Chain before next (suc fuel) a (x ∷ xs) ys (e, c) (p, h) k lt =
    rw (e, p, advance) (advance-Chain before next fuel x xs ys c h k (omega arith))

pub Chain-back :
    (next : ℕ → Option ℕ) (a : ℕ) (xs ys : List ℕ)
    → Chain next a (xs ++ ys)
    → Chain next (last_from a xs) ys
Chain-back next a [] ys c = c
Chain-back next a (x ∷ xs) ys (e, c) = Chain-back next x xs ys c

-- Pointers that agree on a chain's nodes have the chain too.
pub Chain-frame :
    (f g : ℕ → Option ℕ) (a : ℕ) (xs : List ℕ)
    → All (λ x. g x ≡ f x) (a ∷ xs)
    → Chain f a xs
    → Chain g a xs
Chain-frame f g a [] (e, h) c = e ∙ c
Chain-frame f g a (x ∷ xs) (e, h) (p, c) = (e ∙ p, Chain-frame f g x xs h c)

pub set_at_self {ℓ} : {A : Type ℓ} (f : ℕ → A) (a : ℕ) (v : A) → set_at f a v a ≡ v
set_at_self f a v = rw ((==_iff a a).1 refl) refl

pub set_at_other {ℓ} :
    {A : Type ℓ} (f : ℕ → A) (a : ℕ) (v : A) (b : ℕ) → b ≢ a → set_at f a v b ≡ f b
set_at_other f a v b h = elim (Bool-cases (b == a)) [
  | inl e ↦ absurd (h ((==_iff b a).0 e))
  | inr e ↦ rw e refl
]

-- `node` behind `p`, and before what came behind `p`.
abbrev pub linked : (ℕ → Option ℕ) → ℕ → ℕ → ℕ → Option ℕ
linked next node p = set_at (set_at next node (next p)) p (some node)

linked_other :
    (next : ℕ → Option ℕ) (node p a : ℕ) → a ≢ p → a ≢ node → linked next node p a ≡ next a
linked_other next node p a h k =
    set_at_other (set_at next node (next p)) p (some node) a h ∙ set_at_other next node (next p) a k

linked_agree :
    (next : ℕ → Option ℕ) (node p : ℕ) (ys : List ℕ)
    → All (λ y. y ≢ p) ys
    → All (λ y. y ≢ node) ys
    → All (λ y. linked next node p y ≡ next y) ys
linked_agree next node p [] ha h = tt
linked_agree next node p (y ∷ ys) (q, ha) (r, h) =
    (linked_other next node p y q r, linked_agree next node p ys ha h)

pub Chain-linked :
    (next : ℕ → Option ℕ) (node a : ℕ) (xs ys : List ℕ)
    → Chain next a (xs ++ ys)
    → Distinct (a ∷ (xs ++ ys))
    → All (λ x. x ≢ node) (a ∷ (xs ++ ys))
    → Chain (linked next node (last_from a xs)) a (xs ++ (node ∷ ys))
Chain-linked next node a [] ys c (ha, d) (hn, h) =
    (set_at_self (set_at next node (next a)) a (some node), behind ys c ha h)
  where
    node_next : linked next node a node ≡ next a
    node_next =
        set_at_other (set_at next node (next a)) a (some node) node (λ e. hn (sym e))
        ∙ set_at_self next node (next a)

    behind :
        (ys : List ℕ)
        → Chain next a ys
        → All (λ y. y ≢ a) ys
        → All (λ y. y ≢ node) ys
        → Chain (linked next node a) node ys
    behind [] c ha h = node_next ∙ c
    behind (y ∷ ys) (e, c) ha h = (
      node_next ∙ e,
      Chain-frame next (linked next node a) y ys (linked_agree next node a (y ∷ ys) ha h) c,
    )
Chain-linked next node a (x ∷ xs) ys (e, c) ((hx, ha), d) (hn, h) = (
  linked_other next node (last_from x xs) a
        (λ p. All-last (λ y. y ≢ a) x xs hx (All-front (λ y. y ≢ a) xs ys ha) (sym p)) hn
      ∙ e,
  Chain-linked next node x xs ys c d h,
)

pub Distinct-insert :
    (n : ℕ) (xs ys : List ℕ)
    → Distinct (xs ++ ys)
    → All (λ x. x ≢ n) (xs ++ ys)
    → Distinct (xs ++ (n ∷ ys))
Distinct-insert n [] ys d h = (h, d)
Distinct-insert n (x ∷ xs) ys (k, d) (p, h) = (
  All-append (λ y. y ≢ x) xs (n ∷ ys) (All-front (λ y. y ≢ x) xs ys k)
      ((λ e. p (sym e)), All-back (λ y. y ≢ x) xs ys k),
  Distinct-insert n xs ys d h,
)
