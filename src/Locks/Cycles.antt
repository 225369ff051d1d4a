-- ===== src/Locks/Cycles.antt =====
-- What DetectDeadlockCycle of pkg/locks/deadlocks.go answers.
use std.Path.{subst, subst₂}
use kevo.Base.{
  ℕ, zero, suc, ◌+◌, ◌≤◌, ◌<◌, ◌≡◌, refl, sym, ap, ◌∙◌, arith, inl, inr, append_assoc, ◌||◌,
}
use kevo.Base.{
  List, [], ◌∷◌, ◌++◌, Option, none, some, Bool, true, false, length, drop, drop-append,
}
use kevo.Base.{if◌then◌else◌, Bool-cases, Option-cases}
use kevo.Base.Bytes.{Bytes}
use kevo.Base.Strings.{same, same-eq}
use kevo.Locks.Deadlocks.{
  Detection, deadlock, no_deadlock, Places, find, Waits, detect_loop, detect_deadlock_cycle,
}

head_eq : {a b : Bytes} {xs ys : List Bytes} → ◌≡◌ {A = List Bytes} (a ∷ xs) (b ∷ ys) → a ≡ b
head_eq h = cc

nothing_left :
    (n : Bytes) (front back : List Bytes) → ◌≡◌ {A = List Bytes} [] (front ++ (n ∷ back)) → ⊥
nothing_left n [] back h = cc
nothing_left n (f ∷ front) back h = cc

pub some_inj {ℓ} : {A : Type ℓ} {a b : A} → ◌≡◌ {A = Option A} (some a) (some b) → a ≡ b
some_inj h = cc

-- Each of the nodes waits for the next one.
pub data Chain (waits : Waits) : Bytes → List Bytes → Bytes → Type 0 where
  here : {a : Bytes} → Chain waits a [] a
  onward :
      {a b z : Bytes} {nodes : List Bytes}
      → waits a ≡ some b
      → Chain waits b nodes z
      → Chain waits a (b ∷ nodes) z

-- A cycle, given by its nodes from the first one on: each waits for the next, the last for the first.
pub data IsCycle (waits : Waits) : List Bytes → Type 0 where
  cycle :
      {a z : Bytes} {nodes : List Bytes}
      → Chain waits a nodes z
      → waits z ≡ some a
      → IsCycle waits (a ∷ nodes)

-- What an answer means, for a walk from `start`.
pub data Decides (waits : Waits) (start : Bytes) : Detection → Type 0 where
  -- The cycle is reached from `start`.
  found :
      {path nodes : List Bytes} {a : Bytes}
      → Chain waits start path a
      → IsCycle waits (a ∷ nodes)
      → Decides waits start (deadlock (a ∷ nodes))
  -- The walk from `start` ends at a node that does not wait.
  ended :
      {path : List Bytes} {z : Bytes}
      → Chain waits start path z
      → waits z ≡ none
      → Decides waits start no_deadlock

module _ {waits : Waits} where
  Chain-snoc :
      {a y z : Bytes} {nodes : List Bytes}
      → Chain waits a nodes y
      → waits y ≡ some z
      → Chain waits a (nodes ++ (z ∷ [])) z
  Chain-snoc here h = onward h here
  Chain-snoc (onward e c) h = onward e (Chain-snoc c h)

  -- A chain through `n`, from the place where `n` stands.
  Chain-split :
      (front back : List Bytes) (n : Bytes) {a z : Bytes} {nodes : List Bytes}
      → Chain waits a nodes z
      → a ∷ nodes ≡ front ++ (n ∷ back)
      → (path : List Bytes) × Chain waits a path n × Chain waits n back z
  Chain-split [] back n {a} {z} {nodes} c h = (
    [],
    subst (λ x. Chain waits a [] x) (head_eq h) here,
    subst₂ (λ x xs. Chain waits x xs z) (head_eq h) (ap (drop 1) h) c,
  )
  Chain-split (f ∷ front) back n here h = absurd (nothing_left n front back (ap (drop 1) h))
  Chain-split (f ∷ front) back n (onward e c) h =
      let (path, before, after) = Chain-split front back n c (ap (drop 1) h) in
      (_, onward e before, after)

-- Every place is the place of its node in the path.
abbrev Placed : Places → List Bytes → Type 0
Placed places path =
    (n : Bytes) (i : ℕ)
    → find places n ≡ some i
    → (front : List Bytes) × (back : List Bytes) × (path ≡ front ++ (n ∷ back)) × (i ≡ length front)

Placed-snoc :
    (places : Places) (path : List Bytes) (next : Bytes)
    → Placed places path
    → Placed ((next, length path) ∷ places) (path ++ (next ∷ []))
Placed-snoc places path next p n i h = elim (Bool-cases (same next n)) [
  | inl e ↦ (
    path,
    [],
    ap (λ x. path ++ (x ∷ [])) (same-eq next n e),
    sym (some_inj (sym (ap (λ b. if b then some (length path) else find places n) e) ∙ h)),
  )
  | inr e ↦
      let (front, back, q, r) =
        p n i (sym (ap (λ b. if b then some (length path) else find places n) e) ∙ h) in
      (
        front,
        back ++ (next ∷ []),
        ap (λ xs. xs ++ (next ∷ [])) q ∙ append_assoc front (n ∷ back) (next ∷ []),
        r,
      )
]

-- How many nodes of a list have no place yet.
abbrev unplaced : Places → List Bytes → ℕ
unplaced places [] = 0
unplaced places (u ∷ us) = (elim (find places u) [ none ↦ 1 | some i ↦ 0 ]) + unplaced places us

unplaced-nil : (us : List Bytes) → unplaced [] us ≡ length us
unplaced-nil [] = refl
unplaced-nil (u ∷ us) = omega (arith, unplaced-nil us)

abbrev pub is_among : Bytes → List Bytes → Bool
is_among n [] = false
is_among n (u ∷ us) = same n u || is_among n us

module _ (n : Bytes) (i : ℕ) (places : Places) where
  -- A new place gives no node its place back.
  unplaced-le : (us : List Bytes) → unplaced ((n, i) ∷ places) us ≤ unplaced places us
  unplaced-le [] = omega arith
  unplaced-le (u ∷ us) = elim (Bool-cases (same n u)) [
    | inl e ↦ rw e (omega (arith, unplaced-le us))
    | inr e ↦ rw e (omega (arith, unplaced-le us))
  ]

  unplaced-lt :
      (us : List Bytes)
      → find places n ≡ none
      → is_among n us ≡ true
      → unplaced ((n, i) ∷ places) us < unplaced places us
  unplaced-lt [] h among = absurd cc
  unplaced-lt (u ∷ us) h among = elim (Bool-cases (same n u)) [
    | inl e ↦
        let h' : find places u ≡ none = subst (λ x. find places x ≡ none) (same-eq n u e) h in
        rw (e, h') (omega (arith, unplaced-le us))
    | inr e ↦ rw e (omega (arith, unplaced-lt us h (sym (ap (λ b. b || is_among n us) e) ∙ among)))
  ]

module _ (waits : Waits) (nodes : List Bytes)
    (closed : (a b : Bytes) → waits a ≡ some b → is_among b nodes ≡ true) (start : Bytes) where
  found-Decides :
      {trail : List Bytes} {current next : Bytes} (front back : List Bytes) (i : ℕ)
      → Chain waits start trail current
      → waits current ≡ some next
      → start ∷ trail ≡ front ++ (next ∷ back)
      → i ≡ length front
      → Decides waits start (deadlock (drop i (start ∷ trail)))
  found-Decides {trail} {current} {next} front back i c w q r =
      let (path, before, after) = Chain-split front back next c q in
      subst (λ xs. Decides waits start (deadlock xs))
        (sym (ap (drop i) q ∙ drop-append front (next ∷ back) i r)) (found before (cycle after w))

  loop-Decides :
      (fuel : ℕ) (places : Places) (trail : List Bytes) (current : Bytes)
      → Chain waits start trail current
      → Placed places (start ∷ trail)
      → unplaced places nodes < fuel
      → Decides waits start (detect_loop waits fuel places (start ∷ trail) current)
  unfolding detect_loop
  loop-Decides zero places trail current c p enough = absurd (omega arith)
  loop-Decides (suc fuel) places trail current c p enough = elim (Option-cases (waits current)) [
    | inl w ↦ rw (w, detect_loop) (ended c w)
    | inr (next, w) ↦ elim (Option-cases (find places next)) [
      | inr (i, f) ↦
          let (front, back, q, r) = p next i f in
          rw (w, f, detect_loop) (found-Decides front back i c w q r)
      | inl f ↦
          rw (w, f, detect_loop)
            (loop-Decides fuel ((next, length (start ∷ trail)) ∷ places) (trail ++ (next ∷ [])) next
              (Chain-snoc c w) (Placed-snoc places (start ∷ trail) next p)
              (omega (
                arith,
                unplaced-lt next (length (start ∷ trail)) places nodes f (closed current next w),
              )))
    ]
  ]

  -- With more rounds than there are nodes that someone waits for, DetectDeadlockCycle answers: a
  -- deadlock only with nodes that form a cycle of waiting which is reached from the start, and
  -- none only if the waiting ends at a node that does not wait.
  pub detect_deadlock_cycle-Decides :
      (fuel : ℕ)
      → length nodes < fuel
      → Decides waits start (detect_deadlock_cycle waits fuel start)
  unfolding detect_deadlock_cycle
  detect_deadlock_cycle-Decides fuel enough =
      loop-Decides fuel [] [] start here (λ n i h. absurd cc) (omega (arith, unplaced-nil nodes))
