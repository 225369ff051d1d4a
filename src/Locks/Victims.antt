-- ===== src/Locks/Victims.antt =====
-- The transaction that detectDeadlock of pkg/locks/locks.go chooses.
use std.Path.{subst}
use Prim.Native.Nat.{min}
use kevo.Base.{ℕ, suc, ◌≤◌, ◌<◌, ◌≡◌, refl, sym, ap, ◌∙◌, arith, inl, inr, ◌⊎◌, map}
use kevo.Base.{
  List, [], ◌∷◌, Option, none, some, Bool, true, false, ◌||◌, length, ltb, if◌then◌else◌,
}
use kevo.Base.{Bool-cases, Option-cases, ltb→lt, ltb→le}
use kevo.Base.Bytes.{Bytes}
use kevo.Base.Strings.{same, same-eq, same_refl}
use kevo.Locks.Deadlocks.{
  Detection, deadlock, no_deadlock, out_of_fuel, Locks, lookup, or_empty, holder,
  next_depending_node, lock_count, fewest_locks, max_int64, victim, mark, enough_rounds, detect,
  detect_deadlock,
}
use kevo.Locks.Cycles.{
  Chain, IsCycle, Decides, found, ended, is_among, some_inj, detect_deadlock_cycle-Decides,
}

-- The strings that someone can wait for.
abbrev waited_for : Locks → List Bytes
waited_for l = [] ∷ map (λ entry. entry.1) l.holders

length-waited_for : (l : Locks) → length (waited_for l) < enough_rounds l
length-waited_for l = omega (arith, go l.holders)
  where
    go : (entries : List (Bytes × Bytes)) → length (map (λ entry. entry.1) entries) ≡ length entries
    go [] = refl
    go (e ∷ entries) = ap suc (go entries)

or_true : (b : Bool) → b || true ≡ true
or_true true = refl
or_true false = refl

same_sym_true : (s t : Bytes) → same s t ≡ true → same t s ≡ true
same_sym_true s t h = subst (λ x. same x s ≡ true) (same-eq s t h) (same_refl s)

lookup-is_among :
    (entries : List (Bytes × Bytes)) (key tx : Bytes)
    → lookup entries key ≡ some tx
    → is_among tx (map (λ entry. entry.1) entries) ≡ true
lookup-is_among [] key tx h = absurd cc
lookup-is_among ((k, a) ∷ entries) key tx h = elim (Bool-cases (same k key)) [
  | inl e ↦
      let p : a ≡ tx = some_inj (sym (ap (λ b. if b then some a else lookup entries key) e) ∙ h) in
      rw (subst (λ x. same x a ≡ true) p (same_refl a)) refl
  | inr e ↦
      let h' = sym (ap (λ b. if b then some a else lookup entries key) e) ∙ h in
      rw (lookup-is_among entries key tx h') (or_true (same tx a))
]

holder-is_among : (l : Locks) (key : Bytes) → is_among (holder l key) (waited_for l) ≡ true
holder-is_among l key = elim (Option-cases (lookup l.holders key)) [
  | inl e ↦ subst (λ o. is_among (or_empty o) (waited_for l) ≡ true) (sym e) refl
  | inr (tx, e) ↦
      subst (λ o. is_among (or_empty o) (waited_for l) ≡ true) (sym e)
        (ap (λ b. same tx [] || b) (lookup-is_among l.holders key tx e) ∙ or_true (same tx []))
]

next-is_among :
    (l : Locks) (a b : Bytes) → next_depending_node l a ≡ some b → is_among b (waited_for l) ≡ true
next-is_among l a b h = elim (Option-cases (lookup l.awaiting_tx_to_key a)) [
  | inl e ↦ absurd (none_ne b (sym (ap (next_by l) e) ∙ h))
  | inr (key, e) ↦
      subst (λ x. is_among x (waited_for l) ≡ true) (some_inj (sym (ap (next_by l) e) ∙ h))
        (holder-is_among l key)
]
  where
    next_by : Locks → Option Bytes → Option Bytes
    next_by l o = elim o [ none ↦ none | some key ↦ some (holder l key) ]

    none_ne : (b : Bytes) → ◌≡◌ {A = Option Bytes} none (some b) → ⊥
    none_ne b h = cc

detect-Decides :
    (l : Locks) (start : Bytes) → Decides (next_depending_node l) start (detect l start)
unfolding detect
detect-Decides l start =
    detect_deadlock_cycle-Decides (next_depending_node l) (waited_for l) (next-is_among l) start
      (enough_rounds l) (length-waited_for l)

is_among-head : {x n : Bytes} (nodes : List Bytes) → x ≡ n → is_among x (n ∷ nodes) ≡ true
is_among-head {x} {n} nodes h =
    subst (λ x. same x n || is_among x nodes ≡ true) (sym h)
      (ap (λ b. b || is_among n nodes) (same_refl n))

module _ (l : Locks) where
  -- A transaction with the fewest locks, as far as an int64 counts them.
  record IsFewest (nodes : List Bytes) (tx best : Bytes) (fewest : ℕ) : Type 0 where
    chosen : (best ≡ tx) ⊎ (is_among best nodes ≡ true)
    fewer : min (lock_count l best) max_int64 ≤ fewest
    fewest_of :
        (u : Bytes) → is_among u nodes ≡ true → min (lock_count l best) max_int64 ≤ lock_count l u

  IsFewest-cons :
      {nodes : List Bytes} {tx tx' best n : Bytes} {fewest fewest' : ℕ}
      → (tx' ≡ tx) ⊎ (tx' ≡ n)
      → fewest' ≤ fewest
      → fewest' ≤ lock_count l n
      → IsFewest nodes tx' best fewest'
      → IsFewest (n ∷ nodes) tx best fewest
  IsFewest-cons {nodes} {tx} {tx'} {best} {n} from le le_n ih = record {
    chosen = choice from ih.chosen;
    fewer = omega (arith, ih.fewer, le);
    fewest_of = λ u among. elim (Bool-cases (same u n)) [
      | inl e ↦
          subst (λ x. min (lock_count l best) max_int64 ≤ lock_count l x) (sym (same-eq u n e))
            (omega (arith, ih.fewer, le_n))
      | inr e ↦ ih.fewest_of u (sym (ap (λ b. b || is_among u nodes) e) ∙ among)
    ];
  }
    where
      choice :
          (tx' ≡ tx) ⊎ (tx' ≡ n)
          → (best ≡ tx') ⊎ (is_among best nodes ≡ true)
          → (best ≡ tx) ⊎ (is_among best (n ∷ nodes) ≡ true)
      choice (inl p) (inl q) = inl (q ∙ p)
      choice (inr p) (inl q) = inr (is_among-head _ (q ∙ p))
      choice _ (inr q) = inr (ap (λ b. same best n || b) q ∙ or_true (same best n))

  fewest_locks-IsFewest :
      (nodes : List Bytes) (tx : Bytes) (fewest : ℕ)
      → min (lock_count l tx) max_int64 ≤ fewest
      → IsFewest nodes tx (fewest_locks l nodes tx fewest) fewest
  fewest_locks-IsFewest [] tx fewest h = record {
    chosen = inl refl;
    fewer = h;
    fewest_of = λ u e. absurd cc;
  }
  fewest_locks-IsFewest (n ∷ nodes) tx fewest h = elim (Bool-cases (ltb (lock_count l n) fewest)) [
    | inl e ↦
        let ih = fewest_locks-IsFewest nodes n (lock_count l n) (omega arith) in
        rw e (IsFewest-cons (inr refl) (omega (arith, ltb→lt _ _ e)) (omega arith) ih)
    | inr e ↦
        let ih = fewest_locks-IsFewest nodes tx fewest h in
        rw e (IsFewest-cons (inl refl) (omega arith) (ltb→le _ _ e) ih)
  ]

  -- A member of the list that has the fewest locks in it.
  abbrev pub Victim : List Bytes → Bytes → Type 0
  Victim nodes tx =
      (is_among tx nodes ≡ true)
      × ((u : Bytes) → is_among u nodes ≡ true → min (lock_count l tx) max_int64 ≤ lock_count l u)

  fewest_locks-Victim :
      (n : Bytes) (nodes : List Bytes) → Victim (n ∷ nodes) (fewest_locks l (n ∷ nodes) n max_int64)
  fewest_locks-Victim n nodes =
      let f = fewest_locks-IsFewest (n ∷ nodes) n max_int64 (omega arith) in
      (among f.chosen, f.fewest_of)
    where
      among :
          {x : Bytes} → (x ≡ n) ⊎ (is_among x (n ∷ nodes) ≡ true) → is_among x (n ∷ nodes) ≡ true
      among (inl p) = is_among-head _ p
      among (inr q) = q

  -- An answer that chooses `tx`: the nodes are those of a cycle, `tx` is a victim, and it is marked.
  pub data Chooses (start : Bytes) : Detection → Option Bytes × Locks → Type 0 where
    aborts :
        {path nodes : List Bytes} {a tx : Bytes}
        → Chain (next_depending_node l) start path a
        → IsCycle (next_depending_node l) (a ∷ nodes)
        → Victim (a ∷ nodes) tx
        → Chooses start (deadlock (a ∷ nodes)) (some tx, mark (some tx) l)
    lets_wait :
        {path : List Bytes} {z : Bytes}
        → Chain (next_depending_node l) start path z
        → next_depending_node l z ≡ none
        → Chooses start no_deadlock (none, l)

  Chooses-victim :
      (start : Bytes) (d : Detection)
      → Decides (next_depending_node l) start d
      → Chooses start d (victim l d, mark (victim l d) l)
  Chooses-victim start (deadlock (n ∷ nodes)) (found c y) = aborts c y (fewest_locks-Victim n nodes)
  Chooses-victim start (deadlock []) d = elim d [ ]
  Chooses-victim start out_of_fuel d = elim d [ ]
  Chooses-victim start no_deadlock (ended c h) = lets_wait c h

  -- On every lock table detectDeadlock comes to an end. Either it marks one transaction to abort,
  -- which is on a cycle of waiting that is reached from the start and has the fewest locks there,
  -- as far as an int64 counts them, or the waiting ends at a node that does not wait, and nothing
  -- is marked.
  pub detect_deadlock-Chooses :
      (start : Bytes) → Chooses start (detect l start) (detect_deadlock l start)
  unfolding detect_deadlock
  detect_deadlock-Chooses start = Chooses-victim start (detect l start) (detect-Decides l start)
