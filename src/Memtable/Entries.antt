-- ===== src/Memtable/Entries.antt =====
-- The order of the entries in pkg/memtable/skiplist.go, and the lists that it sorts.
use kevo.Base.{ℕ, ◌≤◌, ◌<◌, ◌≡◌, refl, ap, ◌∙◌, arith, inl, inr}
use kevo.Base.{List, [], ◌∷◌, ◌++◌, Bool, true, false, Bool-cases}
use kevo.Base.Compare.{
  is_lt, less, equal, less-split, equal-eq, equal_refl, less_irrefl, less_asym, compare_cases,
}
use kevo.Base.All.{All, All-map_pred, All-append, All-front, All-back}
use kevo.Memtable.SkipList.{Entry, compare_with_entry}

-- `e.compareWithEntry(f) < 0`
abbrev pub before : Entry → Entry → Bool
before e f = is_lt (compare_with_entry e f)

-- What comes before `e` comes before everything that does not.
pub before-split : (x y e : Entry) → before x e ≡ true → before y e ≡ false → before x y ≡ true
before-split x y e h k = ground (
  arith,
  less-split x.key y.key e.key,
  equal-eq x.key e.key,
  equal-eq y.key e.key,
  equal_refl e.key,
  less_irrefl e.key,
  compare_cases e.key y.key,
  equal-eq e.key y.key,
  equal-eq x.key y.key,
)

-- A smaller key comes first.
pub less-before : (x y : Entry) → less x.key y.key ≡ true → before x y ≡ true
less-before x y h = ground arith

before_irrefl : (x : Entry) → before x x ≡ false
before_irrefl x = ground (arith, less_irrefl x.key, equal_refl x.key)

-- Of two entries with one key, the one that is not behind the other is not older.
pub not-before-le :
    (x y : Entry) → equal x.key y.key ≡ true → before x y ≡ false → x.seq_num ≤ y.seq_num
not-before-le x y h k = ground arith

pub before-lt : (x y : Entry) → equal x.key y.key ≡ true → before x y ≡ true → y.seq_num < x.seq_num
before-lt x y h k = ground arith

pub before_asym : (x y : Entry) → before x y ≡ true → before y x ≡ false
before_asym x y h = ground (
  arith,
  less_asym x.key y.key,
  equal-eq x.key y.key,
  equal-eq y.key x.key,
  equal_refl x.key,
  less_irrefl x.key,
)

-- Nodes whose entries are in order.
abbrev pub Sorted : (ℕ → Entry) → List ℕ → Type 0
Sorted f [] = Unit
Sorted f (x ∷ xs) = All (λ y. before (f y) (f x) ≡ false) xs × Sorted f xs

pub Sorted-frame :
    (f g : ℕ → Entry) (xs : List ℕ) → All (λ x. g x ≡ f x) xs → Sorted f xs → Sorted g xs
Sorted-frame f g [] h s = tt
Sorted-frame f g (x ∷ xs) (e, h) (k, s) = (later xs h k, Sorted-frame f g xs h s)
  where
    ap2 : {a b c d : Entry} → a ≡ b → c ≡ d → before a c ≡ before b d
    ap2 p q = λ i. before (p i) (q i)

    later :
        (ys : List ℕ)
        → All (λ y. g y ≡ f y) ys
        → All (λ y. before (f y) (f x) ≡ false) ys
        → All (λ y. before (g y) (g x) ≡ false) ys
    later [] h k = tt
    later (y ∷ ys) (p, h) (q, k) = (ap2 p e ∙ q, later ys h k)

-- The nodes for which a test holds, and behind them those for which it does not.
pub record Split (test : ℕ → Bool) (xs : List ℕ) : Type 0 where
  pub low : List ℕ
  pub high : List ℕ
  pub parts : xs ≡ low ++ high
  pub low_before : All (λ x. test x ≡ true) low
  pub high_after : All (λ x. test x ≡ false) high

-- A test splits sorted nodes if what it refuses, it refuses in all that does not come before it.
pub Split-Sorted :
    (f : ℕ → Entry) (test : ℕ → Bool) (xs : List ℕ)
    → ((x y : ℕ) → test x ≡ false → before (f y) (f x) ≡ false → test y ≡ false)
    → Sorted f xs
    → Split test xs
Split-Sorted f test [] respects s = record {
  low = [];
  high = [];
  parts = refl;
  low_before = tt;
  high_after = tt;
}
Split-Sorted f test (x ∷ xs) respects (h, s) = elim (Bool-cases (test x)) [
  | inl e ↦
      let r = Split-Sorted f test xs respects s in
      record {
        low = x ∷ r.low;
        high = r.high;
        parts = ap (◌∷◌ x) r.parts;
        low_before = (e, r.low_before);
        high_after = r.high_after;
      }
  | inr e ↦ record {
    low = [];
    high = x ∷ xs;
    parts = refl;
    low_before = tt;
    high_after = (
      e,
      All-map_pred (λ y. before (f y) (f x) ≡ false) (λ y. test y ≡ false) xs (λ y. respects x y e)
          h,
    );
  }
]

pub Sorted-insert :
    (f : ℕ → Entry) (n : ℕ) (low high : List ℕ)
    → Sorted f (low ++ high)
    → All (λ x. before (f x) (f n) ≡ true) low
    → All (λ y. before (f y) (f n) ≡ false) high
    → Sorted f (low ++ (n ∷ high))
Sorted-insert f n [] high s l h = (h, s)
Sorted-insert f n (x ∷ low) high (k, s) (e, l) h = (
  All-append (λ y. before (f y) (f x) ≡ false) low (n ∷ high)
      (All-front (λ y. before (f y) (f x) ≡ false) low high k)
      (before_asym (f x) (f n) e, All-back (λ y. before (f y) (f x) ≡ false) low high k),
  Sorted-insert f n low high s l h,
)
