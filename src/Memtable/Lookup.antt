-- ===== src/Memtable/Lookup.antt =====
-- Find in pkg/memtable/skiplist.go answers the first entry with the key.
use kevo.Base.{ℕ, zero, suc, ◌+◌, ◌≤◌, ◌<◌, ◌≡◌, refl, sym, ap, ◌∙◌, arith, inl, inr, map}
use kevo.Base.{
  List, [], ◌∷◌, ◌++◌, Option, none, some, Bool, true, false, length, length-append, ltb, lt→ltb,
  le→ltb, if◌then◌else◌, Bool-cases,
}
use std.Path.{subst}
use mathlib.Core.List.{map-append}
use mathlib.Core.Bool.{false≢true}
use kevo.Base.Bytes.{Bytes}
use kevo.Base.Compare.{less, equal, less-split, equal-eq, equal_refl, compare_cases}
use kevo.Base.All.{
  All, last_from, select-append, select-none, select-All, All-front, All-back, All-map_pred,
}
use kevo.Memtable.SkipList.{Entry, SkipList, head, descend, newest, found_at, find}
use kevo.Memtable.Entries.{before, less-before, not-before-le, Sorted, Split, Split-Sorted}
use kevo.Memtable.Chains.{Chain, Chain-back}
use kevo.Memtable.Descent.{tall, descend_lem}
use kevo.Memtable.Layout.{Holds, entries}

-- The first entry with a key.
abbrev pub first_with : Bytes → List Entry → Option Entry
first_with key [] = none
first_with key (e ∷ es) = if equal e.key key then some e else first_with key es

less-not_equal : (s t : Bytes) → less s t ≡ true → equal s t ≡ false
less-not_equal s t h = ground arith

pub first_with-low :
    (key : Bytes) (f : ℕ → Entry) (low : List ℕ) (rest : List Entry)
    → All (λ a. equal (f a).key key ≡ false) low
    → first_with key (map f low ++ rest) ≡ first_with key rest
first_with-low key f [] rest h = refl
first_with-low key f (a ∷ low) rest (e, h) = rw e (first_with-low key f low rest h)

first_with-none :
    (key : Bytes) (f : ℕ → Entry) (xs : List ℕ)
    → All (λ a. equal (f a).key key ≡ false) xs
    → first_with key (map f xs) ≡ none
first_with-none key f [] h = refl
first_with-none key f (a ∷ xs) (e, h) = rw e (first_with-none key f xs h)

-- Behind an entry with a greater key there is none with the key.
behind_greater :
    (key : Bytes) (x y : Entry)
    → less x.key key ≡ false
    → equal x.key key ≡ false
    → before y x ≡ false
    → equal y.key key ≡ false
behind_greater key x y h k b = elim (Bool-cases (equal y.key key)) [
  | inr e ↦ e
  | inl e ↦ absurd (false≢true (sym b ∙ less-before y x (under e)))
]
  where
    greater : less key x.key ≡ true
    greater = ground (arith, compare_cases x.key key)

    under : equal y.key key ≡ true → less y.key x.key ≡ true
    under e = subst (λ t. less t x.key ≡ true) (sym (equal-eq y.key key e)) greater

-- Behind an entry with the key, the others with it are not newer.
behind_equal :
    (key : Bytes) (x y : Entry)
    → equal x.key key ≡ true
    → before y x ≡ false
    → equal y.key key ≡ true
    → ltb x.seq_num y.seq_num ≡ false
behind_equal key x y e b k =
    let p : y.key ≡ x.key = equal-eq y.key key k ∙ sym (equal-eq x.key key e) in
    le→ltb y.seq_num x.seq_num
      (not-before-le y x (subst (λ t. equal y.key t ≡ true) p (equal_refl y.key)) b)

abbrev first_of : List ℕ → Option ℕ
first_of [] = none
first_of (y ∷ ys) = some y

Chain-first : (next : ℕ → Option ℕ) (a : ℕ) (ys : List ℕ) → Chain next a ys → next a ≡ first_of ys
Chain-first next a [] c = c
Chain-first next a (y ∷ ys) (e, c) = e

-- The last loop of `Find` keeps an entry than which none with the key is newer.
newest_lem :
    (s : SkipList) (key : Bytes) (result : Entry) (fuel : ℕ) (ys : List ℕ)
    → (start : ℕ) → Chain (s.next 0) start ys
    → All
        (λ y.
          equal (s.entry_of y).key key ≡ true → ltb result.seq_num (s.entry_of y).seq_num ≡ false)
        ys
    → length ys < fuel
    → newest s key fuel (s.next 0 start) result ≡ some result
unfolding newest
newest_lem s key result zero ys start c h lt = absurd (omega arith)
newest_lem s key result (suc fuel) [] start c h lt = rw (c, newest) refl
newest_lem s key result (suc fuel) (y ∷ ys) start (e, c) (q, h) lt =
    elim (Bool-cases (equal (s.entry_of y).key key)) [
      | inl p ↦ rw (e, newest, p, q p) (newest_lem s key result fuel ys y c h (omega arith))
      | inr p ↦ rw (e, newest, p) refl
    ]

Sorted-back : (f : ℕ → Entry) (xs ys : List ℕ) → Sorted f (xs ++ ys) → Sorted f ys
Sorted-back f [] ys s = s
Sorted-back f (x ∷ xs) ys (h, s) = Sorted-back f xs ys s

pub ground_level :
    (s : SkipList) (xs : List ℕ)
    → All (λ a. (0 < s.height a) × (s.height a ≤ s.max_height)) xs
    → tall s 0 xs ≡ xs
ground_level s xs h =
    select-All (λ a. ltb 0 (s.height a)) xs
      (All-map_pred (λ a. (0 < s.height a) × (s.height a ≤ s.max_height))
        (λ a. ltb 0 (s.height a) ≡ true) xs (λ a p. lt→ltb 0 (s.height a) p.0) h)

module _ (key : Bytes) (s : SkipList) (low high : List ℕ) (holds : Holds s (low ++ high))
    (low_before : All (λ a. less (s.entry_of a).key key ≡ true) low)
    (high_after : All (λ a. less (s.entry_of a).key key ≡ false) high) where
  abbrev pub key_before : ℕ → Bool
  key_before a = less (s.entry_of a).key key

  abbrev pub spot : ℕ
  spot = last_from head (tall s 0 low)

  pub behind_spot : Chain (s.next 0) spot high
  behind_spot =
      let c = Chain-back (s.next 0) head (tall s 0 low) (tall s 0 high) (
        subst (Chain (s.next 0) head) (select-append (λ a. ltb 0 (s.height a)) low high)
          (holds.chains 0)) in
      subst (Chain (s.next 0) spot)
        (ground_level s high
          (All-back (λ a. (0 < s.height a) × (s.height a ≤ s.max_height)) low high holds.heights))
        c

  pub top : last_from head (tall s s.max_height low) ≡ head
  top = ap (last_from head) (
      select-none (λ a. ltb s.max_height (s.height a)) low
        (All-map_pred (λ a. (0 < s.height a) × (s.height a ≤ s.max_height))
          (λ a. ltb s.max_height (s.height a) ≡ false) low
          (λ a h. le→ltb (s.height a) s.max_height h.1)
          (All-front (λ a. (0 < s.height a) × (s.height a ≤ s.max_height)) low high holds.heights)))

  low_differ : All (λ a. equal (s.entry_of a).key key ≡ false) low
  low_differ =
      All-map_pred (λ a. less (s.entry_of a).key key ≡ true)
        (λ a. equal (s.entry_of a).key key ≡ false) low (λ a. less-not_equal (s.entry_of a).key key)
        low_before

found_high :
    (key : Bytes) (s : SkipList) (start : ℕ) (high : List ℕ)
    → Chain (s.next 0) start high
    → Sorted s.entry_of high
    → All (λ a. less (s.entry_of a).key key ≡ false) high
    → length high < s.made + 1
    → found_at s key (s.next 0 start) ≡ some (first_with key (map s.entry_of high))
unfolding found_at
found_high key s start [] c o h lt = rw (c, found_at) refl
found_high key s start (y ∷ ys) (e, c) (o, sorted) (q, h) lt =
    elim (Bool-cases (equal (s.entry_of y).key key)) [
      | inl p ↦
          let n =
            newest_lem s key (s.entry_of y) (s.made + 1) (y ∷ ys) start (e, c)
              (
                (λ k. le→ltb (s.entry_of y).seq_num (s.entry_of y).seq_num (omega arith)),
                All-map_pred (λ z. before (s.entry_of z) (s.entry_of y) ≡ false)
                    (λ z.
                      equal (s.entry_of z).key key ≡ true
                      → ltb (s.entry_of y).seq_num (s.entry_of z).seq_num ≡ false)
                    ys (λ z b. behind_equal key (s.entry_of y) (s.entry_of z) p b) o,
              )
              lt in
          let n' : newest s key (s.made + 1) (some y) (s.entry_of y) ≡ some (s.entry_of y) =
            subst (λ x. newest s key (s.made + 1) x (s.entry_of y) ≡ some (s.entry_of y)) e n in
          rw (e, found_at, p, n') refl
      | inr p ↦
          rw
            (
              e,
              found_at,
              p,
              first_with-none key s.entry_of ys (
                  All-map_pred (λ z. before (s.entry_of z) (s.entry_of y) ≡ false)
                    (λ z. equal (s.entry_of z).key key ≡ false) ys
                    (λ z b. behind_greater key (s.entry_of y) (s.entry_of z) q p b) o),
            )
            refl
    ]

find-parts :
    (key : Bytes) (s : SkipList) (low high : List ℕ)
    → Holds s (low ++ high)
    → All (λ a. less (s.entry_of a).key key ≡ true) low
    → All (λ a. less (s.entry_of a).key key ≡ false) high
    → find key s ≡ some (first_with key (map s.entry_of (low ++ high)))
unfolding find
find-parts key s low high holds lows highs =
    let (prev, e, len, at) =
      descend_lem (λ a. less (s.entry_of a).key key) s low high holds.chains lows highs
        (omega (arith, holds.counted, length-append low high)) s.max_height in
    let e' : descend (λ a. less (s.entry_of a).key key) s s.max_height head
        ≡ some (prev, last_from head (tall s 0 low)) =
      ap (descend (λ a. less (s.entry_of a).key key) s s.max_height)
        (sym (top key s low high holds lows highs))
      ∙ e in
    let found =
      found_high key s (last_from head (tall s 0 low)) high
        (behind_spot key s low high holds lows highs) (Sorted-back s.entry_of low high holds.sorted)
        highs (omega (arith, holds.counted, length-append low high)) in
    rw
      (
        e',
        found,
        map-append s.entry_of low high,
        first_with-low key s.entry_of low (map s.entry_of high)
            (low_differ key s low high holds lows highs),
      )
      refl

-- The nodes in front of a key and those behind.
pub Split-by_key :
    (key : Bytes) (s : SkipList) (order : List ℕ)
    → Holds s order
    → Split (λ a. less (s.entry_of a).key key) order
Split-by_key key s order holds =
    Split-Sorted s.entry_of (λ a. less (s.entry_of a).key key) order respects holds.sorted
  where
    respects :
        (x y : ℕ)
        → less (s.entry_of x).key key ≡ false
        → before (s.entry_of y) (s.entry_of x) ≡ false
        → less (s.entry_of y).key key ≡ false
    respects x y h b = elim (Bool-cases (less (s.entry_of y).key key)) [
      | inr e ↦ e
      | inl e ↦ absurd (
          false≢true (
            sym b
            ∙ less-before (s.entry_of y) (s.entry_of x)
                (less-split (s.entry_of y).key (s.entry_of x).key key e h)))
    ]

-- `Find` answers the first entry with the key, in the order of the list.
pub find_lem :
    (key : Bytes) (s : SkipList) (order : List ℕ)
    → Holds s order
    → find key s ≡ some (first_with key (entries s order))
find_lem key s order holds =
    let sp = Split-by_key key s order holds in
    subst (λ xs. find key s ≡ some (first_with key (entries s xs))) (sym sp.parts)
      (find-parts key s sp.low sp.high (subst (Holds s) sp.parts holds) sp.low_before sp.high_after)
