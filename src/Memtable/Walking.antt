-- ===== src/Memtable/Walking.antt =====
-- What an iterator over a skip list of pkg/memtable shows.
use std.Path.{subst}
use mathlib.Core.List.{Perm}
use kevo.Base.{ℕ, zero, suc, ◌+◌, ◌<◌, ◌≡◌, ◌≢◌, refl, sym, ap, ◌∙◌, arith, map, not, ◌==◌}
use kevo.Base.{List, [], ◌∷◌, ◌++◌, Option, some, Bool, true, false, length, length-append}
use kevo.Base.Bytes.{Bytes}
use kevo.Base.Compare.{less}
use kevo.Base.All.{All, last_from, select, All-back, All-map}
use kevo.Memtable.SkipList.{Entry, SkipList, head, descend}
use kevo.Memtable.Entries.{before, Sorted}
use kevo.Memtable.Chains.{Chain}
use kevo.Memtable.Descent.{tall, descend_lem}
use kevo.Memtable.Layout.{Holds, entries}
use kevo.Memtable.Lookup.{top, behind_spot, ground_level, Split-by_key}
use kevo.Memtable.Writes.{insert_all, insert_all-Shows}
use kevo.Memtable.Iterator.{seek_to_first, seek, walk}

-- Entries as an iterator shows them: by key, and of equal keys the newer one first.
abbrev pub InOrderOfKeys : List Entry → Type 0
InOrderOfKeys [] = Unit
InOrderOfKeys (e ∷ es) = All (λ y. before y e ≡ false) es × InOrderOfKeys es

Sorted-InOrderOfKeys : (f : ℕ → Entry) (xs : List ℕ) → Sorted f xs → InOrderOfKeys (map f xs)
Sorted-InOrderOfKeys f [] s = tt
Sorted-InOrderOfKeys f (x ∷ xs) (h, s) =
    (All-map (λ y. before y (f x) ≡ false) f xs h, Sorted-InOrderOfKeys f xs s)

not_head : (a : ℕ) → a ≢ head → (a == head) ≡ false
not_head a h = ground (arith, h)

-- A walk along the pointers of the lowest level.
walk-Chain :
    (s : SkipList) (fuel start : ℕ) (ys : List ℕ)
    → Chain (s.next 0) start ys
    → All (λ a. a ≢ head) ys
    → length ys < fuel
    → walk s fuel (s.next 0 start) ≡ some (map s.entry_of ys)
unfolding walk
walk-Chain s zero start ys c h lt = absurd (omega arith)
walk-Chain s (suc fuel) start [] c h lt = rw (c, walk) refl
walk-Chain s (suc fuel) start (y ∷ ys) (e, c) (p, h) lt =
    let step : walk s (suc fuel) (some y) ≡ some (s.entry_of y ∷ map s.entry_of ys) =
      rw (walk, not_head y p, walk-Chain s fuel y ys c h (omega arith)) refl in
    ap (walk s (suc fuel)) e ∙ step

select-entries :
    (f : ℕ → Entry) (key : Bytes) (low high : List ℕ)
    → All (λ a. less (f a).key key ≡ true) low
    → All (λ a. less (f a).key key ≡ false) high
    → select (λ e. not (less e.key key)) (map f (low ++ high)) ≡ map f high
select-entries f key [] [] l h = refl
select-entries f key [] (y ∷ ys) l (p, h) =
    rw p (ap (λ es. f y ∷ es) (select-entries f key [] ys tt h))
select-entries f key (x ∷ xs) high (p, l) h = rw p (select-entries f key xs high l h)

module _ (s : SkipList) (key : Bytes) (low high : List ℕ) (holds : Holds s (low ++ high))
    (lows : All (λ a. less (s.entry_of a).key key ≡ true) low)
    (highs : All (λ a. less (s.entry_of a).key key ≡ false) high) where
  seek-parts :
      (position : Option ℕ) × (seek s key ≡ some position)
      × (walk s (s.made + 1) position
          ≡ some (select (λ e. not (less e.key key)) (entries s (low ++ high))))
  unfolding seek
  seek-parts =
      let test : ℕ → Bool = λ a. less (s.entry_of a).key key in
      let fits = length-append low high in
      let (prev, e, len, at) =
        descend_lem test s low high holds.chains lows highs (omega (arith, holds.counted, fits))
          s.max_height in
      let found : descend test s s.max_height head ≡ some (prev, last_from head (tall s 0 low)) =
        ap (descend test s s.max_height) (sym (top key s low high holds lows highs)) ∙ e in
      (
        s.next 0 (last_from head (tall s 0 low)),
        rw found refl,
        walk-Chain s (s.made + 1) (last_from head (tall s 0 low)) high
              (behind_spot key s low high holds lows highs)
              (All-back (λ a. a ≢ head) low high holds.distinct.0)
              (omega (arith, holds.counted, fits))
            ∙ ap some (sym (select-entries s.entry_of key low high lows highs)),
      )

-- Whatever entries are inserted into a new skip list, a walk with Next from SeekToFirst shows them
-- all, each as often as it was inserted, in the order of their keys and of equal keys the newer one
-- first; a walk from Seek shows those of them whose key is not less than the target.
pub walk-insert_all :
    (inserted : List (Entry × List Bool))
    → (s : SkipList) × (shown : List Entry) × (insert_all inserted ≡ some s)
      × (walk s (s.made + 1) (seek_to_first s) ≡ some shown)
      × Perm shown (map (λ p. p.0) inserted)
      × InOrderOfKeys shown
      × ((key : Bytes)
          → (position : Option ℕ) × (seek s key ≡ some position)
            × (walk s (s.made + 1) position ≡ some (select (λ e. not (less e.key key)) shown)))
walk-insert_all inserted =
    let (s, ran, v) = insert_all-Shows inserted in
    let holds = v.holds in
    (
      s,
      entries s v.order,
      ran,
      walk-Chain s (s.made + 1) head v.order
          (subst (Chain (s.next 0) head) (ground_level s v.order holds.heights) (holds.chains 0))
          holds.distinct.0 (omega (arith, holds.counted)),
      v.permuted,
      Sorted-InOrderOfKeys s.entry_of v.order holds.sorted,
      λ key.
          let sp = Split-by_key key s v.order holds in
          subst
            (λ xs.
              (position : Option ℕ) × (seek s key ≡ some position)
              × (walk s (s.made + 1) position
                  ≡ some (select (λ e. not (less e.key key)) (entries s xs))))
            (sym sp.parts)
            (seek-parts s key sp.low sp.high (subst (Holds s) sp.parts holds) sp.low_before
              sp.high_after),
    )
