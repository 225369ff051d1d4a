-- ===== src/Common/Merging.antt =====
-- What a walk of the iterator of pkg/common/iterator/composite/hierarchical.go shows.
use std.Path.{subst}
use mathlib.Core.Bool.{false≢true}
use kevo.Base.{ℕ, zero, suc, ◌<◌, List, [], ◌∷◌, Option, none, some, true, false, map}
use kevo.Base.{◌≡◌, refl, sym, ap, ◌∙◌, inl, inr, arith, if◌then◌else◌, Bool-cases}
use kevo.Base.All.{All}
use kevo.Base.Bytes.{Bytes}
use kevo.Base.Compare.{less, equal, equal-eq, compare_cases}
use kevo.Locks.Releasing.{none_or}
use kevo.Common.Iterators.{Iterator}
use kevo.Common.Hierarchical.{
  HierarchicalIterator, find_next_unique_key, without_answer, hierarchical_seek_to_first,
  hierarchical_next, read_on, hierarchical_walk,
}
use kevo.Common.Sources.{
  Pairs, concat, find_in, above, drop_to, AtLeast, Rising, less_trans, find_in-below,
  find_in-concat-drop_to, total, total-found,
}
use kevo.Common.Choosing.{Source}
use kevo.Common.Standing.{drop_to-none, all_Rising, Standing, find_next-Standing}

-- The keys go up strictly, from one above `prev` on.
abbrev pub Steep : Option Bytes → Pairs → Type 0
Steep prev [] = Unit
Steep prev ((k, v) ∷ r) = (above prev k ≡ true) × Steep (some k) r

Steep-none :
    (prev key : Bytes) (r : Pairs)
    → Steep (some prev) r
    → less prev key ≡ false
    → find_in key r ≡ none
Steep-none prev key [] h t = refl
Steep-none prev key ((k, v) ∷ r) (p, h) t = elim (Bool-cases (equal k key)) [
  | inl e ↦ absurd (false≢true (sym t ∙ ap (less prev) (sym (equal-eq k key e)) ∙ p))
  | inr e ↦ rw e (
      Steep-none k key r h (elim (Bool-cases (less k key)) [
        | inl u ↦ absurd (false≢true (sym t ∙ less_trans prev k key p u))
        | inr u ↦ u
      ]))
]

found_above :
    (prev : Option Bytes) (key : Bytes) (v : Option Bytes) (r : Pairs)
    → All (λ e. above prev e.0 ≡ true) r
    → find_in key r ≡ some v
    → above prev key ≡ true
found_above prev key v [] a e = absurd (none_or v e)
found_above prev key v ((k, w) ∷ r) (p, a) e = elim (Bool-cases (equal k key)) [
  | inl t ↦ ap (above prev) (sym (equal-eq k key t)) ∙ p
  | inr t ↦ found_above prev key v r a (sym (ap (λ b. if b then some w else find_in key r) t) ∙ e)
]

-- The pair at which an iterator stands, in front of what it shows later.
found_on :
    (k : Bytes) (v : Option Bytes) (rs : List Pairs) (out : Pairs)
    → find_in k (concat rs) ≡ some v
    → AtLeast k (concat rs)
    → Steep (some k) out
    → ((key : Bytes) → find_in key out ≡ find_in key (concat (map (drop_to (some k)) rs)))
    → (key : Bytes) → find_in key ((k, v) ∷ out) ≡ find_in key (concat rs)
found_on k v rs out e a steep later key = elim (Bool-cases (equal k key)) [
  | inl t ↦ rw t (sym e ∙ ap (λ x. find_in x (concat rs)) (equal-eq k key t))
  | inr t ↦ elim (Bool-cases (less k key)) [
    | inl u ↦ rw t (later key ∙ find_in-concat-drop_to (some k) key rs u)
    | inr u ↦
        let under : less key k ≡ true = elim (compare_cases k key) [
          | inl x ↦ absurd (false≢true (sym u ∙ x))
          | inr (inl x) ↦ absurd (false≢true (sym t ∙ x))
          | inr (inr x) ↦ x
        ] in
        rw t (Steep-none k key out steep u ∙ sym (find_in-below key k (concat rs) under a))
  ]
]

module _ {S : Type 0} (it : Iterator S) (source : Source it) where
  walk_on :
      (fuel steps : ℕ) (h h' : HierarchicalIterator S) (out : Pairs)
      → h.valid ≡ true
      → without_answer it (find_next_unique_key it steps (some h.key) h) ≡ some h'
      → hierarchical_walk it fuel steps (some h') ≡ some out
      → hierarchical_walk it (suc fuel) steps (some h) ≡ some ((h.key, h.value) ∷ out)
  unfolding hierarchical_walk hierarchical_next
  walk_on fuel steps h h' out on g w =
      rw on (ap (λ o. read_on it h (hierarchical_walk it fuel steps o)) g ∙ ap (read_on it h) w)

  walk_from :
      (fuel steps : ℕ) (prev : Option Bytes) (rs : List Pairs) (h : HierarchicalIterator S)
      → total rs < fuel
      → total rs < steps
      → Standing it source prev rs h
      → (out : Pairs) × (hierarchical_walk it fuel steps (some h) ≡ some out)
        × Steep prev out
        × ((key : Bytes) → find_in key out ≡ find_in key (concat rs))
  unfolding hierarchical_walk hierarchical_next
  walk_from zero steps prev rs h f k st = absurd (omega (arith, f))
  walk_from (suc fuel) steps prev rs h f k st = elim st.at [
    | inl (off, e) ↦ ([], rw off refl, tt, λ key. ap (find_in key) (sym e))
    | inr (on, e, a) ↦
        let rising : All Rising rs =
          subst (All Rising) st.left (all_Rising it source h.iterators) in
        let less_left = total-found h.key h.value rs rising e in
        let (h', g, st') =
          find_next-Standing it source steps (some h.key) h
            (subst (λ x. total x < steps) (sym st.left) k) in
        let next : Standing it source (some h.key) (map (drop_to (some h.key)) rs) h' =
          subst (λ x. Standing it source (some h.key) (map (drop_to (some h.key)) x) h') st.left
            st' in
        let (out, w, steep, found_all) =
          walk_from fuel steps (some h.key) (map (drop_to (some h.key)) rs) h'
            (omega (arith, f, less_left)) (omega (arith, k, less_left)) next in
        (
          (h.key, h.value) ∷ out,
          walk_on fuel steps h h' out on g w,
          (found_above prev h.key h.value (concat rs) st.risen e, steep),
          found_on h.key h.value rs out e a steep found_all,
        )
  ]

  map-first : (ss : List S) → map source.rest (map it.seek_to_first ss) ≡ map source.all ss
  map-first [] = refl
  map-first (s ∷ ss) =
      ap (λ r. r ∷ map source.rest (map it.seek_to_first ss)) (source.rest-first s)
      ∙ ap (◌∷◌ (source.all s)) (map-first ss)

  map-drop_to-none : (rs : List Pairs) → map (drop_to none) rs ≡ rs
  map-drop_to-none [] = refl
  map-drop_to-none (r ∷ rs) =
      ap (λ x. x ∷ map (drop_to none) rs) (drop_to-none r) ∙ ap (◌∷◌ r) (map-drop_to-none rs)

  -- From SeekToFirst, a walk with Next comes to an end, within one step for each pair of the sources
  -- and one more: the keys that it shows ascend strictly, and they are the keys of all sources, each
  -- with the value that the first source with the key, from the newest on, shows first. A key is a
  -- list of bytes, never the nil of Go.
  pub hierarchical_walk-merges :
      (fuel steps : ℕ) (h : HierarchicalIterator S)
      → total (map source.all h.iterators) < fuel
      → total (map source.all h.iterators) < steps
      → (out : Pairs) × (hierarchical_walk it fuel steps (hierarchical_seek_to_first it steps h)
          ≡ some out)
        × Steep none out
        × ((key : Bytes) → find_in key out ≡ find_in key (concat (map source.all h.iterators)))
  unfolding hierarchical_seek_to_first
  hierarchical_walk-merges fuel steps h f k =
      let h0 : HierarchicalIterator S = record h { iterators = map it.seek_to_first h.iterators } in
      let (h', g, st) =
        find_next-Standing it source steps none h0
          (subst (λ rs. total rs < steps) (sym (map-first h.iterators)) k) in
      let at_first : Standing it source none (map source.all h.iterators) h' =
        subst (λ rs. Standing it source none rs h')
          (map-drop_to-none (map source.rest h0.iterators) ∙ map-first h.iterators) st in
      let (out, w, steep, all) =
        walk_from fuel steps none (map source.all h.iterators) h' f k at_first in
      (out, ap (hierarchical_walk it fuel steps) g ∙ w, steep, all)
