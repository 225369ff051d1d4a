-- ===== src/Common/Iterators.antt =====
-- pkg/common/iterator/iterator.go, the interface, and pkg/common/iterator/bounded/bounded.go.
use kevo.Base.{ℕ, zero, suc, Option, none, some, Bool, false, ◌&&◌, not, if◌then◌else◌}
use kevo.Base.{List, [], ◌∷◌}
use kevo.Base.Bytes.{Bytes}
use kevo.Base.Compare.{less, equal}

-- The methods of an iterator that others call, on its state; `Seek` and `Next` answer whether it is
-- then valid.
pub record Iterator (S : Type 0) : Type 0 where
  pub valid : S → Bool
  pub key : S → Bytes
  pub value : S → Option Bytes
  pub seek_to_first : S → S
  pub seek_to_last : S → S
  pub seek : Bytes → S → S
  pub next : S → S

pub record BoundedIterator (S : Type 0) : Type 0 where
  pub inner : S
  pub start : Option Bytes
  pub end : Option Bytes

abbrev pub below : Option Bytes → Bytes → Bool
below none key = false
below (some start) key = less key start

abbrev pub beyond : Option Bytes → Bytes → Bool
beyond none key = false
beyond (some end) key = not (less key end)

module _ {S : Type 0} (it : Iterator S) where
  -- `NewBoundedIterator`, whose bounds are copies
  abbrev pub new_bounded_iterator : S → Option Bytes → Option Bytes → BoundedIterator S
  new_bounded_iterator inner start end = record { inner = inner; start = start; end = end }

  -- `SetBounds`
  abbrev pub set_bounds : Option Bytes → Option Bytes → BoundedIterator S → BoundedIterator S
  set_bounds start end b = record b { start = start; end = end }

  -- `checkBounds`
  unfoldable pub check_bounds : BoundedIterator S → Bool
  check_bounds b =
      it.valid b.inner
      && (not (below b.start (it.key b.inner)) && not (beyond b.end (it.key b.inner)))

  -- `Valid`
  unfoldable pub bounded_valid : BoundedIterator S → Bool
  unfolding check_bounds
  bounded_valid b = it.valid b.inner && check_bounds b

  abbrev pub first_from : Option Bytes → S → S
  first_from none s = it.seek_to_first s
  first_from (some start) s = it.seek start s

  -- `SeekToFirst`
  unfoldable pub bounded_seek_to_first : BoundedIterator S → BoundedIterator S
  bounded_seek_to_first b = record b { inner = first_from b.start b.inner }

  -- The scan of `SeekToLast` for the last key before the end; `none` is a loop that goes on.
  unfoldable pub scan : ℕ → Bytes → Option Bytes → S → Option (Option Bytes × S)
  scan zero end last s = none
  scan (suc fuel) end last s =
      let rest = scan fuel end (some (it.key s)) (it.next s) in
      if it.valid s && less (it.key s) end then rest else some (last, s)

  abbrev pub after_scan : Option (Option Bytes × S) → Option S
  after_scan none = none
  after_scan (some (none, s)) = some (it.seek_to_first s)
  after_scan (some (some last, s)) = some (it.seek last s)

  abbrev pub last_before : ℕ → Option Bytes → S → Option S
  last_before fuel none s = some (it.seek_to_last s)
  last_before fuel (some end) s =
      let found = it.seek end s in
      if it.valid found && equal (it.key found) end
      then after_scan (scan fuel end none (it.seek_to_first found))
      else some found

  abbrev pub moved : BoundedIterator S → Option S → Option (BoundedIterator S)
  moved b none = none
  moved b (some s) = some (record b { inner = s })

  -- `SeekToLast`
  unfoldable pub bounded_seek_to_last : ℕ → BoundedIterator S → Option (BoundedIterator S)
  bounded_seek_to_last fuel b = moved b (last_before fuel b.end b.inner)

  abbrev pub raised : Option Bytes → Bytes → Bytes
  raised none target = target
  raised (some start) target = if less target start then start else target

  -- `Seek`
  unfoldable pub bounded_seek : Bytes → BoundedIterator S → Bool × BoundedIterator S
  unfolding check_bounds
  bounded_seek target b =
      let to = raised b.start target in
      let b' : BoundedIterator S = record b { inner = it.seek to b.inner } in
      if beyond b.end to then (false, b) else (it.valid b'.inner && check_bounds b', b')

  -- `Next`
  unfoldable pub bounded_next : BoundedIterator S → Bool × BoundedIterator S
  unfolding check_bounds
  bounded_next b =
      let b' : BoundedIterator S = record b { inner = it.next b.inner } in
      if check_bounds b then (it.valid b'.inner && check_bounds b', b') else (false, b)

  -- What a client reads who calls Next as long as the bounded iterator is valid.
  unfoldable pub bounded_walk : ℕ → BoundedIterator S → List Bytes
  unfolding bounded_valid bounded_next
  bounded_walk zero b = []
  bounded_walk (suc fuel) b =
      let rest = bounded_walk fuel (bounded_next b).1 in
      if bounded_valid b then it.key b.inner ∷ rest else []
