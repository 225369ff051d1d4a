-- ===== src/Common/Hierarchical.antt =====
-- pkg/common/iterator/composite/hierarchical.go over iterators of one type, from the newest source to
-- the oldest. `none` is a loop of findNextUniqueKey that goes on. The state's key is the key of a
-- source. A key here is never nil, so Next always looks for a greater one; in the code findNextUniqueKey
-- takes a nil key for the start of a walk, and Next behind a source's nil key would find it again.
use kevo.Base.{
  ℕ, zero, suc, ◌+◌, List, [], ◌∷◌, Option, none, some, Bool, true, false, ◌&&◌, not, map,
}
use kevo.Base.{if◌then◌else◌}
use kevo.Base.Bytes.{Bytes}
use kevo.Base.Compare.{less, equal}
use kevo.Common.Iterators.{Iterator}

pub record HierarchicalIterator (S : Type 0) : Type 0 where
  pub iterators : List S
  pub key : Bytes
  pub value : Option Bytes
  pub valid : Bool

-- `bestKey`, `bestValue` and `bestIterIdx`; none of them is an index of -1.
pub record Best : Type 0 where
  pub key : Bytes
  pub value : Option Bytes
  pub source : ℕ

abbrev pub both : {S : Type 0} → Option S → Option (List S) → Option (List S)
both none rest = none
both (some s) none = none
both (some s) (some ss) = some (s ∷ ss)

-- A step of every iterator, in their order
abbrev pub each : {S : Type 0} → (S → Option S) → List S → Option (List S)
each f [] = some []
each f (s ∷ ss) = both (f s) (each f ss)

module _ {S : Type 0} (it : Iterator S) where
  -- `NewHierarchicalIterator`
  abbrev pub new_hierarchical_iterator : List S → HierarchicalIterator S
  new_hierarchical_iterator iterators = record {
    iterators = iterators;
    key = [];
    value = none;
    valid = false;
  }

  -- The loop over the keys up to `prev`
  unfoldable pub advance_past : ℕ → Bytes → S → Option S
  advance_past zero prev s = none
  advance_past (suc fuel) prev s =
      let rest = advance_past fuel prev (it.next s) in
      if it.valid s && not (less prev (it.key s))
      then if it.valid (it.next s) then rest else some (it.next s)
      else some s

  abbrev pub settle : ℕ → Option Bytes → S → Option S
  settle fuel none s = some s
  settle fuel (some prev) s = advance_past fuel prev s

  abbrev pub better : S → ℕ → Option Best → Option Best
  better s i none = some (record { key = it.key s; value = it.value s; source = i })
  better s i (some b) =
      if less (it.key s) b.key
      then some (record { key = it.key s; value = it.value s; source = i })
      else some b

  -- The first pass, from an index on
  unfoldable pub smallest : List S → ℕ → Option Best → Option Best
  smallest [] i best = best
  smallest (s ∷ ss) i best = smallest ss (i + 1) (if it.valid s then better s i best else best)

  -- The second pass: the value of the first of the newer sources with the key
  unfoldable pub newest_value : ℕ → Bytes → Option Bytes → List S → Option Bytes
  newest_value zero key value ss = value
  newest_value (suc n) key value [] = value
  newest_value (suc n) key value (s ∷ ss) =
      if it.valid s && equal (it.key s) key then it.value s else newest_value n key value ss

  abbrev pub at_best : HierarchicalIterator S → List S → Option Best → Bool × HierarchicalIterator S
  at_best h ss none = (false, record h { iterators = ss; valid = false })
  at_best h ss (some b) = (
    true,
    record {
      iterators = ss;
      key = b.key;
      value = newest_value b.source b.key b.value ss;
      valid = true;
    },
  )

  abbrev pub found :
      HierarchicalIterator S → Option (List S) → Option (Bool × HierarchicalIterator S)
  found h none = none
  found h (some ss) = some (at_best h ss (smallest ss 0 none))

  -- `findNextUniqueKey`
  unfoldable pub find_next_unique_key :
      ℕ → Option Bytes → HierarchicalIterator S → Option (Bool × HierarchicalIterator S)
  find_next_unique_key fuel prev h = found h (each (settle fuel prev) h.iterators)

  abbrev pub without_answer :
      Option (Bool × HierarchicalIterator S) → Option (HierarchicalIterator S)
  without_answer none = none
  without_answer (some (b, h)) = some h

  -- `SeekToFirst`
  unfoldable pub hierarchical_seek_to_first :
      ℕ → HierarchicalIterator S → Option (HierarchicalIterator S)
  unfolding find_next_unique_key
  hierarchical_seek_to_first fuel h =
      without_answer
        (find_next_unique_key fuel none (record h { iterators = map it.seek_to_first h.iterators }))

  -- `Next`
  unfoldable pub hierarchical_next :
      ℕ → HierarchicalIterator S → Option (Bool × HierarchicalIterator S)
  unfolding find_next_unique_key
  hierarchical_next fuel h =
      if h.valid then find_next_unique_key fuel (some h.key) h else some (false, h)

  -- The loop of `Seek`, which passes over the keys below the target
  unfoldable pub smallest_from : Bytes → List S → ℕ → Option Best → Option Best
  smallest_from target [] i best = best
  smallest_from target (s ∷ ss) i best =
      smallest_from target ss (i + 1)
        (if it.valid s && not (less (it.key s) target) then better s i best else best)

  -- `Seek`
  unfoldable pub hierarchical_seek : Bytes → HierarchicalIterator S → Bool × HierarchicalIterator S
  hierarchical_seek target h =
      let ss = map (it.seek target) h.iterators in at_best h ss (smallest_from target ss 0 none)

  abbrev pub greater : S → Option (Bytes × Option Bytes) → Option (Bytes × Option Bytes)
  greater s none = some (it.key s, it.value s)
  greater s (some (key, value)) =
      if less key (it.key s) then some (it.key s, it.value s) else some (key, value)

  -- The loop of `SeekToLast`; the first of the greatest keys stays
  unfoldable pub greatest : List S → Option (Bytes × Option Bytes) → Option (Bytes × Option Bytes)
  greatest [] max = max
  greatest (s ∷ ss) max = greatest ss (if it.valid s then greater s max else max)

  abbrev pub at_last :
      HierarchicalIterator S → List S → Option (Bytes × Option Bytes) → HierarchicalIterator S
  at_last h ss none = record h { iterators = ss; valid = false }
  at_last h ss (some (key, value)) = record {
    iterators = ss;
    key = key;
    value = value;
    valid = true;
  }

  -- `SeekToLast`
  unfoldable pub hierarchical_seek_to_last : HierarchicalIterator S → HierarchicalIterator S
  hierarchical_seek_to_last h =
      let ss = map it.seek_to_last h.iterators in at_last h ss (greatest ss none)

  abbrev pub read_on :
      HierarchicalIterator S
      → Option (List (Bytes × Option Bytes))
      → Option (List (Bytes × Option Bytes))
  read_on h none = none
  read_on h (some rest) = some ((h.key, h.value) ∷ rest)

  -- What a client reads who calls Next as long as the iterator is valid
  unfoldable pub hierarchical_walk :
      ℕ → ℕ → Option (HierarchicalIterator S) → Option (List (Bytes × Option Bytes))
  unfolding hierarchical_next find_next_unique_key
  hierarchical_walk zero steps h = none
  hierarchical_walk (suc fuel) steps none = none
  hierarchical_walk (suc fuel) steps (some h) =
      let rest = hierarchical_walk fuel steps (without_answer (hierarchical_next steps h)) in
      if h.valid then read_on h rest else some []
