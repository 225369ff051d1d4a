-- ===== src/Common/MergeTests.antt =====
-- Runs of a hierarchical iterator over two lists, with the witness of its theorem.
use kevo.Base.{ℕ, List, [], ◌∷◌, Option, none, some, Bool, true, false, arith}
use kevo.Base.{◌≡◌, refl, ap}
use kevo.Base.Bytes.{Bytes}
use kevo.Common.Iterators.{Iterator}
use kevo.Common.Hierarchical.{
  HierarchicalIterator, new_hierarchical_iterator, hierarchical_seek_to_first,
  hierarchical_seek_to_last, find_next_unique_key, hierarchical_next, hierarchical_walk,
  advance_past, smallest, newest_value, greatest,
}
use kevo.Common.Sources.{Pairs, concat, find_in, Rising}
use kevo.Common.Choosing.{Source}
use kevo.Common.Merging.{Steep, hierarchical_walk-merges}

-- A list of pairs in the order of their keys, and what is left of it.
record Listed : Type 0 where
  pub content : Pairs
  pub left : Pairs
  pub content-Rising : Rising content
  pub left-Rising : Rising left

abbrev has_pair : Pairs → Bool
has_pair [] = false
has_pair (p ∷ r) = true

abbrev first_key : Pairs → Bytes
first_key [] = []
first_key ((k, v) ∷ r) = k

abbrev first_value : Pairs → Option Bytes
first_value [] = none
first_value ((k, v) ∷ r) = v

abbrev tail : Pairs → Pairs
tail [] = []
tail (p ∷ r) = r

abbrev tail-Rising : (r : Pairs) → Rising r → Rising (tail r)
tail-Rising [] h = tt
tail-Rising ((k, v) ∷ r) (p, h) = h

abbrev last_pair : Pairs → Pairs
last_pair [] = []
last_pair (p ∷ []) = p ∷ []
last_pair (p ∷ q ∷ r) = last_pair (q ∷ r)

abbrev last_pair-Rising : (r : Pairs) → Rising (last_pair r)
last_pair-Rising [] = tt
last_pair-Rising ((k, v) ∷ []) = (tt, tt)
last_pair-Rising (p ∷ q ∷ r) = last_pair-Rising (q ∷ r)

-- Its Seek, which no run here calls, is a SeekToFirst.
abbrev over_list : Iterator Listed
over_list = record {
  valid = λ s. has_pair s.left;
  key = λ s. first_key s.left;
  value = λ s. first_value s.left;
  seek_to_first = λ s. record s { left = s.content; left-Rising = s.content-Rising };
  seek_to_last =
      λ s. record s { left = last_pair s.content; left-Rising = last_pair-Rising s.content };
  seek = λ target s. record s { left = s.content; left-Rising = s.content-Rising };
  next = λ s. record s { left = tail s.left; left-Rising = tail-Rising s.left s.left-Rising };
}

abbrev over_list-Source : Source over_list
over_list-Source = record {
  rest = λ s. s.left;
  all = λ s. s.content;
  ended = λ s h. ap has_pair h;
  at_pair = λ s k v r h. (ap has_pair h, ap first_key h, ap first_value h, ap tail h);
  rest-first = λ s. refl;
  rising = λ s. s.left-Rising;
}

abbrev key : ℕ → Bytes
key n = n ∷ []

-- The newer source deletes key 3 and overwrites key 5.
abbrev newer : Pairs
newer = (key 3, none) ∷ (key 5, some (50 ∷ [])) ∷ []

abbrev older : Pairs
older = (key 1, some (1 ∷ [])) ∷ (key 3, some (3 ∷ [])) ∷ (key 5, some (5 ∷ [])) ∷ []

abbrev at_start : (r : Pairs) → Rising r → Listed
at_start r h = record { content = r; left = []; content-Rising = h; left-Rising = tt }

abbrev sources : List Listed
sources =
    at_start newer ((refl, tt), (tt, tt))
    ∷ at_start older ((refl, (refl, tt)), ((refl, tt), (tt, tt)))
    ∷ []

abbrev merged : HierarchicalIterator Listed
merged = new_hierarchical_iterator over_list sources

newest_wins :
    hierarchical_walk over_list 6 6 (hierarchical_seek_to_first over_list 6 merged)
    ≡ some ((key 1, some (1 ∷ [])) ∷ (key 3, none) ∷ (key 5, some (50 ∷ [])) ∷ [])
unfolding hierarchical_walk hierarchical_seek_to_first hierarchical_next find_next_unique_key
    advance_past smallest newest_value
newest_wins = refl

last_is_five : (hierarchical_seek_to_last over_list merged).value ≡ some (50 ∷ [])
unfolding hierarchical_seek_to_last greatest
last_is_five = refl

hierarchical_walk-merges_example :
    (out : Pairs) × (hierarchical_walk over_list 6 6 (hierarchical_seek_to_first over_list 6 merged)
      ≡ some out)
    × Steep none out
    × ((key : Bytes) → find_in key out ≡ find_in key (concat (newer ∷ older ∷ [])))
hierarchical_walk-merges_example =
    hierarchical_walk-merges over_list over_list-Source 6 6 merged (omega arith) (omega arith)
