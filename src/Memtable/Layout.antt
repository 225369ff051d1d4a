-- ===== src/Memtable/Layout.antt =====
-- The pointers of a skip list in pkg/memtable/skiplist.go, and that Insert keeps them.
use kevo.Base.{ℕ, ◌+◌, ◌≤◌, ◌<◌, ◌≡◌, ◌≢◌, refl, ap, arith, map}
use kevo.Base.{List, [], ◌∷◌, Bool, length, ltb}
use kevo.Base.All.{All, select_congr, All-map_pred}
use kevo.Memtable.SkipList.{
  Entry, SkipList, head, make_node, random_height, toss, new_skip_list, max_height,
}
use kevo.Memtable.Entries.{Sorted, Sorted-frame}
use kevo.Memtable.Chains.{Chain, Distinct, set_at_other}
use kevo.Memtable.Descent.{tall}

-- The nodes of a list in order: on every level the pointers lead through those that are tall enough.
pub record Holds (s : SkipList) (order : List ℕ) : Type 0 where
  pub chains : (level : ℕ) → Chain (s.next level) head (tall s level order)
  pub sorted : Sorted s.entry_of order
  pub distinct : Distinct (head ∷ order)
  pub heights : All (λ a. (0 < s.height a) × (s.height a ≤ s.max_height)) order
  pub addresses : All (λ a. a < s.made) (head ∷ order)
  pub counted : length order < s.made

abbrev pub entries : SkipList → List ℕ → List Entry
entries s order = map s.entry_of order

toss_bounds :
    (height : ℕ) (coins : List Bool)
    → 0 < height
    → height ≤ 12
    → (0 < toss height coins) × (toss height coins ≤ 12)
toss_bounds height [] h k = (h, k)
toss_bounds height (c ∷ coins) h k = ground (arith, toss_bounds (height + 1) coins)

-- A random height lies between 1 and MaxHeight, whatever the coins.
pub random_height_bounds :
    (coins : List Bool) → (0 < random_height coins) × (random_height coins ≤ max_height)
unfolding random_height
random_height_bounds coins = toss_bounds 1 coins (omega arith) (omega arith)

pub new-Holds : Holds new_skip_list []
new-Holds = record {
  chains = λ level. refl;
  sorted = tt;
  distinct = (tt, tt);
  heights = tt;
  addresses = (omega arith, tt);
  counted = omega arith;
}

apart_of : (n : ℕ) (xs : List ℕ) → All (λ a. a < n) xs → All (λ a. a ≢ n) xs
apart_of n xs h = All-map_pred (λ a. a < n) (λ a. a ≢ n) xs (λ a lt e. omega arith) h

-- A new node, to which no pointer leads yet, changes nothing for the others.
module _ (e : Entry) (height : ℕ) (s : SkipList) (order : List ℕ) (holds : Holds s order) where
  abbrev pub grown : SkipList
  grown = make_node e height s

  pub old_apart : All (λ a. a ≢ s.made) order
  old_apart = apart_of s.made order holds.addresses.1

  pub tall-grown : (level : ℕ) → tall grown level order ≡ tall s level order
  tall-grown level =
      select_congr (λ a. ltb level (grown.height a)) (λ a. ltb level (s.height a)) order
        (All-map_pred (λ a. a ≢ s.made) (λ a. ltb level (grown.height a) ≡ ltb level (s.height a))
          order (λ a h. ap (ltb level) (set_at_other s.height s.made height a h)) old_apart)

  pub grown-Sorted : Sorted grown.entry_of order
  grown-Sorted =
      Sorted-frame s.entry_of grown.entry_of order
        (All-map_pred (λ a. a ≢ s.made) (λ a. grown.entry_of a ≡ s.entry_of a) order
          (λ a h. set_at_other s.entry_of s.made e a h) old_apart)
        holds.sorted

  pub grown-heights : All (λ a. (0 < grown.height a) × (grown.height a ≤ grown.max_height)) order
  grown-heights = step order holds.heights old_apart
    where
      step :
          (xs : List ℕ)
          → All (λ a. (0 < s.height a) × (s.height a ≤ s.max_height)) xs
          → All (λ a. a ≢ s.made) xs
          → All (λ a. (0 < grown.height a) × (grown.height a ≤ grown.max_height)) xs
      step [] h k = tt
      step (a ∷ xs) ((p, q), h) (n, k) =
          let same : grown.height a ≡ s.height a = set_at_other s.height s.made height a n in
          ((omega (arith, same), ground (arith, same)), step xs h k)
