-- ===== src/Memtable/SkipList.antt =====
-- pkg/memtable/skiplist.go. A node is an address: the head is 0, the others are counted from 1 as
-- they are made. `none` is a nil pointer that is followed, or a loop that does not end.
use kevo.Base.{ℕ, zero, suc, ◌+◌, List, [], ◌∷◌, Option, none, some, Bool, true, false, ◌&&◌}
use kevo.Base.{◌++◌, get_elem?, length, ltb, ◌==◌, if◌then◌else◌}
use Prim.Native.Nat.{Ordering}
use kevo.Base.Bytes.{Bytes}
use kevo.Base.Compare.{compare_bytes, is_lt, less, equal}

abbrev pub max_height : ℕ
max_height = 12

pub data ValueType : Type 0 where
  type_value type_deletion : ValueType

-- The type `entry`; a value may be nil.
pub record Entry : Type 0 where
  pub key : Bytes
  pub value : Option Bytes
  pub value_type : ValueType
  pub seq_num : ℕ

abbrev pub value_length : Option Bytes → ℕ
value_length none = 0
value_length (some value) = length value

-- `size`
abbrev pub entry_size : Entry → ℕ
entry_size e = length e.key + value_length e.value + 16

-- `compareWithEntry`: by key, and of equal keys the newer one first.
abbrev pub by_sequence : ℕ → ℕ → Ordering
by_sequence m n = if ltb n m then Ordering.lt else if ltb m n then Ordering.gt else Ordering.eq

abbrev pub compare_with_entry : Entry → Entry → Ordering
compare_with_entry e other = elim (compare_bytes e.key other.key) [
  | Ordering.lt ↦ Ordering.lt
  | Ordering.eq ↦ by_sequence e.seq_num other.seq_num
  | Ordering.gt ↦ Ordering.gt
]

-- `entry_of` and `height` are the fields of the nodes, `next` their pointers by level and node. The
-- head's entry is nil; no pointer leads to the head, and its entry is not read.
pub record SkipList : Type 0 where
  pub made : ℕ
  pub entry_of : ℕ → Entry
  pub height : ℕ → ℕ
  pub next : ℕ → ℕ → Option ℕ
  pub max_height : ℕ
  pub size : ℕ

abbrev pub head : ℕ
head = 0

abbrev pub no_entry : Entry
no_entry = record { key = []; value = none; value_type = type_value; seq_num = 0 }

-- `NewSkipList`
abbrev pub new_skip_list : SkipList
new_skip_list = record {
  made = 1;
  entry_of = λ a. no_entry;
  height = λ a. max_height;
  next = λ level a. none;
  max_height = 1;
  size = 0;
}

-- The loop of `randomHeight`: one more for each coin that shows heads, up to the maximum.
abbrev pub toss : ℕ → List Bool → ℕ
toss height [] = height
toss height (c ∷ coins) =
    let taller = toss (height + 1) coins in if ltb height max_height && c then taller else height

unfoldable pub random_height : List Bool → ℕ
random_height coins = toss 1 coins

abbrev pub set_at {ℓ} : {A : Type ℓ} → (ℕ → A) → ℕ → A → ℕ → A
set_at f a v b = if b == a then v else f b

infixl 5 ◌>>=◌
abbrev pub ◌>>=◌ : {A B : Type 0} → Option A → (A → Option B) → Option B
o >>= rest = elim o [ none ↦ none | some a ↦ rest a ]

-- The inner loop of a search: to the right, as long as the next node lies before the target.
unfoldable pub advance : (ℕ → Bool) → (ℕ → Option ℕ) → ℕ → ℕ → Option ℕ
advance before next zero current = none
advance before next (suc fuel) current = elim (next current) [
  | none ↦ some current
  | some n ↦ elim (before n) [ true ↦ advance before next fuel n | false ↦ some current ]
]

-- The loop over the levels below `level`: where the search ends on each of them, and on the lowest.
unfoldable pub descend : (ℕ → Bool) → SkipList → ℕ → ℕ → Option (List ℕ × ℕ)
descend before s zero current = some ([], current)
descend before s (suc level) current = do
  c ← advance before (s.next level) (s.made + 1) current
  (prev, last) ← descend before s level c
  some (prev ++ (c ∷ []), last)

-- The new node of `Insert`, which has a height already, and the height of the list.
abbrev pub make_node : Entry → ℕ → SkipList → SkipList
make_node e height s = record s {
  made = s.made + 1;
  entry_of = set_at s.entry_of s.made e;
  height = set_at s.height s.made height;
  max_height = if ltb s.max_height height then height else s.max_height;
}

-- One round of the last loop of `Insert`: `node.setNext(level, prev[level].getNext(level))`, then
-- `prev[level].setNext(level, node)`.
abbrev pub set_next : ℕ → ℕ → Option ℕ → SkipList → SkipList
set_next level a target s = record s { next = set_at s.next level (set_at (s.next level) a target) }

abbrev pub link : ℕ → ℕ → ℕ → SkipList → SkipList
link node level prev s = set_next level prev (some node) (set_next level node (s.next level prev) s)

-- The levels below a height, from the lowest up.
unfoldable pub link_below : ℕ → ℕ → List ℕ → SkipList → Option SkipList
link_below node zero prev s = some s
link_below node (suc level) prev s = do
  s' ← link_below node level prev s
  p ← get_elem? prev level
  some (link node level p s')

-- `Insert`, with the coins of `randomHeight`.
unfoldable pub insert : Entry → List Bool → SkipList → Option SkipList
insert e coins s = do
  let height = random_height coins
  let node = s.made
  let s' = make_node e height s
  (prev, last) ← descend (λ a. is_lt (compare_with_entry (s'.entry_of a) e)) s' s'.max_height head
  linked ← link_below node height prev s'
  some (record linked { size = linked.size + entry_size e })

-- The last loop of `Find`: among the nodes with the key, the one with the greatest number.
unfoldable pub newest : SkipList → Bytes → ℕ → Option ℕ → Entry → Option Entry
newest s key zero candidate result = none
newest s key (suc fuel) none result = some result
newest s key (suc fuel) (some a) result = elim (equal (s.entry_of a).key key) [
  | true ↦
      newest s key fuel (s.next 0 a)
        (if ltb result.seq_num (s.entry_of a).seq_num then s.entry_of a else result)
  | false ↦ some result
]

-- What `Find` makes of the node behind which it has stopped.
unfoldable pub found_at : SkipList → Bytes → Option ℕ → Option (Option Entry)
found_at s key none = some none
found_at s key (some a) = elim (equal (s.entry_of a).key key) [
  | true ↦ newest s key (s.made + 1) (some a) (s.entry_of a) >>= λ e. some (some e)
  | false ↦ some none
]

-- `Find`: a nil entry is an inner `none`.
unfoldable pub find : Bytes → SkipList → Option (Option Entry)
find key s = do
  (prev, last) ← descend (λ a. less (s.entry_of a).key key) s s.max_height head
  found_at s key (s.next 0 last)
