-- ===== src/Memtable/Iterator.antt =====
-- The iterator of pkg/memtable/skiplist.go and pkg/memtable/iterator_adapter.go, on a list that
-- nobody changes meanwhile; its position is a node or a nil pointer.
use kevo.Base.{ℕ, zero, suc, ◌+◌, Option, none, some, Bool, true, false, ◌==◌, not, if◌then◌else◌}
use kevo.Base.{List, [], ◌∷◌}
use kevo.Base.Bytes.{Bytes}
use kevo.Base.Compare.{less}
use kevo.Memtable.SkipList.{
  Entry, ValueType, type_value, type_deletion, SkipList, head, descend, ◌>>=◌,
}

-- `Valid`
abbrev pub valid : Option ℕ → Bool
valid none = false
valid (some a) = not (a == head)

module _ (s : SkipList) where
  -- `NewIterator`
  abbrev pub new_iterator : Option ℕ
  new_iterator = some head

  -- `Next`
  abbrev pub next_entry : Option ℕ → Option ℕ
  next_entry none = none
  next_entry (some a) = s.next 0 a

  -- `SeekToFirst`
  abbrev pub seek_to_first : Option ℕ
  seek_to_first = s.next 0 head

  -- `Seek`, with the loop that `Find` has
  unfoldable pub seek : Bytes → Option (Option ℕ)
  seek key = do
    (prev, last) ← descend (λ a. less (s.entry_of a).key key) s s.max_height head
    some (s.next 0 last)

  -- `Entry`, and what `Key`, `Value` and `ValueType` read
  abbrev pub current_entry : Option ℕ → Option Entry
  current_entry none = none
  current_entry (some a) = if a == head then none else some (s.entry_of a)

  abbrev pub is_deletion : ValueType → Bool
  is_deletion type_deletion = true
  is_deletion type_value = false

  -- `IsTombstone`
  abbrev pub is_tombstone : Option ℕ → Bool
  is_tombstone current = elim (current_entry current) [
    | none ↦ false
    | some e ↦ is_deletion e.value_type
  ]

  -- What a client sees who reads an entry and calls Next as long as the iterator is valid.
  unfoldable pub walk : ℕ → Option ℕ → Option (List Entry)
  walk zero current = none
  walk (suc fuel) current = elim (current_entry current) [
    | none ↦ some []
    | some e ↦ walk fuel (next_entry current) >>= λ es. some (e ∷ es)
  ]

  -- The loop of `SeekToLast`: the last key that it sees.
  unfoldable pub last_key : ℕ → Option ℕ → Option Bytes → Option (Option Bytes)
  last_key zero current seen = none
  last_key (suc fuel) current seen = elim (current_entry current) [
    | none ↦ some seen
    | some e ↦ last_key fuel (next_entry current) (some e.key)
  ]

  abbrev pub seek_last : Option Bytes → Option (Option ℕ)
  seek_last none = some none
  seek_last (some key) = seek key

  -- `SeekToLast` of the adapter; the list has one round more than there are nodes.
  unfoldable pub seek_to_last : Option (Option ℕ)
  unfolding last_key
  seek_to_last = last_key (s.made + 1) seek_to_first none >>= λ key. seek_last key
