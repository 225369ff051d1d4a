-- ===== src/Memtable/Writes.antt =====
-- The table of pkg/memtable/memtable.go after any writes.
use kevo.Base.{ℕ, ◌+◌, ◌≤◌, ◌<◌, ◌%◌, ◌^◌, ◌≡◌, refl, sym, ap, ◌∙◌, arith, inl, inr, map}
use kevo.Base.{List, [], ◌∷◌, Option, none, some, Bool, true, false, ◌==◌, Bool-cases}
use kevo.Base.Bytes.{Bytes}
use kevo.Base.All.{All}
use kevo.Wal.Types
use kevo.Wal.Types.{Result, ok, err, op_type_put, op_type_delete, op_type_batch}
use kevo.Wal.Batch.{Batch, BatchOperation, decode_batch}
use kevo.Memtable.SkipList.{
  Entry, type_value, type_deletion, SkipList, find, insert, new_skip_list, ◌>>=◌,
}
use kevo.Memtable.Newest.{newest_of}
use kevo.Memtable.Lookup.{find_lem}
use kevo.Memtable.Views.{Shows, new-Shows, insert-Shows, total_size}
use kevo.Memtable.Table.{
  MemTable, new_mem_table, next_after, add_by, add_entry, put, delete, answer, get, is_some,
  contains_key, approximate_size, apply_operation, apply_operations, apply_batch, process_wal_entry,
  done,
}

-- Insertions with their coins, the last one first.
abbrev pub insert_all : List (Entry × List Bool) → Option SkipList
insert_all [] = some new_skip_list
insert_all ((e, coins) ∷ earlier) = insert_all earlier >>= insert e coins

pub insert_all-Shows :
    (es : List (Entry × List Bool))
    → (s : SkipList) × (insert_all es ≡ some s) × Shows s (map (λ p. p.0) es)
insert_all-Shows [] = (new_skip_list, refl, new-Shows)
insert_all-Shows ((e, coins) ∷ earlier) =
    let (s, q, v) = insert_all-Shows earlier in
    let (s', q', v') = insert-Shows e coins s (map (λ p. p.0) earlier) v in (s', rw q q', v')

-- Whatever entries are inserted into a new skip list, in whatever order and with whatever coins, no
-- pointer that is nil is followed and every loop ends. Find then answers, for every key, the entry
-- with the greatest sequence number that was inserted for it, of equal ones the last, or nil if
-- there is none, and the size is the sum of the entries' sizes.
pub find-insert_all :
    (es : List (Entry × List Bool))
    → (s : SkipList) × (insert_all es ≡ some s)
      × ((key : Bytes) → find key s ≡ some (newest_of key (map (λ p. p.0) es)))
      × (s.size ≡ total_size (map (λ p. p.0) es))
find-insert_all es =
    let (s, q, v) = insert_all-Shows es in
    (s, q, λ key. find_lem key s v.order v.holds ∙ ap some (v.first key), v.sized)

-- A Put or a Delete with its sequence number and coins.
pub data Write : Type 0 where
  puts : (key : Bytes) (value : Option Bytes) (seq : ℕ) (coins : List Bool) → Write
  deletes : (key : Bytes) (seq : ℕ) (coins : List Bool) → Write

abbrev pub write : Write → MemTable → Option MemTable
write (puts key value seq coins) m = put key value seq coins m
write (deletes key seq coins) m = delete key seq coins m

abbrev pub written : Write → Entry
written (puts key value seq coins) = record {
  key = key;
  value = value;
  value_type = type_value;
  seq_num = seq;
}
written (deletes key seq coins) = record {
  key = key;
  value = none;
  value_type = type_deletion;
  seq_num = seq;
}

-- Writes to a table, the last one first.
abbrev pub apply_writes : List Write → MemTable → Option MemTable
apply_writes [] m = some m
apply_writes (w ∷ earlier) m = apply_writes earlier m >>= write w

-- A table that takes writes and shows a history.
pub record Keeps (m : MemTable) (history : List Entry) : Type 0 where
  pub shows : Shows m.skip_list history
  pub open_for_writes : m.immutable ≡ false

pub add_entry-Keeps :
    (e : Entry) (coins : List Bool) (m : MemTable) (history : List Entry)
    → Keeps m history
    → (m' : MemTable) × (add_entry e coins m ≡ some m')
      × Keeps m' (e ∷ history)
      × (m'.next_seq_num ≡ next_after e.seq_num m.next_seq_num)
unfolding add_entry
add_entry-Keeps e coins m history k =
    let (s, q, v) = insert-Shows e coins m.skip_list history k.shows in
    (
      record m { skip_list = s; next_seq_num = next_after e.seq_num m.next_seq_num },
      ap (λ b. add_by b e coins m) k.open_for_writes ∙ rw q refl,
      record { shows = v; open_for_writes = k.open_for_writes },
      refl,
    )

pub write-Keeps :
    (w : Write) (m : MemTable) (history : List Entry)
    → Keeps m history
    → (m' : MemTable) × (write w m ≡ some m')
      × Keeps m' (written w ∷ history)
      × (m'.next_seq_num ≡ next_after (written w).seq_num m.next_seq_num)
unfolding put delete
write-Keeps (puts key value seq coins) m history k = add_entry-Keeps _ coins m history k
write-Keeps (deletes key seq coins) m history k = add_entry-Keeps _ coins m history k

pub get-Keeps :
    (key : Bytes) (m : MemTable) (history : List Entry)
    → Shows m.skip_list history
    → (get key m ≡ some (answer (newest_of key history)))
      × (contains_key key m ≡ some (is_some (newest_of key history)))
unfolding get contains_key
get-Keeps key m history v =
    let q = find_lem key m.skip_list v.order v.holds ∙ ap some (v.first key) in
    (rw q refl, rw q refl)

-- The numbers of the writes lie below the limit of a uint64.
abbrev pub InRange : List Write → Type 0
InRange ws = All (λ w. (written w).seq_num + 1 < 2 ^ 64) ws

abbrev pub Counted : ℕ → List Write → Type 0
Counted next ws = All (λ w. (written w).seq_num ≤ next) ws

Counted-le : (a b : ℕ) (ws : List Write) → a ≤ b → Counted a ws → Counted b ws
Counted-le a b [] h c = tt
Counted-le a b (w ∷ ws) h (p, c) = (omega arith, Counted-le a b ws h c)

next_after_bounds :
    (seq next : ℕ) → seq + 1 < 2 ^ 64 → (next ≤ next_after seq next) × (seq ≤ next_after seq next)
next_after_bounds seq next h = ground arith

apply_writes-Keeps :
    (ws : List Write)
    → InRange ws
    → (m : MemTable) × (apply_writes ws new_mem_table ≡ some m)
      × Keeps m (map written ws)
      × Counted m.next_seq_num ws
apply_writes-Keeps [] h =
    (new_mem_table, refl, record { shows = new-Shows; open_for_writes = refl }, tt)
apply_writes-Keeps (w ∷ earlier) (p, h) =
    let (m, q, k, c) = apply_writes-Keeps earlier h in
    let (m', q', k', n) = write-Keeps w m (map written earlier) k in
    let (older, own) = next_after_bounds (written w).seq_num m.next_seq_num p in
    (
      m',
      rw q q',
      k',
      (
        omega (arith, n, own),
        Counted-le m.next_seq_num m'.next_seq_num earlier (omega (arith, n, older)) c,
      ),
    )

-- A new table takes all writes, in any order of their sequence numbers. Get then answers for every
-- key the value of the write with the greatest number, of equal ones the last, that it is deleted,
-- or that there is none; Contains says whether there is a write; the size is the sum of the
-- entries' sizes.
pub get-apply_writes :
    (ws : List Write)
    → InRange ws
    → (m : MemTable) × (apply_writes ws new_mem_table ≡ some m)
      × ((key : Bytes)
          → (get key m ≡ some (answer (newest_of key (map written ws))))
            × (contains_key key m ≡ some (is_some (newest_of key (map written ws)))))
      × (approximate_size m ≡ total_size (map written ws))
get-apply_writes ws h =
    let (m, q, k, c) = apply_writes-Keeps ws h in
    (m, q, λ key. get-Keeps key m (map written ws) k.shows, k.shows.sized)

-- GetNextSequenceNumber of a new table that has taken some writes is never below a number of theirs.
pub apply_writes-Counted :
    (ws : List Write)
    → InRange ws
    → (m : MemTable) × (apply_writes ws new_mem_table ≡ some m) × Counted m.next_seq_num ws
apply_writes-Counted ws h = let (m, q, k, c) = apply_writes-Keeps ws h in (m, q, c)

next_after_twice :
    (seq next : ℕ)
    → next < seq
    → seq + 2 < 2 ^ 64
    → next_after (seq + 1) (next_after seq next) ≡ seq + 1
next_after_twice seq next h k = ground arith

-- Two writes with consecutive numbers, the first above the count, leave GetNextSequenceNumber at the
-- second of them, which is taken.
pub next_seq_num_stale :
    (v w : Write) (m : MemTable) (history : List Entry)
    → Keeps m history
    → m.next_seq_num < (written v).seq_num
    → (written w).seq_num ≡ (written v).seq_num + 1
    → (written v).seq_num + 2 < 2 ^ 64
    → (m' : MemTable) × (apply_writes (w ∷ v ∷ []) m ≡ some m')
      × (m'.next_seq_num ≡ (written w).seq_num)
next_seq_num_stale v w m history k above next fits =
    let (m1, q1, k1, n1) = write-Keeps v m history k in
    let (m2, q2, k2, n2) = write-Keeps w m1 (written v ∷ history) k1 in
    (
      m2,
      rw q1 q2,
      n2
          ∙ ap (λ x. next_after x m1.next_seq_num) next
          ∙ ap (next_after ((written v).seq_num + 1)) n1
          ∙ next_after_twice (written v).seq_num m.next_seq_num above fits
          ∙ sym next,
    )

frozen-add_entry :
    (e : Entry) (coins : List Bool) (m : MemTable)
    → m.immutable ≡ true
    → add_entry e coins m ≡ some m
unfolding add_entry
frozen-add_entry e coins m h = ap (λ b. add_by b e coins m) h

frozen-operation :
    (o : BatchOperation) (seq : ℕ) (coins : List Bool) (m : MemTable)
    → m.immutable ≡ true
    → apply_operation o seq coins m ≡ some m
unfolding apply_operation put delete
frozen-operation o seq coins m h = elim (Bool-cases (o.op == op_type_put)) [
  | inl p ↦ rw p (frozen-add_entry _ coins m h)
  | inr p ↦ elim (Bool-cases (o.op == op_type_delete)) [
    | inl q ↦ rw (p, q) (frozen-add_entry _ coins m h)
    | inr q ↦ rw (p, q) refl
  ]
]

frozen-operations :
    (os : List BatchOperation) (seq : ℕ) (coins : ℕ → List Bool) (m : MemTable)
    → m.immutable ≡ true
    → apply_operations os seq coins m ≡ some m
unfolding apply_operations
frozen-operations [] seq coins m h = refl
frozen-operations (o ∷ os) seq coins m h =
    rw (frozen-operation o (seq % 2 ^ 64) (coins seq) m h)
      (frozen-operations os (seq + 1) coins m h)

frozen-batch :
    (b : Result Batch) (coins : ℕ → List Bool) (m : MemTable)
    → m.immutable ≡ true
    → (r : Result (Unit {0})) × (apply_batch coins b m ≡ some (r, m))
frozen-batch (err e) coins m h = (err e, refl)
frozen-batch (ok b) coins m h = (ok tt, ap done (frozen-operations b.operations b.seq coins m h))

-- ProcessWALEntry leaves an immutable table as it is, whatever the entry: puts, deletions, batches
-- with any operations, batches that cannot be decoded, and entries of another type.
pub process_wal_entry-immutable :
    (entry : Types.Entry) (coins : ℕ → List Bool) (m : MemTable)
    → m.immutable ≡ true
    → (r : Result (Unit {0})) × (process_wal_entry entry coins m ≡ some (r, m))
unfolding process_wal_entry put delete
process_wal_entry-immutable entry coins m h = elim (Bool-cases (entry.op == op_type_put)) [
  | inl p ↦ (ok tt, rw p (ap done (frozen-add_entry _ (coins entry.sequence_number) m h)))
  | inr p ↦ elim (Bool-cases (entry.op == op_type_delete)) [
    | inl q ↦ (ok tt, rw (p, q) (ap done (frozen-add_entry _ (coins entry.sequence_number) m h)))
    | inr q ↦ elim (Bool-cases (entry.op == op_type_batch)) [
      | inl t ↦ let (r, e) = frozen-batch (decode_batch entry) coins m h in (r, rw (p, q, t) e)
      | inr t ↦ (ok tt, rw (p, q, t) refl)
    ]
  ]
]
