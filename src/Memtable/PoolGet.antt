-- ===== src/Memtable/PoolGet.antt =====
-- What Get and TotalSize of pkg/memtable/mempool.go answer after any history of the pool.
use kevo.Base.{ℕ, ◌+◌, ◌≤◌, ◌≡◌, refl, sym, ap, ◌∙◌, arith, inl, inr}
use kevo.Base.{List, [], ◌∷◌, ◌++◌, Option, none, some, Bool, false, ltb, le→ltb}
use kevo.Base.{Bool-cases, Option-cases}
use kevo.Base.Bytes.{Bytes}
use kevo.Base.Compare.{equal}
use std.Path.{subst}
use kevo.Base.All.{All, All-front}
use kevo.Memtable.SkipList.{Entry, ValueType, type_value, type_deletion, ◌>>=◌}
use kevo.Memtable.Lookup.{first_with}
use kevo.Memtable.Newest.{newer, newest_of, first_with-All}
use kevo.Memtable.Views
use kevo.Memtable.Views.{Shows, new-Shows}
use kevo.Memtable.Table
use kevo.Memtable.Table.{MemTable, answer, value_of, approximate_size}
use kevo.Memtable.Writes.{get-Keeps}
use kevo.Memtable.Pool.{
  MemTablePool, new_mem_table_pool, or_else, get_from, get, sizes_of, total_size,
}
use kevo.Memtable.Pools.{
  Action, act_all, fresh, visible, waiting, joined, visible-joined, Frozen, Pooled, act_all-Pooled,
}

-- No entry has a smaller sequence number than one that was written before it.
abbrev pub InOrder : List Entry → Type 0
InOrder [] = Unit
InOrder (e ∷ earlier) = All (λ x. x.seq_num ≤ e.seq_num) earlier × InOrder earlier

newest_of-InOrder :
    (key : Bytes) (es : List Entry) → InOrder es → newest_of key es ≡ first_with key es
newest_of-InOrder key [] h = refl
newest_of-InOrder key (e ∷ es) (above, h) =
    ap (newer key e) (newest_of-InOrder key es h) ∙ (elim (Option-cases (first_with key es)) [
      | inl q ↦ rw q refl
      | inr (f, q) ↦
          let (le, k) = first_with-All (λ x. x.seq_num ≤ e.seq_num) key es f above q in
          let later : ltb e.seq_num f.seq_num ≡ false = le→ltb f.seq_num e.seq_num le in
          rw (q, later) refl
    ])

-- A later answer if there is one, and otherwise an earlier one.
abbrev pub first_or : Option Entry → Option Entry → Option Entry
first_or none other = other
first_or (some e) other = some e

first_or_assoc : (a b c : Option Entry) → first_or a (first_or b c) ≡ first_or (first_or a b) c
first_or_assoc none b c = refl
first_or_assoc (some e) b c = refl

first_with-append :
    (key : Bytes) (es gs : List Entry)
    → first_with key (es ++ gs) ≡ first_or (first_with key es) (first_with key gs)
first_with-append key [] gs = refl
first_with-append key (e ∷ es) gs = elim (Bool-cases (equal e.key key)) [
  | inl t ↦ rw t refl
  | inr t ↦ rw t (first_with-append key es gs)
]

or_else-value_of :
    (kind : ValueType) (value : Option Bytes) (rest : Option (Option Bytes × Bool))
    → or_else (value_of kind value) rest ≡ some (value_of kind value)
or_else-value_of type_value value rest = refl
or_else-value_of type_deletion value rest = refl

or_else-answer :
    (a b : Option Entry) → or_else (answer a) (some (answer b)) ≡ some (answer (first_or a b))
or_else-answer none b = refl
or_else-answer (some e) b = or_else-value_of e.value_type e.value (some (answer b))

InOrder-front : (es gs : List Entry) → InOrder (es ++ gs) → InOrder es
InOrder-front [] gs h = tt
InOrder-front (e ∷ es) gs (p, h) =
    (All-front (λ x. x.seq_num ≤ e.seq_num) es gs p, InOrder-front es gs h)

InOrder-back : (es gs : List Entry) → InOrder (es ++ gs) → InOrder gs
InOrder-back [] gs h = h
InOrder-back (e ∷ es) gs (p, h) = InOrder-back es gs h

-- What a table answers before the rest is asked.
get-or_else :
    (key : Bytes) (m : MemTable) (g : List Entry) (rest : Option Entry)
    → Shows m.skip_list g
    → InOrder g
    → (Table.get key m >>= λ r. or_else r (some (answer rest)))
      ≡ some (answer (first_or (first_with key g) rest))
get-or_else key m g rest v h =
    rw ((get-Keeps key m g v).0, newest_of-InOrder key g h) (or_else-answer (first_with key g) rest)

pub get_from-Frozen :
    (key : Bytes) (ms : List MemTable) (gs : List (List Entry)) (rest : Option Entry)
    → Frozen ms gs
    → InOrder (joined gs)
    → get_from key ms (some (answer rest))
      ≡ some (answer (first_or (first_with key (joined gs)) rest))
unfolding get_from
get_from-Frozen key [] [] rest f h = refl
get_from-Frozen key [] (g ∷ gs) rest f h = absurd f
get_from-Frozen key (m ∷ ms) [] rest f h = absurd f
get_from-Frozen key (m ∷ ms) (g ∷ gs) rest (v, f) h =
    ap (get_from key ms) (get-or_else key m g rest v (InOrder-back (joined gs) g h))
    ∙ get_from-Frozen key ms gs (first_or (first_with key g) rest) f (InOrder-front (joined gs) g h)
    ∙ ap (λ o. some (answer o))
        (first_or_assoc (first_with key (joined gs)) (first_with key g) rest
          ∙ ap (λ o. first_or o rest) (sym (first_with-append key (joined gs) g)))

pub first_or-none : (a : Option Entry) → first_or a none ≡ a
first_or-none none = refl
first_or-none (some e) = refl

get-Pooled :
    (key : Bytes) (p : MemTablePool) (now : List Entry) (older : List (List Entry))
    → Pooled p now older
    → InOrder (now ++ joined older)
    → get key p ≡ some (answer (first_with key (now ++ joined older)))
unfolding get
get-Pooled key p now older k h =
    let before = joined older in
    ap (λ o. Table.get key p.active >>= λ r. or_else r o)
      (get_from-Frozen key p.immutables older none k.frozen (InOrder-back now before h))
    ∙ get-or_else key p.active now (first_or (first_with key before) none) k.keeps.shows
        (InOrder-front now before h)
    ∙ ap (λ o. some (answer (first_or (first_with key now) o)))
        (first_or-none (first_with key before))
    ∙ ap (λ o. some (answer o)) (sym (first_with-append key now before))

pub total_size-append :
    (es gs : List Entry) → Views.total_size (es ++ gs) ≡ Views.total_size es + Views.total_size gs
total_size-append [] gs = omega arith
total_size-append (e ∷ es) gs = omega (arith, total_size-append es gs)

sizes_of-Frozen :
    (ms : List MemTable) (gs : List (List Entry))
    → Frozen ms gs
    → sizes_of ms ≡ Views.total_size (joined gs)
sizes_of-Frozen [] [] f = refl
sizes_of-Frozen [] (g ∷ gs) f = absurd f
sizes_of-Frozen (m ∷ ms) [] f = absurd f
sizes_of-Frozen (m ∷ ms) (g ∷ gs) (v, f) =
    omega (arith, v.sized, sizes_of-Frozen ms gs f, total_size-append (joined gs) g)

-- After any writes, switches and flushes of a new pool, none of which panics, Get answers for every
-- key what the last write of it did that no flush has taken, if the sequence numbers never go down
-- among those writes, and TotalSize is the sum of their entries' sizes. A flush takes what precedes
-- the last switch.
pub get-act_all :
    (actions : List Action) (max_size : ℕ)
    → InOrder (visible actions)
    → (p : MemTablePool) × (act_all actions (new_mem_table_pool max_size) ≡ some p)
      × ((key : Bytes) → get key p ≡ some (answer (first_with key (visible actions))))
      × (total_size p ≡ Views.total_size (visible actions))
unfolding total_size
get-act_all actions max_size h =
    let (p, q, k) = act_all-Pooled actions max_size in
    let parts = visible-joined actions in
    let older = waiting actions in
    (
      p,
      q,
      λ key.
          get-Pooled key p (fresh actions) older k (subst InOrder parts h)
          ∙ ap (λ es. some (answer (first_with key es))) (sym parts),
      omega (
        arith,
        k.keeps.shows.sized,
        sizes_of-Frozen p.immutables older k.frozen,
        total_size-append (fresh actions) (joined older),
        ap Views.total_size parts,
      ),
    )
