-- ===== src/Memtable/Pools.antt =====
-- The pool of pkg/memtable/mempool.go after any writes, switches and flushes.
use kevo.Base.{ℕ, ◌≡◌, refl, sym, ap, ◌∙◌, append_assoc, append-nil}
use kevo.Base.{List, [], ◌∷◌, ◌++◌, Option, some, Bool, true, false, leb, ◌||◌}
use kevo.Base.{if◌then◌else◌}
use kevo.Memtable.SkipList.{Entry, ◌>>=◌}
use kevo.Memtable.Views.{Shows, new-Shows}
use kevo.Memtable.Table.{MemTable, approximate_size}
use kevo.Memtable.Writes.{Write, puts, deletes, write, written, Keeps, write-Keeps}
use kevo.Memtable.Pool.{
  MemTablePool, new_mem_table_pool, check_flush_conditions, after_write, put, delete,
  switch_to_new_mem_table, get_immutables_for_flush,
}

-- A write, with whether the active table is then too old, a switch, or a flush.
pub data Action : Type 0 where
  writes : (w : Write) (too_old : Bool) → Action
  switches flushes : Action

abbrev pub act : Action → MemTablePool → Option MemTablePool
act (writes (puts key value seq coins) too_old) p = put key value seq coins too_old p
act (writes (deletes key seq coins) too_old) p = delete key seq coins too_old p
act switches p = some (switch_to_new_mem_table p).1
act flushes p = some (get_immutables_for_flush p).1

-- Actions, the last one first.
abbrev pub act_all : List Action → MemTablePool → Option MemTablePool
act_all [] p = some p
act_all (a ∷ earlier) p = act_all earlier p >>= act a

-- The entries written since the last switch, the last one first.
abbrev pub fresh : List Action → List Entry
fresh [] = []
fresh (writes w too_old ∷ earlier) = written w ∷ fresh earlier
fresh (switches ∷ earlier) = []
fresh (flushes ∷ earlier) = fresh earlier

-- The entries that no flush has taken, the last one first. A flush takes what precedes a switch.
abbrev pub visible : List Action → List Entry
visible [] = []
visible (writes w too_old ∷ earlier) = written w ∷ visible earlier
visible (switches ∷ earlier) = visible earlier
visible (flushes ∷ earlier) = fresh earlier

-- The histories of the immutable tables, the oldest first, actions one history.
abbrev pub waiting : List Action → List (List Entry)
waiting [] = []
waiting (writes w too_old ∷ earlier) = waiting earlier
waiting (switches ∷ earlier) = waiting earlier ++ (fresh earlier ∷ [])
waiting (flushes ∷ earlier) = []

abbrev pub joined : List (List Entry) → List Entry
joined [] = []
joined (g ∷ gs) = joined gs ++ g

pub joined-append :
    (gs : List (List Entry)) (g : List Entry) → joined (gs ++ (g ∷ [])) ≡ g ++ joined gs
joined-append [] g = sym (append-nil g)
joined-append (x ∷ gs) g = ap (λ es. es ++ x) (joined-append gs g) ∙ append_assoc g (joined gs) x

pub visible-joined :
    (actions : List Action) → visible actions ≡ fresh actions ++ joined (waiting actions)
visible-joined [] = refl
visible-joined (writes w too_old ∷ earlier) = ap (λ es. written w ∷ es) (visible-joined earlier)
visible-joined (switches ∷ earlier) =
    visible-joined earlier ∙ sym (joined-append (waiting earlier) (fresh earlier))
visible-joined (flushes ∷ earlier) = sym (append-nil (fresh earlier))

abbrev pub Frozen : List MemTable → List (List Entry) → Type 0
Frozen [] [] = Unit
Frozen [] (g ∷ gs) = ⊥
Frozen (m ∷ ms) [] = ⊥
Frozen (m ∷ ms) (g ∷ gs) = Shows m.skip_list g × Frozen ms gs

pub Frozen-append :
    (ms : List MemTable) (gs : List (List Entry)) (m : MemTable) (g : List Entry)
    → Frozen ms gs
    → Shows m.skip_list g
    → Frozen (ms ++ (m ∷ [])) (gs ++ (g ∷ []))
Frozen-append [] [] m g h v = (v, tt)
Frozen-append [] (x ∷ gs) m g h v = absurd h
Frozen-append (x ∷ ms) [] m g h v = absurd h
Frozen-append (x ∷ ms) (y ∷ gs) m g (p, h) v = (p, Frozen-append ms gs m g h v)

pub record Pooled (p : MemTablePool) (now : List Entry) (older : List (List Entry)) : Type 0 where
  pub keeps : Keeps p.active now
  pub frozen : Frozen p.immutables older

-- The test of the sizes and the age leaves the tables as they are.
raised-Pooled :
    (t u : Bool) (q : MemTablePool) (now : List Entry) (older : List (List Entry))
    → Pooled q now older
    → Pooled (if t then q else if u then record q { flush_pending = true } else q) now older
raised-Pooled true u q now older k = k
raised-Pooled false true q now older k = record { keeps = k.keeps; frozen = k.frozen }
raised-Pooled false false q now older k = k

check_flush_conditions-Pooled :
    (b : Bool) (q : MemTablePool) (now : List Entry) (older : List (List Entry))
    → Pooled q now older
    → Pooled (check_flush_conditions b q) now older
unfolding check_flush_conditions
check_flush_conditions-Pooled b q now older k =
    raised-Pooled q.flush_pending (leb q.max_size (approximate_size q.active) || b) q now older k

act-write :
    (w : Write) (too_old : Bool) (p : MemTablePool)
    → act (writes w too_old) p ≡ after_write too_old p (write w p.active)
unfolding put delete
act-write (puts key value seq coins) too_old p = refl
act-write (deletes key seq coins) too_old p = refl

act-Pooled :
    (a : Action) (earlier : List Action) (p : MemTablePool)
    → Pooled p (fresh earlier) (waiting earlier)
    → (p' : MemTablePool) × (act a p ≡ some p')
      × Pooled p' (fresh (a ∷ earlier)) (waiting (a ∷ earlier))
unfolding put delete switch_to_new_mem_table get_immutables_for_flush
act-Pooled (writes w too_old) earlier p h =
    let (m, q, k, n) = write-Keeps w p.active (fresh earlier) h.keeps in
    (
      check_flush_conditions too_old (record p { active = m }),
      act-write w too_old p ∙ ap (after_write too_old p) q,
      check_flush_conditions-Pooled too_old (record p { active = m }) (written w ∷ fresh earlier)
          (waiting earlier) (record { keeps = k; frozen = h.frozen }),
    )
act-Pooled switches earlier p h = (
  _,
  refl,
  record {
    keeps = record { shows = new-Shows; open_for_writes = refl };
    frozen = Frozen-append p.immutables (waiting earlier) _ (fresh earlier) h.frozen h.keeps.shows;
  },
)
act-Pooled flushes earlier p h = (_, refl, record { keeps = h.keeps; frozen = tt })

pub act_all-Pooled :
    (actions : List Action) (max_size : ℕ)
    → (p : MemTablePool) × (act_all actions (new_mem_table_pool max_size) ≡ some p)
      × Pooled p (fresh actions) (waiting actions)
act_all-Pooled [] max_size = (
  new_mem_table_pool max_size,
  refl,
  record { keeps = record { shows = new-Shows; open_for_writes = refl }; frozen = tt },
)
act_all-Pooled (a ∷ earlier) max_size =
    let (p, q, h) = act_all-Pooled earlier max_size in
    let (p', q', h') = act-Pooled a earlier p h in (p', rw q q', h')
