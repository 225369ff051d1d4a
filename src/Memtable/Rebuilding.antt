-- ===== src/Memtable/Rebuilding.antt =====
-- What the entry handler of pkg/memtable/recovery.go has built after any entries of a log.
use kevo.Base.{ℕ, ◌+◌, ◌*◌, ◌≤◌, ◌≡◌, refl, sym, ap, ◌∙◌, arith, inl, inr, ◌⊎◌, append_assoc}
use kevo.Base.{
  List, [], ◌∷◌, ◌++◌, none, some, Bool, true, false, length, length-append, ltb, leb, leb→le, ◌==◌,
}
use kevo.Base.{if◌then◌else◌, Bool-cases}
use native.Mathlib.Nat.{mul-le-mul_right}
use kevo.Base.All.{All}
use kevo.Wal.Types
use kevo.Wal.Types.{Result, ok, err, handler_failed, op_type_put, op_type_delete, op_type_batch}
use kevo.Wal.Replay.{RecoveryStats}
use kevo.Wal.Delivery.{deliver, clean_end}
use kevo.Memtable.SkipList.{Entry, type_value, type_deletion}
use kevo.Memtable.Views.{new-Shows, total_size}
use kevo.Memtable.Table.{
  MemTable, new_mem_table, approximate_size, set_immutable, process_wal_entry, done,
}
use kevo.Memtable.Writes.{puts, deletes, Keeps, write-Keeps}
use kevo.Memtable.Pools.{joined, joined-append, Frozen, Frozen-append}
use kevo.Memtable.PoolGet.{total_size-append}
use kevo.Memtable.Recovery.{
  RecoveryOptions, Recovered, start_recovery, max_of, finish, process, entry_handler,
}

-- What a table keeps of an entry of the log that is no batch.
abbrev pub kept : Types.Entry → List Entry
kept e =
    if e.op == op_type_put
    then (let new : Entry = record {
      key = e.key;
      value = e.value;
      value_type = type_value;
      seq_num = e.sequence_number;
    } in
        new ∷ [])
    else if e.op == op_type_delete
    then (let new : Entry = record {
      key = e.key;
      value = none;
      value_type = type_deletion;
      seq_num = e.sequence_number;
    } in
        new ∷ [])
    else []

process_wal_entry-Keeps :
    (e : Types.Entry) (coins : ℕ → List Bool) (m : MemTable) (history : List Entry)
    → (e.op == op_type_batch) ≡ false
    → Keeps m history
    → (m' : MemTable) × (process_wal_entry e coins m ≡ some (ok tt, m'))
      × Keeps m' (kept e ++ history)
unfolding process_wal_entry
process_wal_entry-Keeps e coins m history single k = elim (Bool-cases (e.op == op_type_put)) [
  | inl p ↦
      let (m', q, k', n) =
        write-Keeps (puts e.key e.value e.sequence_number (coins e.sequence_number)) m history k in
      (m', rw p (ap done q), rw p k')
  | inr p ↦ elim (Bool-cases (e.op == op_type_delete)) [
    | inl d ↦
        let (m', q, k', n) =
          write-Keeps (deletes e.key e.sequence_number (coins e.sequence_number)) m history k in
        (m', rw (p, d) (ap done q), rw (p, d) k')
    | inr d ↦ (m, rw (p, d, single) refl, rw (p, d) k)
  ]
]

one_more :
    (n n' m now before total : ℕ)
    → n' ≡ n + 1
    → n * m ≤ before
    → m ≤ now
    → total ≡ now + before
    → n' * m ≤ total
one_more n n' m now before total h k l e = rw h (omega arith)

module _ (options : RecoveryOptions) (coins : Types.Entry → ℕ → List Bool) where
  -- The tables show a history, and every table but the last is full.
  pub record Rebuilt (r : Recovered) (history : List Entry) : Type 0 where
    pub now : List Entry
    pub groups : List (List Entry)
    pub keeps : Keeps r.current now
    pub frozen : Frozen r.older groups
    pub parts : history ≡ now ++ joined groups
    pub full : length r.older * options.mem_table_size ≤ total_size (joined groups)

  pub start-Rebuilt : Rebuilt start_recovery []
  start-Rebuilt = record {
    now = [];
    groups = [];
    keeps = record { shows = new-Shows; open_for_writes = refl };
    frozen = tt;
    parts = refl;
    full = omega arith;
  }

  process-Rebuilt :
      (e : Types.Entry) (r : Recovered) (history : List Entry)
      → (e.op == op_type_batch) ≡ false
      → Rebuilt r history
      → (r' : Recovered) × (process options coins e r ≡ (ok tt, r'))
        × Rebuilt r' (kept e ++ history)
  process-Rebuilt e r history single b =
      let (m, q, k) = process_wal_entry-Keeps e (coins e) r.current b.now single b.keeps in
      (
        record r { current = m },
        ap (finish r) q,
        record {
          now = kept e ++ b.now;
          groups = b.groups;
          keeps = k;
          frozen = b.frozen;
          parts =
              ap (λ es. kept e ++ es) b.parts ∙ sym (append_assoc (kept e) b.now (joined b.groups));
          full = b.full;
        },
      )

  -- A full table is followed by a new one.
  rotated-Rebuilt :
      (r : Recovered) (history : List Entry)
      → Rebuilt r history
      → options.mem_table_size ≤ approximate_size r.current
      → Rebuilt
          (record r { older = r.older ++ (set_immutable r.current ∷ []); current = new_mem_table })
          history
  rotated-Rebuilt r history b h =
      let more = joined-append b.groups b.now in
      record {
        now = [];
        groups = b.groups ++ (b.now ∷ []);
        keeps = record { shows = new-Shows; open_for_writes = refl };
        frozen =
            Frozen-append r.older b.groups (set_immutable r.current) b.now b.frozen b.keeps.shows;
        parts = b.parts ∙ sym more;
        full =
            one_more (length r.older) (length (r.older ++ (set_immutable r.current ∷ [])))
              options.mem_table_size (total_size b.now) (total_size (joined b.groups)) _
              (length-append r.older (set_immutable r.current ∷ [])) b.full
              (omega (arith, b.keeps.shows.sized))
              (ap total_size more ∙ total_size-append b.now (joined b.groups));
      }

  -- What the handler makes of an entry: nothing if its number is too high.
  abbrev pub taken : Types.Entry → List Entry
  taken e = if ltb options.max_sequence_number e.sequence_number then [] else kept e

  -- Too many tables are full.
  abbrev pub TooMany : List Entry → Type 0
  TooMany history = options.max_mem_tables * options.mem_table_size ≤ total_size history

  too_many :
      (r : Recovered) (history : List Entry)
      → Rebuilt r history
      → leb options.mem_table_size (approximate_size r.current) ≡ true
      → leb options.max_mem_tables (length r.older + 1) ≡ true
      → TooMany history
  too_many r history b big many =
      let size = options.mem_table_size in
      let before = joined b.groups in
      let fits : size ≤ total_size b.now =
        omega (arith, leb→le size (approximate_size r.current) big, b.keeps.shows.sized) in
      let next : (length r.older + 1) * size ≤ total_size b.now + total_size before =
        one_more (length r.older) (length r.older + 1) size (total_size b.now) (total_size before) _
          refl b.full fits refl in
      omega (
        arith,
        next,
        ap total_size b.parts,
        total_size-append b.now before,
        mul-le-mul_right size (leb→le options.max_mem_tables (length r.older + 1) many),
      )

  abbrev pub Handled : Types.Entry → Recovered → List Entry → Type 0
  Handled e r history =
      ((r' : Recovered) × (entry_handler options coins e r ≡ (ok tt, r'))
        × Rebuilt r' (taken e ++ history))
      ⊎ ((r' : Recovered) × (entry_handler options coins e r ≡ (err handler_failed, r'))
          × TooMany history)

  abbrev numbered : ℕ → Recovered → Recovered
  numbered n r = record r { max_seq_num = max_of n r.max_seq_num }

  numbered-Rebuilt :
      (n : ℕ) (r : Recovered) (history : List Entry)
      → Rebuilt r history
      → Rebuilt (numbered n r) history
  numbered-Rebuilt n r history b = record {
    now = b.now;
    groups = b.groups;
    keeps = b.keeps;
    frozen = b.frozen;
    parts = b.parts;
    full = b.full;
  }

  entry_handler-Handled :
      (e : Types.Entry) (r : Recovered) (history : List Entry)
      → (e.op == op_type_batch) ≡ false
      → Rebuilt r history
      → Handled e r history
  unfolding entry_handler
  entry_handler-Handled e r history single b =
      elim (Bool-cases (ltb options.max_sequence_number e.sequence_number)) [
        | inl high ↦ inl (r, rw high refl, rw high b)
        | inr low ↦
            let r0 : Recovered = numbered e.sequence_number r in
            let b0 : Rebuilt r0 history = numbered-Rebuilt e.sequence_number r history b in
            elim (Bool-cases (leb options.mem_table_size (approximate_size r.current))) [
              | inr small ↦
                  let (r', q, b') = process-Rebuilt e r0 history single b0 in
                  inl (r', rw (low, small) q, rw low b')
              | inl big ↦ elim (Bool-cases (leb options.max_mem_tables (length r.older + 1))) [
                | inl many ↦ inr (r0, rw (low, big, many) refl, too_many r history b big many)
                | inr few ↦
                    let (r', q, b') = process-Rebuilt e _ history single (
                      rotated-Rebuilt r0 history b0
                        (leb→le options.mem_table_size (approximate_size r.current) big)) in
                    inl (r', rw (low, big, few) q, rw low b')
              ]
            ]
      ]

  -- The history of the entries of a log, in their order, behind one that is there.
  abbrev pub replayed : List Types.Entry → List Entry → List Entry
  replayed [] history = history
  replayed (e ∷ es) history = replayed es (taken e ++ history)

  replayed-grows :
      (es : List Types.Entry) (history : List Entry)
      → total_size history ≤ total_size (replayed es history)
  replayed-grows [] history = omega arith
  replayed-grows (e ∷ es) history =
      omega (arith, replayed-grows es (taken e ++ history), total_size-append (taken e) history)

  -- The entries of a log that holds no batches, given to the handler in turn.
  pub deliver-Rebuilt :
      (es : List Types.Entry) (stats : RecoveryStats) (r : Recovered) (history : List Entry)
      → All (λ e. (e.op == op_type_batch) ≡ false) es
      → Rebuilt r history
      → ((r' : Recovered) × (stats' : RecoveryStats) × (deliver
              (entry_handler options coins)
              es
              (clean_end (entry_handler options coins))
              stats
              r
            ≡ (ok tt, stats', r'))
          × Rebuilt r' (replayed es history))
        ⊎ ((r' : Recovered) × (stats' : RecoveryStats) × (deliver
                (entry_handler options coins)
                es
                (clean_end (entry_handler options coins))
                stats
                r
              ≡ (err handler_failed, stats', r'))
            × TooMany (replayed es history))
  deliver-Rebuilt [] stats r history single b = inl (r, stats, refl, b)
  deliver-Rebuilt (e ∷ es) stats r history (p, single) b =
      elim (entry_handler-Handled e r history p b) [
        | inl (r', q, b') ↦
            let more = record stats { entries_processed = stats.entries_processed + 1 } in
            elim (deliver-Rebuilt es more r' (taken e ++ history) single b') [
              | inl (r2, s2, q2, b2) ↦ inl (r2, s2, rw q q2, b2)
              | inr (r2, s2, q2, m2) ↦ inr (r2, s2, rw q q2, m2)
            ]
        | inr (r', q, m) ↦
            inr (r', stats, rw q refl, omega (arith, m, replayed-grows (e ∷ es) history))
      ]
