-- ===== src/Memtable/Durability.antt =====
-- From the requests that Append of pkg/wal/wal.go takes to the tables of RecoverFromWAL in
-- pkg/memtable/recovery.go.
use kevo.Base.{ℕ, ◌+◌, ◌*◌, ◌≤◌, ◌<◌, ◌^◌, ◌≡◌, refl, sym, ap, ◌∙◌, arith, inl, inr, ◌⊎◌, map}
use kevo.Base.{
  List, [], ◌∷◌, ◌++◌, Option, none, some, Bool, true, false, length, ltb, le→ltb, ◌==◌,
  if◌then◌else◌, Bool-cases,
}
use std.Path.{subst}
use kevo.Base.All.{All, All-map_pred}
use kevo.Base.Bytes.{Bytes}
use kevo.Base.Compare.{equal}
use kevo.Wal.Types
use kevo.Wal.Types.{
  Result, ok, err, handler_failed, op_type_put, op_type_delete, op_type_batch, bytes_of,
}
use kevo.Wal.Device.{Wal}
use kevo.Wal.Log.{is_append_op}
use kevo.Wal.Appending.{IsReady}
use kevo.Wal.Parsing.{read_back}
use kevo.Wal.Replay.{RecoveryStats, no_stats, replay_dir, replay_files, replay_file, after_file}
use kevo.Wal.Durability.{
  Request, append_requests, entry_of, entries_from, AllSound, append_requests-replay,
}
use kevo.Memtable.SkipList.{Entry, type_value, type_deletion}
use kevo.Memtable.Lookup.{first_with}
use kevo.Memtable.Views.{total_size}
use kevo.Memtable.Table.{answer, MemTable}
use kevo.Memtable.Pool.{get_from}
use kevo.Memtable.Pools.{Frozen-append, joined, joined-append}
use kevo.Memtable.PoolGet.{InOrder, get_from-Frozen, first_or-none}
use kevo.Memtable.Recovery.{
  RecoveryOptions, Recovered, start_recovery, entry_handler, recover_from_wal, conclude, tables_of,
  final_number,
}
use kevo.Memtable.Rebuilding.{kept, replayed, Rebuilt, start-Rebuilt, deliver-Rebuilt}

-- What a request writes under the number `n`: a merge writes nothing.
abbrev pub entries_of : ℕ → Request → List Entry
entries_of n q =
    if q.op == op_type_put
    then (let new : Entry = record {
      key = q.key;
      value = some (bytes_of q.value);
      value_type = type_value;
      seq_num = n;
    } in
        new ∷ [])
    else if q.op == op_type_delete
    then (let new : Entry = record {
      key = q.key;
      value = none;
      value_type = type_deletion;
      seq_num = n;
    } in
        new ∷ [])
    else []

-- The entries of requests that are numbered from `n` on, behind a history; the last stands first.
abbrev pub history_of : ℕ → List Request → List Entry → List Entry
history_of n [] history = history
history_of n (q ∷ qs) history = history_of (n + 1) qs (entries_of n q ++ history)

-- What a client knows of a key after its requests, if it knew `known` before.
abbrev pub effect_on : Bytes → Request → Option Bytes × Bool → Option Bytes × Bool
effect_on key q known =
    if equal q.key key
    then if q.op == op_type_put
      then (some (bytes_of q.value), true)
      else if q.op == op_type_delete
      then (none, true)
      else known
    else known

abbrev pub expected : Bytes → List Request → Option Bytes × Bool → Option Bytes × Bool
expected key [] known = known
expected key (q ∷ qs) known = expected key qs (effect_on key q known)

effect_on-answer :
    (key : Bytes) (n : ℕ) (q : Request) (history : List Entry)
    → answer (first_with key (entries_of n q ++ history))
      ≡ effect_on key q (answer (first_with key history))
effect_on-answer key n q history = elim (Bool-cases (q.op == op_type_put)) [
  | inl p ↦ elim (Bool-cases (equal q.key key)) [
    | inl same ↦ rw (p, same) refl
    | inr other ↦ rw (p, other) refl
  ]
  | inr p ↦ elim (Bool-cases (q.op == op_type_delete)) [
    | inl d ↦ elim (Bool-cases (equal q.key key)) [
      | inl same ↦ rw (p, d, same) refl
      | inr other ↦ rw (p, d, other) refl
    ]
    | inr d ↦ elim (Bool-cases (equal q.key key)) [
      | inl same ↦ rw (p, d, same) refl
      | inr other ↦ rw (p, d, other) refl
    ]
  ]
]

expected-answer :
    (key : Bytes) (n : ℕ) (qs : List Request) (history : List Entry)
    → answer (first_with key (history_of n qs history))
      ≡ expected key qs (answer (first_with key history))
expected-answer key n [] history = refl
expected-answer key n (q ∷ qs) history =
    expected-answer key (n + 1) qs (entries_of n q ++ history)
    ∙ ap (expected key qs) (effect_on-answer key n q history)

le-All :
    (n : ℕ) (history : List Entry)
    → All (λ x. x.seq_num ≤ n) history
    → All (λ x. x.seq_num ≤ n + 1) history
le-All n history h =
    All-map_pred (λ x. x.seq_num ≤ n) (λ x. x.seq_num ≤ n + 1) history (λ x le. omega arith) h

entries_of-bound :
    (n : ℕ) (q : Request) (history : List Entry)
    → All (λ x. x.seq_num ≤ n) history
    → InOrder history
    → InOrder (entries_of n q ++ history) × All (λ x. x.seq_num ≤ n + 1) (entries_of n q ++ history)
entries_of-bound n q history h i = elim (Bool-cases (q.op == op_type_put)) [
  | inl p ↦ rw p ((h, i), (omega arith, le-All n history h))
  | inr p ↦ elim (Bool-cases (q.op == op_type_delete)) [
    | inl d ↦ rw (p, d) ((h, i), (omega arith, le-All n history h))
    | inr d ↦ rw (p, d) (i, le-All n history h)
  ]
]

history_of-InOrder :
    (n : ℕ) (qs : List Request) (history : List Entry)
    → All (λ x. x.seq_num ≤ n) history
    → InOrder history
    → InOrder (history_of n qs history)
history_of-InOrder n [] history h i = i
history_of-InOrder n (q ∷ qs) history h i =
    let (i', h') = entries_of-bound n q history h i in
    history_of-InOrder (n + 1) qs (entries_of n q ++ history) h' i'

kept-read_back : (n : ℕ) (q : Request) → kept (read_back (entry_of n q)) ≡ entries_of n q
kept-read_back n q = elim (Bool-cases (q.op == op_type_put)) [
  | inl p ↦
      let no_delete : (q.op == op_type_delete) ≡ false = ground arith in rw (p, no_delete) refl
  | inr p ↦ elim (Bool-cases (q.op == op_type_delete)) [
    | inl d ↦ rw (p, d) refl
    | inr d ↦ rw (p, d) refl
  ]
]

no_batch : (op : ℕ) → is_append_op op ≡ true → (op == op_type_batch) ≡ false
no_batch op h = ground arith

single_entries :
    (n : ℕ) (qs : List Request)
    → AllSound qs
    → All (λ (e : Types.Entry). (e.op == op_type_batch) ≡ false) (map read_back (entries_from n qs))
single_entries n [] v = tt
single_entries n (q ∷ qs) (v, vs) = (no_batch q.op v.op_known, single_entries (n + 1) qs vs)

module _ (options : RecoveryOptions) (coins : Types.Entry → ℕ → List Bool) where
  replayed-history_of :
      (n : ℕ) (qs : List Request) (history : List Entry)
      → n + length qs ≤ options.max_sequence_number
      → replayed options coins (map read_back (entries_from n qs)) history ≡ history_of n qs history
  replayed-history_of n [] history h = refl
  replayed-history_of n (q ∷ qs) history h =
      let low : ltb options.max_sequence_number n ≡ false =
        le→ltb n options.max_sequence_number (omega arith) in
      let es = kept (read_back (entry_of n q)) in
      ap (λ xs. replayed options coins (map read_back (entries_from (n + 1) qs)) (xs ++ history))
        (ap (λ b. if b then [] else es) low ∙ kept-read_back n q)
      ∙ replayed-history_of (n + 1) qs (entries_of n q ++ history) (omega arith)

  -- The tables of a recovery, from the last to the first, answer for a history in order.
  get_from-tables_of :
      (key : Bytes) (r : Recovered) (history : List Entry)
      → Rebuilt options coins r history
      → InOrder history
      → get_from key (tables_of options coins r) (some (none, false))
        ≡ some (answer (first_with key history))
  get_from-tables_of key r history b i =
      let groups = b.groups ++ (b.now ∷ []) in
      let whole : joined groups ≡ history = joined-append b.groups b.now ∙ sym b.parts in
      get_from-Frozen key (tables_of options coins r) groups none
        (Frozen-append r.older b.groups r.current b.now b.frozen b.keeps.shows)
        (subst InOrder (sym whole) i)
      ∙ ap (λ o. some (answer o)) (first_or-none (first_with key (joined groups)))
      ∙ ap (λ es. some (answer (first_with key es))) whole

  abbrev log_of : List Request → Wal → Bytes
  log_of qs w = (append_requests qs w).1.device.stream

  -- The end of a recovery from one file.
  recover-ok :
      (file : Bytes) (stats : RecoveryStats) (r : Recovered)
      → replay_file (entry_handler options coins) file start_recovery ≡ (ok tt, stats, r)
      → recover_from_wal options coins (file ∷ [])
        ≡ ok (
          tables_of options coins r,
          final_number options coins r.max_seq_num r.current.next_seq_num,
        )
  unfolding recover_from_wal replay_dir replay_files
  recover-ok file stats r h =
      ap
        (λ o. conclude options coins (
          after_file (entry_handler options coins) (replay_files (entry_handler options coins) []) 0
            none no_stats o))
        h

  recover-err :
      (file : Bytes) (stats : RecoveryStats) (r : Recovered)
      → replay_file (entry_handler options coins) file start_recovery
        ≡ (err handler_failed, stats, r)
      → recover_from_wal options coins (file ∷ []) ≡ err handler_failed
  unfolding recover_from_wal replay_dir replay_files
  recover-err file stats r h =
      ap
        (λ o. conclude options coins (
          after_file (entry_handler options coins) (replay_files (entry_handler options coins) []) 0
            none no_stats o))
        h

-- A client appends requests to a fresh log, on a device that does not fail, and the log is then
-- recovered, with any options that skip none of their numbers and any coins. Then either
-- RecoverFromWAL answers tables that give every key, read from the last to the first, what the last
-- put or deletion of it did: the value, a nil one as an empty one, or that it is deleted, and
-- nothing if there is none. Or it fails since there are too many tables, and then the entries are
-- at least as large as the allowed tables together.
pub recover-append_requests :
    (options : RecoveryOptions) (coins : Types.Entry → ℕ → List Bool) (qs : List Request) (w : Wal)
    → IsReady w
    → w.device.stream ≡ []
    → AllSound qs
    → w.next_sequence + length qs < 2 ^ 64
    → w.next_sequence + length qs ≤ options.max_sequence_number
    → ((tables : List MemTable) × (number : ℕ) × (recover_from_wal options coins
            ((append_requests qs w).1.device.stream ∷ [])
          ≡ ok (tables, number))
        × ((key : Bytes)
            → get_from key tables (some (none, false)) ≡ some (expected key qs (none, false))))
      ⊎ ((recover_from_wal options coins ((append_requests qs w).1.device.stream ∷ [])
            ≡ err handler_failed)
          × (options.max_mem_tables * options.mem_table_size
              ≤ total_size (history_of w.next_sequence qs [])))
recover-append_requests options coins qs w ready empty sound fits low =
    let n = w.next_sequence in
    let handler = entry_handler options coins in
    let entries = map read_back (entries_from n qs) in
    let file = log_of options coins qs w in
    let same : replayed options coins entries [] ≡ history_of n qs [] =
      replayed-history_of options coins n qs [] low in
    let (numbers, replay) =
      append_requests-replay handler [] qs w start_recovery ready empty tt sound fits in
    elim (deliver-Rebuilt options coins entries no_stats start_recovery []
      (single_entries n qs sound) (start-Rebuilt options coins)) [
        | inl (r, stats, q, b) ↦ inl (
          tables_of options coins r,
          _,
          recover-ok options coins file stats r (replay ∙ q),
          λ key.
              get_from-tables_of options coins key r (history_of n qs [])
                (subst (Rebuilt options coins r) same b) (history_of-InOrder n qs [] tt tt)
              ∙ ap some (expected-answer key n qs []),
        )
        | inr (r, stats, q, m) ↦ inr (
          recover-err options coins file stats r (replay ∙ q),
          omega (arith, m, ap total_size same),
        )
      ]
