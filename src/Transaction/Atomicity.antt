-- ===== src/Transaction/Atomicity.antt =====
-- What a ReadWriteSerialized transaction of pkg/transaction/transaction.go does, from Begin to Commit.
use kevo.Base.{◌+◌, List, [], ◌∷◌, ◌++◌, Option, none, some, Bool, true, false, map}
use kevo.Base.{◌≡◌, refl, ap, ◌∙◌, inl, inr, arith, ltb, length, Bool-cases}
use kevo.Base.All.{All}
use kevo.Base.Bytes.{Bytes}
use kevo.Base.Strings.{same, same_refl}
use kevo.Transaction.Buffer
use kevo.Transaction.Buffer.{Buffer, Operation, new_buffer, assign, number_of_queued_operations}
use kevo.Transaction.Writes.{Write, puts, deletes, write, write_all, last_effect, get-write_all}
use kevo.Transaction.Lifecycle.{
  read_write_serialized, Transaction, Storage, TxError, storage_error, Manager, tx_of, update_tx,
  deactivate, ◌>>=◌, change, begin_transaction, release_serialize_lock, set_tx_lock,
  acquire_serialize_lock, begun,
}
use kevo.Transaction.Commit.{
  commit, batch, apply_queued, write_key, put, delete, buffered_or, read_storage, get, Action,
  begins, commits, act, act_all, state_of, or_same, release_deferred, count_end,
}
use kevo.Transaction.Commit
use kevo.Transaction.Batches.{get-new_buffer}

-- The action of a write, which needs no further attempt.
abbrev pub written : Bytes → Write → Action
written id (puts key value) = Commit.puts key value id 0 false
written id (deletes key) = Commit.deletes key id 0 false

-- What the storage makes of the writes: one batch, and nothing where there are none.
abbrev pub handed :
    {S : Type 0} → Storage S → (List Operation → List Operation) → List Write → S → Option Bytes × S
handed storage sort [] s = (none, s)
handed storage sort (w ∷ ws) s = storage.apply_batch (batch sort (write_all (w ∷ ws) new_buffer)) s

-- What Commit answers for the answer of the storage.
abbrev pub reported : Option Bytes → Option TxError
reported none = none
reported (some e) = some (storage_error e)

tx_of-last :
    (id : Bytes) (t : Transaction) (ts : List Transaction)
    → All (λ t. same t.id id ≡ false) ts
    → same t.id id ≡ true
    → tx_of id (ts ++ (t ∷ [])) ≡ t
tx_of-last id t [] h e = rw e refl
tx_of-last id t (u ∷ ts) (d, h) e = rw d (tx_of-last id t ts h e)

update_tx-last :
    (id : Bytes) (f : Transaction → Transaction) (t : Transaction) (ts : List Transaction)
    → All (λ t. same t.id id ≡ false) ts
    → same t.id id ≡ true
    → update_tx id f (ts ++ (t ∷ [])) ≡ ts ++ (f t ∷ [])
update_tx-last id f t [] h e = rw e refl
update_tx-last id f t (u ∷ ts) (d, h) e = rw d (ap (◌∷◌ u) (update_tx-last id f t ts h e))

-- A write leaves something in the buffer, and nothing takes it out.
assign-some :
    (key : Bytes) (op : Operation) (ops : List (Bytes × Operation))
    → ltb 0 (length (assign key op ops)) ≡ true
assign-some key op [] = refl
assign-some key op ((k, o) ∷ ops) = elim (Bool-cases (same k key)) [
  | inl e ↦ rw e (ground arith)
  | inr e ↦ rw e (ground arith)
]

write-some : (w : Write) (b : Buffer) → ltb 0 (number_of_queued_operations (write w b)) ≡ true
unfolding number_of_queued_operations Buffer.put Buffer.delete
write-some (puts key value) b = assign-some key _ b.operations
write-some (deletes key) b = assign-some key _ b.operations

write_all-some :
    (ws : List Write) (b : Buffer)
    → ltb 0 (number_of_queued_operations b) ≡ true
    → ltb 0 (number_of_queued_operations (write_all ws b)) ≡ true
write_all-some [] b h = h
write_all-some (w ∷ ws) b h = write_all-some ws (write w b) (write-some w b)

empty-count : number_of_queued_operations new_buffer ≡ 0
unfolding number_of_queued_operations
empty-count = refl

module _ {S : Type 0} (storage : Storage S) (sort : List Operation → List Operation)
    (id : Bytes) where
  apply_queued-handed :
      (ws : List Write) (m : Manager S)
      → apply_queued storage sort (write_all ws new_buffer) m ≡ (
        (handed storage sort ws m.storage).0,
        record m { storage = (handed storage sort ws m.storage).1 },
      )
  apply_queued-handed [] m = rw empty-count refl
  apply_queued-handed (w ∷ ws) m =
      rw (write_all-some ws (write w new_buffer) (write-some w new_buffer)) refl

  -- The state in which the transaction is the last one and holds a buffer.
  abbrev session : Buffer → Bool → Transaction
  session b active = record {
    id = id;
    mode = read_write_serialized;
    buffer = b;
    is_active = active;
  }

  abbrev opened : Manager S → Buffer → Manager S
  opened m b = record m {
    tx_lock = record { readers = 0; writer = true };
    tx_started = m.tx_started + 1;
    transactions = m.transactions ++ (session b true ∷ []);
  }

  abbrev pub Fresh : Manager S → Type 0
  Fresh m = All (λ t. same t.id id ≡ false) m.transactions

  write_key-opened :
      (m : Manager S)
      → Fresh m
      → (key : Bytes) (f : Buffer → Buffer) (b : Buffer)
      → state_of (write_key key f id 0 false (opened m b)) ≡ some (opened m (f b))
  unfolding write_key
  write_key-opened m fresh key f b =
      let g = λ (t : Transaction). record t { buffer = f t.buffer } in
      rw
        (
          tx_of-last id (session b true) m.transactions fresh (same_refl id),
          update_tx-last id g (session b true) m.transactions fresh (same_refl id),
        )
        refl

  act-written :
      (m : Manager S)
      → Fresh m
      → (w : Write) (b : Buffer)
      → act storage sort (written id w) (opened m b) ≡ some (opened m (write w b))
  act-written m fresh (puts key value) b = write_key-opened m fresh key (Buffer.put key value) b
  act-written m fresh (deletes key) b = write_key-opened m fresh key (Buffer.delete key) b

  act_all-written :
      (m : Manager S)
      → Fresh m
      → (ws : List Write) (b : Buffer)
      → act_all storage sort (map (written id) ws) (opened m b) ≡ some (opened m (write_all ws b))
  act_all-written m fresh [] b = refl
  act_all-written m fresh (w ∷ ws) b =
      rw (act-written m fresh w b) (act_all-written m fresh ws (write w b))

  get-opened :
      (m : Manager S)
      → Fresh m
      → (b : Buffer) (key : Bytes)
      → get storage sort key id (opened m b)
        ≡ buffered_or (Buffer.get key b) (read_storage (storage.get key m.storage))
  unfolding get
  get-opened m fresh b key =
      rw (tx_of-last id (session b true) m.transactions fresh (same_refl id)) refl

  -- The end of Commit where the lock is held for writing.
  ends :
      (e : Option Bytes) (m : Manager S)
      → m.tx_lock ≡ record { readers = 0; writer = true }
      → (m' : Manager S) × ((release_deferred read_write_serialized id m >>= count_end e)
          ≡ some (reported e, m'))
        × (m'.storage ≡ m.storage)
        × (m'.tx_lock ≡ record { readers = 0; writer = false })
  ends none m h = (
    record m {
      tx_lock = record { readers = 0; writer = false };
      tx_completed = m.tx_completed + 1;
    },
    ap (λ l. (release_serialize_lock l >>= set_tx_lock m) >>= count_end none) h,
    refl,
    refl,
  )
  ends (some e) m h = (
    record m { tx_lock = record { readers = 0; writer = false }; tx_aborted = m.tx_aborted + 1 },
    ap (λ l. (release_serialize_lock l >>= set_tx_lock m) >>= count_end (some e)) h,
    refl,
    refl,
  )

  commit-opened :
      (m : Manager S)
      → Fresh m
      → (ws : List Write)
      → (m' : Manager S) × (commit storage sort id (opened m (write_all ws new_buffer))
          ≡ some (reported (handed storage sort ws m.storage).0, m'))
        × (m'.storage ≡ (handed storage sort ws m.storage).1)
        × (m'.tx_lock ≡ record { readers = 0; writer = false })
  unfolding commit
  commit-opened m fresh ws =
      let closed = change id deactivate (opened m (write_all ws new_buffer)) in
      let (m', e, f, g) =
        ends (handed storage sort ws m.storage).0
          (record closed { storage = (handed storage sort ws m.storage).1 }) refl in
      (
        m',
        rw
            (
              tx_of-last id (session (write_all ws new_buffer) true) m.transactions fresh
                  (same_refl id),
              apply_queued-handed ws closed,
            )
            e,
        f,
        g,
      )

  -- A ReadWriteSerialized transaction with a new id, begun where nobody holds the read-write lock:
  -- its Puts and Deletes all succeed and leave the storage as it was; behind them Get answers the
  -- last of them on the key, and else what the storage holds; Commit then hands the storage the one
  -- batch of the writes, nothing where there are none, answers the error of the storage, and gives
  -- the lock back.
  pub commit-writes :
      (m : Manager S)
      → Fresh m
      → m.tx_lock ≡ record { readers = 0; writer = false }
      → (ws : List Write)
      → (m1 : Manager S) × (act_all storage sort
            (begins read_write_serialized id ∷ map (written id) ws)
            m
          ≡ some m1)
        × (m1.storage ≡ m.storage)
        × ((key : Bytes)
            → get storage sort key id m1
              ≡ buffered_or
                  (last_effect key ws (none, false))
                  (read_storage (storage.get key m.storage)))
        × ((m2 : Manager S) × (commit storage sort id m1
              ≡ some (reported (handed storage sort ws m.storage).0, m2))
            × (m2.storage ≡ (handed storage sort ws m.storage).1)
            × (m2.tx_lock ≡ record { readers = 0; writer = false }))
  unfolding begin_transaction
  commit-writes m fresh idle ws = (
    opened m (write_all ws new_buffer),
    ap
          (λ l. act_all storage sort (map (written id) ws) (
            or_same m
              (acquire_serialize_lock l >>= λ l. some (none, begun read_write_serialized id m l))))
          idle
        ∙ act_all-written m fresh ws new_buffer,
    refl,
    λ key.
        get-opened m fresh (write_all ws new_buffer) key
        ∙ ap (λ r. buffered_or r (read_storage (storage.get key m.storage)))
            (get-write_all key ws new_buffer ∙ ap (last_effect key ws) (get-new_buffer key)),
    commit-opened m fresh ws,
  )
