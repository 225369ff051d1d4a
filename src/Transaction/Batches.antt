-- ===== src/Transaction/Batches.antt =====
-- The batch that Commit of pkg/transaction/transaction.go makes of Operations of
-- pkg/transaction/buffer.go.
use std.Path.{subst}
use mathlib.Core.Bool.{false≢true}
use mathlib.Core.List.{Permᴰ}
use mathlib.Core.List.Permᴰ
use kevo.Base.{List, [], ◌∷◌, Option, none, some, Bool, true, false, map}
use kevo.Base.{◌≡◌, refl, sym, ap, ◌∙◌, inl, inr, Bool-cases}
use kevo.Base.All.{All, select}
use kevo.Base.Bytes.{Bytes}
use kevo.Base.Strings.{same, same-eq, same_sym}
use kevo.Common.Bounds.{Ascending}
use kevo.Wal.Types
use kevo.Wal.Types.{op_type_put, op_type_delete}
use kevo.Transaction.Buffer
use kevo.Transaction.Buffer.{
  Operation, Buffer, operation_of, assign, copy_of, answer_of, new_buffer,
}
use kevo.Transaction.Writes.{Write, puts, deletes, write, write_all, last_effect, get-write_all}
use kevo.Transaction.Commit.{copy_operation, batch_entry, batch}

-- What sort.Slice promises for the comparison of the keys.
pub record Sorts (sort : List Operation → List Operation) : Type 0 where
  pub permuted : (ops : List Operation) → Permᴰ (sort ops) ops
  pub ascending : (ops : List Operation) → Ascending (map (λ op. op.key) (sort ops))

-- An operation as Put and Delete store it under a key.
pub record Stored (key : Bytes) (op : Operation) : Type 0 where
  pub own_key : op.key ≡ key
  pub has_value : op.is_delete ≡ false → op.value ≡ some (copy_of op.value)

abbrev pub Tidy : List (Bytes × Operation) → Type 0
Tidy [] = Unit
Tidy ((k, op) ∷ ops) = Stored k op × All (λ e. same e.0 k ≡ false) ops × Tidy ops

assign-All :
    (key k : Bytes) (op : Operation) (ops : List (Bytes × Operation))
    → same key k ≡ false
    → All (λ e. same e.0 k ≡ false) ops
    → All (λ e. same e.0 k ≡ false) (assign key op ops)
assign-All key k op [] d h = (d, tt)
assign-All key k op ((j, o) ∷ ops) d (e, h) = elim (Bool-cases (same j key)) [
  | inl t ↦ rw t (d, h)
  | inr t ↦ rw t (e, assign-All key k op ops d h)
]

assign-Tidy :
    (key : Bytes) (op : Operation) (ops : List (Bytes × Operation))
    → Stored key op
    → Tidy ops
    → Tidy (assign key op ops)
assign-Tidy key op [] s h = (s, tt, tt)
assign-Tidy key op ((j, o) ∷ ops) s (q, d, h) = elim (Bool-cases (same j key)) [
  | inl t ↦ rw t (s, subst (λ x. All (λ e. same e.0 x ≡ false) ops) (same-eq j key t) d, h)
  | inr t ↦ rw t (q, assign-All key j op ops (same_sym j key t) d, assign-Tidy key op ops s h)
]

pub write_all-Tidy :
    (ws : List Write) (b : Buffer) → Tidy b.operations → Tidy (write_all ws b).operations
unfolding Buffer.put Buffer.delete
write_all-Tidy [] b h = h
write_all-Tidy (puts key value ∷ ws) b h =
    write_all-Tidy ws (write (puts key value) b)
      (assign-Tidy key _ b.operations (record { own_key = refl; has_value = λ e. refl }) h)
write_all-Tidy (deletes key ∷ ws) b h = write_all-Tidy ws (write (deletes key) b) (
    assign-Tidy key _ b.operations
      (record { own_key = refl; has_value = λ e. absurd (false≢true (sym e)) }) h)

module _ {A : Type 0} (test : A → Bool) where
  select-cons_both :
      (a b : A) (l r : List A)
      → a ≡ b
      → Permᴰ (select test l) (select test r)
      → Permᴰ (select test (a ∷ l)) (select test (b ∷ r))
  select-cons_both a b l r e p = elim (Bool-cases (test a)) [
    | inl t ↦ rw (t, ap test (sym e) ∙ t) (Permᴰ.cons e p)
    | inr t ↦ rw (t, ap test (sym e) ∙ t) p
  ]

  select-swap_both :
      (a b : A) (l : List A) → Permᴰ (select test (a ∷ b ∷ l)) (select test (b ∷ a ∷ l))
  select-swap_both a b l = elim (Bool-cases (test a)) [
    | inl t ↦ elim (Bool-cases (test b)) [
      | inl u ↦ rw (t, u) (Permᴰ.swap refl refl)
      | inr u ↦ rw (t, u) (Permᴰ.refl (a ∷ select test l))
    ]
    | inr t ↦ rw t (Permᴰ.refl (select test (b ∷ l)))
  ]

  pub select-Permᴰ : {l r : List A} → Permᴰ l r → Permᴰ (select test l) (select test r)
  select-Permᴰ Permᴰ.nil = Permᴰ.nil
  select-Permᴰ (Permᴰ.cons {a = a} {b = b} e p) = select-cons_both a b _ _ e (select-Permᴰ p)
  select-Permᴰ (Permᴰ.swap {a = a} {b = b} {a' = a'} {b' = b'} {l = l} e f) =
      subst (λ x. Permᴰ (select test (a ∷ b ∷ l)) (select test (a' ∷ x ∷ l))) e
        (subst (λ x. Permᴰ (select test (a ∷ b ∷ l)) (select test (x ∷ a ∷ l))) f
          (select-swap_both a b l))
  select-Permᴰ (Permᴰ.trans p q) = Permᴰ.trans (select-Permᴰ p) (select-Permᴰ q)

-- The empty list and a list of one member have no other order.
only_nil : {A : Type 0} {l r : List A} → Permᴰ l r → r ≡ [] → l ≡ []
only_nil Permᴰ.nil h = refl
only_nil (Permᴰ.cons e p) h = absurd (cc)
only_nil (Permᴰ.swap e f) h = absurd (cc)
only_nil (Permᴰ.trans p q) h = only_nil p (only_nil q h)

only_one : {A : Type 0} {l r : List A} (x : A) → Permᴰ l r → r ≡ x ∷ [] → l ≡ x ∷ []
only_one x Permᴰ.nil h = h
only_one x (Permᴰ.cons {a = a} {b = b} {l₁ = l} {l₂ = r} e p) h =
    let rest : l ≡ [] = only_nil p (cc) in let first : a ≡ x = cc in rw (rest, first) refl
only_one x (Permᴰ.swap e f) h = absurd (cc)
only_one x (Permᴰ.trans p q) h = only_one x p (only_one x q h)

abbrev pub singly : Option Operation → List Operation
singly none = []
singly (some op) = op ∷ []

Permᴰ-singly : {l : List Operation} (o : Option Operation) → Permᴰ l (singly o) → l ≡ singly o
Permᴰ-singly none p = only_nil p refl
Permᴰ-singly (some op) p = only_one op p refl

-- The buffered operations on a key.
none_stored :
    (key : Bytes) (ops : List (Bytes × Operation))
    → Tidy ops
    → All (λ e. same e.0 key ≡ false) ops
    → select (λ op. same op.key key) (map (λ e. copy_operation e.1) ops) ≡ []
none_stored key [] h d = refl
none_stored key ((k, op) ∷ ops) (s, f, h) (e, d) = rw (s.own_key, e) (none_stored key ops h d)

stored_once :
    (key : Bytes) (ops : List (Bytes × Operation))
    → Tidy ops
    → select (λ op. same op.key key) (map (λ e. copy_operation e.1) ops)
      ≡ singly (operation_of key ops)
stored_once key [] h = refl
stored_once key ((k, op) ∷ ops) (s, d, h) = elim (Bool-cases (same k key)) [
  | inl t ↦
      let others =
        none_stored key ops h
          (subst (λ x. All (λ e. same e.0 x ≡ false) ops) (same-eq k key t) d) in
      rw (s.own_key, t, others) refl
  | inr t ↦ rw (s.own_key, t, stored_once key ops h) refl
]

-- The entries for a key of which a read of the buffer answers this.
abbrev pub entries_for : Bytes → Option Bytes × Bool → List Types.Entry
entries_for key (none, false) = []
entries_for key (none, true) =
    record { sequence_number = 0; op = op_type_delete; key = key; value = none } ∷ []
entries_for key (some value, found) =
    record { sequence_number = 0; op = op_type_put; key = key; value = some value } ∷ []

batch_entry-key : (op : Operation) → (batch_entry op).key ≡ op.key
batch_entry-key op = elim (Bool-cases op.is_delete) [ inl d ↦ rw d refl | inr d ↦ rw d refl ]

select-batch_entry :
    (key : Bytes) (ops : List Operation)
    → select (λ e. same e.key key) (map batch_entry ops)
      ≡ map batch_entry (select (λ op. same op.key key) ops)
select-batch_entry key [] = refl
select-batch_entry key (op ∷ ops) = elim (Bool-cases (same op.key key)) [
  | inl t ↦ rw (batch_entry-key op, t) (ap (◌∷◌ (batch_entry op)) (select-batch_entry key ops))
  | inr t ↦ rw (batch_entry-key op, t) (select-batch_entry key ops)
]

operation_of-Stored :
    (key : Bytes) (ops : List (Bytes × Operation))
    → Tidy ops
    → map batch_entry (singly (operation_of key ops))
      ≡ entries_for key (answer_of (operation_of key ops))
operation_of-Stored key [] h = refl
operation_of-Stored key ((k, op) ∷ ops) (s, d, h) = elim (Bool-cases (same k key)) [
  | inl t ↦
      let own : op.key ≡ key = s.own_key ∙ same-eq k key t in
      elim (Bool-cases op.is_delete) [
        | inl e ↦ rw (t, e, own) refl
        | inr e ↦
            rw (t, e, own)
              (ap (λ v. record { sequence_number = 0; op = op_type_put; key = key; value = v } ∷ [])
                (s.has_value e))
      ]
  | inr t ↦ rw t (operation_of-Stored key ops h)
]

map-key : (ops : List Operation) → map (λ e. e.key) (map batch_entry ops) ≡ map (λ op. op.key) ops
map-key [] = refl
map-key (op ∷ ops) = rw (batch_entry-key op) (ap (◌∷◌ op.key) (map-key ops))

pub get-new_buffer : (key : Bytes) → Buffer.get key new_buffer ≡ (none, false)
unfolding Buffer.get
get-new_buffer key = refl

module _ (sort : List Operation → List Operation) (sorts : Sorts sort) where
  entries_of :
      (key : Bytes) (b : Buffer)
      → Tidy b.operations
      → select (λ e. same e.key key) (batch sort b) ≡ entries_for key (Buffer.get key b)
  unfolding Buffer.get
  entries_of key b h =
      let ops = map (λ (e : Bytes × Operation). copy_operation e.1) b.operations in
      let once : select (λ op. same op.key key) (sort ops)
          ≡ singly (operation_of key b.operations) =
        Permᴰ-singly (operation_of key b.operations) (
          subst (Permᴰ (select (λ op. same op.key key) (sort ops))) (stored_once key b.operations h)
            (select-Permᴰ (λ op. same op.key key) (sorts.permuted ops))) in
      select-batch_entry key (sort ops)
      ∙ ap (map batch_entry) once
      ∙ operation_of-Stored key b.operations h

  -- The batch that Commit makes of the buffer behind any Puts and Deletes: its keys ascend, and the
  -- entries for a key are none where nothing was written to it, one deletion where a Delete was the
  -- last write, and one put of the last value, a nil one as an empty one, where a Put was.
  pub batch_lem :
      (ws : List Write)
      → Ascending (map (λ e. e.key) (batch sort (write_all ws new_buffer)))
        × ((key : Bytes)
            → select (λ e. same e.key key) (batch sort (write_all ws new_buffer))
              ≡ entries_for key (last_effect key ws (none, false)))
  batch_lem ws =
      let b = write_all ws new_buffer in
      let ops = map (λ (e : Bytes × Operation). copy_operation e.1) b.operations in
      (
        subst Ascending (sym (map-key (sort ops))) (sorts.ascending ops),
        λ key.
            entries_of key b (write_all-Tidy ws new_buffer tt)
            ∙ ap (entries_for key)
                (get-write_all key ws new_buffer ∙ ap (last_effect key ws) (get-new_buffer key)),
      )
