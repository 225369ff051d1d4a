-- ===== src/Transaction/Writes.antt =====
-- What the buffer of pkg/transaction/buffer.go holds after a sequence of writes.
use kevo.Base.{◌≡◌, refl, sym, ap, ◌∙◌, inl, inr, Bool-cases}
use kevo.Base.{List, [], ◌∷◌, Option, none, some, Bool, true, false, if◌then◌else◌}
use kevo.Base.Bytes.{Bytes}
use kevo.Base.Strings.{same, same-eq}
use kevo.Transaction.Buffer.{
  Operation, Buffer, operation_of, assign, copy_of, put, delete, answer_of, get,
}

module _ (key k : Bytes) (op : Operation) where
  operation_of-assign :
      (ops : List (Bytes × Operation))
      → operation_of k (assign key op ops) ≡ (if same key k then some op else operation_of k ops)
  operation_of-assign [] = refl
  operation_of-assign ((j, o) ∷ ops) = elim (Bool-cases (same j key)) [
    | inl e ↦ elim (Bool-cases (same key k)) [
      | inl f ↦ rw (e, f) refl
      | inr f ↦ rw (e, f, ap (λ x. same x k) (same-eq j key e) ∙ f) refl
    ]
    | inr e ↦ elim (Bool-cases (same key k)) [
      | inl f ↦
          let g : same j k ≡ false = sym (ap (same j) (same-eq key k f)) ∙ e in
          rw (e, g, operation_of-assign ops, f) refl
      | inr f ↦ rw (e, operation_of-assign ops, f) refl
    ]
  ]

-- A write of a transaction.
pub data Write : Type 0 where
  puts : (key : Bytes) (value : Option Bytes) → Write
  deletes : (key : Bytes) → Write

abbrev pub write : Write → Buffer → Buffer
write (puts key value) b = put key value b
write (deletes key) b = delete key b

abbrev pub write_all : List Write → Buffer → Buffer
write_all [] b = b
write_all (w ∷ ws) b = write_all ws (write w b)

abbrev written_key : Write → Bytes
written_key (puts key value) = key
written_key (deletes key) = key

-- What a read of the written key finds behind a write.
abbrev pub effect : Write → Option Bytes × Bool
effect (puts key value) = (some (copy_of value), true)
effect (deletes key) = (none, true)

-- The effect of the last write to a key, or `found` where there is none.
abbrev pub last_effect : Bytes → List Write → Option Bytes × Bool → Option Bytes × Bool
last_effect key [] found = found
last_effect key (w ∷ ws) found =
    last_effect key ws (if same (written_key w) key then effect w else found)

answer_of-if :
    (b : Bool) (op : Operation) (o : Option Operation)
    → answer_of (if b then some op else o) ≡ (if b then answer_of (some op) else answer_of o)
answer_of-if true op o = refl
answer_of-if false op o = refl

get-write :
    (key : Bytes) (w : Write) (b : Buffer)
    → get key (write w b) ≡ (if same (written_key w) key then effect w else get key b)
unfolding get put delete
get-write key (puts k value) b =
    let op : Operation = record { key = k; value = some (copy_of value); is_delete = false } in
    ap answer_of (operation_of-assign k key op b.operations)
    ∙ answer_of-if (same k key) op (operation_of key b.operations)
get-write key (deletes k) b =
    let op : Operation = record { key = k; value = none; is_delete = true } in
    ap answer_of (operation_of-assign k key op b.operations)
    ∙ answer_of-if (same k key) op (operation_of key b.operations)

-- After any Puts and Deletes on a buffer, Get answers for every key what the last of them on that
-- key did: the value that was put, a nil one as an empty one, or a deletion. For a key without any
-- it answers what it answered before.
pub get-write_all :
    (key : Bytes) (ws : List Write) (b : Buffer)
    → get key (write_all ws b) ≡ last_effect key ws (get key b)
get-write_all key [] b = refl
get-write_all key (w ∷ ws) b =
    get-write_all key ws (write w b) ∙ ap (last_effect key ws) (get-write key w b)
