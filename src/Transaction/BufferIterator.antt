-- ===== src/Transaction/BufferIterator.antt =====
-- BufferIterator of pkg/transaction/buffer.go. Its operations do not change and are an argument; its
-- state is the position, `none` for -1. `sort.Search` is a parameter.
use kevo.Base.{
  ℕ, zero, suc, ◌+◌, ◌-◌, List, [], ◌∷◌, Option, none, some, Bool, true, false, map, not,
}
use kevo.Base.{
  ◌≡◌, refl, sym, ap, ◌∙◌, inl, inr, arith, length, get_elem?, drop, ltb, leb, if◌then◌else◌,
  Bool-cases,
}
use kevo.Base.All.{All}
use kevo.Base.{◌≤◌, ◌<◌, ◌⊎◌, ◌≢◌, drop_all, leb→le, le→ltb, lt→ltb}
use kevo.Base.Bytes.{Bytes}
use kevo.Base.Compare.{less}
use kevo.Common.Iterators.{Iterator}
use kevo.Common.Sources.{Pairs, Rising, AtLeast}
use kevo.Common.Choosing.{Source}
use kevo.Common.Bounds.{Ascending}
use kevo.Transaction.Buffer.{Operation}

abbrev pub shown : List Operation → Pairs
shown ops = map (λ op. (op.key, op.value)) ops

module _ (operations : List Operation) where
  -- `Valid`
  abbrev pub buffer_valid : Option ℕ → Bool
  buffer_valid none = false
  buffer_valid (some i) = ltb i (length operations)

  -- `SeekToFirst`
  abbrev pub buffer_seek_to_first : Option ℕ → Option ℕ
  buffer_seek_to_first position = if ltb 0 (length operations) then some 0 else none

  -- `SeekToLast`
  abbrev pub buffer_seek_to_last : Option ℕ → Option ℕ
  buffer_seek_to_last position =
      if ltb 0 (length operations) then some (length operations - 1) else none

  -- `Next`, which starts anew in front of the first
  abbrev pub buffer_next : Option ℕ → Option ℕ
  buffer_next none = buffer_seek_to_first none
  buffer_next (some i) = if leb (length operations) (i + 1) then none else some (i + 1)

  abbrev pub key_of : Option Operation → Bytes
  key_of none = []
  key_of (some op) = op.key

  abbrev pub value_of : Option Operation → Option Bytes
  value_of none = none
  value_of (some op) = op.value

  abbrev pub deleted : Option Operation → Bool
  deleted none = false
  deleted (some op) = op.is_delete

  -- `operations[position]`, where the iterator is valid
  abbrev pub current : Option ℕ → Option Operation
  current none = none
  current (some i) = get_elem? operations i

  -- `Key`, `Value` and `IsTombstone`, where nil reads as an empty key
  abbrev pub buffer_key : Option ℕ → Bytes
  buffer_key position = key_of (current position)

  abbrev pub buffer_value : Option ℕ → Option Bytes
  buffer_value position = value_of (current position)

  abbrev pub buffer_is_tombstone : Option ℕ → Bool
  buffer_is_tombstone position = deleted (current position)

  abbrev pub has_key_from : Bytes → Option Operation → Bool
  has_key_from target none = true
  has_key_from target (some op) = not (less op.key target)

  -- `Seek`; on an empty list the position stays.
  unfoldable pub buffer_seek : (ℕ → (ℕ → Bool) → ℕ) → Bytes → Option ℕ → Option ℕ
  buffer_seek first_at target position =
      let i = first_at (length operations) (λ i. has_key_from target (get_elem? operations i)) in
      if ltb 0 (length operations)
      then if leb (length operations) i then none else some i
      else position

  -- The iterator as an instance of the interface
  abbrev pub buffer_iterator : (ℕ → (ℕ → Bool) → ℕ) → Iterator (Option ℕ)
  buffer_iterator first_at = record {
    valid = buffer_valid;
    key = buffer_key;
    value = buffer_value;
    seek_to_first = buffer_seek_to_first;
    seek_to_last = buffer_seek_to_last;
    seek = buffer_seek first_at;
    next = buffer_next;
  }

  -- What is left of the operations from the position on
  abbrev left_at : Option ℕ → Pairs
  left_at none = []
  left_at (some i) = shown (drop i operations)

AtLeast-shown :
    (k : Bytes) (ops : List Operation)
    → All (λ y. less y k ≡ false) (map (λ op. op.key) ops)
    → AtLeast k (shown ops)
AtLeast-shown k [] h = tt
AtLeast-shown k (op ∷ ops) (p, h) = (p, AtLeast-shown k ops h)

shown-Rising : (ops : List Operation) → Ascending (map (λ op. op.key) ops) → Rising (shown ops)
shown-Rising [] h = tt
shown-Rising (op ∷ ops) (p, h) = (AtLeast-shown op.key ops p, shown-Rising ops h)

drop-Rising : (i : ℕ) (ops : List Operation) → Rising (shown ops) → Rising (shown (drop i ops))
drop-Rising zero ops h = h
drop-Rising (suc i) [] h = tt
drop-Rising (suc i) (op ∷ ops) (p, h) = drop-Rising i ops h

-- A position is inside, at an operation with the others behind it, or outside.
record Inside (ops : List Operation) (i : ℕ) : Type 0 where
  pub inside : i < length ops
  pub op : Operation
  pub here : get_elem? ops i ≡ some op
  pub behind : drop i ops ≡ op ∷ drop (suc i) ops

Inside-cases :
    (ops : List Operation) (i : ℕ) → Inside ops i ⊎ ((length ops ≤ i) × (drop i ops ≡ []))
Inside-cases [] zero = inr (omega arith, refl)
Inside-cases [] (suc i) = inr (omega arith, refl)
Inside-cases (op ∷ ops) zero =
    inl (record { inside = omega arith; op = op; here = refl; behind = refl })
Inside-cases (op ∷ ops) (suc i) = elim (Inside-cases ops i) [
  | inl h ↦
      inl (record { inside = omega (arith, h.inside); op = h.op; here = h.here; behind = h.behind })
  | inr (l, e) ↦ inr (omega (arith, l), e)
]

not_nil : {A : Type 0} {a : A} {l : List A} → (a ∷ l) ≢ []
not_nil h = absurd (cc)

abbrev head_of : Pairs → Bytes × Option Bytes
head_of [] = ([], none)
head_of (p ∷ r) = p

abbrev tail_of : Pairs → Pairs
tail_of [] = []
tail_of (p ∷ r) = r

next_left :
    (ops : List Operation) (i : ℕ)
    → left_at ops (buffer_next ops (some i)) ≡ shown (drop (suc i) ops)
next_left ops i = elim (Bool-cases (leb (length ops) (i + 1))) [
  | inl t ↦
      rw t (ap shown (sym (drop_all (suc i) ops (omega (arith, leb→le (length ops) (i + 1) t)))))
  | inr t ↦ let e : i + 1 ≡ suc i = omega arith in rw t (ap (λ n. shown (drop n ops)) e)
]

left_at-first : (ops : List Operation) → left_at ops (buffer_seek_to_first ops none) ≡ shown ops
left_at-first [] = refl
left_at-first (op ∷ ops) = rw (lt→ltb 0 (suc (length ops)) (omega arith)) refl

-- A buffer's iterator over operations in the order of their keys does what the interface says.
pub buffer_iterator-Source :
    (operations : List Operation) (first_at : ℕ → (ℕ → Bool) → ℕ)
    → Ascending (map (λ op. op.key) operations)
    → Source (buffer_iterator operations first_at)
buffer_iterator-Source operations first_at ordered = record {
  rest = left_at operations;
  all = λ s. shown operations;
  ended = ended;
  at_pair = at_pair;
  rest-first = λ s. left_at-first operations;
  rising = rising;
}
  where
    ended : (s : Option ℕ) → left_at operations s ≡ [] → buffer_valid operations s ≡ false
    ended none h = refl
    ended (some i) h = elim (Inside-cases operations i) [
      | inl x ↦ absurd (not_nil (sym (ap shown x.behind) ∙ h))
      | inr (l, e) ↦ le→ltb (length operations) i l
    ]

    at_pair :
        (s : Option ℕ) (k : Bytes) (v : Option Bytes) (r : Pairs)
        → left_at operations s ≡ (k, v) ∷ r
        → (buffer_valid operations s ≡ true)
          × (buffer_key operations s ≡ k)
          × (buffer_value operations s ≡ v)
          × (left_at operations (buffer_next operations s) ≡ r)
    at_pair none k v r h = absurd (cc)
    at_pair (some i) k v r h = elim (Inside-cases operations i) [
      | inr (l, e) ↦ absurd (not_nil (sym h ∙ ap shown e))
      | inl x ↦
          let e : (x.op.key, x.op.value) ∷ shown (drop (suc i) operations) ≡ (k, v) ∷ r =
            sym (ap shown x.behind) ∙ h in
          (
            lt→ltb i (length operations) x.inside,
            ap (key_of operations) x.here ∙ ap (λ p. p.0) (ap (λ l. head_of l) e),
            ap (value_of operations) x.here ∙ ap (λ p. p.1) (ap (λ l. head_of l) e),
            next_left operations i ∙ ap tail_of e,
          )
    ]

    rising : (s : Option ℕ) → Rising (left_at operations s)
    rising none = tt
    rising (some i) = drop-Rising i operations (shown-Rising operations ordered)
