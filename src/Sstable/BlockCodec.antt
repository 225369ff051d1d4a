-- ===== src/Sstable/BlockCodec.antt =====
-- What the iterator of pkg/sstable/block/block_iterator.go decodes of an entry that Finish of
-- block_builder.go wrote.
use kevo.Base.{ℕ, ◌+◌, ◌-◌, ◌%◌, ◌^◌, ◌≤◌, ◌<◌, [], ◌∷◌, ◌++◌, Option, none, some, ◌||◌}
use kevo.Base.{
  ◌≡◌, refl, sym, ap, ◌∙◌, inl, inr, arith, Bool-cases, le→ltb, lt→leb, ==_iff, append_assoc,
}
use kevo.Base.{
  length, take, drop, ltb, leb, ◌==◌, if◌then◌else◌, length-append, take-append, drop-append,
  length-drop,
}
use kevo.Base.Bytes.{Bytes, put_le, get_le, get-put_16, get-put_32}
use kevo.Sstable.Block.{Entry, common_prefix, value_part, full_entry, delta_entry}
use kevo.Sstable.BlockReader.{
  BlockIterator, Part, part, short, panics, full_key, delta_key, value_of, skip, next_value,
  next_pair, next_key,
}

-- Lengths that fit their fields, and a key that is not empty.
pub record EntryFits (e : Entry) : Type 0 where
  pub key_fits : length e.key < 2 ^ 16
  pub has_key : 0 < length e.key
  pub value_fits : length e.value < 2 ^ 32

-- A length and the bytes that it counts.
cut :
    (l k : ℕ) (front tail : Bytes)
    → k ≤ l
    → (if ltb l k || ltb (length (front ++ tail)) (length front)
        then short
        else part
            (take (length front) (front ++ tail))
            (drop (length front) (front ++ tail))
            (k + length front))
      ≡ part front tail (k + length front)
cut l k front tail h =
    rw
      (
        le→ltb k l h,
        le→ltb (length front) (length (front ++ tail)) (omega (arith, length-append front tail)),
        take-append front tail (length front) refl,
        drop-append front tail (length front) refl,
      )
      refl

pub value_of-value_part :
    (value tail : Bytes)
    → length value < 2 ^ 32
    → value_of (value_part value ++ tail) ≡ part value tail (4 + length value)
value_of-value_part value tail h =
    ap
      (λ n.
        if ltb (length (value_part value ++ tail)) 4 || ltb (length (value ++ tail)) n
        then short
        else part (take n (value ++ tail)) (drop n (value ++ tail)) (4 + n))
      (get-put_32 (length value) h)
    ∙ cut (length (value_part value ++ tail)) 4 value tail (omega arith)

pub full_key_lem :
    (key tail : Bytes)
    → length key < 2 ^ 16
    → full_key (put_le 2 (length key) ++ (key ++ tail)) ≡ part key tail (2 + length key)
full_key_lem key tail h =
    ap
      (λ n.
        if ltb (length (put_le 2 (length key) ++ (key ++ tail))) 2 || ltb (length (key ++ tail)) n
        then short
        else part (take n (key ++ tail)) (drop n (key ++ tail)) (2 + n))
      (get-put_16 (length key) h)
    ∙ cut (length (put_le 2 (length key) ++ (key ++ tail))) 2 key tail (omega arith)

-- The common prefix of two keys lies in both.
common_prefix-le :
    (prev key : Bytes)
    → (common_prefix prev key ≤ length prev) × (common_prefix prev key ≤ length key)
unfolding common_prefix
common_prefix-le [] key = (omega arith, omega arith)
common_prefix-le (b ∷ prev) [] = (omega arith, omega arith)
common_prefix-le (b ∷ prev) (c ∷ key) =
    let (p, q) = common_prefix-le prev key in
    elim (Bool-cases (b == c)) [
      | inl t ↦ rw t (omega (arith, p), omega (arith, q))
      | inr t ↦ rw t (omega arith, omega arith)
    ]

common_prefix-key :
    (prev key : Bytes)
    → take (common_prefix prev key) prev ++ drop (common_prefix prev key) key ≡ key
unfolding common_prefix
common_prefix-key [] key = refl
common_prefix-key (b ∷ prev) [] = refl
common_prefix-key (b ∷ prev) (c ∷ key) = elim (Bool-cases (b == c)) [
  | inl t ↦ rw t (
      ap (λ x. x ∷ (take (common_prefix prev key) prev ++ drop (common_prefix prev key) key))
        ((==_iff b c).0 t)
      ∙ ap (◌∷◌ c) (common_prefix-key prev key))
  | inr t ↦ rw t refl
]

abbrev delta_by : Bytes → ℕ → Bytes → ℕ → ℕ → Part
delta_by prev l rest shared unshared =
    if ltb l 4
    then short
    else if ltb (length prev % 2 ^ 16) shared || ltb (length rest) unshared
    then short
    else if leb (2 ^ 16) (shared + unshared)
    then panics
    else part (take shared prev ++ take unshared rest) (drop unshared rest) (4 + unshared)

delta_key_lem :
    (prev key tail : Bytes)
    → length prev < 2 ^ 16
    → length key < 2 ^ 16
    → delta_key prev (
        put_le 2 (common_prefix prev key)
        ++ (put_le 2 (length key - common_prefix prev key)
            ++ (drop (common_prefix prev key) key ++ tail)))
      ≡ part key tail (4 + (length key - common_prefix prev key))
delta_key_lem prev key tail h k =
    let n = common_prefix prev key in
    let u = length key - n in
    let rest = drop n key ++ tail in
    let (p, q) = common_prefix-le prev key in
    ap
      (λ s.
        delta_by prev (length (put_le 2 n ++ (put_le 2 u ++ rest))) rest s (get_le (put_le 2 u)))
      (get-put_16 n (omega (arith, h, p)))
    ∙ ap (delta_by prev (length (put_le 2 n ++ (put_le 2 u ++ rest))) rest n)
        (get-put_16 u (omega (arith, k)))
    ∙ rw
        (
          le→ltb 4 (length (put_le 2 n ++ (put_le 2 u ++ rest))) (omega arith),
          le→ltb n (length prev % 2 ^ 16) (omega (arith, h, p)),
          le→ltb u (length rest)
              (omega (arith, length-append (drop n key) tail, length-drop n key)),
          lt→leb (n + u) (2 ^ 16) (omega (arith, k, q)),
          take-append (drop n key) tail u (sym (length-drop n key)),
          drop-append (drop n key) tail u (sym (length-drop n key)),
          common_prefix-key prev key,
        )
        refl

-- What decodeNext comes to at a restart point and between two of them.
module _ (e : Entry) (tail : Bytes) (fits : EntryFits e) where
  value_step :
      (it : BlockIterator)
      → next_value e.key (value_of (value_part e.value ++ tail)) it
        ≡ some (some (e.key, e.value), skip (4 + length e.value) it)
  value_step it = ap (λ x. next_value e.key x it) (value_of-value_part e.value tail fits.value_fits)

  pub full-decoded :
      (i : ℕ) (current : Option Bytes) (it : BlockIterator)
      → next_pair (next_key (some i) current (full_entry e ++ tail)) it
        ≡ some (some (e.key, e.value), skip (4 + length e.value) (skip (2 + length e.key) it))
  unfolding full_entry
  full-decoded i current it =
      ap (λ x. next_pair (full_key (put_le 2 (length e.key) ++ x)) it)
        (append_assoc e.key (value_part e.value) tail)
      ∙ ap (λ x. next_pair x it) (full_key_lem e.key (value_part e.value ++ tail) fits.key_fits)
      ∙ value_step (skip (2 + length e.key) it)

  pub delta-decoded :
      (prev : Bytes) (it : BlockIterator)
      → length prev < 2 ^ 16
      → next_pair (next_key none (some prev) (delta_entry prev e ++ tail)) it
        ≡ some (
          some (e.key, e.value),
          skip (4 + length e.value) (skip (4 + (length e.key - common_prefix prev e.key)) it),
        )
  unfolding delta_entry
  delta-decoded prev it h =
      let n = common_prefix prev e.key in
      ap (λ x. next_pair (delta_key prev (put_le 2 n ++ (put_le 2 (length e.key - n) ++ x))) it)
        (append_assoc (drop n e.key) (value_part e.value) tail)
      ∙ ap (λ x. next_pair x it)
          (delta_key_lem prev e.key (value_part e.value ++ tail) h fits.key_fits)
      ∙ value_step (skip (4 + (length e.key - n)) it)

pub length-full_entry :
    (e : Entry) → length (full_entry e) ≡ (2 + length e.key) + (4 + length e.value)
unfolding full_entry
length-full_entry e = omega (arith, length-append e.key (value_part e.value))

pub length-delta_entry :
    (prev : Bytes) (e : Entry)
    → length (delta_entry prev e)
      ≡ (4 + (length e.key - common_prefix prev e.key)) + (4 + length e.value)
unfolding delta_entry
length-delta_entry prev e = omega (
  arith,
  length-append (drop (common_prefix prev e.key) e.key) (value_part e.value),
  length-drop (common_prefix prev e.key) e.key,
)
