-- ===== src/Bloom/Filter.antt =====
-- pkg/bloom_filter/bloom_filter.go. `none` is a Go panic: an index out of range, or a remainder by
-- zero.
use Prim.Native.Nat.{bit_and, bit_or, bit_xor}
use mathlib.Core.List.{foldl}
use kevo.Base.{ℕ, zero, suc, ◌+◌, ◌-◌, ◌*◌, ◌/◌, ◌%◌, ◌^◌, [], ◌∷◌, ◌++◌, Option, none, some, map}
use kevo.Base.{Bool, true, false, not, length, take, drop, slice, get_elem?, ◌==◌, if◌then◌else◌}
use kevo.Base.Bytes.{Bytes, put_le, get_le}

infixl 5 ◌>>=◌
abbrev pub ◌>>=◌ {ℓ κ} : {A : Type ℓ} {B : Type κ} → Option A → (A → Option B) → Option B
o >>= next = elim o [ none ↦ none | some found ↦ next found ]

pub record BloomFilter : Type 0 where
  pub bits : Bytes
  pub size : ℕ
  pub hash_funcs : ℕ
  pub expected_n : ℕ
  pub insertions : ℕ

abbrev pub zeros : ℕ → Bytes
zeros zero = []
zeros (suc n) = 0 ∷ zeros n

-- How many bytes hold that many bits, as a uint64 computes it.
abbrev pub byte_count : ℕ → ℕ
byte_count size = (size + 7) % 2 ^ 64 / 8

-- `NewBloomFilter`, behind the two formulas in floating point that give the size and the number of
-- hash functions.
abbrev pub new_bloom_filter : ℕ → ℕ → ℕ → BloomFilter
new_bloom_filter size hash_funcs expected_n = record {
  bits = zeros (byte_count size);
  size = size;
  hash_funcs = hash_funcs;
  expected_n = expected_n;
  insertions = 0;
}

-- FNV-1a with 64 bits, as `hash/fnv` computes it.
unfoldable pub fnv64a : Bytes → ℕ
fnv64a bytes = foldl (λ h b. bit_xor h b * 1099511628211 % 2 ^ 64) 14695981039346656037 bytes

-- `hash`
unfoldable pub hash : ℕ → Bytes → ℕ → Option ℕ
hash size key i = if size == 0 then none else some (fnv64a (key ++ put_le 8 i) % size)

-- `bits[i] |= mask`
abbrev pub or_at : ℕ → ℕ → Bytes → Option Bytes
or_at i mask [] = none
or_at zero mask (b ∷ bs) = some (bit_or b mask ∷ bs)
or_at (suc i) mask (b ∷ bs) = or_at i mask bs >>= λ bs'. some (b ∷ bs')

-- `setBit`
unfoldable pub set_bit : ℕ → Bytes → Option Bytes
set_bit position bits = or_at (position / 8) (2 ^ (position % 8)) bits

-- `testBit`
unfoldable pub test_bit : ℕ → Bytes → Option Bool
test_bit position bits =
    get_elem? bits (position / 8) >>= λ b. some (not (bit_and b (2 ^ (position % 8)) == 0))

-- The loop of `Add` from round `i` on, with that many rounds left.
unfoldable pub add_bits : ℕ → Bytes → ℕ → ℕ → Bytes → Option Bytes
add_bits size key zero i bits = some bits
add_bits size key (suc rounds) i bits = do
  position ← hash size key i
  bits' ← set_bit position bits
  add_bits size key rounds (i + 1) bits'

-- `Add`
unfoldable pub add : Bytes → BloomFilter → Option BloomFilter
add key bf = do
  bits ← add_bits bf.size key bf.hash_funcs 0 bf.bits
  some (record bf { bits = bits; insertions = (bf.insertions + 1) % 2 ^ 64 })

-- The loop of `Contains` from round `i` on, with that many rounds left.
unfoldable pub has_bits : ℕ → Bytes → ℕ → ℕ → Bytes → Option Bool
has_bits size key zero i bits = some true
has_bits size key (suc rounds) i bits = do
  position ← hash size key i
  found ← test_bit position bits
  elim found [ true ↦ has_bits size key rounds (i + 1) bits | false ↦ some false ]

-- `Contains`
unfoldable pub contains : Bytes → BloomFilter → Option Bool
contains key bf = has_bits bf.size key bf.hash_funcs 0 bf.bits

-- The loop of `Clear`.
abbrev pub cleared : Bytes → Bytes
cleared bits = map (λ b. 0) bits

-- `Clear`
unfoldable pub clear : BloomFilter → BloomFilter
clear bf = record bf { bits = cleared bf.bits; insertions = 0 }

-- `SaveToFile`: the bytes of the file.
unfoldable pub save : BloomFilter → Bytes
save bf =
    put_le 8 bf.size
    ++ (put_le 8 bf.hash_funcs ++ (put_le 8 bf.expected_n ++ (put_le 8 bf.insertions ++ bf.bits)))

-- `file.Read` into a fresh buffer of `n` bytes: the end of the file is an error, and a shorter
-- rest fills the front of the buffer. One `Read` is taken to give all the bytes that the file holds,
-- up to `n`; the code does not look at their count.
unfoldable pub read_into : ℕ → Bytes → Option Bytes
read_into zero rest = some []
read_into (suc n) [] = none
read_into (suc n) (b ∷ rest) = some (take (suc n) (b ∷ rest) ++ zeros (n - length rest))

-- `LoadBloomFilter`; `none` is its error.
unfoldable pub load : Bytes → Option BloomFilter
load file = do
  header ← read_into 32 file
  let size = get_le (slice header 0 8)
  bits ← read_into (byte_count size) (drop 32 file)
  some (record {
    bits = bits;
    size = size;
    hash_funcs = get_le (slice header 8 16);
    expected_n = get_le (slice header 16 24);
    insertions = get_le (slice header 24 32);
  })
