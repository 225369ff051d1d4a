-- ===== src/Bloom/Files.antt =====
-- A filter's file, and Clear, in pkg/bloom_filter/bloom_filter.go.
use Prim.Native.Nat.{bit_and, bit_and-bitwise}
use kevo.Base.{ℕ, zero, suc, ◌-◌, ◌*◌, ◌/◌, ◌%◌, ◌^◌, ◌<◌, ◌≤◌, ◌≡◌, refl, ap, ◌∙◌, arith}
use kevo.Base.{[], ◌∷◌, ◌++◌, some, false, append-nil}
use kevo.Base.{length, get_elem?, take, drop, take_all}
use kevo.Base.Bytes.{Bytes, put_le, get-put_64}
use kevo.Bloom.Filter.{
  BloomFilter, zeros, byte_count, clear, cleared, save, read_into, load, contains, has_bits,
  test_bit,
}
use kevo.Bloom.Membership.{IsValid, hash_lem, place, place-lt}

read_into_lem : (n : ℕ) (rest : Bytes) → n ≤ length rest → read_into n rest ≡ some (take n rest)
unfolding read_into
read_into_lem zero rest h = refl
read_into_lem (suc n) [] h = absurd (omega arith)
read_into_lem (suc n) (b ∷ rest) h =
    ap (λ k. some (take (suc n) (b ∷ rest) ++ zeros k)) {x = n - length rest} {y = 0} (omega arith)
    ∙ ap some (append-nil _)

-- Numbers that fit their fields, and as many bytes as the bits need.
pub record Fits (bf : BloomFilter) : Type 0 where
  pub size_fits : bf.size < 2 ^ 64
  pub hash_funcs_fit : bf.hash_funcs < 2 ^ 64
  pub expected_n_fits : bf.expected_n < 2 ^ 64
  pub insertions_fit : bf.insertions < 2 ^ 64
  pub all_bytes : length bf.bits ≡ byte_count bf.size

header_of : BloomFilter → Bytes
header_of bf =
    put_le 8 bf.size
    ++ (put_le 8 bf.hash_funcs ++ (put_le 8 bf.expected_n ++ put_le 8 bf.insertions))

save_header : (bf : BloomFilter) → read_into 32 (save bf) ≡ some (header_of bf)
unfolding save header_of
save_header bf = read_into_lem 32 (save bf) (omega arith)

save_bits :
    (bf : BloomFilter) → Fits bf → read_into (byte_count bf.size) (drop 32 (save bf)) ≡ some bf.bits
unfolding save
save_bits bf f =
    read_into_lem (byte_count bf.size) bf.bits (omega (arith, f.all_bytes))
    ∙ ap some (take_all (byte_count bf.size) bf.bits (omega (arith, f.all_bytes)))

-- LoadBloomFilter reads back every filter that SaveToFile wrote, its bits and its four numbers, if
-- the numbers fit 64 bits and there are as many bytes as the size needs; a Read fills its buffer where
-- the file holds that many bytes.
pub load-save : (bf : BloomFilter) → Fits bf → load (save bf) ≡ some bf
unfolding load header_of
load-save bf f =
    rw
      (
        save_header bf,
        get-put_64 bf.size f.size_fits,
        get-put_64 bf.hash_funcs f.hash_funcs_fit,
        get-put_64 bf.expected_n f.expected_n_fits,
        get-put_64 bf.insertions f.insertions_fit,
        save_bits bf f,
      )
      refl

-- A byte of a cleared slice.
get_elem?-cleared : (i : ℕ) (bits : Bytes) → i < length bits → get_elem? (cleared bits) i ≡ some 0
get_elem?-cleared i [] h = absurd (omega arith)
get_elem?-cleared zero (b ∷ bs) h = refl
get_elem?-cleared (suc i) (b ∷ bs) h = get_elem?-cleared i bs (omega arith)

zero-bit_and : (mask : ℕ) → bit_and 0 mask ≡ 0
zero-bit_and mask = bit_and-bitwise 0 mask

test_bit-cleared :
    (position : ℕ) (bits : Bytes)
    → position < 8 * length bits
    → test_bit position (cleared bits) ≡ some false
unfolding test_bit
test_bit-cleared position bits h =
    rw (get_elem?-cleared (position / 8) bits (omega arith), zero-bit_and (2 ^ (position % 8))) refl

has_bits-cleared :
    (bf : BloomFilter) (key : Bytes) (rounds : ℕ)
    → IsValid bf
    → 0 < rounds
    → has_bits bf.size key rounds 0 (cleared bf.bits) ≡ some false
unfolding has_bits
has_bits-cleared bf key zero v h = absurd (omega arith)
has_bits-cleared bf key (suc rounds) v h =
    rw
      (
        hash_lem bf.size key v.size_pos 0,
        test_bit-cleared (place bf.size key 0) bf.bits
            (omega (arith, place-lt bf.size key v.size_pos 0, v.room)),
      )
      refl

-- After Clear, a filter with at least one hash function contains no key, and it has no insertions.
pub contains-clear :
    (bf : BloomFilter) (key : Bytes)
    → IsValid bf
    → 0 < bf.hash_funcs
    → (contains key (clear bf) ≡ some false) × ((clear bf).insertions ≡ 0)
unfolding contains clear
contains-clear bf key v h = (has_bits-cleared bf key bf.hash_funcs v h, refl)
