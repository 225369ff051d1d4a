-- ===== src/Bloom/Membership.antt =====
-- Contains after Add in pkg/bloom_filter/bloom_filter.go: no false negatives.
use kevo.Base.{ℕ, zero, suc, ◌+◌, ◌*◌, ◌%◌, ◌^◌, ◌<◌, ◌≤◌, ◌≡◌, refl, sym, ap, ◌∙◌, arith}
use kevo.Base.{List, [], ◌∷◌, ◌++◌, Option, none, some, Bool, true, false}
use kevo.Base.{length}
use kevo.Base.Bytes.{Bytes, put_le}
use kevo.Bloom.Filter.{
  BloomFilter, new_bloom_filter, zeros, byte_count, hash, fnv64a, test_bit, add_bits, add, has_bits,
  contains, ◌>>=◌,
}
use kevo.Bloom.Bits.{AreBytes, Grown, set_bit-Grown, Grown-refl, Grown-trans}

-- A test that is followed by more tests, if it is passed.
found_of :
    (t rest : Option Bool)
    → (t >>= λ found. elim found [ true ↦ rest | false ↦ some false ]) ≡ some true
    → t ≡ some true
found_of none rest h = absurd cc
found_of (some true) rest h = refl
found_of (some false) rest h = absurd cc

-- The place of a bit, as `hash` answers it.
abbrev pub place : ℕ → Bytes → ℕ → ℕ
place size key i = fnv64a (key ++ put_le 8 i) % size

module _ (size : ℕ) (key : Bytes) (size_pos : 0 < size) where
  pub hash_lem : (i : ℕ) → hash size key i ≡ some (place size key i)
  unfolding hash
  hash_lem i = ground arith

  pub place-lt : (i : ℕ) → place size key i < size
  place-lt i = omega arith

  has_bits_lem :
      (rounds i : ℕ) (bits : Bytes)
      → has_bits size key (suc rounds) i bits ≡ (
          test_bit (place size key i) bits >>= λ found. elim found [
            | true ↦ has_bits size key rounds (i + 1) bits
            | false ↦ some false
          ])
  unfolding has_bits
  has_bits_lem rounds i bits = rw (hash_lem i) refl

  has_bits-step :
      (rounds i : ℕ) (bits : Bytes)
      → test_bit (place size key i) bits ≡ some true
      → has_bits size key (suc rounds) i bits ≡ has_bits size key rounds (i + 1) bits
  unfolding has_bits
  has_bits-step rounds i bits h = rw (hash_lem i, h) refl

  -- A round that the filter passes finds its bit.
  has_bits-found :
      (rounds i : ℕ) (bits : Bytes)
      → has_bits size key (suc rounds) i bits ≡ some true
      → test_bit (place size key i) bits ≡ some true
  unfolding has_bits
  has_bits-found rounds i bits h =
      found_of _ (has_bits size key rounds (i + 1) bits) (sym (has_bits_lem rounds i bits) ∙ h)

  has_bits-Grown :
      (rounds i : ℕ) {bits bits' : Bytes}
      → Grown bits bits'
      → has_bits size key rounds i bits ≡ some true
      → has_bits size key rounds i bits' ≡ some true
  has_bits-Grown zero i g h = unfold has_bits in refl
  has_bits-Grown (suc rounds) i {bits} {bits'} g h =
      let found = has_bits-found rounds i bits h in
      has_bits-step rounds i bits' (g.keeps (place size key i) found)
      ∙ has_bits-Grown rounds (i + 1) g (sym (has_bits-step rounds i bits found) ∙ h)

  add_bits-Grown :
      (rounds i : ℕ) (bits : Bytes)
      → AreBytes bits
      → size ≤ 8 * length bits
      → (bits' : Bytes) × (add_bits size key rounds i bits ≡ some bits')
        × Grown bits bits'
        × (has_bits size key rounds i bits' ≡ some true)
  unfolding add_bits
  add_bits-Grown zero i bits bytes room =
      (bits, refl, Grown-refl bits bytes, unfold has_bits in refl)
  add_bits-Grown (suc rounds) i bits bytes room =
      let p = place size key i in
      let (next, e, set, g) = set_bit-Grown p bits bytes (omega (arith, place-lt i)) in
      let (last, e', g', h) =
        add_bits-Grown rounds (i + 1) next g.are_bytes (omega (arith, g.same_length)) in
      (
        last,
        rw (hash_lem i, e) e',
        Grown-trans g g',
        has_bits-step rounds i last (g'.keeps p set) ∙ h,
      )

-- A filter that has bits, and room for them.
pub record IsValid (bf : BloomFilter) : Type 0 where
  pub size_pos : 0 < bf.size
  pub room : bf.size ≤ 8 * length bf.bits
  pub are_bytes : AreBytes bf.bits

add-Grown :
    (key : Bytes) (bf : BloomFilter)
    → IsValid bf
    → (bf' : BloomFilter) × (add key bf ≡ some bf')
      × (contains key bf' ≡ some true)
      × ((k : Bytes) → contains k bf ≡ some true → contains k bf' ≡ some true)
      × IsValid bf'
unfolding add contains
add-Grown key bf v =
    let (bits, e, g, h) =
      add_bits-Grown bf.size key v.size_pos bf.hash_funcs 0 bf.bits v.are_bytes v.room in
    (
      record bf { bits = bits; insertions = (bf.insertions + 1) % 2 ^ 64 },
      rw e refl,
      h,
      λ k found. has_bits-Grown bf.size k v.size_pos bf.hash_funcs 0 g found,
      record {
        size_pos = v.size_pos;
        room = omega (arith, g.same_length, v.room);
        are_bytes = g.are_bytes;
      },
    )

-- `Add` for one key after another.
abbrev pub add_all : List Bytes → BloomFilter → Option BloomFilter
add_all [] bf = some bf
add_all (key ∷ keys) bf = add key bf >>= λ bf'. add_all keys bf'

add_all-keeps :
    (keys : List Bytes) (bf : BloomFilter) (k : Bytes)
    → IsValid bf
    → contains k bf ≡ some true
    → (bf' : BloomFilter) × (add_all keys bf ≡ some bf') × (contains k bf' ≡ some true)
add_all-keeps [] bf k v found = (bf, refl, found)
add_all-keeps (key ∷ keys) bf k v found =
    let (bf', e, has_key, keep, v') = add-Grown key bf v in
    let (last, e', found') = add_all-keeps keys bf' k v' (keep k found) in (last, rw e e', found')

add_all-contains :
    (before after : List Bytes) (key : Bytes) (bf : BloomFilter)
    → IsValid bf
    → (bf' : BloomFilter) × (add_all (before ++ (key ∷ after)) bf ≡ some bf')
      × (contains key bf' ≡ some true)
add_all-contains [] after key bf v =
    let (bf', e, has_key, keep, v') = add-Grown key bf v in
    let (last, e', found') = add_all-keeps after bf' key v' has_key in (last, rw e e', found')
add_all-contains (b ∷ before) after key bf v =
    let (bf', e, has_key, keep, v') = add-Grown b bf v in
    let (last, e', found') = add_all-contains before after key bf' v' in (last, rw e e', found')

length-zeros : (n : ℕ) → length (zeros n) ≡ n
length-zeros zero = refl
length-zeros (suc n) = ap suc (length-zeros n)

zeros-AreBytes : (n : ℕ) → AreBytes (zeros n)
unfolding AreBytes
zeros-AreBytes zero = tt
zeros-AreBytes (suc n) = (omega arith, zeros-AreBytes n)

new-IsValid :
    (size hash_funcs expected_n : ℕ)
    → 0 < size
    → size + 7 < 2 ^ 64
    → IsValid (new_bloom_filter size hash_funcs expected_n)
new-IsValid size hash_funcs expected_n pos fits = record {
  size_pos = pos;
  room = omega (arith, length-zeros (byte_count size));
  are_bytes = zeros-AreBytes (byte_count size);
}

-- A new filter with at least one bit, and fewer than 2 ^ 64 - 7, takes every key without a panic,
-- and Contains is then true of each key that was added, whatever was added before and after it.
pub add_all-no_false_negatives :
    (size hash_funcs expected_n : ℕ)
    → 0 < size
    → size + 7 < 2 ^ 64
    → (before : List Bytes) (key : Bytes) (after : List Bytes)
    → (bf : BloomFilter) × (add_all
          (before ++ (key ∷ after))
          (new_bloom_filter size hash_funcs expected_n)
        ≡ some bf)
      × (contains key bf ≡ some true)
add_all-no_false_negatives size hash_funcs expected_n pos fits before key after =
    add_all-contains before after key (new_bloom_filter size hash_funcs expected_n)
      (new-IsValid size hash_funcs expected_n pos fits)
