-- ===== src/Bloom/Tests.antt =====
-- Runs of a small filter, with the witnesses of its theorems.
use kevo.Base.{◌≡◌, refl, arith, [], ◌∷◌, some, true, false}
use kevo.Bloom.Filter.{
  BloomFilter, new_bloom_filter, fnv64a, hash, test_bit, has_bits, contains, save, load,
}
use kevo.Bloom.Bits.{AreBytes}
use kevo.Bloom.Membership.{IsValid, add_all, add_all-no_false_negatives}
use kevo.Bloom.Files.{load-save}

-- The hash of "a", from the description of FNV-1a.
fnv_of_a : fnv64a (0x61 ∷ []) ≡ 0xaf63dc4c8601ec8c
unfolding fnv64a
fnv_of_a = refl

-- 20 bits and 3 hash functions.
abbrev small : BloomFilter
small = new_bloom_filter 20 3 2

abbrev used : BloomFilter
used = record {
  bits = 3 ∷ 128 ∷ 255 ∷ [];
  size = 20;
  hash_funcs = 3;
  expected_n = 2;
  insertions = 9;
}

new_filter_is_empty : contains (1 ∷ 2 ∷ []) small ≡ some false
unfolding contains has_bits hash test_bit fnv64a
new_filter_is_empty = refl

used-IsValid : IsValid used
used-IsValid = record {
  size_pos = omega arith;
  room = omega arith;
  are_bytes = unfold AreBytes in (omega arith, (omega arith, (omega arith, tt)));
}

add_all-no_false_negatives_example :
    (bf : BloomFilter) × (add_all ((7 ∷ []) ∷ (1 ∷ 2 ∷ []) ∷ (9 ∷ []) ∷ []) small ≡ some bf)
    × (contains (1 ∷ 2 ∷ []) bf ≡ some true)
add_all-no_false_negatives_example =
    add_all-no_false_negatives 20 3 2 (omega arith) (omega arith) ((7 ∷ []) ∷ []) (1 ∷ 2 ∷ [])
      ((9 ∷ []) ∷ [])

load-save_example : load (save used) ≡ some used
load-save_example = load-save used (record {
  size_fits = omega arith;
  hash_funcs_fit = omega arith;
  expected_n_fits = omega arith;
  insertions_fit = omega arith;
  all_bytes = refl;
})
