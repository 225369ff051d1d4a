-- ===== src/Sstable/BlockTests.antt =====
-- Runs of a small block, with the witness of its theorem.
use kevo.Base.{ℕ, ◌%◌, ◌^◌, [], ◌∷◌, some}
use kevo.Base.{◌≡◌, refl, arith, length}
use kevo.Base.Bytes.{Bytes}
use kevo.Sstable.Block.{Entry, Builder, new_builder, finish}
use kevo.Sstable.BlockReader.{
  Reader, opened, new_reader, block_iterator, block_seek_to_first, block_walk,
}
use kevo.Base.{◌<◌, Option, some, zero, suc, ◌*◌, ◌≤◌, ◌++◌, none, true, false}
use kevo.Base.Compare.{less}
use kevo.Sstable.Block.{full_entry, delta_entry, common_prefix}
use kevo.Sstable.BlockReader.{BlockIterator, decode_current, decode_next}
use kevo.Sstable.BlockSeek.{
  Sought, sought, panicked, stuck, point_at, block_seek, block_seek_to_last,
}
use kevo.Sstable.BlockSkips.{Holds, FirstFrom, block_seek-first_point}
use kevo.Sstable.BlockCodec.{EntryFits}
use kevo.Sstable.BlockRoundTrip.{pairs}
use kevo.Sstable.BlockFinish.{add_all}
use kevo.Sstable.BlockReading.{block_walk-finish}

-- A hash of 64 bits.
abbrev count : Bytes → ℕ
count bytes = length bytes % 2 ^ 64

abbrev apple : Entry
apple = record { key = 97 ∷ 112 ∷ []; value = 1 ∷ [] }

abbrev apron : Entry
apron = record { key = 97 ∷ 112 ∷ 114 ∷ []; value = 2 ∷ 3 ∷ [] }

apple-EntryFits : EntryFits apple
apple-EntryFits = record { key_fits = omega arith; has_key = omega arith; value_fits = omega arith }

apron-EntryFits : EntryFits apron
apron-EntryFits = record { key_fits = omega arith; has_key = omega arith; value_fits = omega arith }

block_walk-finish_example :
    (b : Builder) × (bytes : Bytes) × (r : Reader) × (add_all
        (apple ∷ apron ∷ [])
        (some new_builder)
      ≡ some b)
    × (finish count b ≡ some bytes)
    × (new_reader count bytes ≡ opened r)
    × (block_walk 4 (some (block_seek_to_first (block_iterator r)))
        ≡ some ((apple.key, apple.value) ∷ pairs (apple ∷ apron ∷ [])))
block_walk-finish_example =
    block_walk-finish count (λ bytes. omega arith) apple (apron ∷ []) 4 apple-EntryFits
      (apron-EntryFits, tt) (refl, tt) (omega arith) (omega arith)

-- A block of three entries whose second restart point is the third of them.
abbrev at_key : ℕ → Entry
at_key k = record { key = k ∷ []; value = k * 10 ∷ [] }

abbrev three : Reader
three = record {
  data_bytes = full_entry (at_key 1) ++ (delta_entry (1 ∷ []) (at_key 2) ++ full_entry (at_key 5));
  restart_points = 0 ∷ 18 ∷ [];
  checksum = 0;
}

abbrev fresh : BlockIterator
fresh = record {
  reader = three;
  current_pos = 0;
  current_key = none;
  current_val = none;
  restart_idx = 0;
  initialized = false;
  data_end = 26;
}

abbrev restart_entry : ℕ → Entry
restart_entry zero = at_key 1
restart_entry (suc i) = at_key 5

three-Holds :
    (i : ℕ)
    → i < 2
    → Holds three 26 (point_at three.restart_points i) (restart_entry i).key (restart_entry i).value
unfolding full_entry delta_entry common_prefix
three-Holds zero h = record {
  before_end = omega arith;
  behind_key = _;
  behind_value = _;
  key_taken = _;
  value_taken = _;
  key_read = refl;
  value_read = refl;
}
three-Holds (suc zero) h = record {
  before_end = omega arith;
  behind_key = _;
  behind_value = _;
  key_taken = _;
  value_taken = _;
  key_read = refl;
  value_read = refl;
}
three-Holds (suc (suc i)) h = absurd (omega (arith, h))

three-ascending :
    (i k : ℕ) → i ≤ k → k < 2 → less (restart_entry k).key (restart_entry i).key ≡ false
three-ascending zero zero h l = refl
three-ascending zero (suc k) h l = refl
three-ascending (suc i) zero h l = absurd (omega (arith, h))
three-ascending (suc i) (suc k) h l = refl

three-below : (i : ℕ) → i < 1 → less (restart_entry i).key (2 ∷ []) ≡ true
three-below zero h = refl
three-below (suc i) h = absurd (omega (arith, h))

three-FirstFrom :
    FirstFrom three 26 (2 ∷ []) (λ i. (restart_entry i).key) (λ i. (restart_entry i).value) 1
three-FirstFrom = record {
  in_range = omega arith;
  holds = three-Holds;
  ascending = three-ascending;
  in_front = three-below;
  reached = refl;
}

-- Seek of the key 2, which the block holds, ends at the key 5.
block_seek-first_point_example :
    (it' : BlockIterator) × (block_seek 2 (2 ∷ []) fresh ≡ sought true it')
    × (it'.current_key ≡ some (5 ∷ []))
    × (it'.current_val ≡ some (50 ∷ []))
    × (it'.current_pos ≡ 18)
block_seek-first_point_example =
    block_seek-first_point three 26 (2 ∷ []) (λ i. (restart_entry i).key)
      (λ i. (restart_entry i).value) 1 three-FirstFrom 2 fresh refl refl (omega arith)

-- SeekToLast finds the last entry.
abbrev key_of : Sought → Option Bytes
key_of (sought b it) = it.current_key
key_of panicked = none
key_of stuck = none

last_is_five : key_of (block_seek_to_last 4 fresh) ≡ some (5 ∷ [])
unfolding block_seek_to_last decode_current decode_next full_entry delta_entry common_prefix
last_is_five = refl
