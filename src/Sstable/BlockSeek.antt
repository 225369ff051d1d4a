-- ===== src/Sstable/BlockSeek.antt =====
-- Seek and SeekToLast of pkg/sstable/block/block_iterator.go. A loop without fuel is stuck.
use kevo.Base.{ℕ, zero, suc, ◌+◌, ◌-◌, ◌/◌, List, Option, none, some, Bool, true, false}
use kevo.Base.{length, get_elem?, ltb, if◌then◌else◌}
use kevo.Base.Bytes.{Bytes}
use kevo.Base.Compare.{less}
use kevo.Sstable.BlockReader.{
  BlockIterator, Pair, has_points, decode_current, decode_next, stand_at,
}

pub data Sought : Type 0 where
  sought : (b : Bool) (it : BlockIterator) → Sought
  panicked stuck : Sought

-- `it.reader.restartPoints[i]`, for an index in its range
abbrev pub point_at : List ℕ → ℕ → ℕ
point_at points i = elim (get_elem? points i) [ none ↦ 0 | some p ↦ p ]

abbrev pub placed : ℕ → BlockIterator → BlockIterator
placed i it = record it { restart_idx = i; current_pos = point_at it.reader.restart_points i }

-- What the search through the restart points comes to: an index, or a key that is not decoded
pub data Bisected : Type 0 where
  index : (i : ℕ) (it : BlockIterator) → Bisected
  undecoded : (it : BlockIterator) → Bisected
  endless : Bisected

abbrev pub narrowed :
    (ℕ → ℕ → BlockIterator → Bisected) → Bytes → ℕ → ℕ → ℕ → Pair × BlockIterator → Bisected
narrowed search target left right mid (none, it) = undecoded it
narrowed search target left right mid (some (key, value), it) =
    if less key target then search (mid + 1) right it else search left mid it

-- `Seek`: the loop over the restart points
unfoldable pub bisect : ℕ → Bytes → ℕ → ℕ → BlockIterator → Bisected
bisect zero target left right it = endless
bisect (suc fuel) target left right it =
    let mid = (left + right) / 2 in
    let next =
      narrowed (bisect fuel target) target left right mid (decode_current (placed mid it)) in
    if ltb left right then next else index left it

-- `Seek`: the last entry that can be decoded where the scan finds nothing
abbrev pub restored : Pair × BlockIterator → Sought
restored (none, it) = sought false it
restored (some pair, it) = sought true (stand_at (some pair, it))

abbrev pub scanned : (BlockIterator → Sought) → Bytes → ℕ → Option (Pair × BlockIterator) → Sought
scanned scan target pos none = panicked
scanned scan target pos (some (none, it)) =
    restored (decode_current (record it { current_pos = pos }))
scanned scan target pos (some (some (key, value), it)) =
    let rest = scan (stand_at (some (key, value), it)) in
    if less key target then rest else sought true (stand_at (some (key, value), it))

-- `Seek`: the scan behind the restart point
unfoldable pub scan_from : ℕ → Bytes → BlockIterator → Sought
scan_from zero target it = stuck
scan_from (suc fuel) target it =
    scanned (scan_from fuel target) target it.current_pos (decode_next it)

abbrev pub from_point : ℕ → Bytes → Pair × BlockIterator → Sought
from_point fuel target (none, it) = sought false it
from_point fuel target (some (key, value), it) =
    let rest = scan_from fuel target it in
    if less key target then rest else sought true (stand_at (some (key, value), it))

abbrev pub from_index : ℕ → Bytes → Bisected → Sought
from_index fuel target (index i it) =
    from_point fuel target (decode_current (record (placed i it) { initialized = true }))
from_index fuel target (undecoded it) = sought false it
from_index fuel target endless = stuck

-- `Seek`
unfoldable pub block_seek : ℕ → Bytes → BlockIterator → Sought
unfolding bisect scan_from
block_seek fuel target it =
    if has_points it.reader.restart_points
    then from_index fuel target (bisect fuel target 0 (length it.reader.restart_points - 1) it)
    else sought false it

-- `SeekToLast`: the entry in front is kept where nothing is decoded
abbrev pub went_on :
    (BlockIterator → Sought) → BlockIterator → Option (Pair × BlockIterator) → Sought
went_on scan last none = panicked
went_on scan last (some (none, it)) = sought true (record it {
  current_pos = last.current_pos;
  current_key = last.current_key;
  current_val = last.current_val;
})
went_on scan last (some (some pair, it)) = scan (stand_at (some pair, it))

unfoldable pub scan_to_last : ℕ → BlockIterator → Sought
scan_to_last zero it = stuck
scan_to_last (suc fuel) it = went_on (scan_to_last fuel) it (decode_next it)

abbrev pub last_from : ℕ → Pair × BlockIterator → Sought
last_from fuel (none, it) = sought false (stand_at (none, it))
last_from fuel (some pair, it) = scan_to_last fuel (stand_at (some pair, it))

-- `SeekToLast`, with whether it decoded an entry
unfoldable pub block_seek_to_last : ℕ → BlockIterator → Sought
unfolding scan_to_last
block_seek_to_last fuel it =
    if has_points it.reader.restart_points
    then last_from fuel (
        decode_current
          (record (placed (length it.reader.restart_points - 1) it) { initialized = true }))
    else sought false (record it { current_key = none; current_val = none; initialized = true })
