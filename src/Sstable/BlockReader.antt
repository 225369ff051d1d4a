-- ===== src/Sstable/BlockReader.antt =====
-- pkg/sstable/block/block_reader.go and block_iterator.go. The outer `none` of a decoding is a panic.
use kevo.Base.{
  ℕ, zero, suc, ◌+◌, ◌-◌, ◌*◌, ◌%◌, ◌^◌, List, [], ◌∷◌, ◌++◌, Option, none, some, Bool, true, false,
  ◌||◌, not,
}
use kevo.Base.{length, take, drop, slice, ltb, leb, ◌==◌, if◌then◌else◌}
use kevo.Base.Bytes.{Bytes, get_le}
use kevo.Sstable.Block.{block_footer_size}

pub record Reader : Type 0 where
  pub data_bytes : Bytes
  pub restart_points : List ℕ
  pub checksum : ℕ

pub data BlockError : Type 0 where
  too_small checksum_mismatch invalid_restart_offset : BlockError

pub data Opened : Type 0 where
  opened : (r : Reader) → Opened
  refused : (e : BlockError) → Opened

-- The loop over the restart points
unfoldable pub read_points : ℕ → Bytes → List ℕ
read_points zero bytes = []
read_points (suc n) bytes = get_le (take 4 bytes) ∷ read_points n (drop 4 bytes)

-- `NewReader`
unfoldable pub new_reader : (Bytes → ℕ) → Bytes → Opened
new_reader hash bytes =
    let footer_offset = length bytes - block_footer_size in
    let n = get_le (slice bytes footer_offset (footer_offset + 4)) in
    let sum = get_le (drop (footer_offset + 4) bytes) in
    if ltb (length bytes) block_footer_size
    then refused too_small
    else if not (hash (take (length bytes - 8) bytes) == sum)
    then refused checksum_mismatch
    else if ltb footer_offset (n * 4)
    then refused invalid_restart_offset
    else opened (record {
      data_bytes = bytes;
      restart_points = read_points n (drop (footer_offset - n * 4) bytes);
      checksum = sum;
    })

-- A key or a value may be nil.
pub record BlockIterator : Type 0 where
  pub reader : Reader
  pub current_pos : ℕ
  pub current_key : Option Bytes
  pub current_val : Option Bytes
  pub restart_idx : ℕ
  pub initialized : Bool
  pub data_end : ℕ

-- `Reader.Iterator`
unfoldable pub block_iterator : Reader → BlockIterator
block_iterator r = record {
  reader = r;
  current_pos = 0;
  current_key = none;
  current_val = none;
  restart_idx = 0;
  initialized = false;
  data_end = (length r.data_bytes - (block_footer_size + 4 * length r.restart_points)) % 2 ^ 32;
}

-- What is decoded, with the bytes taken: nothing where the bytes are too few, a panic where the key's
-- lengths wrap around.
pub data Part : Type 0 where
  part : (bytes rest : Bytes) (taken : ℕ) → Part
  short panics : Part

abbrev pub full_key : Bytes → Part
full_key bytes =
    let n = get_le (take 2 bytes) in
    let rest = drop 2 bytes in
    if ltb (length bytes) 2 || ltb (length rest) n
    then short
    else part (take n rest) (drop n rest) (2 + n)

abbrev pub delta_key : Bytes → Bytes → Part
delta_key current bytes =
    let shared = get_le (take 2 bytes) in
    let unshared = get_le (take 2 (drop 2 bytes)) in
    let rest = drop 4 bytes in
    if ltb (length bytes) 4
    then short
    else if ltb (length current % 2 ^ 16) shared || ltb (length rest) unshared
    then short
    else if leb (2 ^ 16) (shared + unshared)
    then panics
    else part (take shared current ++ take unshared rest) (drop unshared rest) (4 + unshared)

abbrev pub value_of : Bytes → Part
value_of bytes =
    let n = get_le (take 4 bytes) in
    let rest = drop 4 bytes in
    if ltb (length bytes) 4 || ltb (length rest) n
    then short
    else part (take n rest) (drop n rest) (4 + n)

-- A key and a value, where both are there
abbrev pub Pair : Type 0
Pair = Option (Bytes × Bytes)

abbrev pub skip : ℕ → BlockIterator → BlockIterator
skip n it = record it { current_pos = (it.current_pos + n) % 2 ^ 32 }

-- `decodeNext` behind the key
abbrev pub next_value : Bytes → Part → BlockIterator → Option (Pair × BlockIterator)
next_value key (part value rest n) it = some (some (key, value), skip n it)
next_value key short it = some (none, it)
next_value key panics it = none

abbrev pub next_pair : Part → BlockIterator → Option (Pair × BlockIterator)
next_pair (part key rest n) it = next_value key (value_of rest) (skip n it)
next_pair short it = some (none, it)
next_pair panics it = none

-- The index of a restart point, if an offset is one
unfoldable pub restart_at : ℕ → ℕ → List ℕ → Option ℕ
restart_at i pos [] = none
restart_at i pos (p ∷ ps) =
    let rest = restart_at (i + 1) pos ps in if p == pos then some i else rest

abbrev pub next_key : Option ℕ → Option Bytes → Bytes → Part
next_key (some i) current bytes = full_key bytes
next_key none none bytes = full_key bytes
next_key none (some current) bytes = delta_key current bytes

abbrev pub with_restart_idx : Option ℕ → BlockIterator → BlockIterator
with_restart_idx none it = it
with_restart_idx (some i) it = record it { restart_idx = i }

-- `decodeNext`
unfoldable pub decode_next : BlockIterator → Option (Pair × BlockIterator)
unfolding restart_at
decode_next it =
    let bytes = drop it.current_pos it.reader.data_bytes in
    let restart = restart_at 0 it.current_pos it.reader.restart_points in
    if leb it.data_end it.current_pos
    then some (none, it)
    else next_pair (next_key restart it.current_key bytes) (with_restart_idx restart it)

abbrev pub current_value : Bytes → Part → BlockIterator → Pair × BlockIterator
current_value key (part value rest n) it =
    (some (key, value), record it { current_key = some key; current_val = some value })
current_value key short it = (none, it)
current_value key panics it = (none, it)

abbrev pub current_pair : Part → BlockIterator → Pair × BlockIterator
current_pair (part key rest n) it = current_value key (value_of rest) it
current_pair short it = (none, it)
current_pair panics it = (none, it)

-- `decodeCurrent`
unfoldable pub decode_current : BlockIterator → Pair × BlockIterator
decode_current it =
    let bytes = drop it.current_pos it.reader.data_bytes in
    if leb it.data_end it.current_pos then (none, it) else current_pair (full_key bytes) it

abbrev pub stand_at : Pair × BlockIterator → BlockIterator
stand_at (none, it) = record it { current_key = none; current_val = none }
stand_at (some (key, value), it) = record it { current_key = some key; current_val = some value }

abbrev pub has_points : List ℕ → Bool
has_points [] = false
has_points (p ∷ ps) = true

-- `SeekToFirst`
unfoldable pub block_seek_to_first : BlockIterator → BlockIterator
unfolding decode_current
block_seek_to_first it =
    if has_points it.reader.restart_points
    then stand_at
        (decode_current (record it { current_pos = 0; restart_idx = 0; initialized = true }))
    else record it { current_key = none; current_val = none; initialized = true }

-- `Valid`
abbrev pub is_key : Option Bytes → Bool
is_key none = false
is_key (some []) = false
is_key (some (b ∷ key)) = true

unfoldable pub block_valid : BlockIterator → Bool
block_valid it = is_key it.current_key

abbrev pub moved_to : Option (Pair × BlockIterator) → Option (Bool × BlockIterator)
moved_to none = none
moved_to (some (none, it)) = some (false, stand_at (none, it))
moved_to (some (some pair, it)) = some (true, stand_at (some pair, it))

abbrev pub next_from : Option Bytes → BlockIterator → Option (Bool × BlockIterator)
next_from none it = some (false, it)
next_from (some key) it = moved_to (decode_next it)

-- `Next`
unfoldable pub block_next : BlockIterator → Option (Bool × BlockIterator)
unfolding decode_next block_seek_to_first block_valid
block_next it =
    let first = block_seek_to_first it in
    if it.initialized then next_from it.current_key it else some (block_valid first, first)

abbrev pub and_then :
    Option (List (Bytes × Bytes)) → Option Bytes → Option Bytes → Option (List (Bytes × Bytes))
and_then none key value = none
and_then (some rest) (some key) (some value) = some ((key, value) ∷ rest)
and_then (some rest) none value = some rest
and_then (some rest) (some key) none = some rest

abbrev pub to_state : Option (Bool × BlockIterator) → Option BlockIterator
to_state none = none
to_state (some (b, it)) = some it

-- What a client reads who calls Next as long as the iterator is valid.
unfoldable pub block_walk : ℕ → Option BlockIterator → Option (List (Bytes × Bytes))
unfolding block_next block_valid
block_walk zero it = none
block_walk (suc fuel) none = none
block_walk (suc fuel) (some it) =
    let rest = block_walk fuel (to_state (block_next it)) in
    if block_valid it then and_then rest it.current_key it.current_val else some []
