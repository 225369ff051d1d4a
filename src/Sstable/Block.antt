-- ===== src/Sstable/Block.antt =====
-- pkg/sstable/block/block_builder.go and types.go. The checksum `xxhash.Sum64` is a parameter; a
-- bytes.Buffer takes every write.
use kevo.Base.{
  ℕ, suc, ◌+◌, ◌-◌, ◌*◌, ◌%◌, ◌^◌, List, [], ◌∷◌, ◌++◌, Option, none, some, Bool, true, false, ◌||◌,
}
use kevo.Base.{length, drop, leb, ◌==◌, if◌then◌else◌}
use kevo.Base.Bytes.{Bytes, put_le}
use kevo.Base.Compare.{less, equal}

abbrev pub restart_interval : ℕ
restart_interval = 16

abbrev pub block_footer_size : ℕ
block_footer_size = 12

pub record Entry : Type 0 where
  pub key : Bytes
  pub value : Bytes

pub record Builder : Type 0 where
  pub entries : List Entry
  pub restart_points : List ℕ
  pub restart_count : ℕ
  pub current_size : ℕ
  pub last_key : Bytes
  pub restart_idx : ℕ

-- `NewBuilder`, and what `Reset` leaves
abbrev pub new_builder : Builder
new_builder = record {
  entries = [];
  restart_points = [];
  restart_count = 0;
  current_size = 0;
  last_key = [];
  restart_idx = 0;
}

abbrev pub is_empty : List Entry → Bool
is_empty [] = true
is_empty (e ∷ es) = false

-- `Add`: the restart point
abbrev pub with_restart : Builder → Builder
with_restart b =
    if (b.restart_idx == 0) || leb restart_interval b.restart_idx
    then record b { restart_points = b.restart_points ++ (b.current_size ∷ []); restart_idx = 1 }
    else record b { restart_idx = b.restart_idx + 1 }

-- `Add`; `none` refuses a key that is not greater than the last one.
unfoldable pub add : Bytes → Bytes → Builder → Option Builder
add key value b =
    let b' = with_restart b in
    if is_empty b.entries || less b.last_key key
    then some (record b' {
      entries = b.entries ++ (record { key = key; value = value } ∷ []);
      current_size = (b.current_size + (length key + length value + 8) % 2 ^ 32) % 2 ^ 32;
      last_key = key;
    })
    else none

-- `Reset`
unfoldable pub reset_builder : Builder → Builder
reset_builder b = new_builder

-- `EstimatedSize`
unfoldable pub estimated_size : Builder → ℕ
estimated_size b =
    if is_empty b.entries
    then 0
    else (b.current_size + (length b.restart_points * 4) % 2 ^ 32 + block_footer_size) % 2 ^ 32

-- `Finish`: the last one of neighbours with one key, `e` in front
unfoldable pub unique_from : Entry → List Entry → List Entry
unique_from e [] = e ∷ []
unique_from e (f ∷ es) = let rest = unique_from f es in if equal f.key e.key then rest else e ∷ rest

abbrev pub unique : List Entry → List Entry
unique [] = []
unique (e ∷ es) = unique_from e es

-- How long the keys agree
unfoldable pub common_prefix : Bytes → Bytes → ℕ
common_prefix [] key = 0
common_prefix (b ∷ prev) [] = 0
common_prefix (b ∷ prev) (c ∷ key) = if b == c then suc (common_prefix prev key) else 0

-- The value behind the key
abbrev pub value_part : Bytes → Bytes
value_part value = put_le 4 (length value) ++ value

-- A restart point holds the whole key.
unfoldable pub full_entry : Entry → Bytes
full_entry e = put_le 2 (length e.key) ++ (e.key ++ value_part e.value)

unfoldable pub delta_entry : Bytes → Entry → Bytes
delta_entry prev e =
    let n = common_prefix prev e.key in
    put_le 2 n ++ (put_le 2 (length e.key - n) ++ (drop n e.key ++ value_part e.value))

-- What the loop of `Finish` has written, with the restart points.
pub record Written : Type 0 where
  pub buffer : Bytes
  pub points : List ℕ

-- The loop over the entries behind the first; `none` is the error where the number of unshared
-- bytes does not fit its field.
unfoldable pub write_entries : ℕ → Bytes → List Entry → Written → Option Written
write_entries offset prev [] w = some w
write_entries offset prev (e ∷ es) w =
    let n = common_prefix prev e.key in
    let at_restart = write_entries 1 e.key es (record {
      buffer = w.buffer ++ full_entry e;
      points = w.points ++ (length w.buffer % 2 ^ 32 ∷ []);
    }) in
    let at_delta =
      write_entries (offset + 1) e.key es (record w { buffer = w.buffer ++ delta_entry prev e }) in
    if leb restart_interval offset
    then at_restart
    else if (length e.key - n) % 2 ^ 16 == length e.key - n
    then at_delta
    else none

abbrev pub write_all_entries : List Entry → Option Written
write_all_entries [] = none
write_all_entries (e ∷ es) =
    write_entries 1 e.key es (record { buffer = full_entry e; points = 0 ∷ [] })

abbrev pub points_part : List ℕ → Bytes
points_part [] = []
points_part (p ∷ ps) = put_le 4 p ++ points_part ps

-- The restart points, their number and the checksum, behind the entries
unfoldable pub closed : (Bytes → ℕ) → Written → Bytes
closed hash w =
    let body = w.buffer ++ (points_part w.points ++ put_le 4 (length w.points)) in
    body ++ put_le 8 (hash body)

abbrev pub finished : (Bytes → ℕ) → Option Written → Option Bytes
finished hash none = none
finished hash (some w) = some (closed hash w)

-- The bytes that `Finish` hands to its writer; `none` is an error. What it also leaves in b.entries
-- (the entries without duplicates) and in b.restartPoints is not kept, so a builder that has finished
-- is not used again, and the checksum that it returns is the last 8 of the bytes.
unfoldable pub finish : (Bytes → ℕ) → Builder → Option Bytes
finish hash b = finished hash (write_all_entries (unique b.entries))
