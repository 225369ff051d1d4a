-- ===== src/Compaction/Tombstones.antt =====
-- pkg/compaction/tombstone.go. A time is a number of nanoseconds, and the clock does not go back;
-- the time that a method reads is an argument. A map is a function from keys.
use kevo.Base.{ℕ, ◌-◌, Option, none, some, Bool, true, false, ◌||◌, ltb, leb, if◌then◌else◌}
use kevo.Base.Bytes.{Bytes}
use kevo.Base.Strings.{same}
use kevo.Base.Compare.{less}

pub record TombstoneTracker : Type 0 where
  pub deletions : Bytes → Option ℕ
  pub preserve_forever : Bytes → Bool
  pub retention : ℕ

-- `NewTombstoneTracker`
abbrev pub new_tombstone_tracker : ℕ → TombstoneTracker
new_tombstone_tracker retention_period = record {
  deletions = λ key. none;
  preserve_forever = λ key. false;
  retention = retention_period;
}

-- `AddTombstone`
abbrev pub add_tombstone : Bytes → ℕ → TombstoneTracker → TombstoneTracker
add_tombstone key now t = record t {
  deletions = λ k. if same key k then some now else t.deletions k;
}

-- `ForcePreserveTombstone`
abbrev pub force_preserve_tombstone : Bytes → TombstoneTracker → TombstoneTracker
force_preserve_tombstone key t = record t {
  preserve_forever = λ k. same key k || t.preserve_forever k;
}

abbrev pub is_recent : ℕ → ℕ → Option ℕ → Bool
is_recent retention now none = false
is_recent retention now (some timestamp) = ltb (now - timestamp) retention

-- `ShouldKeepTombstone`
unfoldable pub should_keep_tombstone : Bytes → ℕ → TombstoneTracker → Bool
should_keep_tombstone key now t =
    if t.preserve_forever key then true else is_recent t.retention now (t.deletions key)

abbrev pub unexpired : ℕ → ℕ → Option ℕ → Option ℕ
unexpired retention now none = none
unexpired retention now (some timestamp) =
    if ltb retention (now - timestamp) then none else some timestamp

-- `CollectGarbage`
unfoldable pub collect_garbage : ℕ → TombstoneTracker → TombstoneTracker
collect_garbage now t = record t { deletions = λ key. unexpired t.retention now (t.deletions key) }

-- `TombstoneFilter`, on a key and a value that may be nil
abbrev pub TombstoneFilter : Type 0
TombstoneFilter = Bytes → Option Bytes → Bool

abbrev pub by_level : ℕ → ℕ → Option (Bytes → Bool) → Bytes → Bool
by_level level max_tombstone_level (some should_keep) key = should_keep key
by_level level max_tombstone_level none key = leb level max_tombstone_level

-- `BasicTombstoneFilter.ShouldKeep`, with the method of its tracker if it has one
unfoldable pub basic_filter : ℕ → ℕ → Option (Bytes → Bool) → TombstoneFilter
basic_filter level max_tombstone_level tracker key (some value) = true
basic_filter level max_tombstone_level tracker key none =
    by_level level max_tombstone_level tracker key

abbrev pub within : ℕ → ℕ → Option ℕ → Bool
within retention now none = true
within retention now (some delete_time) = leb (now - delete_time) retention

-- `TimeBasedTombstoneFilter.ShouldKeep`
unfoldable pub time_based_filter : (Bytes → Option ℕ) → ℕ → ℕ → TombstoneFilter
time_based_filter deletion_times now retention key (some value) = true
time_based_filter deletion_times now retention key none = within retention now (deletion_times key)

abbrev pub outside : Option Bytes → Option Bytes → Bytes → Bool
outside none none key = false
outside (some min_key) none key = less key min_key
outside none (some max_key) key = if less key max_key then false else true
outside (some min_key) (some max_key) key =
    less key min_key || (if less key max_key then false else true)

-- `KeyRangeTombstoneFilter.ShouldKeep`
unfoldable pub key_range_filter : Option Bytes → Option Bytes → TombstoneFilter → TombstoneFilter
key_range_filter min_key max_key delegate key (some value) = true
key_range_filter min_key max_key delegate key none =
    if outside min_key max_key key then true else delegate key none
