-- ===== src/Compaction/Tests.antt =====
-- Runs of a tombstone tracker, with the witness of its theorem.
use kevo.Base.{◌≡◌, refl, arith, List, [], ◌∷◌, none, some, true, false}
use kevo.Base.Bytes.{Bytes}
use kevo.Compaction.Tombstones.{
  new_tombstone_tracker, should_keep_tombstone, collect_garbage, key_range_filter,
}
use kevo.Compaction.Garbage.{
  Event, adds, collects, apply_events, without_collections, should_keep_tombstone-collected,
}

abbrev key : Bytes
key = 107 ∷ []

abbrev events : List Event
events = collects 25 ∷ adds key 20 ∷ collects 15 ∷ adds key 1 ∷ []

kept_for_ten : should_keep_tombstone key 29 (apply_events events (new_tombstone_tracker 10)) ≡ true
unfolding should_keep_tombstone collect_garbage
kept_for_ten = refl

dropped_after_ten :
    should_keep_tombstone key 30 (apply_events events (new_tombstone_tracker 10)) ≡ false
unfolding should_keep_tombstone collect_garbage
dropped_after_ten = refl

kept_outside : key_range_filter (some (108 ∷ [])) none (λ k v. false) key none ≡ true
unfolding key_range_filter
kept_outside = refl

should_keep_tombstone-collected_example :
    should_keep_tombstone key 29 (apply_events events (new_tombstone_tracker 10))
    ≡ should_keep_tombstone key 29
        (apply_events (without_collections events) (new_tombstone_tracker 10))
should_keep_tombstone-collected_example =
    should_keep_tombstone-collected key 29 events (new_tombstone_tracker 10)
      (omega arith, (omega arith, tt))
