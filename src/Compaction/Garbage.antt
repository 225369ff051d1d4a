-- ===== src/Compaction/Garbage.antt =====
-- The garbage collection of pkg/compaction/tombstone.go.
use kevo.Base.{
  ℕ, ◌-◌, ◌≤◌, ◌≡◌, refl, ap, ◌∙◌, arith, inl, inr, Option, none, some, true, false, ◌||◌,
}
use kevo.Base.{ltb, if◌then◌else◌, Bool-cases, ltb→lt, le→ltb}
use kevo.Base.Bytes.{Bytes}
use kevo.Base.Strings.{same}
use kevo.Base.{List, [], ◌∷◌}
use kevo.Compaction.Tombstones.{
  TombstoneTracker, should_keep_tombstone, collect_garbage, unexpired, is_recent, add_tombstone,
  force_preserve_tombstone,
}

unexpired-is_recent :
    (retention now later : ℕ) (o : Option ℕ)
    → now ≤ later
    → is_recent retention later (unexpired retention now o) ≡ is_recent retention later o
unexpired-is_recent retention now later none h = refl
unexpired-is_recent retention now later (some at) h = elim (Bool-cases (ltb retention (now - at))) [
  | inl t ↦
      let old : ltb (later - at) retention ≡ false =
        le→ltb retention (later - at) (omega (arith, ltb→lt retention (now - at) t)) in
      rw (t, old) refl
  | inr t ↦ rw t refl
]

-- What is done to a tracker, with the time.
pub data Event : Type 0 where
  adds : (key : Bytes) (now : ℕ) → Event
  preserves : (key : Bytes) → Event
  collects : (now : ℕ) → Event

abbrev pub apply_event : Event → TombstoneTracker → TombstoneTracker
apply_event (adds key now) t = add_tombstone key now t
apply_event (preserves key) t = force_preserve_tombstone key t
apply_event (collects now) t = collect_garbage now t

-- Events, the last one first, and the same without the collections.
abbrev pub apply_events : List Event → TombstoneTracker → TombstoneTracker
apply_events [] t = t
apply_events (e ∷ earlier) t = apply_event e (apply_events earlier t)

abbrev pub without_collections : List Event → List Event
without_collections [] = []
without_collections (adds key now ∷ earlier) = adds key now ∷ without_collections earlier
without_collections (preserves key ∷ earlier) = preserves key ∷ without_collections earlier
without_collections (collects now ∷ earlier) = without_collections earlier

-- The collections were at times up to `later`.
abbrev pub Until : ℕ → List Event → Type 0
Until later [] = Unit
Until later (adds key now ∷ earlier) = Until later earlier
Until later (preserves key ∷ earlier) = Until later earlier
Until later (collects now ∷ earlier) = (now ≤ later) × Until later earlier

-- Two trackers that answer alike at a time.
record Alike (later : ℕ) (a b : TombstoneTracker) : Type 0 where
  same_retention : a.retention ≡ b.retention
  same_preserved : (key : Bytes) → a.preserve_forever key ≡ b.preserve_forever key
  same_recent :
      (key : Bytes)
      → is_recent a.retention later (a.deletions key)
        ≡ is_recent b.retention later (b.deletions key)

apply_events-Alike :
    (later : ℕ) (es : List Event) (t : TombstoneTracker)
    → Until later es
    → Alike later (apply_events es t) (apply_events (without_collections es) t)
unfolding collect_garbage
apply_events-Alike later [] t u = record {
  same_retention = refl;
  same_preserved = λ key. refl;
  same_recent = λ key. refl;
}
apply_events-Alike later (adds key now ∷ earlier) t u =
    let a = apply_events-Alike later earlier t u in
    record {
      same_retention = a.same_retention;
      same_preserved = a.same_preserved;
      same_recent = λ k. elim (Bool-cases (same key k)) [
        | inl h ↦ rw h (ap (λ r. is_recent r later (some now)) a.same_retention)
        | inr h ↦ rw h (a.same_recent k)
      ];
    }
apply_events-Alike later (preserves key ∷ earlier) t u =
    let a = apply_events-Alike later earlier t u in
    record {
      same_retention = a.same_retention;
      same_preserved = λ k. ap (λ b. same key k || b) (a.same_preserved k);
      same_recent = a.same_recent;
    }
apply_events-Alike later (collects now ∷ earlier) t (le, u) =
    let a = apply_events-Alike later earlier t u in
    let before = apply_events earlier t in
    record {
      same_retention = a.same_retention;
      same_preserved = a.same_preserved;
      same_recent = λ k.
          unexpired-is_recent before.retention now later (before.deletions k) le ∙ a.same_recent k;
    }

-- Collections of garbage change no answer: after any events, ShouldKeepTombstone says at every time
-- that is not before a collection what it would say if there had been none.
pub should_keep_tombstone-collected :
    (key : Bytes) (later : ℕ) (es : List Event) (t : TombstoneTracker)
    → Until later es
    → should_keep_tombstone key later (apply_events es t)
      ≡ should_keep_tombstone key later (apply_events (without_collections es) t)
unfolding should_keep_tombstone
should_keep_tombstone-collected key later es t u =
    let a = apply_events-Alike later es t u in
    let b = apply_events (without_collections es) t in
    ap
      (λ p.
        if p
        then true
        else is_recent (apply_events es t).retention later ((apply_events es t).deletions key))
      (a.same_preserved key)
    ∙ ap (λ r. if b.preserve_forever key then true else r) (a.same_recent key)
