-- ===== src/Memtable/Views.antt =====
-- What a skip list and a table of pkg/memtable show after a history of writes.
use kevo.Base.{ℕ, ◌+◌, ◌≡◌, ◌≢◌, refl, sym, ap, ◌∙◌, inl, inr, map}
use kevo.Base.{List, [], ◌∷◌, ◌++◌, some, Bool, true, false, Bool-cases}
use std.Path.{subst}
use mathlib.Core.Bool.{false≢true}
use mathlib.Core.List.{map-append, Perm, perm_middle}
use mathlib.Core.List.Perm
use kevo.Base.Bytes.{Bytes}
use kevo.Base.Compare.{is_lt}
use kevo.Base.All.{All, All-zip, All-map, All-front, All-back, map_congr}
use kevo.Memtable.SkipList.{
  Entry, SkipList, compare_with_entry, insert, entry_size, new_skip_list, random_height, set_at,
}
use kevo.Memtable.Entries.{before, before-split, Split, Split-Sorted}
use kevo.Memtable.Chains.{set_at_other}
use kevo.Memtable.Layout.{Holds, entries, new-Holds, grown-Sorted}
use kevo.Memtable.Linking.{Inserted, insert-Inserted, comes_before, apart}
use kevo.Memtable.Lookup.{first_with}
use kevo.Memtable.Newest.{newer, newest_of, first_with-insert}

abbrev pub total_size : List Entry → ℕ
total_size [] = 0
total_size (e ∷ es) = total_size es + entry_size e

-- A well-formed list with the newest entries of a history, whose last entry stands first.
pub record Shows (s : SkipList) (history : List Entry) : Type 0 where
  pub order : List ℕ
  pub holds : Holds s order
  pub first : (key : Bytes) → first_with key (entries s order) ≡ newest_of key history
  pub sized : s.size ≡ total_size history
  pub permuted : Perm (entries s order) history

pub new-Shows : Shows new_skip_list []
new-Shows = record {
  order = [];
  holds = new-Holds;
  first = λ key. refl;
  sized = refl;
  permuted = Perm.refl [];
}

module _ (e : Entry) (coins : List Bool) (s : SkipList) (low high : List ℕ)
    (holds : Holds s (low ++ high))
    (low_before : All (λ a. comes_before e coins s low high holds a ≡ true) low)
    (high_after : All (λ a. comes_before e coins s low high holds a ≡ false) high) where
  abbrev inserted : Inserted e coins s low high holds
  inserted = insert-Inserted e coins s low high holds low_before high_after

  -- The tests of the search, on the entries as they were.
  was :
      (b : Bool) (xs : List ℕ)
      → All (λ a. a ≢ s.made) xs
      → All (λ a. comes_before e coins s low high holds a ≡ b) xs
      → All (λ x. before x e ≡ b) (map s.entry_of xs)
  was b xs h k =
      All-map (λ x. before x e ≡ b) s.entry_of xs
        (All-zip (λ a. a ≢ s.made) (λ a. comes_before e coins s low high holds a ≡ b)
          (λ a. before (s.entry_of a) e ≡ b) xs
          (λ a n q. ap (λ x. before x e) (sym (set_at_other s.entry_of s.made e a n)) ∙ q) h k)

  abbrev left : List Entry
  left = map s.entry_of low

  abbrev right : List Entry
  right = map s.entry_of high

  inserted-entries : entries inserted.result (low ++ (s.made ∷ high)) ≡ left ++ (e ∷ right)
  inserted-entries =
      let f = inserted.result.entry_of in
      let old = inserted.old_entries in
      map-append f low (s.made ∷ high)
      ∙ ap (λ xs. xs ++ (f s.made ∷ map f high))
          (map_congr f s.entry_of low (All-front (λ a. f a ≡ s.entry_of a) low high old))
      ∙ ap (λ xs. left ++ (f s.made ∷ xs))
          (map_congr f s.entry_of high (All-back (λ a. f a ≡ s.entry_of a) low high old))
      ∙ ap (λ x. left ++ (x ∷ right)) inserted.new_entry

  inserted-first :
      (key : Bytes)
      → first_with key (entries inserted.result (low ++ (s.made ∷ high)))
        ≡ newer key e (first_with key (entries s (low ++ high)))
  inserted-first key =
      let all = apart e coins s low high holds in
      ap (first_with key) inserted-entries
      ∙ first_with-insert key e left right
          (was true low (All-front (λ a. a ≢ s.made) low high all) low_before)
          (was false high (All-back (λ a. a ≢ s.made) low high all) high_after)
      ∙ ap (λ es. newer key e (first_with key es)) (sym (map-append s.entry_of low high))

-- Insert succeeds on every well-formed list, whatever its coins show.
pub insert-Shows :
    (e : Entry) (coins : List Bool) (s : SkipList) (history : List Entry)
    → Shows s history
    → (s' : SkipList) × (insert e coins s ≡ some s') × Shows s' (e ∷ history)
insert-Shows e coins s history v = go sp.low sp.high sp.parts sp.low_before sp.high_after
  where
    f : ℕ → Entry
    f = set_at s.entry_of s.made e

    test : ℕ → Bool
    test a = is_lt (compare_with_entry (f a) e)

    respects : (x y : ℕ) → test x ≡ false → before (f y) (f x) ≡ false → test y ≡ false
    respects x y h b = elim (Bool-cases (test y)) [
      | inr t ↦ t
      | inl t ↦ absurd (false≢true (sym b ∙ before-split (f y) (f x) e t h))
    ]

    sp : Split test v.order
    sp =
        Split-Sorted f test v.order respects
          (grown-Sorted e (random_height coins) s v.order v.holds)

    go :
        (low high : List ℕ)
        → v.order ≡ low ++ high
        → All (λ a. test a ≡ true) low
        → All (λ a. test a ≡ false) high
        → (s' : SkipList) × (insert e coins s ≡ some s') × Shows s' (e ∷ history)
    go low high parts l h =
        let holds : Holds s (low ++ high) = subst (Holds s) parts v.holds in
        let i = inserted e coins s low high holds l h in
        (
          i.result,
          i.ran,
          record {
            order = low ++ (s.made ∷ high);
            holds = i.holds_new;
            first = λ key.
                inserted-first e coins s low high holds l h key
                ∙ ap (newer key e)
                    (ap (λ o. first_with key (entries s o)) (sym parts) ∙ v.first key);
            permuted =
                subst (λ es. Perm es (e ∷ history))
                  (sym (inserted-entries e coins s low high holds l h))
                  (Perm.trans (perm_middle (map s.entry_of low) (map s.entry_of high)) (
                    Perm.cons e (
                      subst (λ es. Perm es history)
                        (ap (entries s) parts ∙ map-append s.entry_of low high) v.permuted)));
            sized = i.new_size ∙ ap (λ n. n + entry_size e) v.sized;
          },
        )
