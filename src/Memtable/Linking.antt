-- ===== src/Memtable/Linking.antt =====
-- The last loop of Insert in pkg/memtable/skiplist.go, and Insert as a whole.
use kevo.Base.{ℕ, zero, suc, ◌+◌, ◌≤◌, ◌<◌, ◌≡◌, ◌≢◌, refl, sym, ap, ◌∙◌, arith, inl, inr}
use kevo.Base.{
  List, ◌∷◌, ◌++◌, Option, some, Bool, true, false, get_elem?, length-append, ltb, lt→ltb, le→ltb,
  if◌then◌else◌, ◌==◌, ==_iff, ==-ne, Bool-cases,
}
use std.Path.{subst}
use kevo.Base.Compare.{is_lt}
use kevo.Base.All.{
  All, last_from, select-append, select-none, All-select, All-front, All-insert, All-map_pred,
}
use kevo.Memtable.SkipList.{
  Entry, SkipList, head, compare_with_entry, descend, link, link_below, insert, set_at,
  random_height, entry_size,
}
use kevo.Memtable.Entries.{before, Sorted, Sorted-insert}
use kevo.Memtable.Chains.{
  Chain, Distinct, Distinct-select, Distinct-insert, linked, Chain-linked, set_at_self,
  set_at_other,
}
use kevo.Memtable.Descent.{tall, descend_lem}
use kevo.Memtable.Layout.{
  Holds, grown, old_apart, tall-grown, grown-Sorted, grown-heights, random_height_bounds,
}

link-next :
    (node level p : ℕ) (s : SkipList) (l : ℕ)
    → (link node level p s).next l ≡ (if l == level then linked (s.next level) node p else s.next l)
link-next node level p s l = elim (Bool-cases (l == level)) [
  | inl e ↦ rw e (
      ap (λ f. set_at f p (some node))
        (set_at_self s.next level (set_at (s.next level) node (s.next level p))))
  | inr e ↦ rw e refl
]

module _ (node : ℕ) (stop : ℕ → ℕ) (s : SkipList) where
  -- What the loop has made of a level, when it has done `levels` of them.
  abbrev relinked : ℕ → ℕ → ℕ → Option ℕ
  relinked levels l = if ltb l levels then linked (s.next l) node (stop l) else s.next l

  relinked-suc :
      (f : ℕ → ℕ → Option ℕ) (level l : ℕ)
      → ((k : ℕ) → f k ≡ relinked level k)
      → (link node level (stop level) (record s { next = f })).next l ≡ relinked (suc level) l
  relinked-suc f level l h =
      link-next node level (stop level) (record s { next = f }) l ∙ elim (Bool-cases (l == level)) [
        | inl e ↦
            let q : l ≡ level = (==_iff l level).0 e in
            let untouched : f level ≡ s.next level =
              h level
              ∙ ap (λ b. if b then linked (s.next level) node (stop level) else s.next level)
                  (le→ltb level level (omega arith)) in
            rw (e, lt→ltb l (suc level) (omega arith))
              (ap (λ g. linked g node (stop level)) untouched
                ∙ ap (λ k. linked (s.next k) node (stop k)) (sym q))
        | inr e ↦
            let still : ltb l level ≡ ltb l (suc level) = ground (arith, ==-ne l level e) in
            rw e (h l ∙ ap (λ b. if b then linked (s.next l) node (stop l) else s.next l) still)
      ]

  link_below_lem :
      (prev : List ℕ) (levels : ℕ)
      → ((level : ℕ) → level < levels → get_elem? prev level ≡ some (stop level))
      → (f : ℕ → ℕ → Option ℕ) × (link_below node levels prev s ≡ some (record s { next = f }))
        × ((l : ℕ) → f l ≡ relinked levels l)
  unfolding link_below
  link_below_lem prev zero at = (s.next, refl, λ l. rw (le→ltb 0 l (omega arith)) refl)
  link_below_lem prev (suc level) at =
      let (f, e, h) = link_below_lem prev level (λ l lt. at l (omega arith)) in
      (
        (link node level (stop level) (record s { next = f })).next,
        rw (e, at level (omega arith)) refl,
        λ l. relinked-suc f level l h,
      )

module _ (e : Entry) (coins : List Bool) (s : SkipList) (low high : List ℕ)
    (holds : Holds s (low ++ high)) where
  abbrev pub new_height : ℕ
  new_height = random_height coins

  abbrev pub wider : SkipList
  wider = grown e new_height s (low ++ high) holds

  abbrev pub comes_before : ℕ → Bool
  comes_before a = is_lt (compare_with_entry (wider.entry_of a) e)

  -- The node behind which the new one is put, on a level.
  abbrev place : ℕ → ℕ
  place level = last_from head (tall wider level low)

  wider-chains : (level : ℕ) → Chain (wider.next level) head (tall wider level (low ++ high))
  wider-chains level =
      subst (Chain (s.next level) head) (sym (tall-grown e new_height s (low ++ high) holds level))
        (holds.chains level)

  top_is_head : place wider.max_height ≡ head
  top_is_head = ap (last_from head) (
      select-none (λ a. ltb wider.max_height (wider.height a)) low
        (All-map_pred (λ a. (0 < wider.height a) × (wider.height a ≤ wider.max_height))
          (λ a. ltb wider.max_height (wider.height a) ≡ false) low
          (λ a h. le→ltb (wider.height a) wider.max_height h.1)
          (All-front (λ a. (0 < wider.height a) × (wider.height a ≤ wider.max_height)) low high
            (grown-heights e new_height s (low ++ high) holds))))

  below_top : (level : ℕ) → level < new_height → level < wider.max_height
  below_top level lt = ground arith

  abbrev has_level : ℕ → ℕ → Bool
  has_level level a = ltb level (wider.height a)

  node_height : wider.height s.made ≡ new_height
  node_height = set_at_self s.height s.made new_height

  with_node :
      (level : ℕ)
      → ltb level new_height ≡ true
      → tall wider level (low ++ (s.made ∷ high))
        ≡ tall wider level low ++ (s.made ∷ tall wider level high)
  with_node level e =
      select-append (has_level level) low (s.made ∷ high)
      ∙ ap
          (λ b.
            tall wider level low
            ++ (if b then s.made ∷ tall wider level high else tall wider level high))
          (ap (ltb level) node_height ∙ e)

  without_node :
      (level : ℕ)
      → ltb level new_height ≡ false
      → tall wider level (low ++ (s.made ∷ high)) ≡ tall wider level low ++ tall wider level high
  without_node level e =
      select-append (has_level level) low (s.made ∷ high)
      ∙ ap
          (λ b.
            tall wider level low
            ++ (if b then s.made ∷ tall wider level high else tall wider level high))
          (ap (ltb level) node_height ∙ e)

  parted :
      (level : ℕ) → Chain (wider.next level) head (tall wider level low ++ tall wider level high)
  parted level =
      subst (Chain (wider.next level) head) (select-append (has_level level) low high)
        (wider-chains level)

  tall-Distinct : (level : ℕ) → Distinct (head ∷ (tall wider level low ++ tall wider level high))
  tall-Distinct level =
      subst (λ l. Distinct (head ∷ l)) (select-append (has_level level) low high)
        (
          All-select (has_level level) (λ y. y ≢ head) (low ++ high) holds.distinct.0,
          Distinct-select (has_level level) (low ++ high) holds.distinct.1,
        )

  pub apart : All (λ x. x ≢ s.made) (low ++ high)
  apart = old_apart e new_height s (low ++ high) holds

  head_apart : head ≢ s.made
  head_apart p = omega (arith, holds.addresses.0)

  tall-apart :
      (level : ℕ) → All (λ x. x ≢ s.made) (head ∷ (tall wider level low ++ tall wider level high))
  tall-apart level =
      subst (λ l. All (λ x. x ≢ s.made) (head ∷ l)) (select-append (has_level level) low high)
        (head_apart, All-select (has_level level) (λ x. x ≢ s.made) (low ++ high) apart)

  -- What Insert leaves: the new node stands between the two parts.
  pub record Inserted : Type 0 where
    pub result : SkipList
    pub ran : insert e coins s ≡ some result
    pub holds_new : Holds result (low ++ (s.made ∷ high))
    pub old_entries : All (λ a. result.entry_of a ≡ s.entry_of a) (low ++ high)
    pub new_entry : result.entry_of s.made ≡ e
    pub new_size : result.size ≡ s.size + entry_size e

  module _ (low_before : All (λ a. comes_before a ≡ true) low)
      (high_after : All (λ a. comes_before a ≡ false) high) where
    linked-Chain :
        (level : ℕ)
        → Chain
            (relinked s.made place wider new_height level)
            head
            (tall wider level (low ++ (s.made ∷ high)))
    linked-Chain level = elim (Bool-cases (ltb level new_height)) [
      | inl e ↦
          rw (with_node level e, e)
            (Chain-linked (wider.next level) s.made head (tall wider level low)
              (tall wider level high) (parted level) (tall-Distinct level) (tall-apart level))
      | inr e ↦ rw (without_node level e, e) (parted level)
    ]

    node_entry : wider.entry_of s.made ≡ e
    node_entry = set_at_self s.entry_of s.made e

    new-Sorted : Sorted wider.entry_of (low ++ (s.made ∷ high))
    new-Sorted =
        Sorted-insert wider.entry_of s.made low high
          (grown-Sorted e new_height s (low ++ high) holds)
          (subst (λ x. All (λ a. before (wider.entry_of a) x ≡ true) low) (sym node_entry)
            low_before)
          (subst (λ x. All (λ a. before (wider.entry_of a) x ≡ false) high) (sym node_entry)
            high_after)

    new-heights :
        All
          (λ a. (0 < wider.height a) × (wider.height a ≤ wider.max_height))
          (low ++ (s.made ∷ high))
    new-heights =
        All-insert (λ a. (0 < wider.height a) × (wider.height a ≤ wider.max_height)) low high s.made
          (grown-heights e new_height s (low ++ high) holds)
          (subst (λ k. (0 < k) × (k ≤ wider.max_height)) (sym node_height)
            ((random_height_bounds coins).0, ground arith))

    new-addresses : All (λ a. a < s.made + 1) (low ++ (s.made ∷ high))
    new-addresses =
        All-insert (λ a. a < s.made + 1) low high s.made
          (All-map_pred (λ a. a < s.made) (λ a. a < s.made + 1) (low ++ high) (λ a lt. omega arith)
            holds.addresses.1)
          (omega arith)

    -- Insert succeeds, and puts its node between the parts.
    pub insert-Inserted : Inserted
    unfolding insert
    insert-Inserted =
        let (prev, e1, len, at) =
          descend_lem comes_before wider low high wider-chains low_before high_after
            (omega (arith, holds.counted, length-append low high)) wider.max_height in
        let (f, e2, h) =
          link_below_lem s.made place wider prev new_height
            (λ level lt. at level (below_top level lt)) in
        let e1' : descend comes_before wider wider.max_height head ≡ some (prev, place 0) =
          ap (descend comes_before wider wider.max_height) (sym top_is_head) ∙ e1 in
        record {
          result = record wider { next = f; size = s.size + entry_size e };
          ran = rw (e1', e2) refl;
          holds_new = record {
            chains = λ level.
                subst (λ g. Chain g head (tall wider level (low ++ (s.made ∷ high))))
                  (sym (h level)) (linked-Chain level);
            sorted = new-Sorted;
            distinct = (
              All-insert (λ y. y ≢ head) low high s.made holds.distinct.0 (λ p. head_apart (sym p)),
              Distinct-insert s.made low high holds.distinct.1 apart,
            );
            heights = new-heights;
            addresses = (omega (arith, holds.addresses.0), new-addresses);
            counted =
                omega
                  (arith, holds.counted, length-append low high, length-append low (s.made ∷ high));
          };
          old_entries =
              All-map_pred (λ x. x ≢ s.made) (λ a. wider.entry_of a ≡ s.entry_of a) (low ++ high)
                (λ a. set_at_other s.entry_of s.made e a) apart;
          new_entry = set_at_self s.entry_of s.made e;
          new_size = refl;
        }
