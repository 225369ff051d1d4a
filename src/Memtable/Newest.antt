-- ===== src/Memtable/Newest.antt =====
-- A skip list of pkg/memtable/skiplist.go as a map from keys to their newest entries.
use kevo.Base.{◌≡◌, refl, sym, ap, ◌∙◌, inl, inr}
use kevo.Base.{
  List, [], ◌∷◌, ◌++◌, Option, none, some, true, false, ltb, lt→ltb, le→ltb, if◌then◌else◌,
  Bool-cases, Option-cases,
}
use std.Path.{subst}
use kevo.Base.Bytes.{Bytes}
use kevo.Base.Compare.{equal, equal-eq, equal_refl}
use kevo.Base.All.{All}
use kevo.Memtable.SkipList.{Entry}
use kevo.Memtable.Entries.{before, before-lt, not-before-le}
use kevo.Memtable.Lookup.{first_with}

-- The newest entry with a key, when `e` comes to those that are there: of equal numbers the later.
abbrev pub newer : Bytes → Entry → Option Entry → Option Entry
newer key e none = if equal e.key key then some e else none
newer key e (some f) =
    if equal e.key key then (if ltb e.seq_num f.seq_num then some f else some e) else some f

-- The newest entry with a key, of a history whose last entry stands first.
abbrev pub newest_of : Bytes → List Entry → Option Entry
newest_of key [] = none
newest_of key (e ∷ earlier) = newer key e (newest_of key earlier)

some_inj : {e f : Entry} → ◌≡◌ {A = Option Entry} (some e) (some f) → e ≡ f
some_inj h = cc

pub first_with-All :
    (P : Entry → Type 0) (key : Bytes) (es : List Entry) (f : Entry)
    → All P es
    → first_with key es ≡ some f
    → P f × (equal f.key key ≡ true)
first_with-All P key [] f h p = absurd (cc)
first_with-All P key (e ∷ es) f (q, h) p = elim (Bool-cases (equal e.key key)) [
  | inl t ↦
      let same : e ≡ f = some_inj (sym (ap (λ b. if b then some e else first_with key es) t) ∙ p) in
      (subst P same q, ap (λ x. equal x.key key) (sym same) ∙ t)
  | inr t ↦
      first_with-All P key es f h (sym (ap (λ b. if b then some e else first_with key es) t) ∙ p)
]

equal_keys :
    (e f : Entry) (key : Bytes)
    → equal e.key key ≡ true
    → equal f.key key ≡ true
    → equal e.key f.key ≡ true
equal_keys e f key h k =
    subst (λ t. equal e.key t ≡ true) (equal-eq e.key key h ∙ sym (equal-eq f.key key k))
      (equal_refl e.key)

first_with-head :
    (key : Bytes) (e : Entry) (high : List Entry)
    → All (λ y. before y e ≡ false) high
    → first_with key (e ∷ high) ≡ newer key e (first_with key high)
first_with-head key e high h = elim (Option-cases (first_with key high)) [
  | inl q ↦ rw q refl
  | inr (f, q) ↦ elim (Bool-cases (equal e.key key)) [
    | inr t ↦ rw (q, t) refl
    | inl t ↦
        let (b, k) = first_with-All (λ y. before y e ≡ false) key high f h q in
        let older : ltb e.seq_num f.seq_num ≡ false =
          le→ltb f.seq_num e.seq_num (not-before-le f e (equal_keys f e key k t) b) in
        rw (q, t, older) refl
  ]
]

pub first_with-insert :
    (key : Bytes) (e : Entry) (low high : List Entry)
    → All (λ x. before x e ≡ true) low
    → All (λ y. before y e ≡ false) high
    → first_with key (low ++ (e ∷ high)) ≡ newer key e (first_with key (low ++ high))
first_with-insert key e [] high l h = first_with-head key e high h
first_with-insert key e (x ∷ low) high (b, l) h = elim (Bool-cases (equal x.key key)) [
  | inr t ↦ rw t (first_with-insert key e low high l h)
  | inl t ↦ elim (Bool-cases (equal e.key key)) [
    | inr u ↦ rw (t, u) refl
    | inl u ↦
        let later : ltb e.seq_num x.seq_num ≡ true =
          lt→ltb e.seq_num x.seq_num (before-lt x e (equal_keys x e key t u) b) in
        rw (t, u, later) refl
  ]
]
