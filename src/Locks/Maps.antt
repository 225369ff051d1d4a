-- ===== src/Locks/Maps.antt =====
-- Go's maps and sets of strings, as pkg/locks/locks.go uses them: association lists, whose first
-- entry for a key counts, and lists of members.
use kevo.Base.{List, [], ◌∷◌, none, Bool, true, false, ◌||◌, ◌≡◌, refl, ap, ◌∙◌, inl, inr}
use kevo.Base.{if◌then◌else◌, Bool-cases}
use kevo.Base.Bytes.{Bytes}
use kevo.Base.Strings.{same, same-eq, same_refl}
use kevo.Locks.Deadlocks.{lookup}

module _ {ℓ} {A : Type ℓ} where
  -- `m[key] = a`
  abbrev pub assign : Bytes → A → List (Bytes × A) → List (Bytes × A)
  assign key a entries = (key, a) ∷ entries

  -- `delete(m, key)`
  abbrev pub remove : Bytes → List (Bytes × A) → List (Bytes × A)
  remove key [] = []
  remove key ((k, a) ∷ entries) =
      let rest = remove key entries in if same k key then rest else (k, a) ∷ rest

-- `_, ok := s[key]`
abbrev pub is_member : Bytes → List Bytes → Bool
is_member key [] = false
is_member key (k ∷ keys) = same k key || is_member key keys

-- `s[key] = struct{}{}`
abbrev pub insert_member : Bytes → List Bytes → List Bytes
insert_member key keys = if is_member key keys then keys else key ∷ keys

-- `delete(s, key)`
abbrev pub delete_member : Bytes → List Bytes → List Bytes
delete_member key [] = []
delete_member key (k ∷ keys) =
    let rest = delete_member key keys in if same k key then rest else k ∷ rest

-- `len(s) == 0`
abbrev pub is_empty : List Bytes → Bool
is_empty [] = true
is_empty (k ∷ keys) = false

pub lookup-remove_self {ℓ} :
    {A : Type ℓ} (key : Bytes) (entries : List (Bytes × A)) → lookup (remove key entries) key ≡ none
lookup-remove_self key [] = refl
lookup-remove_self key ((k, a) ∷ entries) = elim (Bool-cases (same k key)) [
  | inl t ↦ rw t (lookup-remove_self key entries)
  | inr t ↦ rw (t, t) (lookup-remove_self key entries)
]

pub lookup-remove_other {ℓ} :
    {A : Type ℓ} (key other : Bytes) (entries : List (Bytes × A))
    → same key other ≡ false
    → lookup (remove key entries) other ≡ lookup entries other
lookup-remove_other key other [] h = refl
lookup-remove_other key other ((k, a) ∷ entries) h = elim (Bool-cases (same k key)) [
  | inl t ↦
      let apart : same k other ≡ false = ap (λ x. same x other) (same-eq k key t) ∙ h in
      rw (t, apart) (lookup-remove_other key other entries h)
  | inr t ↦ elim (Bool-cases (same k other)) [
    | inl u ↦ rw (t, u) refl
    | inr u ↦ rw (t, u) (lookup-remove_other key other entries h)
  ]
]

pub is_member-delete_self :
    (key : Bytes) (keys : List Bytes) → is_member key (delete_member key keys) ≡ false
is_member-delete_self key [] = refl
is_member-delete_self key (k ∷ keys) = elim (Bool-cases (same k key)) [
  | inl t ↦ rw t (is_member-delete_self key keys)
  | inr t ↦ rw (t, t) (is_member-delete_self key keys)
]

pub is_member-delete_other :
    (key other : Bytes) (keys : List Bytes)
    → same key other ≡ false
    → is_member other (delete_member key keys) ≡ is_member other keys
is_member-delete_other key other [] h = refl
is_member-delete_other key other (k ∷ keys) h = elim (Bool-cases (same k key)) [
  | inl t ↦
      let apart : same k other ≡ false = ap (λ x. same x other) (same-eq k key t) ∙ h in
      rw (t, apart) (is_member-delete_other key other keys h)
  | inr t ↦ elim (Bool-cases (same k other)) [
    | inl u ↦ rw (t, u) refl
    | inr u ↦ rw (t, u) (is_member-delete_other key other keys h)
  ]
]

pub is_member-insert_self :
    (key : Bytes) (keys : List Bytes) → is_member key (insert_member key keys) ≡ true
is_member-insert_self key keys = elim (Bool-cases (is_member key keys)) [
  | inl t ↦ rw t t
  | inr t ↦ rw (t, same_refl key) refl
]

pub is_member-insert_other :
    (key other : Bytes) (keys : List Bytes)
    → same key other ≡ false
    → is_member other (insert_member key keys) ≡ is_member other keys
is_member-insert_other key other keys h = elim (Bool-cases (is_member key keys)) [
  | inl t ↦ rw t refl
  | inr t ↦ rw (t, h) refl
]

pub is_empty-no_member :
    (key : Bytes) (keys : List Bytes) → is_empty keys ≡ true → is_member key keys ≡ false
is_empty-no_member key [] h = refl
is_empty-no_member key (k ∷ keys) h = absurd (cc)
