-- ===== src/Common/BoundsTests.antt =====
-- Runs of a bounded iterator over a list of keys, with the witnesses of its theorems.
use kevo.Base.{ℕ, none, some, Bool, true, false, not}
use kevo.Base.{List, [], ◌∷◌, ◌≡◌, refl, ap}
use kevo.Base.All.{select}
use kevo.Base.Bytes.{Bytes}
use kevo.Base.Compare.{less}
use kevo.Common.Iterators.{
  Iterator, BoundedIterator, bounded_seek_to_first, bounded_walk, bounded_seek_to_last,
  bounded_valid,
}
use kevo.Common.Bounds.{Shown, in_range, bounded_walk-in_range, bounded_seek_to_last-invalid}

abbrev key : ℕ → Bytes
key n = n ∷ []

abbrev keys : List Bytes
keys = key 1 ∷ key 3 ∷ key 5 ∷ key 7 ∷ []

abbrev has_keys : List Bytes → Bool
has_keys [] = false
has_keys (k ∷ ks) = true

abbrev first_key : List Bytes → Bytes
first_key [] = []
first_key (k ∷ ks) = k

abbrev rest_of : List Bytes → List Bytes
rest_of [] = []
rest_of (k ∷ ks) = ks

-- An iterator over the keys, which is what is left of them.
abbrev over_keys : Iterator (List Bytes)
over_keys = record {
  valid = has_keys;
  key = first_key;
  value = λ s. none;
  seek_to_first = λ s. keys;
  seek_to_last = λ s. key 7 ∷ [];
  seek = λ target s. select (λ k. not (less k target)) keys;
  next = rest_of;
}

over_keys-Shown : Shown over_keys keys
over_keys-Shown = record {
  rest = λ s. s;
  ended = λ s h. ap has_keys h;
  at_key = λ s k ks h. (ap has_keys h, ap first_key h, ap rest_of h);
  rest-first = λ s. refl;
  rest-seek = λ target s. refl;
  ascending = ((refl, (refl, (refl, tt))), ((refl, (refl, tt)), ((refl, tt), (tt, tt))));
}

between_two_and_seven :
    bounded_walk over_keys 4 (
      bounded_seek_to_first over_keys
        (record { inner = []; start = some (key 2); end = some (key 7) }))
    ≡ key 3 ∷ key 5 ∷ []
unfolding bounded_walk bounded_seek_to_first
between_two_and_seven = refl

bounded_walk-in_range_example :
    bounded_walk over_keys 4 (
      bounded_seek_to_first over_keys
        (record { inner = []; start = some (key 2); end = some (key 7) }))
    ≡ select (in_range (some (key 2)) (some (key 7))) keys
bounded_walk-in_range_example =
    bounded_walk-in_range over_keys keys over_keys-Shown [] (some (key 2)) (some (key 7))

bounded_seek_to_last-invalid_example :
    (b : BoundedIterator (List Bytes)) × (bounded_seek_to_last over_keys 4
        (record { inner = []; start = none; end = some (key 6) })
      ≡ some b)
    × (bounded_valid over_keys b ≡ false)
bounded_seek_to_last-invalid_example =
    bounded_seek_to_last-invalid over_keys keys over_keys-Shown 4 [] none (key 6)
      (refl, (refl, (refl, (refl, tt))))
