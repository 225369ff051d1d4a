-- ===== src/Sstable/BlockSkips.antt =====
-- Where Seek of pkg/sstable/block/block_iterator.go ends.
use std.Path.{subst}
use mathlib.Core.Bool.{false≢true}
use kevo.Base.{
  ℕ, zero, suc, ◌+◌, ◌-◌, ◌/◌, ◌≤◌, ◌<◌, List, [], ◌∷◌, none, some, true, false, ◌⊎◌, inl, inr,
}
use kevo.Base.{
  ◌≡◌, refl, sym, ap, ◌∙◌, arith, ltb, drop, length, if◌then◌else◌, Bool-cases, lt→leb, ltb→lt,
  ltb→le,
}
use kevo.Base.Bytes.{Bytes}
use kevo.Base.Compare.{less, less-split}
use kevo.Sstable.BlockReader.{
  Reader, BlockIterator, part, full_key, value_of, current_pair, current_value, decode_current,
  stand_at, has_points,
}
use kevo.Sstable.BlockSeek.{
  sought, point_at, placed, index, bisect, from_point, from_index, block_seek,
}

-- A whole entry stands at an offset in front of the end.
pub record Holds (r : Reader) (end pos : ℕ) (key value : Bytes) : Type 0 where
  pub before_end : pos < end
  pub behind_key : Bytes
  pub behind_value : Bytes
  pub key_taken : ℕ
  pub value_taken : ℕ
  pub key_read : full_key (drop pos r.data_bytes) ≡ part key behind_key key_taken
  pub value_read : value_of behind_key ≡ part value behind_value value_taken

decode_current-Holds :
    (it : BlockIterator) (key value : Bytes)
    → Holds it.reader it.data_end it.current_pos key value
    → decode_current it
      ≡ (some (key, value), record it { current_key = some key; current_val = some value })
unfolding decode_current
decode_current-Holds it key value h =
    ap
      (λ b.
        if b
        then (none, it)
        else current_pair (full_key (drop it.current_pos it.reader.data_bytes)) it)
      (lt→leb it.current_pos it.data_end h.before_end)
    ∙ ap (λ x. current_pair x it) h.key_read
    ∙ ap (λ x. current_value key x it) h.value_read

has_points-some : (ps : List ℕ) → 0 < length ps → has_points ps ≡ true
has_points-some [] h = absurd (omega (arith, h))
has_points-some (p ∷ ps) h = refl

-- Whole entries stand at the restart points, their keys ascend, and `j` is the first one whose key
-- is not below the target.
pub record FirstFrom (r : Reader) (end : ℕ) (target : Bytes) (keys values : ℕ → Bytes) (j : ℕ)
    : Type 0 where
  pub in_range : j < length r.restart_points
  pub holds :
      (i : ℕ)
      → i < length r.restart_points
      → Holds r end (point_at r.restart_points i) (keys i) (values i)
  pub ascending : (i k : ℕ) → i ≤ k → k < length r.restart_points → less (keys k) (keys i) ≡ false
  pub in_front : (i : ℕ) → i < j → less (keys i) target ≡ true
  pub reached : less (keys j) target ≡ false

module _ (r : Reader) (end : ℕ) (target : Bytes) (keys values : ℕ → Bytes) (j : ℕ)
    (first : FirstFrom r end target keys values j) where
  -- The middle lies in front of the point that is sought where its key is below the target.
  side :
      (mid : ℕ)
      → mid < length r.restart_points
      → ((less (keys mid) target ≡ true) × (mid < j))
        ⊎ ((less (keys mid) target ≡ false) × (j ≤ mid))
  side mid h = elim (Bool-cases (less (keys mid) target)) [
    | inl t ↦ elim (Bool-cases (ltb mid j)) [
      | inl u ↦ inl (t, ltb→lt mid j u)
      | inr u ↦ absurd (
          false≢true (
            sym (first.ascending j mid (ltb→le j mid u) h)
            ∙ less-split (keys mid) (keys j) target t first.reached))
    ]
    | inr t ↦ elim (Bool-cases (ltb mid j)) [
      | inl u ↦ absurd (false≢true (sym t ∙ first.in_front mid (ltb→lt mid j u)))
      | inr u ↦ inr (t, ltb→le j mid u)
    ]
  ]

  Holds-in :
      (i : ℕ) (it : BlockIterator)
      → it.reader ≡ r
      → it.data_end ≡ end
      → i < length r.restart_points
      → Holds it.reader it.data_end (point_at it.reader.restart_points i) (keys i) (values i)
  Holds-in i it e f h =
      subst (λ x. Holds x it.data_end (point_at x.restart_points i) (keys i) (values i)) (sym e)
        (subst (λ y. Holds r y (point_at r.restart_points i) (keys i) (values i)) (sym f)
          (first.holds i h))

  bisect_lem :
      (fuel left right : ℕ) (it : BlockIterator)
      → it.reader ≡ r
      → it.data_end ≡ end
      → left ≤ j
      → j ≤ right
      → right < length r.restart_points
      → right < left + fuel
      → (it' : BlockIterator) × (bisect fuel target left right it ≡ index j it')
        × (it'.reader ≡ r)
        × (it'.data_end ≡ end)
  unfolding bisect
  bisect_lem zero left right it e f p q b k = absurd (omega (arith, p, q, k))
  bisect_lem (suc fuel) left right it e f p q b k = elim (Bool-cases (ltb left right)) [
    | inr t ↦ (it, rw t (ap (λ x. index x it) (omega (arith, p, q, ltb→le right left t))), e, f)
    | inl t ↦
        let mid = (left + right) / 2 in
        let apart = ltb→lt left right t in
        let there =
          decode_current-Holds (placed mid it) (keys mid) (values mid)
            (Holds-in mid it e f (omega (arith, apart, b))) in
        let it1 : BlockIterator = record (placed mid it) {
          current_key = some (keys mid);
          current_val = some (values mid);
        } in
        elim (side mid (omega (arith, apart, b))) [
          | inl (u, m) ↦
              let (it', g, x, y) =
                bisect_lem fuel (mid + 1) right it1 e f (omega (arith, m)) q b
                  (omega (arith, k, apart)) in
              (it', rw (t, there, u) g, x, y)
          | inr (u, m) ↦
              let (it', g, x, y) =
                bisect_lem fuel left mid it1 e f p m (omega (arith, apart, b))
                  (omega (arith, k, apart)) in
              (it', rw (t, there, u) g, x, y)
        ]
  ]

  -- Where whole entries stand at the restart points of a block, with ascending keys, and the key of
  -- some restart point is not below the target, Seek ends, answers true, and stands at the first such
  -- restart point: it passes over every entry between that point and the one in front of it, also one
  -- with the target for its key.
  pub block_seek-first_point :
      (fuel : ℕ) (it : BlockIterator)
      → it.reader ≡ r
      → it.data_end ≡ end
      → length r.restart_points ≤ fuel
      → (it' : BlockIterator) × (block_seek fuel target it ≡ sought true it')
        × (it'.current_key ≡ some (keys j))
        × (it'.current_val ≡ some (values j))
        × (it'.current_pos ≡ point_at r.restart_points j)
  unfolding block_seek
  block_seek-first_point fuel it e f k =
      let n = length r.restart_points in
      let h = first.in_range in
      let (it1, g, e', f') =
        bisect_lem fuel 0 (n - 1) it e f (omega arith) (omega (arith, h)) (omega (arith, h))
          (omega (arith, h, k)) in
      let it2 : BlockIterator = record (placed j it1) { initialized = true } in
      let there = decode_current-Holds it2 (keys j) (values j) (Holds-in j it1 e' f' h) in
      let at_index : bisect fuel target 0 (length it.reader.restart_points - 1) it ≡ index j it1 =
        ap (λ x. bisect fuel target 0 (length x.restart_points - 1) it) e ∙ g in
      let it3 : BlockIterator = record it2 {
        current_key = some (keys j);
        current_val = some (values j);
      } in
      let stands : from_point fuel target (some (keys j, values j), it3)
          ≡ sought true (stand_at (some (keys j, values j), it3)) =
        rw first.reached refl in
      (
        stand_at (some (keys j, values j), it3),
        rw
            (ap (λ x. has_points x.restart_points) e
              ∙ has_points-some r.restart_points (omega (arith, h)))
            (ap (from_index fuel target) at_index ∙ ap (from_point fuel target) there ∙ stands),
        refl,
        refl,
        ap (λ x. point_at x.restart_points j) e',
      )
