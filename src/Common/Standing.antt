-- ===== src/Common/Standing.antt =====
-- Where findNextUniqueKey of pkg/common/iterator/composite/hierarchical.go leaves an iterator.
use std.Path.{subst}
use kevo.Base.{ℕ, zero, suc, ◌<◌, List, [], ◌∷◌, Option, none, some, true, false, map}
use kevo.Base.{◌≡◌, ◌⊎◌, refl, sym, ap, ◌∙◌, inl, inr, arith, length, Bool-cases}
use kevo.Base.All.{All, All-append}
use kevo.Base.Bytes.{Bytes}
use kevo.Base.Compare.{less}
use kevo.Common.Iterators.{Iterator}
use kevo.Common.Hierarchical.{
  HierarchicalIterator, Best, both, each, settle, advance_past, smallest, at_best, found,
  find_next_unique_key, without_answer,
}
use kevo.Common.Sources.{
  Pairs, concat, find_in, above, drop_to, AtLeast, Rising, drop_to-above, total,
}
use kevo.Common.Choosing.{Source, Chosen, pair_cases, held, smallest-Chosen, newest_value-Chosen}

pub drop_to-none : (r : Pairs) → drop_to none r ≡ r
drop_to-none [] = refl
drop_to-none ((k, v) ∷ r) = refl

concat-above :
    (prev : Option Bytes) (rs : List Pairs)
    → All Rising rs
    → All (λ e. above prev e.0 ≡ true) (concat (map (drop_to prev) rs))
concat-above prev [] h = tt
concat-above prev (r ∷ rs) (p, h) =
    All-append (λ e. above prev e.0 ≡ true) (drop_to prev r) (concat (map (drop_to prev) rs))
      (drop_to-above prev r p) (concat-above prev rs h)

each-cons :
    {S : Type 0} (f : S → Option S) (s s' : S) (ss ss' : List S)
    → f s ≡ some s'
    → each f ss ≡ some ss'
    → each f (s ∷ ss) ≡ some (s' ∷ ss')
each-cons f s s' ss ss' e g = ap (λ o. both o (each f ss)) e ∙ ap (both (some s')) g

module _ {S : Type 0} (it : Iterator S) (source : Source it) where
  pub all_Rising : (ss : List S) → All Rising (map source.rest ss)
  all_Rising [] = tt
  all_Rising (s ∷ ss) = (source.rising s, all_Rising ss)

  advance_past_lem :
      (fuel : ℕ) (prev : Bytes) (s : S) (r : Pairs)
      → source.rest s ≡ r
      → length r < fuel
      → (s' : S) × (advance_past it fuel prev s ≡ some s')
        × (source.rest s' ≡ drop_to (some prev) r)
  unfolding advance_past
  advance_past_lem zero prev s r e h = absurd (omega (arith, h))
  advance_past_lem (suc fuel) prev s [] e h = (s, rw (source.ended s e) refl, e)
  advance_past_lem (suc fuel) prev s ((k, v) ∷ r) e h =
      let (valid, f, g, m) = source.at_pair s k v r e in
      elim (Bool-cases (less prev k)) [
        | inl t ↦ (s, rw (valid, f, t) refl, rw t e)
        | inr t ↦ elim (pair_cases r) [
          | inl q ↦ (
            it.next s,
            rw (valid, f, t, source.ended (it.next s) (m ∙ q)) refl,
            rw (t, q) (m ∙ q),
          )
          | inr (j, w, q, x) ↦
              let (valid', f', g', m') = source.at_pair (it.next s) j w q (m ∙ x) in
              let (s', y, z) = advance_past_lem fuel prev (it.next s) r m (omega (arith, h)) in
              (s', rw (valid, f, t, valid') y, rw t z)
        ]
      ]

  settle_lem :
      (fuel : ℕ) (prev : Option Bytes) (s : S)
      → length (source.rest s) < fuel
      → (s' : S) × (settle it fuel prev s ≡ some s')
        × (source.rest s' ≡ drop_to prev (source.rest s))
  settle_lem fuel none s h = (s, refl, sym (drop_to-none (source.rest s)))
  settle_lem fuel (some prev) s h = advance_past_lem fuel prev s (source.rest s) refl h

  each-settle :
      (fuel : ℕ) (prev : Option Bytes) (ss : List S)
      → total (map source.rest ss) < fuel
      → (ss' : List S) × (each (settle it fuel prev) ss ≡ some ss')
        × (map source.rest ss' ≡ map (drop_to prev) (map source.rest ss))
  each-settle fuel prev [] h = ([], refl, refl)
  each-settle fuel prev (s ∷ ss) h =
      let (s', e, f) = settle_lem fuel prev s (omega (arith, h)) in
      let (ss', g, k) = each-settle fuel prev ss (omega (arith, h)) in
      (
        s' ∷ ss',
        each-cons (settle it fuel prev) s s' ss ss' e g,
        ap (λ r. r ∷ map source.rest ss') f ∙ ap (◌∷◌ (drop_to prev (source.rest s))) k,
      )

  -- Where an iterator stands: at the least of the keys that are left, which lie above `prev`, or at
  -- their end.
  pub record Standing (prev : Option Bytes) (rs : List Pairs) (h : HierarchicalIterator S)
      : Type 0 where
    pub left : map source.rest h.iterators ≡ rs
    pub risen : All (λ e. above prev e.0 ≡ true) (concat rs)
    pub at :
        ((h.valid ≡ false) × (concat rs ≡ []))
        ⊎ ((h.valid ≡ true)
            × (find_in h.key (concat rs) ≡ some h.value)
            × AtLeast h.key (concat rs))

  at_best-Standing :
      (prev : Option Bytes) (h : HierarchicalIterator S) (ss : List S) (best : Option Best)
      → All (λ e. above prev e.0 ≡ true) (held it source ss)
      → Chosen (held it source ss) best
      → Standing prev (map source.rest ss) (at_best it h ss best).1
  at_best-Standing prev h ss none a c = record { left = refl; risen = a; at = inl (refl, c) }
  at_best-Standing prev h ss (some b) a c = record {
    left = refl;
    risen = a;
    at = inr (
      refl,
      subst (λ v. find_in b.key (held it source ss) ≡ some v)
          (sym (newest_value-Chosen it source b.source b ss c)) c.0,
      c.1,
    );
  }

  pub find_next-Standing :
      (steps : ℕ) (prev : Option Bytes) (h : HierarchicalIterator S)
      → total (map source.rest h.iterators) < steps
      → (h' : HierarchicalIterator S) × (without_answer it (find_next_unique_key it steps prev h)
          ≡ some h')
        × Standing prev (map (drop_to prev) (map source.rest h.iterators)) h'
  unfolding find_next_unique_key
  find_next-Standing steps prev h k =
      let (ss, e, f) = each-settle steps prev h.iterators k in
      let a : All (λ e. above prev e.0 ≡ true) (held it source ss) =
        subst (λ rs. All (λ e. above prev e.0 ≡ true) (concat rs)) (sym f)
          (concat-above prev (map source.rest h.iterators) (all_Rising h.iterators)) in
      (
        (at_best it h ss (smallest it ss 0 none)).1,
        ap (λ o. without_answer it (found it h o)) e,
        subst (λ rs. Standing prev rs (at_best it h ss (smallest it ss 0 none)).1) f
            (at_best-Standing prev h ss (smallest it ss 0 none) a
              (smallest-Chosen it source ss 0 [] none refl)),
      )
