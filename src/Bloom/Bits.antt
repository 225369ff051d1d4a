-- ===== src/Bloom/Bits.antt =====
-- One bit of a byte slice: what setBit does to what testBit sees.
use Prim.Native.Nat.{bit_and, bit_or}
use kevo.Base.{ℕ, zero, suc, ◌*◌, ◌/◌, ◌%◌, ◌^◌, ◌<◌, ◌≡◌, refl, ap, ◌∙◌, arith}
use kevo.Base.{[], ◌∷◌, Option, some, Bool, true, false, not, ◌&&◌, ◌||◌}
use kevo.Base.{length, get_elem?, ltb, ◌==◌, ltb→lt}
use kevo.Base.Bytes.{Bytes}
use kevo.Bloom.Filter.{or_at, set_bit, test_bit, ◌>>=◌}

-- A test that holds of every number below a bound, and what a run of it shows.
abbrev each_below : (ℕ → Bool) → ℕ → Bool
each_below test zero = true
each_below test (suc n) = each_below test n && test n

each_below-holds : (test : ℕ → Bool) (n i : ℕ) → each_below test n ≡ true → i < n → test i ≡ true
each_below-holds test zero i run h = absurd (omega arith)
each_below-holds test (suc n) i run h = ground (arith, each_below-holds test n i)

-- `byte & (1 << o) != 0`
abbrev has : ℕ → ℕ → Bool
has o byte = not (bit_and byte (2 ^ o) == 0)

-- A byte after `byte |= 1 << o`: it has the bit, is still a byte, and keeps bit `p`.
abbrev sets_well : ℕ → ℕ → ℕ → Bool
sets_well byte o p =
    let byte' = bit_or byte (2 ^ o) in
    has o byte' && ltb byte' 256 && (not (has p byte) || has p byte')

table : each_below (λ byte. each_below (λ o. each_below (sets_well byte o) 8) 8) 256 ≡ true
table = refl

sets_well-true : (byte o p : ℕ) → byte < 256 → o < 8 → p < 8 → sets_well byte o p ≡ true
sets_well-true byte o p hb ho hp =
    let row =
      each_below-holds (λ b. each_below (λ o. each_below (sets_well b o) 8) 8) 256 byte table hb in
    let cell = each_below-holds (λ o. each_below (sets_well byte o) 8) 8 o row ho in
    each_below-holds (sets_well byte o) 8 p cell hp

three_parts :
    (x y z w : Bool)
    → x && y && (not z || w) ≡ true
    → (x ≡ true) × (y ≡ true) × ((z ≡ true) → w ≡ true)
three_parts true true true true h = (refl, refl, λ e. refl)
three_parts true true true false h = absurd cc
three_parts true true false w h = (refl, refl, λ e. absurd cc)
three_parts true false z w h = absurd cc
three_parts false y z w h = absurd cc

or_byte :
    (byte o p : ℕ)
    → byte < 256
    → o < 8
    → p < 8
    → (has o (bit_or byte (2 ^ o)) ≡ true)
      × (bit_or byte (2 ^ o) < 256)
      × ((has p byte ≡ true) → has p (bit_or byte (2 ^ o)) ≡ true)
or_byte byte o p hb ho hp =
    let byte' = bit_or byte (2 ^ o) in
    let (set, lt, keep) =
      three_parts (has o byte') (ltb byte' 256) (has p byte) (has p byte')
        (sets_well-true byte o p hb ho hp) in
    (set, ltb→lt byte' 256 lt, keep)

unfoldable pub AreBytes : Bytes → Type 0
AreBytes [] = Unit {0}
AreBytes (b ∷ bs) = (b < 256) × AreBytes bs

-- Bit `o` of byte `i`.
abbrev bit_at : ℕ → ℕ → Bytes → Option Bool
bit_at i o bits = get_elem? bits i >>= λ b. some (has o b)

-- A slice of as many bytes that has every bit of another.
record Keeps (bits bits' : Bytes) : Type 0 where
  same_length : length bits' ≡ length bits
  are_bytes : AreBytes bits'
  keeps : (i o : ℕ) → o < 8 → bit_at i o bits ≡ some true → bit_at i o bits' ≡ some true

some_inj : {a b : Bool} → ◌≡◌ {A = Option Bool} (some a) (some b) → a ≡ b
some_inj h = cc

-- A slice keeps its bits if its first byte and its rest do.
keeps_head :
    (b b' : ℕ) (bs : Bytes)
    → ((o : ℕ) → o < 8 → has o b ≡ true → has o b' ≡ true)
    → (i o : ℕ) → o < 8
    → bit_at i o (b ∷ bs) ≡ some true
    → bit_at i o (b' ∷ bs) ≡ some true
keeps_head b b' bs keep zero o ho h = ap some (keep o ho (some_inj h))
keeps_head b b' bs keep (suc i) o ho h = h

keeps_tail :
    (b : ℕ) (bs bs' : Bytes)
    → ((i o : ℕ) → o < 8 → bit_at i o bs ≡ some true → bit_at i o bs' ≡ some true)
    → (i o : ℕ) → o < 8
    → bit_at i o (b ∷ bs) ≡ some true
    → bit_at i o (b ∷ bs') ≡ some true
keeps_tail b bs bs' keep zero o ho h = h
keeps_tail b bs bs' keep (suc i) o ho h = keep i o ho h

-- What `bits[i] |= 1 << o` does to bit `o` of byte `i`, and to the others.
or_at-Keeps :
    (o i : ℕ) (bits : Bytes)
    → o < 8
    → AreBytes bits
    → i < length bits
    → (bits' : Bytes) × (or_at i (2 ^ o) bits ≡ some bits')
      × (bit_at i o bits' ≡ some true)
      × Keeps bits bits'
unfolding AreBytes
or_at-Keeps o i [] ho bytes hi = absurd (omega arith)
or_at-Keeps o zero (b ∷ bs) ho (hb, bytes) hi =
    let (set, lt, keep) = or_byte b o o hb ho ho in
    (
      bit_or b (2 ^ o) ∷ bs,
      refl,
      ap some set,
      record {
        same_length = refl;
        are_bytes = (lt, bytes);
        keeps = keeps_head b _ bs (λ p hp. (or_byte b o p hb ho hp).2);
      },
    )
or_at-Keeps o (suc i) (b ∷ bs) ho (hb, bytes) hi =
    let (bs', e, set, k) = or_at-Keeps o i bs ho bytes (omega arith) in
    (
      b ∷ bs',
      rw e refl,
      set,
      record {
        same_length = ap suc k.same_length;
        are_bytes = (hb, k.are_bytes);
        keeps = keeps_tail b bs bs' k.keeps;
      },
    )

-- A slice of as many bytes in which testBit still finds every bit that it found before.
pub record Grown (bits bits' : Bytes) : Type 0 where
  pub same_length : length bits' ≡ length bits
  pub are_bytes : AreBytes bits'
  pub keeps :
      (position : ℕ) → test_bit position bits ≡ some true → test_bit position bits' ≡ some true

pub set_bit-Grown :
    (position : ℕ) (bits : Bytes)
    → AreBytes bits
    → position < 8 * length bits
    → (bits' : Bytes) × (set_bit position bits ≡ some bits')
      × (test_bit position bits' ≡ some true)
      × Grown bits bits'
unfolding set_bit test_bit
set_bit-Grown position bits bytes h =
    let (bits', e, set, k) =
      or_at-Keeps (position % 8) (position / 8) bits (omega arith) bytes (omega arith) in
    (
      bits',
      e,
      set,
      record {
        same_length = k.same_length;
        are_bytes = k.are_bytes;
        keeps = λ p. k.keeps (p / 8) (p % 8) (omega arith);
      },
    )

pub Grown-refl : (bits : Bytes) → AreBytes bits → Grown bits bits
Grown-refl bits bytes = record { same_length = refl; are_bytes = bytes; keeps = λ p h. h }

pub Grown-trans :
    {bits bits' bits'' : Bytes} → Grown bits bits' → Grown bits' bits'' → Grown bits bits''
Grown-trans g g' = record {
  same_length = g'.same_length ∙ g.same_length;
  are_bytes = g'.are_bytes;
  keeps = λ p h. g'.keeps p (g.keeps p h);
}
