-- ===== src/Sstable/FooterCodec.antt =====
-- What Decode of pkg/sstable/footer/footer.go reads and what it refuses.
use kevo.Base.{ℕ, ◌^◌, ◌<◌, ◌≤◌, ◌≡◌, refl, arith, inl, inr}
use kevo.Base.{==-ne, append_assoc, leb→lt, ◌≢◌, ◌++◌, length, take, slice, leb, ◌==◌}
use kevo.Base.{Bool-cases, false, le→leb, leb→le, ==_iff}
use kevo.Base.Bytes.{Bytes, put_le, get_le, get-put_32, get-put_64}
use kevo.Sstable.Footer.{
  Footer, footer_size, footer_magic, body, too_small, invalid_magic, checksum_mismatch, Decoded,
  footer, refused, decode_common, decode_fields, encode, decode,
}

-- Numbers that fit their fields.
pub record Fits (f : Footer) : Type 0 where
  pub version_fits : f.version < 2 ^ 32
  pub timestamp_fits : f.timestamp < 2 ^ 64
  pub index_offset_fits : f.index_offset < 2 ^ 64
  pub index_size_fits : f.index_size < 2 ^ 32
  pub num_entries_fit : f.num_entries < 2 ^ 32
  pub min_key_offset_fits : f.min_key_offset < 2 ^ 32
  pub max_key_offset_fits : f.max_key_offset < 2 ^ 32
  pub bloom_filter_offset_fits : f.bloom_filter_offset < 2 ^ 64
  pub bloom_filter_size_fits : f.bloom_filter_size < 2 ^ 32

decode_common_lem :
    (f : Footer) (rest : Bytes)
    → Fits f
    → f.magic ≡ footer_magic
    → decode_common (body f ++ rest)
      ≡ record f { bloom_filter_offset = 0; bloom_filter_size = 0; checksum = 0 }
unfolding decode_common body
decode_common_lem f rest h m =
    rw
      (
        get-put_64 f.magic (omega (arith, m)),
        get-put_32 f.version h.version_fits,
        get-put_64 f.timestamp h.timestamp_fits,
        get-put_64 f.index_offset h.index_offset_fits,
        get-put_32 f.index_size h.index_size_fits,
        get-put_32 f.num_entries h.num_entries_fit,
        get-put_32 f.min_key_offset h.min_key_offset_fits,
        get-put_32 f.max_key_offset h.max_key_offset_fits,
      )
      refl

module _ (f : Footer) (rest : Bytes) where
  bloom_offset_read :
      f.bloom_filter_offset < 2 ^ 64 → get_le (slice (body f ++ rest) 44 52) ≡ f.bloom_filter_offset
  unfolding body
  bloom_offset_read h = get-put_64 f.bloom_filter_offset h

  bloom_size_read :
      f.bloom_filter_size < 2 ^ 32 → get_le (slice (body f ++ rest) 52 56) ≡ f.bloom_filter_size
  unfolding body
  bloom_size_read h = get-put_32 f.bloom_filter_size h

  body_read : take 60 (body f ++ rest) ≡ body f
  unfolding body
  body_read = refl

sum_read :
    (f : Footer) (sum : ℕ) (rest : Bytes)
    → sum < 2 ^ 64
    → get_le (slice (body f ++ (put_le 8 sum ++ rest)) 60 68) ≡ sum
unfolding body
sum_read f sum rest h = get-put_64 sum h

decode_fields_lem :
    (f : Footer) (sum : ℕ) (rest : Bytes)
    → Fits f
    → f.magic ≡ footer_magic
    → 2 ≤ f.version
    → sum < 2 ^ 64
    → decode_fields (body f ++ (put_le 8 sum ++ rest)) ≡ record f { checksum = sum }
unfolding decode_fields
decode_fields_lem f sum rest h m v s =
    rw
      (
        decode_common_lem f (put_le 8 sum ++ rest) h m,
        le→leb 2 f.version v,
        bloom_offset_read f (put_le 8 sum ++ rest) h.bloom_filter_offset_fits,
        bloom_size_read f (put_le 8 sum ++ rest) h.bloom_filter_size_fits,
        sum_read f sum rest s,
      )
      refl

module _ (sum64 : Bytes → ℕ) where
  module _ (sum64_fits : (bytes : Bytes) → sum64 bytes < 2 ^ 64) where
    -- Decode reads back what Encode wrote of a footer with the right magic number and a version from
    -- 2 on, whose fields fit, also with bytes behind it; the checksum is then the one that Encode set. The
    -- hash fits 64 bits.
    pub decode-encode :
        (f : Footer) (rest : Bytes)
        → Fits f
        → f.magic ≡ footer_magic
        → 2 ≤ f.version
        → decode sum64 ((encode sum64 f).0 ++ rest) ≡ footer (encode sum64 f).1
    unfolding decode encode
    decode-encode f rest h m v =
        let sum = sum64 (body f) in
        let behind = put_le 8 sum ++ rest in
        rw
          (
            append_assoc (body f) (put_le 8 sum) rest,
            le→leb footer_size (length (body f ++ behind)) (unfold body in omega arith),
            decode_fields_lem f sum rest h m v (sum64_fits (body f)),
            (==_iff f.magic footer_magic).1 m,
            le→leb 2 f.version v,
            body_read f behind,
            (==_iff sum sum).1 refl,
          )
          refl

  -- What a slice is answered, and why: the offsets and the lengths are written out. Below version 2
  -- the checksum stands behind the first 44 bytes, from version 2 on behind the first 60.
  pub data Verdict (bytes : Bytes) : Decoded → Type 0 where
    too_short : length bytes < 68 → Verdict bytes (refused too_small)
    no_footer :
        68 ≤ length bytes
        → get_le (slice bytes 0 8) ≢ 0xFACEFEEDFACEFEED
        → Verdict bytes (refused invalid_magic)
    damaged :
        68 ≤ length bytes
        → get_le (slice bytes 0 8) ≡ 0xFACEFEEDFACEFEED
        → 2 ≤ get_le (slice bytes 8 12)
        → get_le (slice bytes 60 68) ≢ sum64 (take 60 bytes)
        → Verdict bytes (refused checksum_mismatch)
    damaged_old :
        68 ≤ length bytes
        → get_le (slice bytes 0 8) ≡ 0xFACEFEEDFACEFEED
        → get_le (slice bytes 8 12) < 2
        → get_le (slice bytes 44 52) ≢ sum64 (take 44 bytes)
        → Verdict bytes (refused checksum_mismatch)
    accepts :
        68 ≤ length bytes
        → get_le (slice bytes 0 8) ≡ 0xFACEFEEDFACEFEED
        → 2 ≤ get_le (slice bytes 8 12)
        → get_le (slice bytes 60 68) ≡ sum64 (take 60 bytes)
        → Verdict bytes (
            footer (record {
              magic = 0xFACEFEEDFACEFEED;
              version = get_le (slice bytes 8 12);
              timestamp = get_le (slice bytes 12 20);
              index_offset = get_le (slice bytes 20 28);
              index_size = get_le (slice bytes 28 32);
              num_entries = get_le (slice bytes 32 36);
              min_key_offset = get_le (slice bytes 36 40);
              max_key_offset = get_le (slice bytes 40 44);
              bloom_filter_offset = get_le (slice bytes 44 52);
              bloom_filter_size = get_le (slice bytes 52 56);
              checksum = sum64 (take 60 bytes);
            }))
    accepts_old :
        68 ≤ length bytes
        → get_le (slice bytes 0 8) ≡ 0xFACEFEEDFACEFEED
        → get_le (slice bytes 8 12) < 2
        → get_le (slice bytes 44 52) ≡ sum64 (take 44 bytes)
        → Verdict bytes (
            footer (record {
              magic = 0xFACEFEEDFACEFEED;
              version = get_le (slice bytes 8 12);
              timestamp = get_le (slice bytes 12 20);
              index_offset = get_le (slice bytes 20 28);
              index_size = get_le (slice bytes 28 32);
              num_entries = get_le (slice bytes 32 36);
              min_key_offset = get_le (slice bytes 36 40);
              max_key_offset = get_le (slice bytes 40 44);
              bloom_filter_offset = 0;
              bloom_filter_size = 0;
              checksum = sum64 (take 44 bytes);
            }))

  checked-Verdict :
      (bytes : Bytes)
      → 68 ≤ length bytes
      → get_le (slice bytes 0 8) ≡ 0xFACEFEEDFACEFEED
      → Verdict bytes (decode sum64 bytes)
  unfolding decode decode_fields decode_common
  checked-Verdict bytes long m = elim (Bool-cases (leb 2 (get_le (slice bytes 8 12)))) [
    | inl v ↦ elim (Bool-cases (get_le (slice bytes 60 68) == sum64 (take 60 bytes))) [
      | inr c ↦ rw (le→leb _ _ long, v, m, v, c) (damaged long m (leb→le _ _ v) (==-ne _ _ c))
      | inl c ↦
          let same_sum = (==_iff _ _).0 c in
          rw (le→leb _ _ long, v, m, v, c, same_sum) (accepts long m (leb→le _ _ v) same_sum)
    ]
    | inr v ↦ elim (Bool-cases (get_le (slice bytes 44 52) == sum64 (take 44 bytes))) [
      | inr c ↦ rw (le→leb _ _ long, v, m, v, c) (damaged_old long m (leb→lt _ _ v) (==-ne _ _ c))
      | inl c ↦
          let same_sum = (==_iff _ _).0 c in
          rw (le→leb _ _ long, v, m, v, c, same_sum) (accepts_old long m (leb→lt _ _ v) same_sum)
    ]
  ]

  unmarked-Verdict :
      (bytes : Bytes)
      → 68 ≤ length bytes
      → (get_le (slice bytes 0 8) == 0xFACEFEEDFACEFEED) ≡ false
      → Verdict bytes (decode sum64 bytes)
  unfolding decode decode_fields decode_common
  unmarked-Verdict bytes long m = elim (Bool-cases (leb 2 (get_le (slice bytes 8 12)))) [
    | inl v ↦ rw (le→leb _ _ long, v, m) (no_footer long (==-ne _ _ m))
    | inr v ↦ rw (le→leb _ _ long, v, m) (no_footer long (==-ne _ _ m))
  ]

  -- On every slice Decode answers one of these. Fewer than 68 bytes: too small, whatever
  -- they hold. From 68 bytes on: another number than the magic one in the first 8 is the error for
  -- that. With the magic number, the checksum of the first 60 bytes has to stand at 60 from version 2
  -- on, and that of the first 44 at 44 below it; else it is the error for the checksum. If it does,
  -- the footer has the fields that stand at their offsets, and no Bloom filter below version 2.
  pub decode-Verdict : (bytes : Bytes) → Verdict bytes (decode sum64 bytes)
  unfolding decode
  decode-Verdict bytes = elim (Bool-cases (leb footer_size (length bytes))) [
    | inr e ↦ rw e (too_short (leb→lt _ _ e))
    | inl e ↦ elim (Bool-cases (get_le (slice bytes 0 8) == 0xFACEFEEDFACEFEED)) [
      | inl m ↦ checked-Verdict bytes (leb→le _ _ e) ((==_iff _ _).0 m)
      | inr m ↦ unmarked-Verdict bytes (leb→le _ _ e) m
    ]
  ]
