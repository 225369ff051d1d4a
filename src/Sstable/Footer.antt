-- ===== src/Sstable/Footer.antt =====
-- pkg/sstable/footer/footer.go. The checksum `xxhash.Sum64` is a parameter.
use kevo.Base.{ℕ, [], ◌∷◌, ◌++◌, length, take, slice, leb, ◌==◌, if◌then◌else◌}
use kevo.Base.Bytes.{Bytes, put_le, get_le}

abbrev pub footer_size : ℕ
footer_size = 68

abbrev pub footer_magic : ℕ
footer_magic = 0xFACEFEEDFACEFEED

abbrev pub current_version : ℕ
current_version = 2

-- `timestamp`, an int64, is given by its 64 bits.
pub record Footer : Type 0 where
  pub magic : ℕ
  pub version : ℕ
  pub timestamp : ℕ
  pub index_offset : ℕ
  pub index_size : ℕ
  pub num_entries : ℕ
  pub min_key_offset : ℕ
  pub max_key_offset : ℕ
  pub bloom_filter_offset : ℕ
  pub bloom_filter_size : ℕ
  pub checksum : ℕ

-- `NewFooter`, at the time `now`.
unfoldable pub new_footer :
    (now index_offset index_size num_entries : ℕ)
    → (min_key max_key : ℕ) → (bloom_offset bloom_size : ℕ) → Footer
new_footer now index_offset index_size num_entries min_key max_key bloom_offset bloom_size =
    record {
      magic = footer_magic;
      version = current_version;
      timestamp = now;
      index_offset = index_offset;
      index_size = index_size;
      num_entries = num_entries;
      min_key_offset = min_key;
      max_key_offset = max_key;
      bloom_filter_offset = bloom_offset;
      bloom_filter_size = bloom_size;
      checksum = 0;
    }

-- The first 60 bytes, with their padding.
unfoldable pub body : Footer → Bytes
body f =
    put_le 8 f.magic
    ++ (put_le 4 f.version
        ++ (put_le 8 f.timestamp
            ++ (put_le 8 f.index_offset
                ++ (put_le 4 f.index_size
                    ++ (put_le 4 f.num_entries
                        ++ (put_le 4 f.min_key_offset
                            ++ (put_le 4 f.max_key_offset
                                ++ (put_le 8 f.bloom_filter_offset
                                    ++ (put_le 4 f.bloom_filter_size
                                        ++ (0 ∷ 0 ∷ 0 ∷ 0 ∷ []))))))))))

-- Why a footer is refused.
pub data Refusal : Type 0 where
  too_small invalid_magic checksum_mismatch : Refusal

pub data Decoded : Type 0 where
  footer : (f : Footer) → Decoded
  refused : (why : Refusal) → Decoded

-- The fields that both versions have.
unfoldable pub decode_common : Bytes → Footer
decode_common data' = record {
  magic = get_le (slice data' 0 8);
  version = get_le (slice data' 8 12);
  timestamp = get_le (slice data' 12 20);
  index_offset = get_le (slice data' 20 28);
  index_size = get_le (slice data' 28 32);
  num_entries = get_le (slice data' 32 36);
  min_key_offset = get_le (slice data' 36 40);
  max_key_offset = get_le (slice data' 40 44);
  bloom_filter_offset = 0;
  bloom_filter_size = 0;
  checksum = 0;
}

-- From version 2 on there are the two fields of the Bloom filter, in front of the checksum.
unfoldable pub decode_fields : Bytes → Footer
decode_fields data' =
    let f = decode_common data' in
    if leb 2 f.version
    then record f {
      bloom_filter_offset = get_le (slice data' 44 52);
      bloom_filter_size = get_le (slice data' 52 56);
      checksum = get_le (slice data' 60 68);
    }
    else record f { checksum = get_le (slice data' 44 52) }

-- How many bytes the checksum of a version covers.
abbrev pub covered : ℕ → ℕ
covered version = if leb 2 version then 60 else 44

module _ (sum64 : Bytes → ℕ) where
  -- `Encode`: the bytes, and the footer with its checksum set.
  unfoldable pub encode : Footer → Bytes × Footer
  encode f = let sum = sum64 (body f) in (body f ++ put_le 8 sum, record f { checksum = sum })

  -- `Decode`
  unfoldable pub decode : Bytes → Decoded
  decode data' =
      if leb footer_size (length data')
      then (let f = decode_fields data' in
          if f.magic == footer_magic
          then (if f.checksum == sum64 (take (covered f.version) data')
              then footer f
              else refused checksum_mismatch)
          else refused invalid_magic)
      else refused too_small
