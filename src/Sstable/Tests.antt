-- ===== src/Sstable/Tests.antt =====
-- Runs of the footer's codec with a simple sum in place of the hash, and the witnesses.
use mathlib.Core.List.{foldl}
use kevo.Base.{ℕ, ◌+◌, ◌%◌, ◌^◌, ◌≡◌, refl, arith, [], ◌∷◌, ◌++◌}
use kevo.Base.Bytes.{Bytes}
use kevo.Sstable.Footer.{Footer, new_footer, footer, refused, too_small, encode, decode}
use kevo.Sstable.FooterCodec.{Fits, decode-encode, Verdict, decode-Verdict}

abbrev sum_of : Bytes → ℕ
sum_of bytes = foldl ◌+◌ 0 bytes % 2 ^ 64

abbrev small : Footer
unfolding new_footer
small = new_footer 1700000000 4096 120 17 0 64 4000 96

small-Fits : Fits small
unfolding new_footer
small-Fits = record {
  version_fits = omega arith;
  timestamp_fits = omega arith;
  index_offset_fits = omega arith;
  index_size_fits = omega arith;
  num_entries_fit = omega arith;
  min_key_offset_fits = omega arith;
  max_key_offset_fits = omega arith;
  bloom_filter_offset_fits = omega arith;
  bloom_filter_size_fits = omega arith;
}

too_small_is_refused : decode sum_of (1 ∷ 2 ∷ []) ≡ refused too_small
unfolding decode
too_small_is_refused = refl

decode-encode_example :
    decode sum_of ((encode sum_of small).0 ++ (7 ∷ [])) ≡ footer (encode sum_of small).1
unfolding new_footer
decode-encode_example =
    decode-encode sum_of (λ bytes. omega arith) small (7 ∷ []) small-Fits refl (omega arith)

decode-Verdict_example :
    Verdict sum_of (encode sum_of small).0 (decode sum_of (encode sum_of small).0)
decode-Verdict_example = decode-Verdict sum_of (encode sum_of small).0
