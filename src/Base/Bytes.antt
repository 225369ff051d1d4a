-- ===== src/Base/Bytes.antt =====
-- Little-endian numbers as Go's `encoding/binary` writes them, and CRC-32 as `hash/crc32` computes it.
use Prim.Native.Nat.{bit_xor}
use mathlib.Core.List.{foldl}
use kevo.Base.Lists.{length}
use kevo.Base.Tests.{◌==◌, if◌then◌else◌}
use Prim.Native.Nat.{ℕ, zero, suc, ◌+◌, ◌*◌, ◌/◌, ◌%◌, ◌^◌, ◌<◌}
use mathlib.Core.Path.{◌≡◌, refl, ap}
use mathlib.Core.List.{List, [], ◌∷◌}
use native.Mathlib.Omega.{arith}

abbrev pub Bytes : Type 0
Bytes = List ℕ

-- `binary.LittleEndian.PutUint16`, `PutUint32`, `PutUint64`, for 2, 4 and 8 bytes.
abbrev pub put_le : ℕ → ℕ → Bytes
put_le zero v = []
put_le (suc n) v = (v % 256) ∷ put_le n (v / 256)

-- `binary.LittleEndian.Uint16`, `Uint32`, `Uint64` of a slice of that many bytes.
abbrev pub get_le : Bytes → ℕ
get_le [] = 0
get_le (b ∷ bs) = b + 256 * get_le bs

pub length-put_le : (n v : ℕ) → length (put_le n v) ≡ n
length-put_le zero v = refl
length-put_le (suc n) v = ap suc (length-put_le n (v / 256))

pub get-put_16 : (v : ℕ) → v < 2 ^ 16 → get_le (put_le 2 v) ≡ v
get-put_16 v h = omega arith

pub get-put_32 : (v : ℕ) → v < 2 ^ 32 → get_le (put_le 4 v) ≡ v
get-put_32 v h = omega arith

pub get-put_64 : (v : ℕ) → v < 2 ^ 64 → get_le (put_le 8 v) ≡ v
get-put_64 v h = omega arith

-- CRC-32 (IEEE, reflected), a bit at a time.
crc_bit : ℕ → ℕ
crc_bit c = if c % 2 == 1 then bit_xor (c / 2) 0xEDB88320 else c / 2

crc_byte : ℕ → ℕ → ℕ
unfolding crc_bit
crc_byte c b =
    crc_bit (crc_bit (crc_bit (crc_bit (crc_bit (crc_bit (crc_bit (crc_bit (bit_xor c b))))))))

unfoldable pub checksum_ieee : Bytes → ℕ
unfolding crc_byte
checksum_ieee bytes = bit_xor (foldl crc_byte 0xFFFFFFFF bytes) 0xFFFFFFFF % 2 ^ 32

pub checksum_ieee-lt : (bytes : Bytes) → checksum_ieee bytes < 2 ^ 32
unfolding checksum_ieee
checksum_ieee-lt bytes = omega arith

-- The standard's check value: the digits 1 to 9.
check_value :
    checksum_ieee (0x31 ∷ 0x32 ∷ 0x33 ∷ 0x34 ∷ 0x35 ∷ 0x36 ∷ 0x37 ∷ 0x38 ∷ 0x39 ∷ []) ≡ 0xCBF43926
unfolding checksum_ieee
check_value = refl
