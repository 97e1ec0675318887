-- ===== src/Segment/Crc.antt =====
-- The checksum that the program takes from hash/crc32, for the runs at concrete inputs.
use go.Prelude.{
  ℕ, zero, suc, ◌/◌, ◌%◌, ◌^◌, ◌≡◌, refl, arith, bit_xor, [], ◌∷◌, ◌==◌, if◌then◌else◌,
}
use go.Wire.{Bytes}
use go.Segment.Replay.{IsChecksum}

-- CRC-32 with the Castagnoli polynomial, a bit at a time.
unfoldable pub crc_bits : ℕ → ℕ → ℕ
crc_bits zero c = c
crc_bits (suc n) c = crc_bits n (if c % 2 == 1 then bit_xor (c / 2) 0x82f63b78 else c / 2)

unfoldable pub crc_bytes : ℕ → Bytes → ℕ
crc_bytes c [] = c
crc_bytes c (b ∷ bs) = crc_bytes (crc_bits 8 (bit_xor c b)) bs

unfoldable pub crc32c : Bytes → ℕ
crc32c bs = bit_xor (crc_bytes 0xffff_ffff bs) 0xffff_ffff % 2 ^ 32

pub crc32c-IsChecksum : IsChecksum crc32c
unfolding crc32c
crc32c-IsChecksum bs = omega arith

-- The check value of CRC-32C, of the digits 1 to 9.
crc32c_check : crc32c (49 ∷ 50 ∷ 51 ∷ 52 ∷ 53 ∷ 54 ∷ 55 ∷ 56 ∷ 57 ∷ []) ≡ 0xe306_9283
unfolding crc32c crc_bytes crc_bits
crc32c_check = refl
