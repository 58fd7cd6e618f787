-- ===== src/Sharding/Crc.antt =====
-- `zlib.crc32`, bit by bit: the reflected polynomial 0xedb88320, with all bits of the register
-- inverted before and after.
use Prim.Native.Nat.{bit_xor}
use dflockd_client_py.Base.{
  ℕ, zero, suc, ◌/◌, ◌%◌, ◌≡◌, refl, [], ◌∷◌, Bytes, codes, ◌==◌, if◌then◌else◌,
}

crc_bit : ℕ → ℕ
crc_bit r = if r % 2 == 1 then bit_xor (r / 2) 0xedb88320 else r / 2

crc_bits : ℕ → ℕ → ℕ
unfolding crc_bit
crc_bits zero r = r
crc_bits (suc n) r = crc_bits n (crc_bit r)

crc_from : ℕ → Bytes → ℕ
unfolding crc_bits
crc_from r [] = r
crc_from r (b ∷ bs) = crc_from (crc_bits 8 (bit_xor r b)) bs

unfoldable pub crc32 : Bytes → ℕ
unfolding crc_from
crc32 bs = bit_xor (crc_from 0xffffffff bs) 0xffffffff

-- The check value of CRC-32.
crc32_check : crc32 (codes "123456789") ≡ 0xcbf43926
unfolding crc32
crc32_check = refl
