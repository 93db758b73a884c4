-- ===== src/Wire/Zigzag.antt =====
-- `pb_zigzag_decode` and `pb_field_zigzag` of server/wire.py, on Python's unbounded integers: an
-- operation on the bits of a negative number is that of its infinite two's complement.
pub mod RoundTrip
use sevensins_server.Prelude.{
  ℕ, ◌+◌, ◌-◌, ◌*◌, ◌/◌, ◌%◌, ◌^◌, bit_xor, List, ◌++◌, if◌then◌else◌, ℤ, pos, negsuc, ◌-ℤ◌, ltb_ℤ,
}
use sevensins_server.Wire.Varint.{pb_enc_varint}

-- v << 1
abbrev pub shl_one : ℤ → ℤ
shl_one (pos n) = pos (2 * n)
shl_one (negsuc n) = negsuc (2 * n + 1)

-- v >> k, rounded down
abbrev pub shr : ℤ → ℕ → ℤ
shr (pos n) k = pos (n / 2 ^ k)
shr (negsuc n) k = negsuc (n / 2 ^ k)

-- v ^ w
abbrev pub xor_ℤ : ℤ → ℤ → ℤ
xor_ℤ (pos a) (pos b) = pos (bit_xor a b)
xor_ℤ (pos a) (negsuc b) = negsuc (bit_xor a b)
xor_ℤ (negsuc a) (pos b) = negsuc (bit_xor a b)
xor_ℤ (negsuc a) (negsuc b) = pos (bit_xor a b)

-- v & (2 ** k - 1)
abbrev pub low_bits : ℤ → ℕ → ℕ
low_bits (pos n) k = n % 2 ^ k
low_bits (negsuc n) k = 2 ^ k - 1 - n % 2 ^ k

pub pb_zigzag_decode : ℤ → ℤ
unfolding ◌-ℤ◌
pb_zigzag_decode v = xor_ℤ (shr v 1) (pos 0 -ℤ pos (low_bits v 1))

-- The 32-bit reading of a number, as the first line of `pb_field_zigzag` makes it.
abbrev pub signed32 : ℤ → ℤ
signed32 v = if ltb_ℤ v (pos 0x80000000) then v else v -ℤ pos 0x100000000

pub zigzag32 : ℤ → ℕ
unfolding ◌-ℤ◌
zigzag32 v = low_bits (xor_ℤ (shl_one (signed32 v)) (shr (signed32 v) 31)) 32

unfoldable pub pb_field_zigzag : ℕ → ℤ → List ℕ
pb_field_zigzag fno v = pb_enc_varint (fno * 2 ^ 3) ++ pb_enc_varint (zigzag32 v)
