-- ===== src/Wire/Zigzag/RoundTrip.antt =====
-- Reading a zigzag number after writing it.
use sevensins_server.Prelude.{
  ℕ, ◌+◌, ◌*◌, ◌/◌, ◌%◌, ◌^◌, ◌<◌, ◌≡◌, ℤ, pos, negsuc, ◌-ℤ◌, ◌<ℤ◌, ◌≤ℤ◌, arith,
}
use sevensins_server.Prelude.Bits.{bit_xor-zero}
use sevensins_server.Wire.Zigzag.{
  shl_one, shr, xor_ℤ, low_bits, pb_zigzag_decode, signed32, zigzag32,
}

decode_even : (n : ℕ) → pb_zigzag_decode (pos (2 * n)) ≡ pos n
unfolding pb_zigzag_decode
decode_even n =
    let half : 2 * n / 2 ^ 1 ≡ n = omega arith in
    let low : 2 * n % 2 ^ 1 ≡ 0 = omega arith in rw (half, low, bit_xor-zero)

decode_odd : (n : ℕ) → pb_zigzag_decode (pos (2 * n + 1)) ≡ negsuc n
unfolding pb_zigzag_decode
decode_odd n =
    let half : (2 * n + 1) / 2 ^ 1 ≡ n = omega arith in
    let low : (2 * n + 1) % 2 ^ 1 ≡ 1 = omega arith in rw (half, low, bit_xor-zero)

abbrev encode : ℤ → ℕ
encode w = low_bits (xor_ℤ (shl_one w) (shr w 31)) 32

-- A number of 32 bits with its sign survives the two passes.
decode-encode :
    (w : ℤ) → negsuc 0x7fffffff ≤ℤ w → w <ℤ pos 0x80000000 → pb_zigzag_decode (pos (encode w)) ≡ w
decode-encode (pos n) lo hi =
    let top : n / 2 ^ 31 ≡ 0 = omega arith in
    let fits : 2 * n % 2 ^ 32 ≡ 2 * n = omega arith in rw (top, bit_xor-zero, fits) (decode_even n)
decode-encode (negsuc n) lo hi =
    let top : n / 2 ^ 31 ≡ 0 = omega arith in
    let fits : (2 * n + 1) % 2 ^ 32 ≡ 2 * n + 1 = omega arith in
    rw (top, bit_xor-zero, fits) (decode_odd n)

signed32_range :
    (v : ℤ)
    → negsuc 0x7fffffff ≤ℤ v
    → v <ℤ pos 0x100000000
    → (negsuc 0x7fffffff ≤ℤ signed32 v) × (signed32 v <ℤ pos 0x80000000)
unfolding ◌-ℤ◌
signed32_range v lo hi = ground arith

-- A number from -2^31 to 2^32 - 1 is read back as the signed 32-bit number with its bits.
pub pb_zigzag_decode-zigzag32 :
    (v : ℤ)
    → negsuc 0x7fffffff ≤ℤ v
    → v <ℤ pos 0x100000000
    → pb_zigzag_decode (pos (zigzag32 v)) ≡ signed32 v
unfolding zigzag32
pb_zigzag_decode-zigzag32 v lo hi =
    decode-encode (signed32 v) (signed32_range v lo hi).0 (signed32_range v lo hi).1

-- Masked to 32 bits, the signed reading of a 32-bit number is that number.
pub low_bits-signed32 : (n : ℕ) → n < 0x100000000 → low_bits (signed32 (pos n)) 32 ≡ n
unfolding ◌-ℤ◌
low_bits-signed32 n h = ground arith
