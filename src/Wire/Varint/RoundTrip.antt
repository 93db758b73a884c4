-- ===== src/Wire/Varint/RoundTrip.antt =====
-- Reading a varint after writing it.
use mathlib.Core.WellFounded.{Acc}
use native.Mathlib.Decide.{dec_lt}
use native.Mathlib.Numerals.{towards_suc}
use mathlib.Core.Logic.{dite}
use sevensins_server.Prelude.{
  ℕ, ◌+◌, ◌*◌, ◌/◌, ◌%◌, ◌^◌, ◌<◌, ◌≡◌, ◌∙◌, ap, bit_and, bit_or, List, [], ◌∷◌, ◌++◌, ok, nat_eq,
  lt_wf, arith,
}
use sevensins_server.Prelude.Bits.{bit_and_mask, bit_and_place, bit_or_shifted, bit_or-zero}
use sevensins_server.Wire.Varint.{shift_shrinks, varint_from, pb_varint, enc_loop, pb_enc_varint}

-- The high bit of a byte, clear and set.
low_clear : (x : ℕ) → x < 128 → bit_and x 0x80 ≡ 0
low_clear x h =
    let same : x + 0 ≡ x = omega arith in
    let place : bit_and (x + 0) 0x80 ≡ 0 = bit_and_place 7 0 x h in rw same at place

high_set : (x : ℕ) → x < 128 → (bit_or x 0x80 ≡ x + 128) × (bit_and (x + 128) 0x80 ≡ 128)
high_set x h = (bit_or_shifted 7 x 1 h, bit_and_place 7 1 x h)

pow_shift : (s : ℕ) → 2 ^ (s + 7) ≡ 128 * 2 ^ s
pow_shift s = simp towards_suc (omega arith)

low_seven : (v : ℕ) → bit_and v 0x7f ≡ v % 128
low_seven = bit_and_mask 7

split_low : (v : ℕ) → v ≡ v % 128 + v / 128 * 128
split_low v = omega arith

recombine : (v p : ℕ) → v % 128 * p + v / 128 * (128 * p) ≡ v * p
recombine v p = omega (arith, ap (λ (t : ℕ). t * p) (split_low v))

-- One byte without the high bit ends the number.
last_byte :
    (x : ℕ) (rest : List ℕ) (r s : ℕ)
    → x < 128
    → r < 2 ^ s
    → varint_from (x ∷ rest) r s ≡ ok (r + x * 2 ^ s, rest)
unfolding varint_from
last_byte x rest r s hx h = ground (arith, low_clear x hx, bit_and_mask 7 x, bit_or_shifted s r x h)

-- One byte with the high bit adds seven bits.
middle_byte :
    (x : ℕ) (rest : List ℕ) (r s : ℕ)
    → x < 128
    → r < 2 ^ s
    → varint_from (bit_or x 0x80 ∷ rest) r s ≡ varint_from rest (r + x * 2 ^ s) (s + 7)
unfolding varint_from
middle_byte x rest r s hx h =
    ground (arith, high_set x hx, bit_and_mask 7 (x + 128), bit_or_shifted s r x h)

grows : (x r s : ℕ) → x < 128 → r < 2 ^ s → r + x * 2 ^ s < 2 ^ (s + 7)
grows x r s hx h = grind (arith, pow_shift s)

-- What the encoder writes, the loop of the decoder reads, and it stops where the encoding ends.
enc_loop-varint_from :
    (v : ℕ) (w : Acc ◌<◌ v) (rest : List ℕ) (r s : ℕ)
    → r < 2 ^ s
    → varint_from (enc_loop v w ++ rest) r s ≡ ok (r + v * 2 ^ s, rest)
unfolding enc_loop
enc_loop-varint_from v (Acc.intro _ smaller) rest r s h =
    elim (dec_lt 0 (v / 2 ^ 7))
      as (λ d.
        varint_from
          (dite d
              (λ more.
                bit_or (bit_and v 0x7f) 0x80
                ∷ enc_loop (v / 2 ^ 7) (smaller _ (shift_shrinks v more)))
              (λ _. bit_or (bit_and v 0x7f) 0 ∷ [])
            ++ rest)
          r s
        ≡ ok (r + v * 2 ^ s, rest)) [
          | yes more ↦
              rw (low_seven, middle_byte (v % 128) _ r s (omega arith) h)
                (enc_loop-varint_from (v / 2 ^ 7) (smaller _ (shift_shrinks v more)) rest
                    (r + v % 128 * 2 ^ s) (s + 7) (grows (v % 128) r s (omega arith) h)
                  ∙ ground (arith, pow_shift s, recombine v (2 ^ s)))
          | no last ↦
              rw
                (
                  low_seven,
                  bit_or-zero (v % 128) (v % 128) (omega arith),
                  last_byte (v % 128) rest r s (omega arith) h,
                )
                (let fits : v % 128 ≡ v = omega arith in rw fits)
        ]

-- `pb_varint` reads back any number that `pb_enc_varint` wrote, and leaves the bytes behind it.
pub pb_varint-pb_enc_varint :
    (v : ℕ) (rest : List ℕ) → pb_varint (pb_enc_varint v ++ rest) ≡ ok (v, rest)
unfolding pb_varint pb_enc_varint
pb_varint-pb_enc_varint v rest =
    enc_loop-varint_from v (lt_wf.apply v) rest 0 0 (omega arith) ∙ ground arith
