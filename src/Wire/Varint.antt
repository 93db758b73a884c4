-- ===== src/Wire/Varint.antt =====
-- `pb_varint` and `pb_enc_varint` of server/wire.py.
pub mod RoundTrip
use mathlib.Core.Logic.{dite}
use mathlib.Core.WellFounded.{Acc}
use native.Mathlib.Decide.{dec_lt}
use sevensins_server.Prelude.{
  ℕ, ◌≡◌, ◌≢◌, refl, length, ◌+◌, ◌*◌, ◌/◌, ◌^◌, ◌<◌, bit_and, bit_or, List, [], ◌∷◌, Result, ok,
  err, ◌==◌, nat_eq, if◌then◌else◌, lt_wf, arith,
}

-- The exceptions of the wire module.
pub data WireError : Type 0 where
  index_error : WireError
  bad_wire_type : ℕ → WireError
  key_error : WireError
  type_error : WireError
  attribute_error : WireError
  out_of_fuel : WireError

-- The loop of `pb_varint` from the byte at p on, with r and s so far. `x << s` is `x * 2 ^ s`.
pub varint_from : List ℕ → ℕ → ℕ → Result WireError (ℕ × List ℕ)
varint_from [] r s = err index_error
varint_from (b ∷ rest) r s =
    let r' = bit_or r (bit_and b 0x7f * 2 ^ s) in
    let more = varint_from rest r' (s + 7) in if bit_and b 0x80 == 0 then ok (r', rest) else more

pub pb_varint : List ℕ → Result WireError (ℕ × List ℕ)
pb_varint buf = varint_from buf 0 0

pub shift_shrinks : (v : ℕ) → 0 < v / 2 ^ 7 → v / 2 ^ 7 < v
shift_shrinks v h = omega arith

-- The loop of `pb_enc_varint`; it ends since v falls. `v >>= 7` is `v / 2 ^ 7`.
pub enc_loop : (v : ℕ) → Acc ◌<◌ v → List ℕ
enc_loop v (Acc.intro _ smaller) =
    let b = bit_and v 0x7f in
    dite (dec_lt 0 (v / 2 ^ 7))
      (λ more. bit_or b 0x80 ∷ enc_loop (v / 2 ^ 7) (smaller _ (shift_shrinks v more)))
      (λ _. bit_or b 0 ∷ [])

pub pb_enc_varint : ℕ → List ℕ
pb_enc_varint v = enc_loop v (lt_wf.apply v)

pub pb_varint-nil : pb_varint [] ≡ err index_error
unfolding pb_varint varint_from
pb_varint-nil = refl

varint_from_shrinks :
    (buf : List ℕ) (r s v : ℕ) (rest : List ℕ)
    → varint_from buf r s ≡ ok (v, rest)
    → length rest < length buf
unfolding varint_from
varint_from_shrinks [] r s v rest h = cc
varint_from_shrinks (b ∷ buf) r s v rest h =
    ground (arith, varint_from_shrinks buf (bit_or r (bit_and b 0x7f * 2 ^ s)) (s + 7) v rest)

-- A varint that is read takes a byte at least.
pub pb_varint_shrinks :
    (buf : List ℕ) (v : ℕ) (rest : List ℕ) → pb_varint buf ≡ ok (v, rest) → length rest < length buf
unfolding pb_varint
pb_varint_shrinks buf = varint_from_shrinks buf 0 0

varint_from-ne-fuel : (buf : List ℕ) (r s : ℕ) → varint_from buf r s ≢ err out_of_fuel
unfolding varint_from
varint_from-ne-fuel [] r s h = cc
varint_from-ne-fuel (b ∷ buf) r s h =
    ground (arith, varint_from-ne-fuel buf (bit_or r (bit_and b 0x7f * 2 ^ s)) (s + 7))

pub pb_varint-ne-fuel : (buf : List ℕ) → pb_varint buf ≢ err out_of_fuel
unfolding pb_varint
pb_varint-ne-fuel buf = varint_from-ne-fuel buf 0 0
