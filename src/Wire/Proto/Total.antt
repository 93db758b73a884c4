-- ===== src/Wire/Proto/Total.antt =====
-- The fuel of `pb_parse`.
use sevensins_server.Prelude.{
  ℕ, zero, suc, ◌/◌, ◌^◌, ◌≤◌, ◌≡◌, ◌≢◌, bit_and, List, [], ◌∷◌, inl, inr, Result-cases, ok, err,
  nat_eq, length, length-drop, arith,
}
use sevensins_server.Wire.Varint.{out_of_fuel, pb_varint, pb_varint_shrinks, pb_varint-ne-fuel}
use sevensins_server.Wire.Proto.{Value, Fields, add_field, read_value, parse_loop, pb_parse}

read_value_shrinks :
    (wt : ℕ) (p : List ℕ) (v : Value) (q : List ℕ)
    → read_value wt p ≡ ok (v, q)
    → length q ≤ length p
unfolding read_value
read_value_shrinks wt p v q h = elim (Result-cases (pb_varint p)) [
  | inl (e, varint_error) ↦ ground (arith, length-drop 4 p, length-drop 8 p)
  | inr ((n, r), read) ↦
      ground
        (arith, pb_varint_shrinks p n r read, length-drop 4 p, length-drop 8 p, length-drop n r)
]

read_value-ne-fuel : (wt : ℕ) (p : List ℕ) → read_value wt p ≢ err out_of_fuel
unfolding read_value
read_value-ne-fuel wt p h = ground (arith, pb_varint-ne-fuel p)

parse_loop-ne-fuel :
    (n : ℕ) (buf : List ℕ) (out : Fields) → length buf ≤ n → parse_loop n buf out ≢ err out_of_fuel
unfolding parse_loop
parse_loop-ne-fuel n [] out h e = cc
parse_loop-ne-fuel zero (b ∷ buf) out h e = omega arith
parse_loop-ne-fuel (suc n) (b ∷ buf) out h e = elim (Result-cases (pb_varint (b ∷ buf))) [
  | inl (e', failed) ↦ ground (arith, pb_varint-ne-fuel (b ∷ buf))
  | inr ((key, p), read) ↦ elim (Result-cases (read_value (bit_and key 7) p)) [
    | inl (e', failed) ↦ ground (arith, read_value-ne-fuel (bit_and key 7) p)
    | inr ((v, q), got) ↦ ground (
      arith,
      pb_varint_shrinks (b ∷ buf) key p read,
      read_value_shrinks (bit_and key 7) p v q got,
      parse_loop-ne-fuel n q (add_field (key / 2 ^ 3) v out),
    )
  ]
]

-- On any bytes the parser returns fields or raises; its fuel never runs out.
pub pb_parse-ne-fuel : (buf : List ℕ) → pb_parse buf ≢ err out_of_fuel
unfolding pb_parse
pb_parse-ne-fuel buf = parse_loop-ne-fuel (length buf) buf [] (omega arith)
