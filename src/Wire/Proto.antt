-- ===== src/Wire/Proto.antt =====
-- `pb_parse`, `pb_field_varint` and `pb_field_bytes` of server/wire.py.
pub mod RoundTrip
pub mod Total
use sevensins_server.Prelude.{
  ℕ, zero, suc, ◌+◌, ◌*◌, ◌/◌, ◌^◌, bit_and, bit_or, List, [], ◌∷◌, ◌++◌, Result, ok, err, ◌>>=◌,
  ◌==◌, nat_eq, if◌then◌else◌, length, take, drop, Dict, lookup_or, insert, ℤ, pos,
}
use sevensins_server.Wire.Varint.{
  WireError, index_error, bad_wire_type, out_of_fuel, pb_varint, pb_enc_varint,
}

-- An entry of the parsed message: an int, or bytes. A varint is never negative; the signed ints
-- are what the zigzag decoder makes of one.
pub data Value : Type 0 where
  int : ℤ → Value
  raw : List ℕ → Value

abbrev pub Fields : Type 0
Fields = Dict ℕ (List Value)

-- out.setdefault(fno, []).append(v)
pub add_field : ℕ → Value → Fields → Fields
add_field fno v out = insert fno (lookup_or fno [] out ++ v ∷ []) out

-- The value of a field and the bytes behind it. A slice past the end is shorter.
pub read_value : ℕ → List ℕ → Result WireError (Value × List ℕ)
read_value wt p =
    if wt == 0
    then (do (v, q) ← pb_varint p; ok (int (pos v), q))
    else if wt == 2
    then (do (n, q) ← pb_varint p; ok (raw (take n q), drop n q))
    else if wt == 5
    then ok (raw (take 4 p), drop 4 p)
    else if wt == 1
    then ok (raw (take 8 p), drop 8 p)
    else err (bad_wire_type wt)

-- The loop of `pb_parse` on the bytes that are left, with `out` so far.
pub parse_loop : ℕ → List ℕ → Fields → Result WireError Fields
parse_loop fuel [] out = ok out
parse_loop zero (b ∷ buf) out = err out_of_fuel
parse_loop (suc fuel) (b ∷ buf) out = do
  (key, p) ← pb_varint (b ∷ buf)
  (v, q) ← read_value (bit_and key 7) p
  parse_loop fuel q (add_field (key / 2 ^ 3) v out)

-- Each round takes a byte at least, so as many rounds as there are bytes are enough.
pub pb_parse : List ℕ → Result WireError Fields
pb_parse buf = parse_loop (length buf) buf []

unfoldable pub pb_field_varint : ℕ → ℕ → List ℕ
pb_field_varint fno v = pb_enc_varint (fno * 2 ^ 3) ++ pb_enc_varint v

pub pb_field_bytes : ℕ → List ℕ → List ℕ
pb_field_bytes fno b = pb_enc_varint (bit_or (fno * 2 ^ 3) 2) ++ pb_enc_varint (length b) ++ b
