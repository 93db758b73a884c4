-- ===== src/Wire/Tests.antt =====
-- Test vectors of the wire protocol, and its theorems at concrete inputs.
use sevensins_server.Prelude.{
  ℕ, ◌≡◌, ◌≢◌, refl, some, none, List, [], ◌∷◌, ok, err, pos, negsuc, nat_eq, arith,
}
use sevensins_server.Wire.Varint.{out_of_fuel}
use sevensins_server.Wire.Rc4.{Rc4, range_from}
use sevensins_server.Wire.Rc4.Table.{IsValid, range_from-IsTable}
use sevensins_server.Wire.Proto.{Fields, pb_parse}
use sevensins_server.Wire.Proto.RoundTrip.{
  Field, number, chunk, write_fields, Holds, pb_parse-write_fields,
}
use sevensins_server.Wire.Proto.Total.{pb_parse-ne-fuel}
use sevensins_server.Wire.Rpc.{Codec, parse_rpc, make_rpc}
use sevensins_server.Wire.Rpc.RoundTrip.{IsCodec, unpacked, parse_rpc-make_rpc}
use sevensins_server.Wire.Frame.{closed, send_all, read_all}
use sevensins_server.Wire.Frame.Stream.{read_all-send_all, read_all_total}

-- The state that a key schedule starts from.
abbrev identity : Rc4
identity = record { table = range_from 0 256; i = 0; j = 0 }

identity-IsValid : IsValid identity
identity-IsValid = record { is_table = range_from-IsTable; i_in = omega arith; j_in = omega arith }

abbrev hello : List ℕ
hello = 104 ∷ 101 ∷ 108 ∷ 108 ∷ 111 ∷ []

abbrev message : List Field
message = number 1 131 ∷ chunk 11 hello ∷ number 1 0 ∷ []

pb_parse-write_fields_example :
    (out : Fields) × (pb_parse (write_fields message) ≡ ok out) × Holds out message
pb_parse-write_fields_example = pb_parse-write_fields message

pb_parse-ne-fuel_example : pb_parse (11 ∷ 255 ∷ []) ≢ err out_of_fuel
pb_parse-ne-fuel_example = pb_parse-ne-fuel (11 ∷ 255 ∷ [])

-- A codec for texts whose codes are bytes.
abbrev plain : Codec
plain = record { encode = λ s. s; decode = λ b. b }

plain-IsCodec : IsCodec plain
plain-IsCodec = record { decode-encode = λ s. refl }

parse_rpc-make_rpc_example :
    parse_rpc plain (
      make_rpc plain 0xfedcba98
        ((7 ∷ []) ∷ [])
        ((99 ∷ []) ∷ [])
        ((negsuc 0 ∷ pos 5 ∷ []) ∷ [])
        ((hello ∷ []) ∷ []))
    ≡ ok (
        unpacked 0xfedcba98
          ((7 ∷ []) ∷ [])
          ((99 ∷ []) ∷ [])
          ((negsuc 0 ∷ pos 5 ∷ []) ∷ [])
          ((hello ∷ []) ∷ []))
parse_rpc-make_rpc_example =
    parse_rpc-make_rpc plain plain-IsCodec 0xfedcba98 ((7 ∷ []) ∷ []) ((99 ∷ []) ∷ [])
      ((negsuc 0 ∷ pos 5 ∷ []) ∷ []) ((hello ∷ []) ∷ []) (omega arith) (omega arith)

abbrev messages : List (ℕ × List ℕ)
messages = (121, hello) ∷ (131, []) ∷ []

read_all-send_all_example :
    (out : List ℕ) × (t : Rc4) × (send_all identity messages ≡ ok (out, t))
    × (read_all identity out ≡ some (messages, closed))
read_all-send_all_example = read_all-send_all identity messages (omega arith)

read_all_total_example : read_all identity hello ≢ none
read_all_total_example = read_all_total identity hello
