-- ===== src/Wire/Rpc/RoundTrip.antt =====
-- `parse_rpc` on what `make_rpc` wrote.
use mathlib.Core.Option
use sevensins_server.Prelude.{
  ℕ, ◌<◌, ◌≡◌, refl, Text, List, [], ◌∷◌, append-nil, map, ok, map_result, nat_eq, get_or,
  get_elem?, All, ℤ, pos, negsuc, ◌≤ℤ◌, ◌<ℤ◌, arith,
}
use sevensins_server.Wire.Proto.{Value, int, raw, Fields}
use sevensins_server.Wire.Proto.RoundTrip.{
  Field, write_fields, values_of, Holds, pb_parse-write_fields,
}
use sevensins_server.Wire.Zigzag.{signed32, zigzag32}
use sevensins_server.Wire.Zigzag.RoundTrip.{pb_zigzag_decode-zigzag32, low_bits-signed32}
use sevensins_server.Wire.Rpc.{
  Codec, Rpc, first_of_field, decode_value, groups_of, intargs_of, text_of, parse_rpc, make_rpc,
}
use sevensins_server.Wire.Rpc.Groups.{
  get_or-map, get_elem?-map, values_of-append, groups_of-chunks, uints, sints, texts, rpc_fields,
  make_rpc-fields, values_uints, values_sints, values_texts, values_of-chunks_self,
  values_of-chunks_ne,
}

-- The codec gives back a text that it encoded.
pub record IsCodec (u : Codec) : Type 0 where
  pub decode-encode : (s : Text) → u.decode (u.encode s) ≡ s

decode_texts :
    (u : Codec) (c : IsCodec u) (g : List Text)
    → map_result (text_of u) (map (λ s. raw (u.encode s)) g) ≡ ok g
unfolding map_result text_of
decode_texts u c [] = refl
decode_texts u c (s ∷ g) = rw (decode_texts u c g, c.decode-encode s)

-- A number that `make_rpc` can send as an sint32.
abbrev pub Sendable : ℤ → Type 0
Sendable v = (negsuc 0x7fffffff ≤ℤ v) × (v <ℤ pos 0x100000000)

decode_sints :
    (g : List ℤ)
    → All Sendable g
    → map_result decode_value (map (λ v. int (pos (zigzag32 v))) g) ≡ ok (map signed32 g)
unfolding map_result decode_value
decode_sints [] h = refl
decode_sints (v ∷ g) h = rw (pb_zigzag_decode-zigzag32 v h.0.0 h.0.1, decode_sints g h.1)

-- What each argument of the parser's tuple is, in terms of the groups that were packed.
abbrev pub int_args : List ℕ → List ℤ → List Value
int_args [] zs = map int (map signed32 zs)
int_args (v ∷ vs) zs = map (λ n. int (pos n)) (v ∷ vs)

abbrev pub head_id : List ℕ → Value
head_id g = int (pos (get_or g 0 0))

abbrev pub unpacked : ℕ → List (List ℕ) → List (List ℕ) → List (List ℤ) → List (List Text) → Rpc
unpacked index us qs ss ts = record {
  index = index;
  cmd = Option.map (λ n. int (pos n)) (get_elem? (get_or us 0 []) 0);
  id = head_id (get_or qs 0 []);
  intargs = int_args (get_or us 1 []) (get_or ss 0 []);
  strargs = get_or ts 0 [];
  strargs2 = get_or ts 1 [];
}

module _ (u : Codec) (c : IsCodec u) (index : ℕ) (us qs : List (List ℕ)) (ss : List (List ℤ))
    (ts : List (List Text)) where
  fields : List Field
  fields = rpc_fields u index us qs ss ts

  values_1 : values_of 1 fields ≡ int (pos (zigzag32 (pos index))) ∷ []
  unfolding fields
  values_1 = simp (values_of-append, values_of-chunks_ne)

  values_11 : values_of 11 fields ≡ map (λ g. raw (write_fields (uints g))) us
  unfolding fields
  values_11 = simp (values_of-append, values_of-chunks_self, values_of-chunks_ne, append-nil)

  values_12 : values_of 12 fields ≡ map (λ g. raw (write_fields (uints g))) qs
  unfolding fields
  values_12 = simp (values_of-append, values_of-chunks_self, values_of-chunks_ne, append-nil)

  values_15 : values_of 15 fields ≡ map (λ g. raw (write_fields (sints g))) ss
  unfolding fields
  values_15 = simp (values_of-append, values_of-chunks_self, values_of-chunks_ne, append-nil)

  values_14 : values_of 14 fields ≡ map (λ g. raw (write_fields (texts u g))) ts
  unfolding fields
  values_14 = simp (values_of-append, values_of-chunks_self, values_of-chunks_ne)

  module _ (out : Fields) (h : Holds out fields) where
    first_1 : first_of_field 1 out ≡ ok (int (pos (zigzag32 (pos index))))
    unfolding first_of_field
    first_1 = ground (arith, h.at 1, values_1)

    groups_11 : groups_of 11 out ≡ ok (map (λ g. map (λ v. int (pos v)) g) us)
    unfolding groups_of
    groups_11 = rw (h.at 11, values_11, groups_of-chunks uints) (simp values_uints)

    groups_12 : groups_of 12 out ≡ ok (map (λ g. map (λ v. int (pos v)) g) qs)
    unfolding groups_of
    groups_12 = rw (h.at 12, values_12, groups_of-chunks uints) (simp values_uints)

    groups_15 : groups_of 15 out ≡ ok (map (λ g. map (λ v. int (pos (zigzag32 v))) g) ss)
    unfolding groups_of
    groups_15 = rw (h.at 15, values_15, groups_of-chunks sints) (simp values_sints)

    groups_14 : groups_of 14 out ≡ ok (map (λ g. map (λ s. raw (u.encode s)) g) ts)
    unfolding groups_of
    groups_14 = rw (h.at 14, values_14, groups_of-chunks (texts u)) (simp values_texts)

    intargs_15 :
        (g : List ℕ)
        → All Sendable (get_or ss 0 [])
        → intargs_of out (map (λ v. int (pos v)) g) ≡ ok (int_args g (get_or ss 0 []))
    unfolding intargs_of
    intargs_15 [] hs = rw (
      groups_15,
      get_or-map (λ g. map (λ v. int (pos (zigzag32 v))) g) ss 0 [] [] refl,
      decode_sints (get_or ss 0 []) hs,
    )
    intargs_15 (v ∷ g) hs = refl

  written : make_rpc u index us qs ss ts ≡ write_fields fields
  unfolding fields
  written = make_rpc-fields u index us qs ss ts

  index_back :
      index < 0x100000000
      → decode_value (int (pos (zigzag32 (pos index)))) ≡ ok (signed32 (pos index))
  unfolding decode_value
  index_back hi = rw (pb_zigzag_decode-zigzag32 (pos index) (omega arith) (omega arith))

  text_back :
      (i : ℕ)
      → map_result (text_of u) (get_or (map (λ g. map (λ s. raw (u.encode s)) g) ts) i [])
        ≡ ok (get_or ts i [])
  text_back i =
      rw (get_or-map (λ g. map (λ s. raw (u.encode s)) g) ts i [] [] refl)
        (decode_texts u c (get_or ts i []))

  -- For an index below 2^32, a first group of sint32s that can be sent as such, and a codec that
  -- gives back what it encoded: packing an RPC and parsing it gives the index, the command, the id and the arguments: the
  -- integers of the second group of uint32s or, if it is empty, the signed reading of the first
  -- group of sint32s.
  pub parse_rpc-make_rpc :
      index < 0x100000000
      → All Sendable (get_or ss 0 [])
      → parse_rpc u (make_rpc u index us qs ss ts) ≡ ok (unpacked index us qs ss ts)
  unfolding parse_rpc
  parse_rpc-make_rpc hi hs =
      let (out, parsed, h) = pb_parse-write_fields fields in
      let ints = λ (g : List ℕ). map (λ v. int (pos v)) g in
      rw (
        written,
        parsed,
        first_1 out h,
        index_back hi,
        groups_11 out h,
        get_or-map ints us 1 [] [] refl,
        intargs_15 out h (get_or us 1 []) hs,
        groups_12 out h,
        groups_14 out h,
        text_back 0,
        text_back 1,
        low_bits-signed32 index hi,
        get_or-map ints us 0 [] [] refl,
        get_or-map ints qs 0 [] [] refl,
        get_elem?-map (λ v. int (pos v)) (get_or us 0 []),
        get_or-map (λ v. int (pos v)) (get_or qs 0 []) 0 0 (int (pos 0)) refl,
      )
