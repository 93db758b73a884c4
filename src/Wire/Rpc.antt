-- ===== src/Wire/Rpc.antt =====
-- `login_reply`, `parse_rpc`, `make_rpc` and `rpc_pack` of server/wire.py. Python's UTF-8 codec is a
-- parameter.
pub mod Groups
pub mod RoundTrip
use sevensins_server.Prelude.{
  ℕ, Text, Option, none, some, List, [], ◌∷◌, ◌++◌, map, Bool, Result, ok, err, ◌>>=◌, map_result,
  nat_eq, if◌then◌else◌, lookup, lookup_or, get_or, get_elem?, ℤ, pos,
}
use sevensins_server.Wire.Varint.{
  WireError, index_error, key_error, type_error, attribute_error, pb_enc_varint,
}
use sevensins_server.Wire.Proto.{Value, int, raw, Fields, pb_parse, pb_field_varint, pb_field_bytes}
use sevensins_server.Wire.Zigzag.{low_bits, pb_zigzag_decode, pb_field_zigzag}

-- `str.encode()` and `bytes.decode("utf-8", "replace")`.
pub record Codec : Type 0 where
  pub encode : Text → List ℕ
  pub decode : List ℕ → Text

pub login_reply : Bool → ℕ → List ℕ
login_reply success errno =
    pb_field_bytes 12 (pb_field_varint 1 (if success then 1 else 0) ++ pb_field_varint 2 errno)

-- The tuple that `parse_rpc` returns.
pub record Rpc : Type 0 where
  pub index : ℕ
  pub cmd : Option Value
  pub id : Value
  pub intargs : List Value
  pub strargs : List Text
  pub strargs2 : List Text

-- f[n][0]
pub first_of_field : ℕ → Fields → Result WireError Value
first_of_field n f = elim (lookup n f) [
  | none ↦ err key_error
  | some vs ↦ elim vs [ [] ↦ err index_error | v ∷ _ ↦ ok v ]
]

-- pb_zigzag_decode(v): bytes have no `>>`.
pub decode_value : Value → Result WireError ℤ
decode_value (int v) = ok (pb_zigzag_decode v)
decode_value (raw b) = err type_error

-- pb_parse(w).get(1, []): an int has no `len`.
pub group_of : Value → Result WireError (List Value)
group_of (int v) = err type_error
group_of (raw w) = do g ← pb_parse w; ok (lookup_or 1 [] g)

-- [pb_parse(w).get(1, []) for w in f.get(n, [])]
pub groups_of : ℕ → Fields → Result WireError (List (List Value))
unfolding map_result group_of
groups_of n f = map_result group_of (lookup_or n [] f)

-- The uint32s of the second group or, if there are none, the zigzag numbers of field 15.
pub intargs_of : Fields → List Value → Result WireError (List Value)
intargs_of f [] = do
  sints ← groups_of 15 f
  zs ← map_result decode_value (get_or sints 0 [])
  ok (map int zs)
intargs_of f (v ∷ vs) = ok (v ∷ vs)

module _ (u : Codec) where
  -- s.decode("utf-8", "replace"): an int has no `decode`.
  pub text_of : Value → Result WireError Text
  text_of (int v) = err attribute_error
  text_of (raw b) = ok (u.decode b)

  pub parse_rpc : List ℕ → Result WireError Rpc
  parse_rpc buf = do
    f ← pb_parse buf
    z ← decode_value (← first_of_field 1 f)
    groups ← groups_of 11 f
    intargs ← intargs_of f (get_or groups 1 [])
    u64 ← groups_of 12 f
    strs ← groups_of 14 f
    strargs ← map_result text_of (get_or strs 0 [])
    strargs2 ← map_result text_of (get_or strs 1 [])
    ok (record {
      index = low_bits z 32;
      cmd = get_elem? (get_or groups 0 []) 0;
      id = get_or (get_or u64 0 []) 0 (int (pos 0));
      intargs = intargs;
      strargs = strargs;
      strargs2 = strargs2;
    })

-- b"".join(f(v) for v in xs)
pub join {ℓ} : {A : Type ℓ} → (A → List ℕ) → List A → List ℕ
join f [] = []
join f (x ∷ xs) = f x ++ join f xs

module _ (u : Codec) where
  pub make_rpc : ℕ → List (List ℕ) → List (List ℕ) → List (List ℤ) → List (List Text) → List ℕ
  make_rpc index uint32s uint64s sint32s strings =
      pb_field_zigzag 1 (pos index)
      ++ (join (λ group. pb_field_bytes 11 (join (pb_field_varint 1) group)) uint32s
          ++ (join (λ group. pb_field_bytes 12 (join (pb_field_varint 1) group)) uint64s
              ++ (join (λ group. pb_field_bytes 15 (join (pb_field_zigzag 1) group)) sint32s
                  ++ join
                      (λ group. pb_field_bytes 14 (join (λ s. pb_field_bytes 1 (u.encode s)) group))
                      strings)))

pub rpc_pack : List (List ℕ) → List ℕ
rpc_pack = join (pb_field_bytes 31)
