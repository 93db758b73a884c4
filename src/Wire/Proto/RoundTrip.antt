-- ===== src/Wire/Proto/RoundTrip.antt =====
-- Parsing a message that the field writers made.
use sevensins_server.Prelude.{
  ℕ, zero, suc, ◌+◌, ◌*◌, ◌/◌, ◌^◌, ◌≤◌, ◌≡◌, refl, ◌∙◌, bit_and, bit_or, List, [], ◌∷◌, ◌++◌,
  append_assoc, append-nil, sym, Bool-cases, inl, inr, ◌<◌, ok, ◌==◌, nat_eq, if◌then◌else◌, length,
  length-append, take-length-append, drop-length-append, lookup_or, lookup-insert, pos, arith,
}
use sevensins_server.Prelude.Bits.{bit_and_mask, bit_or_field}
use sevensins_server.Wire.Varint.{pb_varint, pb_enc_varint, pb_varint-nil, pb_varint_shrinks}
use sevensins_server.Wire.Varint.RoundTrip.{pb_varint-pb_enc_varint}
use sevensins_server.Wire.Proto.{
  Value, int, raw, Fields, add_field, read_value, parse_loop, pb_parse, pb_field_varint,
  pb_field_bytes,
}

-- What a writer puts into a message: a number, or bytes.
pub data Field : Type 0 where
  number : ℕ → ℕ → Field
  chunk : ℕ → List ℕ → Field

abbrev pub write_field : Field → List ℕ
write_field (number fno v) = pb_field_varint fno v
write_field (chunk fno b) = pb_field_bytes fno b

abbrev pub write_fields : List Field → List ℕ
write_fields [] = []
write_fields (f ∷ fs) = write_field f ++ write_fields fs

abbrev pub field_no : Field → ℕ
field_no (number fno v) = fno
field_no (chunk fno b) = fno

abbrev pub field_value : Field → Value
field_value (number fno v) = int (pos v)
field_value (chunk fno b) = raw b

-- The values that the message gives a field number, in order.
abbrev pub values_of : ℕ → List Field → List Value
values_of n [] = []
values_of n (f ∷ fs) = if field_no f == n then field_value f ∷ values_of n fs else values_of n fs

abbrev collect : Fields → List Field → Fields
collect out [] = out
collect out (f ∷ fs) = collect (add_field (field_no f) (field_value f) out) fs

key_number : (fno : ℕ) → (bit_and (fno * 2 ^ 3) 7 ≡ 0) × (fno * 2 ^ 3 / 2 ^ 3 ≡ fno)
key_number fno = (bit_and_mask 3 (fno * 2 ^ 3) ∙ omega arith, omega arith)

key_chunk :
    (fno : ℕ) → (bit_and (bit_or (fno * 2 ^ 3) 2) 7 ≡ 2) × (bit_or (fno * 2 ^ 3) 2 / 2 ^ 3 ≡ fno)
key_chunk fno =
    rw (bit_or_field 3 fno 2 (omega arith))
      (bit_and_mask 3 (fno * 2 ^ 3 + 2) ∙ omega arith, omega arith)

parse_step :
    (n key wt fno : ℕ) (buf p q : List ℕ) (v : Value) (out : Fields)
    → pb_varint buf ≡ ok (key, p)
    → bit_and key 7 ≡ wt
    → key / 2 ^ 3 ≡ fno
    → read_value wt p ≡ ok (v, q)
    → parse_loop (suc n) buf out ≡ parse_loop n q (add_field fno v out)
unfolding parse_loop
parse_step n key wt fno [] p q v out e w k r = cc pb_varint-nil
parse_step n key wt fno (b ∷ buf) p q v out e w k r = rw (e, w, k, r)

read_number :
    (v : ℕ) (rest : List ℕ) → read_value 0 (pb_enc_varint v ++ rest) ≡ ok (int (pos v), rest)
unfolding read_value
read_number v rest = rw pb_varint-pb_enc_varint

read_chunk :
    (b rest : List ℕ) → read_value 2 (pb_enc_varint (length b) ++ (b ++ rest)) ≡ ok (raw b, rest)
unfolding read_value
read_chunk b rest =
    rw (pb_varint-pb_enc_varint, take-length-append b rest, drop-length-append b rest)

parse_field :
    (n : ℕ) (f : Field) (rest : List ℕ) (out : Fields)
    → parse_loop (suc n) (write_field f ++ rest) out
      ≡ parse_loop n rest (add_field (field_no f) (field_value f) out)
unfolding pb_field_varint pb_field_bytes
parse_field n (number fno v) rest out =
    parse_step n (fno * 2 ^ 3) 0 fno _ (pb_enc_varint v ++ rest) rest (int (pos v)) out
      (rw append_assoc (pb_varint-pb_enc_varint _ _)) (key_number fno).0 (key_number fno).1
      (read_number v rest)
parse_field n (chunk fno b) rest out =
    parse_step n (bit_or (fno * 2 ^ 3) 2) 2 fno _ (pb_enc_varint (length b) ++ (b ++ rest)) rest
      (raw b) out (simp append_assoc (pb_varint-pb_enc_varint _ _)) (key_chunk fno).0
      (key_chunk fno).1 (read_chunk b rest)

parse_fields :
    (n : ℕ) (fs : List Field) (out : Fields)
    → length fs ≤ n
    → parse_loop n (write_fields fs) out ≡ ok (collect out fs)
parse_fields n [] out h = unfold parse_loop in refl
parse_fields zero (f ∷ fs) out h = absurd (omega arith)
parse_fields (suc n) (f ∷ fs) out h =
    parse_field n f (write_fields fs) out ∙ parse_fields n fs _ (omega arith)

enc_pos : (v : ℕ) → 0 < length (pb_enc_varint v)
enc_pos v = omega (
  arith,
  length-append (pb_enc_varint v) [],
  pb_varint_shrinks (pb_enc_varint v ++ []) v [] (pb_varint-pb_enc_varint v []),
)

write_field_pos : (f : Field) → 0 < length (write_field f)
unfolding pb_field_varint pb_field_bytes
write_field_pos (number fno v) =
    omega
      (arith, length-append (pb_enc_varint (fno * 2 ^ 3)) (pb_enc_varint v), enc_pos (fno * 2 ^ 3))
write_field_pos (chunk fno b) =
    let k = pb_enc_varint (bit_or (fno * 2 ^ 3) 2) in
    let n = pb_enc_varint (length b) in
    omega (arith, length-append (k ++ n) b, length-append k n, enc_pos (length b))

length-fields-le : (fs : List Field) → length fs ≤ length (write_fields fs)
length-fields-le [] = omega arith
length-fields-le (f ∷ fs) =
    omega (
      arith,
      length-append (write_field f) (write_fields fs),
      write_field_pos f,
      length-fields-le fs,
    )

lookup_or-add_field :
    (n k : ℕ) (v : Value) (out : Fields)
    → lookup_or n [] (add_field k v out)
      ≡ (if k == n then lookup_or n [] out ++ v ∷ [] else lookup_or n [] out)
unfolding add_field
lookup_or-add_field n k v out = ground (arith, lookup-insert k n (lookup_or k [] out ++ v ∷ []) out)

lookup-collect :
    (n : ℕ) (fs : List Field) (out : Fields)
    → lookup_or n [] (collect out fs) ≡ lookup_or n [] out ++ values_of n fs
lookup-collect n [] out = sym (append-nil _)
lookup-collect n (f ∷ fs) out =
    rw
      (
        lookup-collect n fs (add_field (field_no f) (field_value f) out),
        lookup_or-add_field n (field_no f) (field_value f) out,
      )
      (elim (Bool-cases (field_no f == n)) [
        | inl same ↦
            rw same (append_assoc (lookup_or n [] out) (field_value f ∷ []) (values_of n fs))
        | inr other ↦ rw other
      ])

-- What the parser returns for a message: each field number has the values that the message gives
-- it, in the order written.
pub record Holds (out : Fields) (fs : List Field) : Type 0 where
  pub at : (n : ℕ) → lookup_or n [] out ≡ values_of n fs

-- A message that the writers made parses, and each field number has the values that the message gives
-- it, in order.
pub pb_parse-write_fields :
    (fs : List Field) → (out : Fields) × (pb_parse (write_fields fs) ≡ ok out) × Holds out fs
unfolding pb_parse
pb_parse-write_fields fs = (
  collect [] fs,
  parse_fields (length (write_fields fs)) fs [] (length-fields-le fs),
  record { at = λ n. lookup-collect n fs [] },
)
