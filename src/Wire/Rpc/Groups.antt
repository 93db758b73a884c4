-- ===== src/Wire/Rpc/Groups.antt =====
-- The groups of an RPC's arguments: what `make_rpc` writes as fields, and what `parse_rpc` reads of
-- them.
use mathlib.Core.Option
use sevensins_server.Prelude.{
  ℕ, zero, suc, ◌≡◌, refl, ap, sym, Text, false, Bool-cases, inl, inr, List, [], ◌∷◌, ◌++◌,
  append_assoc, map, ok, map_result, ◌==◌, nat_eq, get_or, get_elem?, ℤ, pos, arith,
}
use sevensins_server.Wire.Proto.{int, raw, pb_field_varint, pb_field_bytes}
use sevensins_server.Wire.Proto.RoundTrip.{
  Field, number, chunk, field_no, write_fields, values_of, pb_parse-write_fields,
}
use sevensins_server.Wire.Zigzag.{zigzag32, pb_field_zigzag}
use sevensins_server.Wire.Rpc.{Codec, group_of, join, make_rpc}

pub write_fields-append :
    (fs gs : List Field) → write_fields (fs ++ gs) ≡ write_fields fs ++ write_fields gs
write_fields-append [] gs = refl
write_fields-append (f ∷ fs) gs = simp (write_fields-append fs gs, append_assoc)

pub values_of-append :
    (n : ℕ) (fs gs : List Field) → values_of n (fs ++ gs) ≡ values_of n fs ++ values_of n gs
values_of-append n [] gs = refl
values_of-append n (f ∷ fs) gs = elim (Bool-cases (field_no f == n)) [
  | inl same ↦ rw (same, values_of-append n fs gs)
  | inr other ↦ rw (other, values_of-append n fs gs)
]

-- The fields that a run of groups makes.
abbrev pub chunks {ℓ} : {A : Type ℓ} → ℕ → (A → List Field) → List A → List Field
chunks k f [] = []
chunks k f (g ∷ gs) = chunk k (write_fields (f g)) ∷ chunks k f gs

module _ {ℓ} {A : Type ℓ} (k : ℕ) (f : A → List Field) where
  pub values_of-chunks_self :
      (gs : List A) → values_of k (chunks k f gs) ≡ map (λ g. raw (write_fields (f g))) gs
  values_of-chunks_self [] = refl
  values_of-chunks_self (g ∷ gs) = ground (arith, values_of-chunks_self gs)

  pub values_of-chunks_ne :
      (n : ℕ) (gs : List A) → (k == n) ≡ false → values_of n (chunks k f gs) ≡ []
  values_of-chunks_ne n [] h = refl
  values_of-chunks_ne n (g ∷ gs) h = rw h (values_of-chunks_ne n gs h)

pub group_of-write_fields :
    (fs : List Field) → group_of (raw (write_fields fs)) ≡ ok (values_of 1 fs)
unfolding group_of
group_of-write_fields fs =
    let (out, parsed, holds) = pb_parse-write_fields fs in rw (parsed, holds.at 1)

pub groups_of-chunks :
    {A : Type 0} (f : A → List Field) (gs : List A)
    → map_result group_of (map (λ g. raw (write_fields (f g))) gs)
      ≡ ok (map (λ g. values_of 1 (f g)) gs)
unfolding map_result
groups_of-chunks f [] = refl
groups_of-chunks f (g ∷ gs) = rw (group_of-write_fields (f g), groups_of-chunks f gs)

-- The fields of one group, of each kind.
abbrev pub uints : List ℕ → List Field
uints = map (number 1)

abbrev pub sints : List ℤ → List Field
sints = map (λ v. number 1 (zigzag32 v))

abbrev pub texts : Codec → List Text → List Field
texts u = map (λ s. chunk 1 (u.encode s))

abbrev pub rpc_fields :
    Codec → ℕ → List (List ℕ) → List (List ℕ) → List (List ℤ) → List (List Text) → List Field
rpc_fields u index us qs ss ts =
    number 1 (zigzag32 (pos index))
    ∷ (chunks 11 uints us ++ (chunks 12 uints qs ++ (chunks 15 sints ss ++ chunks 14 (texts u) ts)))

pub join-uints : (g : List ℕ) → join (pb_field_varint 1) g ≡ write_fields (uints g)
unfolding join
join-uints [] = refl
join-uints (v ∷ g) = ap (λ t. pb_field_varint 1 v ++ t) (join-uints g)

pub join-sints : (g : List ℤ) → join (pb_field_zigzag 1) g ≡ write_fields (sints g)
unfolding join pb_field_zigzag pb_field_varint
join-sints [] = refl
join-sints (v ∷ g) = ap (λ t. pb_field_zigzag 1 v ++ t) (join-sints g)

pub join-texts :
    (u : Codec) (g : List Text)
    → join (λ s. pb_field_bytes 1 (u.encode s)) g ≡ write_fields (texts u g)
unfolding join
join-texts u [] = refl
join-texts u (s ∷ g) = ap (λ t. pb_field_bytes 1 (u.encode s) ++ t) (join-texts u g)

pub join-chunks {ℓ} :
    {A : Type ℓ} (k : ℕ) (w : A → List ℕ) (f : A → List Field)
    → ((g : A) → w g ≡ write_fields (f g))
    → (gs : List A) → join (λ g. pb_field_bytes k (w g)) gs ≡ write_fields (chunks k f gs)
unfolding join
join-chunks k w f same [] = refl
join-chunks k w f same (g ∷ gs) = rw (same g, join-chunks k w f same gs)

pub make_rpc-fields :
    (u : Codec) (index : ℕ) (us qs : List (List ℕ)) (ss : List (List ℤ)) (ts : List (List Text))
    → make_rpc u index us qs ss ts ≡ write_fields (rpc_fields u index us qs ss ts)
unfolding make_rpc pb_field_zigzag pb_field_varint
make_rpc-fields u index us qs ss ts =
    rw
      (
        join-chunks 11 (join (pb_field_varint 1)) uints join-uints us,
        join-chunks 12 (join (pb_field_varint 1)) uints join-uints qs,
        join-chunks 15 (join (pb_field_zigzag 1)) sints join-sints ss,
        join-chunks 14 (join (λ s. pb_field_bytes 1 (u.encode s))) (texts u) (join-texts u) ts,
      )
      (simp write_fields-append)

pub values_uints : (g : List ℕ) → values_of 1 (uints g) ≡ map (λ v. int (pos v)) g
values_uints [] = refl
values_uints (v ∷ g) = ap (λ t. int (pos v) ∷ t) (values_uints g)

pub values_sints : (g : List ℤ) → values_of 1 (sints g) ≡ map (λ v. int (pos (zigzag32 v))) g
values_sints [] = refl
values_sints (v ∷ g) = ap (λ t. int (pos (zigzag32 v)) ∷ t) (values_sints g)

pub values_texts :
    (u : Codec) (g : List Text) → values_of 1 (texts u g) ≡ map (λ s. raw (u.encode s)) g
values_texts u [] = refl
values_texts u (s ∷ g) = ap (λ t. raw (u.encode s) ∷ t) (values_texts u g)

pub get_or-map {ℓ κ} :
    {A : Type ℓ} {B : Type κ} (f : A → B) (xs : List A) (i : ℕ) (d : A) (e : B)
    → f d ≡ e
    → get_or (map f xs) i e ≡ f (get_or xs i d)
get_or-map f [] i d e h = sym h
get_or-map f (x ∷ xs) zero d e h = refl
get_or-map f (x ∷ xs) (suc i) d e h = get_or-map f xs i d e h

pub get_elem?-map {ℓ κ} :
    {A : Type ℓ} {B : Type κ} (f : A → B) (xs : List A)
    → get_elem? (map f xs) 0 ≡ Option.map f (get_elem? xs 0)
get_elem?-map f [] = refl
get_elem?-map f (x ∷ xs) = refl
