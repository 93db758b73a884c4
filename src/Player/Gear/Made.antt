-- ===== src/Player/Gear/Made.antt =====
-- Where `make_rune` and `make_soulmirror` return a piece.
use sevensins_server.Prelude.{
  ℕ, ◌≡◌, refl, sym, ap, ◌∙◌, inl, inr, Option, some, List, [], ◌∷◌, ◌++◌, Bool, true, false, ◌&&◌,
  by_test, Bool-cases, Dict, lookup_or, insert, nat_eq, ◌==◌, pos, ok, arith,
}
use sevensins_server.Player.Types.{EquipmentBonusRow, Design, Item, State}
use sevensins_server.Player.Gear.{
  Host, bonus_type_attribute, rune_slot, soulfrag_slot, is_test_item, is_internal_soulmirror,
  is_usable, usable_rows, bonus_group_rows, is_among, has_rows, rows_by_attr, bonus_rows_by_attr,
  rune_of, make_rune, mirror_of, make_soulmirror, rolled_rune, rolled_mirror,
}

abbrev has_groups : Dict ℕ (List ℕ) → Bool
has_groups [] = false
has_groups (g ∷ gs) = true

has_groups-insert :
    (a : ℕ) (rids : List ℕ) (out : Dict ℕ (List ℕ)) → has_groups (insert a rids out) ≡ true
has_groups-insert a rids [] = refl
has_groups-insert a rids ((b, w) ∷ out) = ground arith

rows_by_attr-more :
    (allowed : List ℕ) (rows : List (ℕ × EquipmentBonusRow)) (out : Dict ℕ (List ℕ))
    → has_groups out ≡ true
    → has_groups (rows_by_attr allowed rows out) ≡ true
unfolding rows_by_attr
rows_by_attr-more allowed [] out h = h
rows_by_attr-more allowed ((k, r) ∷ rows) out h =
    let more = insert r.attr_type (lookup_or r.attr_type [] out ++ (k ∷ [])) out in
    rows_by_attr-more allowed rows _ (
      by_test (λ (o : Dict ℕ (List ℕ)). has_groups o ≡ true)
        (r.type == bonus_type_attribute && is_among k allowed) more out
        (λ _. has_groups-insert r.attr_type _ out) (λ _. h))

rows_by_attr-some :
    (allowed : List ℕ) (group : Option ℕ) (rows : List (ℕ × EquipmentBonusRow))
    (out : Dict ℕ (List ℕ))
    → ((k : ℕ) → is_among k (usable_rows group rows) ≡ true → is_among k allowed ≡ true)
    → has_rows (usable_rows group rows) ≡ true
    → has_groups (rows_by_attr allowed rows out) ≡ true
unfolding rows_by_attr usable_rows is_usable
rows_by_attr-some allowed group [] out sub h = absurd (ground arith)
rows_by_attr-some allowed group ((k, r) ∷ rows) out sub h = elim (Bool-cases (is_usable group r)) [
  | inl usable ↦
      let member : is_among k allowed ≡ true = sub k (ground (arith, usable)) in
      let typed : (r.type == bonus_type_attribute) ≡ true = ground (arith, usable) in
      rw (typed, member) (rows_by_attr-more allowed rows _ (has_groups-insert r.attr_type _ out))
  | inr other ↦
      let same : usable_rows group ((k, r) ∷ rows) ≡ usable_rows group rows =
        ground (arith, other) in
      rows_by_attr-some allowed group rows _ (λ j later. sub j (ap (is_among j) same ∙ later))
        (ap has_rows (sym same) ∙ h)
]

bonus_rows-has_groups :
    (d : Design) (iid : ℕ)
    → has_rows (bonus_group_rows d iid) ≡ true
    → has_groups (bonus_rows_by_attr d iid) ≡ true
unfolding bonus_rows_by_attr bonus_group_rows
bonus_rows-has_groups d iid h =
    rows_by_attr-some (bonus_group_rows d iid) (d.equipment (d.item iid).param1) d.equipment_bonus
      [] (λ k member. member) h

-- The pieces that a call returns: one of this item.
pub record IsPiece (iid : ℕ) (e : Item) : Type 0 where
  pub named : e.iid ≡ iid
  pub one : e.amount ≡ pos 1

module _ (host : Host) (d : Design) (iid level enhance : ℕ) (s : State) where
  rune_of-ok :
      (slot : ℕ) (groups : Dict ℕ (List ℕ))
      → has_groups groups ≡ true
      → (e : Item) × (rune_of host iid level enhance s (some slot) groups ≡ ok e) × IsPiece iid e
  unfolding rune_of rolled_rune
  rune_of-ok slot [] h = absurd (ground arith)
  rune_of-ok slot (g ∷ groups) h = (_, refl, record { named = refl; one = refl })

  -- A starshard that has rows to roll from, and is no test row, is rolled.
  pub make_rune-ok :
      (slot : ℕ)
      → is_test_item host d iid ≡ false
      → rune_slot d iid ≡ some slot
      → has_rows (bonus_group_rows d iid) ≡ true
      → (e : Item) × (make_rune host d iid level enhance s ≡ ok e) × IsPiece iid e
  unfolding make_rune
  make_rune-ok slot real is_slot rows =
      rw (real, is_slot)
        (rune_of-ok slot (bonus_rows_by_attr d iid) (bonus_rows-has_groups d iid rows))

  mirror_of-ok :
      (slot : ℕ) (rows : List ℕ)
      → has_rows rows ≡ true
      → (e : Item) × (mirror_of host iid level enhance s (some slot) false rows ≡ ok e)
        × IsPiece iid e
  unfolding mirror_of rolled_mirror
  mirror_of-ok slot [] h = absurd (ground arith)
  mirror_of-ok slot (row ∷ rows) h = (_, refl, record { named = refl; one = refl })

  pub make_soulmirror-ok :
      (slot : ℕ)
      → soulfrag_slot d iid ≡ some slot
      → is_internal_soulmirror d iid ≡ false
      → has_rows (bonus_group_rows d iid) ≡ true
      → (e : Item) × (make_soulmirror host d iid level enhance s ≡ ok e) × IsPiece iid e
  unfolding make_soulmirror
  make_soulmirror-ok slot is_slot real rows =
      rw (is_slot, real) (mirror_of-ok slot (bonus_group_rows d iid) rows)
