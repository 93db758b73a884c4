-- ===== src/Player/Gear/Rolled.antt =====
-- What `make_rune` rolls.
use sevensins_server.Prelude.{
  ℕ, ◌+◌, ◌≤◌, ◌≡◌, ◌⊎◌, inl, inr, refl, ap, subst, ◌∙◌, min, Option, some, none, List, [], ◌∷◌,
  ◌++◌, true, false, ◌||◌, ◌&&◌, not, by_test, Dict, lookup_or, insert, lookup_or-insert, length,
  nat_eq, ◌==◌, Result, ok, arith, ok_injective,
}
use sevensins_server.Player.Types.{EquipmentBonusRow, Design, Attr, Item, State}
use sevensins_server.Player.Gear.{
  Host, GearError, rune_max_level, bonus_type_attribute, rune_sub_types, rune_bonus_attrs,
  rune_slot_primary, rune_slot, is_test_item, bonus_group_rows, is_among, has_rows, rows_by_attr,
  bonus_rows_by_attr, pick, sub_pool, roll_subs, enhances_of, rolled_rune, rune_of, make_rune,
}

-- No number twice.
abbrev pub IsApart : List ℕ → Type 0
IsApart [] = Unit
IsApart (n ∷ ns) = (is_among n ns ≡ false) × IsApart ns

-- `random.choice` takes one of the list, and `random.sample` so many of its places.
pub record IsRandom (host : Host) : Type 0 where
  pub choice_in :
      (s : State) (n x : ℕ) (xs : List ℕ) → is_among (host.choice s n (x ∷ xs)) (x ∷ xs) ≡ true
  pub sample_in :
      (s : State) (xs : List ℕ) (k a : ℕ)
      → is_among a (host.sample s xs k) ≡ true
      → is_among a xs ≡ true
  pub sample_apart : (s : State) (xs : List ℕ) (k : ℕ) → IsApart xs → IsApart (host.sample s xs k)
  pub sample_length :
      (s : State) (xs : List ℕ) (k : ℕ) → k ≤ length xs → length (host.sample s xs k) ≡ k

-- The table has a stat row of this id for this attribute.
abbrev pub HasRow : ℕ → ℕ → List (ℕ × EquipmentBonusRow) → Type 0
HasRow a rid [] = ⊥
HasRow a rid ((k, r) ∷ rows) =
    ((k ≡ rid) × (r.attr_type ≡ a) × (r.type ≡ bonus_type_attribute)) ⊎ HasRow a rid rows

-- The id is in the bonus group of the item, and names a row for this attribute.
abbrev pub IsRow : Design → ℕ → ℕ → ℕ → Type 0
IsRow d iid a rid = (is_among rid (bonus_group_rows d iid) ≡ true) × HasRow a rid d.equipment_bonus

-- The sub-stats from the number `j` on are rows for these attributes.
abbrev pub IsSubs : Design → ℕ → ℕ → List ℕ → Dict ℕ ℕ → Type 0
IsSubs d iid j [] [] = Unit
IsSubs d iid j [] (sub ∷ subs) = ⊥
IsSubs d iid j (a ∷ types) [] = ⊥
IsSubs d iid j (a ∷ types) ((i, rid) ∷ subs) =
    (i ≡ j) × IsRow d iid a rid × IsSubs d iid (j + 1) types subs

-- A starshard as the item allows it.
pub record IsShard (d : Design) (iid level enhance : ℕ) (e : Item) : Type 0 where
  pub slot : ℕ
  pub attr : Attr
  pub types : List ℕ
  pub is_slot : rune_slot d iid ≡ some slot
  pub named : e.iid ≡ iid
  pub has_attr : e.attr ≡ some attr
  pub levelled : attr.level ≡ min level rune_max_level
  pub primary : (rid : ℕ) → attr.primary ≡ some rid → IsRow d iid (rune_slot_primary slot) rid
  pub subs : IsSubs d iid 1 types attr.subs
  pub few : length types ≤ rune_bonus_attrs
  pub apart : IsApart (rune_slot_primary slot ∷ types)
  pub enhanced : attr.enhances ≡ enhances_of enhance attr.subs

is_among-append : (n x : ℕ) (xs : List ℕ) → is_among n (xs ++ (x ∷ [])) ≡ (is_among n xs || x == n)
is_among-append n x [] = ground arith
is_among-append n x (y ∷ xs) = ground (arith, is_among-append n x xs)

rows_by_attr-in :
    (allowed : List ℕ) (a rid : ℕ) (rows : List (ℕ × EquipmentBonusRow)) (out : Dict ℕ (List ℕ))
    → is_among rid (lookup_or a [] (rows_by_attr allowed rows out)) ≡ true
    → (is_among rid (lookup_or a [] out) ≡ true)
      ⊎ ((is_among rid allowed ≡ true) × HasRow a rid rows)
unfolding rows_by_attr
rows_by_attr-in allowed a rid [] out h = inl h
rows_by_attr-in allowed a rid ((k, r) ∷ rows) out h =
    let more = insert r.attr_type (lookup_or r.attr_type [] out ++ (k ∷ [])) out in
    by_test
      (λ (o : Dict ℕ (List ℕ)).
        is_among rid (lookup_or a [] (rows_by_attr allowed rows o)) ≡ true
        → (is_among rid (lookup_or a [] out) ≡ true)
          ⊎ ((is_among rid allowed ≡ true) × HasRow a rid ((k, r) ∷ rows)))
      (r.type == bonus_type_attribute && is_among k allowed) more out
      (λ usable found. elim (rows_by_attr-in allowed a rid rows more found) [
        | inr (member, later) ↦ inr (member, inr later)
        | inl here ↦ ground (
          arith,
          usable,
          here,
          lookup_or-insert r.attr_type a (lookup_or r.attr_type [] out ++ (k ∷ [])) [] out,
          is_among-append rid k (lookup_or r.attr_type [] out),
        )
      ])
      (λ _ found. elim (rows_by_attr-in allowed a rid rows out found) [
        | inl here ↦ inl here
        | inr (member, later) ↦ inr (member, inr later)
      ])
      h

bonus_rows-IsRow :
    (d : Design) (iid a rid : ℕ)
    → is_among rid (lookup_or a [] (bonus_rows_by_attr d iid)) ≡ true
    → IsRow d iid a rid
unfolding bonus_rows_by_attr
bonus_rows-IsRow d iid a rid h =
    elim (rows_by_attr-in (bonus_group_rows d iid) a rid d.equipment_bonus [] h) [
      | inl here ↦ absurd (ground arith)
      | inr found ↦ found
    ]

sub_pool-in :
    (by_attr : Dict ℕ (List ℕ)) (p a : ℕ) (types : List ℕ)
    → is_among a (sub_pool by_attr p types) ≡ true
    → ((a == p) ≡ false) × (has_rows (lookup_or a [] by_attr) ≡ true) × (is_among a types ≡ true)
unfolding sub_pool
sub_pool-in by_attr p a [] h = absurd (ground arith)
sub_pool-in by_attr p a (t ∷ types) h = ground (arith, sub_pool-in by_attr p a types)

sub_pool-IsApart :
    (by_attr : Dict ℕ (List ℕ)) (p : ℕ) (types : List ℕ)
    → IsApart types
    → IsApart (sub_pool by_attr p types)
unfolding sub_pool
sub_pool-IsApart by_attr p [] h = tt
sub_pool-IsApart by_attr p (t ∷ types) h =
    by_test IsApart (not (t == p) && has_rows (lookup_or t [] by_attr)) _ _
      (λ _.
        (ground (arith, sub_pool-in by_attr p t types, h.0), sub_pool-IsApart by_attr p types h.1))
      (λ _. sub_pool-IsApart by_attr p types h.1)

module _ (host : Host) (random : IsRandom host) (d : Design) (iid : ℕ) where
  by_attr : Dict ℕ (List ℕ)
  by_attr = bonus_rows_by_attr d iid

  chosen :
      (s : State) (n : ℕ) (ids : List ℕ)
      → has_rows ids ≡ true
      → is_among (host.choice s n ids) ids ≡ true
  chosen s n [] h = absurd (ground arith)
  chosen s n (x ∷ xs) h = random.choice_in s n x xs

  pick-in :
      (s : State) (n rid : ℕ) (ids : List ℕ)
      → pick host s n ids ≡ some rid
      → is_among rid ids ≡ true
  unfolding pick
  pick-in s n rid [] h = absurd (ground arith)
  pick-in s n rid (x ∷ xs) h = ground (arith, random.choice_in s n x xs)

  roll_subs-IsSubs :
      (s : State) (j : ℕ) (types : List ℕ)
      → ((a : ℕ) → is_among a types ≡ true → has_rows (lookup_or a [] by_attr) ≡ true)
      → IsSubs d iid j types (roll_subs host s by_attr j types)
  unfolding roll_subs by_attr
  roll_subs-IsSubs s j [] h = tt
  roll_subs-IsSubs s j (a ∷ types) h = (
    refl,
    bonus_rows-IsRow d iid a _ (chosen s j _ (h a (ground arith))),
    roll_subs-IsSubs s (j + 1) types (λ b later. h b (ground arith)),
  )

  rolled_rune-IsShard :
      (slot level enhance : ℕ) (s : State)
      → rune_slot d iid ≡ some slot
      → IsShard d iid level enhance (rolled_rune host by_attr iid slot level enhance s)
  unfolding rolled_rune by_attr
  rolled_rune-IsShard slot level enhance s h =
      let p = rune_slot_primary slot in
      let pool = sub_pool by_attr p rune_sub_types in
      let n = min rune_bonus_attrs (length pool) in
      let types = host.sample s pool n in
      let pooled = λ (a : ℕ) (t : is_among a types ≡ true).
        sub_pool-in by_attr p a rune_sub_types (random.sample_in s pool n a t) in
      record {
        slot = slot;
        attr = _;
        types = types;
        is_slot = h;
        named = refl;
        has_attr = refl;
        levelled = refl;
        primary = λ rid found. bonus_rows-IsRow d iid p rid (pick-in s 0 rid _ found);
        subs = roll_subs-IsSubs s 1 types (λ a t. (pooled a t).1);
        few = omega (arith, random.sample_length s pool n (omega arith));
        apart = (
          ground (arith, pooled p),
          random.sample_apart s pool n (sub_pool-IsApart by_attr p rune_sub_types (ground arith)),
        );
        enhanced = refl;
      }

  rune_of-IsShard :
      (level enhance : ℕ) (s : State) (e : Item) (o : Option ℕ) (groups : Dict ℕ (List ℕ))
      → rune_slot d iid ≡ o
      → by_attr ≡ groups
      → rune_of host iid level enhance s o groups ≡ ok e
      → IsShard d iid level enhance e
  unfolding rune_of
  rune_of-IsShard level enhance s e none groups h same made = absurd (ground arith)
  rune_of-IsShard level enhance s e (some slot) [] h same made = absurd (ground arith)
  rune_of-IsShard level enhance s e (some slot) (g ∷ groups) h same made =
      let shown : rolled_rune host by_attr iid slot level enhance s ≡ e =
        ap (λ w. rolled_rune host w iid slot level enhance s) same ∙ ok_injective made in
      subst (IsShard d iid level enhance) shown (rolled_rune-IsShard slot level enhance s h)

  -- Where `make_rune` returns a starshard, its level is at most 15; the primary attribute is the
  -- one of the slot that the item names, and every row is of the bonus group of the item; it has at
  -- most four sub-stats, of attributes that differ from each other and from the primary one. It
  -- needs of `random` that a choice is of the list and a sample of different places.
  pub make_rune-IsShard :
      (level enhance : ℕ) (s : State) (e : Item)
      → make_rune host d iid level enhance s ≡ ok e
      → IsShard d iid level enhance e
  unfolding make_rune by_attr
  make_rune-IsShard level enhance s e =
      by_test (λ (r : Result GearError Item). r ≡ ok e → IsShard d iid level enhance e)
        (is_test_item host d iid) _ _ (λ _ h. absurd (ground arith))
        (λ _. rune_of-IsShard level enhance s e (rune_slot d iid) by_attr refl refl)
