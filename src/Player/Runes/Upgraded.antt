-- ===== src/Player/Runes/Upgraded.antt =====
-- What `upgrade_rune` does to the account.
use sevensins_server.Prelude.{
  ℕ, ◌+◌, ◌-◌, ◌≤◌, ◌≢◌, ◌≡◌, ◌⊎◌, refl, sym, ap, subst, ◌∙◌, inl, inr, min, Text, some, List, [],
  ◌∷◌, false, by_test, lookup, lookup_or-insert_self, lookup-insert, insert, nat_eq, ◌==◌,
  if◌then◌else◌, leb, ℤ, pos, ◌+ℤ◌, ◌-ℤ◌, ◌≤ℤ◌, ltb_ℤ, ltb_ℤ-cases, Result, ok, err, int_laws,
  arith,
}
use sevensins_server.Player.Types.{Formulas, Design, Attr, Item, State}
use sevensins_server.Player.Bag.{bag_of}
use sevensins_server.Player.Equips.{storage_equipment}
use sevensins_server.Player.Casts.{currency_coin, coins}
use sevensins_server.Player.Gear.{Host, rune_max_level, rune_bonus_attrs}
use sevensins_server.Player.Gear.Stored.{bag_of-put}
use sevensins_server.Player.Runes.{
  rune_levels_per_enhance, rune_upgrade_cost, find_rune, sub_slots, enhance_steps, enhanced,
  apply_enhances, RuneError, max_level_reached, coins_short, attr_of, not_negative, put_rune,
  upgrade_entry, upgrade_rune,
}

-- The starshard in the slot `sid` has gained levels for their cost.
pub record IsUpgraded (f : Formulas) (d : Design) (sid : ℕ) (e : Item) (s t : State) (e1 : Item)
    (gained cost : ℕ) : Type 0 where
  pub some_gained : 1 ≤ gained
  pub levelled : (attr_of e1.attr).level ≡ (attr_of e.attr).level + gained
  pub bounded : (attr_of e1.attr).level ≤ rune_max_level
  pub same_subs : (attr_of e1.attr).subs ≡ (attr_of e.attr).subs
  pub priced : cost ≡ rune_upgrade_cost f d e.iid (attr_of e.attr).level (attr_of e1.attr).level
  pub paid : coins t +ℤ pos cost ≡ coins s
  pub solvent : pos 0 ≤ℤ coins t
  pub stored : lookup sid (bag_of storage_equipment t) ≡ some e1
  pub others :
      (k : ℕ)
      → k ≢ sid
      → lookup k (bag_of storage_equipment t) ≡ lookup k (bag_of storage_equipment s)

enhanced-frame :
    (host : Host) (s : State) (attr : Attr) (steps : ℕ) (slots : List ℕ)
    → ((enhanced host s attr steps slots).1.level ≡ attr.level)
      × ((enhanced host s attr steps slots).1.subs ≡ attr.subs)
unfolding enhanced
enhanced-frame host s attr steps [] = (refl, refl)
enhanced-frame host s attr steps (j ∷ slots) = (refl, refl)

put-lookup :
    (k sid : ℕ) (e : Item) (s : State)
    → lookup k (bag_of storage_equipment (put_rune sid e s))
      ≡ (if sid == k then some e else lookup k (bag_of storage_equipment s))
put-lookup k sid e s =
    ap (lookup k) (bag_of-put storage_equipment (insert sid e (bag_of storage_equipment s)) s)
    ∙ lookup-insert sid k e (bag_of storage_equipment s)

less_cost : (a b : ℤ) → a -ℤ b +ℤ b ≡ a
less_cost a b = omega int_laws

not_negative_less : (a : ℤ) (n : ℕ) → ltb_ℤ a (pos n) ≡ false → pos 0 ≤ℤ a -ℤ pos n
not_negative_less a n h = elim (ltb_ℤ-cases a (pos n)) [
  | inl (short, less) ↦ absurd (ground (arith, h, short))
  | inr (enough, le) ↦ omega (int_laws, le)
]

-- What a request to raise a starshard leads to: an error, at which no balance changes, or the
-- levels for their price.
abbrev pub UpgradeOutcome :
    Formulas → Design → ℕ → Item → State → Result RuneError (Item × ℕ × ℕ) × State → Type 0
UpgradeOutcome f d sid e s r =
    (((x : RuneError) × (r.0 ≡ err x)) × (r.1.currency ≡ s.currency))
    ⊎ ((e1 : Item) × (gained : ℕ) × (cost : ℕ) × (r.0 ≡ ok (e1, gained, cost))
        × IsUpgraded f d sid e s r.1 e1 gained cost)

upgrade_entry-outcome :
    (host : Host) (f : Formulas) (d : Design) (sid : ℕ) (e : Item) (levels : ℤ) (s : State)
    → UpgradeOutcome f d sid e s (upgrade_entry host f d sid e levels s)
unfolding upgrade_entry apply_enhances attr_of
upgrade_entry-outcome host f d sid e levels s =
    let P = UpgradeOutcome f d sid e s in
    let attr = attr_of e.attr in
    let to = min (attr.level + not_negative levels) rune_max_level in
    let cost = rune_upgrade_cost f d e.iid attr.level to in
    let steps = enhance_steps attr.level to rune_levels_per_enhance in
    let raised = (apply_enhances host s (record attr { level = to }) steps rune_bonus_attrs).1 in
    let (level, subs) =
      enhanced-frame host s (record attr { level = to }) steps
        (sub_slots attr.subs 1 rune_bonus_attrs) in
    let e1 : Item = record e { attr = some raised } in
    let w : State = record s { currency = insert currency_coin (coins s -ℤ pos cost) s.currency } in
    (by_test P (leb to attr.level) _ _ (λ _. inl ((max_level_reached, refl), refl))
      (λ more.
        by_test P (ltb_ℤ (coins s) (pos cost)) _ _ (λ _. inl ((coins_short, refl), refl))
          (λ enough.
            let coins_after =
              lookup_or-insert_self currency_coin (coins s -ℤ pos cost) (pos 0) s.currency in
            let less : to ≡ attr.level + (to - attr.level) = ground (arith, more) in
            inr (
              e1,
              to - attr.level,
              cost,
              refl,
              record {
                some_gained = ground (arith, more);
                levelled = level ∙ less;
                bounded = omega (arith, level);
                same_subs = subs;
                priced = ap (rune_upgrade_cost f d e.iid attr.level) (sym level);
                paid = ap (λ n. n +ℤ pos cost) coins_after ∙ less_cost (coins s) (pos cost);
                solvent =
                    subst (λ n. pos 0 ≤ℤ n) (sym coins_after)
                      (not_negative_less (coins s) cost enough);
                stored = ground (arith, put-lookup sid sid e1 w);
                others = λ k other. ground (arith, other, put-lookup k sid e1 w);
              },
            ))))

-- A request to raise a starshard that is there, by whatever number of levels: either it ends in an
-- error and no balance changes, or the starshard gains levels, up to level 15, the coins fall by
-- the price of these levels and do not go below 0, the sub-stats stay, and every other piece stays
-- as it is.
pub upgrade_rune-outcome :
    (host : Host) (f : Formulas) (d : Design) (uid : Text) (levels : ℤ) (s : State) (sid : ℕ)
    (e : Item)
    → find_rune uid (bag_of storage_equipment s) ≡ some (sid, e)
    → UpgradeOutcome f d sid e s (upgrade_rune host f d uid levels s)
unfolding upgrade_rune
upgrade_rune-outcome host f d uid levels s sid e found =
    rw (found, upgrade_rune) (upgrade_entry-outcome host f d sid e levels s)
