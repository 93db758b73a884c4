-- ===== src/Player/Karma/Gifts.antt =====
-- `give_gifts` on the account.
use sevensins_server.Prelude.{
  ℕ, ◌-◌, ◌≡◌, ◌∙◌, refl, sym, ap, subst, some, none, List, [], ◌∷◌, length, Bool, true, false, not,
  by_test, Dict, IsDict, insert-IsDict, lookup, lookup_or, lookup-insert_self, insert, ◌==◌, nat_eq,
  nat_beq_iff, leb, ltb, if◌then◌else◌, ℤ, pos, ◌+ℤ◌, leb_ℤ, ltb_ℤ, arith,
}
use sevensins_server.Player.Types.{Formulas, Design, Karma, State}
use sevensins_server.Player.Quests.{bump_quest_counter}
use sevensins_server.Player.Bag.{storage_normal, item_count, has_item, spend_item}
use sevensins_server.Player.Casts.{climb, all_held, spend_all}
use sevensins_server.Player.Casts.Climbing.{IsClimbed, climb-IsClimbed}
use sevensins_server.Player.Casts.Spending.{
  taken, asked_of, spend-held, held_congr, spend_all_lem, spend_all-frame, counts_congr,
}
use sevensins_server.Player.Mail.{add_mail}
use sevensins_server.Player.Teams.{add_gains, place, sorted}
use sevensins_server.Player.Karma.{
  max_flv, karma_of, karma_rank_rewards, risen, mail_rewards, grant_karma, positive, amounts,
  gifts_xp, spend_gifts, max_gift_types, max_gifts, Given, not_given, wanted_of, give_gifts,
}

place-absent :
    (j item : ℕ) (n : ℤ) (ps : Dict ℕ ℤ)
    → (item == j) ≡ false
    → lookup j ps ≡ none
    → lookup j (place (item, n) ps) ≡ none
unfolding place
place-absent j item n [] h absent = ground arith
place-absent j item n ((i, m) ∷ ps) h absent = ground (arith, place-absent j item n ps)

place-IsDict :
    (item : ℕ) (n : ℤ) (ps : Dict ℕ ℤ)
    → lookup item ps ≡ none
    → IsDict ps
    → IsDict (place (item, n) ps)
unfolding place
place-IsDict item n [] absent d = (refl, tt)
place-IsDict item n ((i, m) ∷ ps) absent d =
    let other : (i == item) ≡ false = ground arith in
    let other' : (item == i) ≡ false = ground (arith, nat_beq_iff i item, nat_beq_iff item i) in
    by_test (λ (q : Dict ℕ ℤ). IsDict q) (leb item i) _ _ (λ _. (absent, d))
      (λ _. (place-absent i item n ps other' d.0, place-IsDict item n ps (ground arith) d.1))

sorted-absent : (j : ℕ) (ps : Dict ℕ ℤ) → lookup j ps ≡ none → lookup j (sorted ps) ≡ none
unfolding sorted
sorted-absent j [] h = refl
sorted-absent j ((i, n) ∷ ps) h =
    place-absent j i n (sorted ps) (ground arith) (sorted-absent j ps (ground arith))

sorted-IsDict : (ps : Dict ℕ ℤ) → IsDict ps → IsDict (sorted ps)
unfolding sorted
sorted-IsDict [] d = tt
sorted-IsDict ((i, n) ∷ ps) d =
    place-IsDict i n (sorted ps) (sorted-absent i ps d.0) (sorted-IsDict ps d.1)

add_gains-IsDict : (items : List (ℕ × ℤ)) (g : Dict ℕ ℤ) → IsDict g → IsDict (add_gains items g)
unfolding add_gains
add_gains-IsDict [] g d = d
add_gains-IsDict ((i, n) ∷ items) g d = add_gains-IsDict items _ (insert-IsDict i _ g d)

wanted_of-IsDict : (pairs : List (ℕ × ℤ)) → IsDict (wanted_of pairs)
unfolding wanted_of
wanted_of-IsDict pairs = sorted-IsDict _ (add_gains-IsDict (positive pairs) [] tt)

spend_item-paid :
    (item : ℕ) (n : ℤ) (s : State)
    → has_item item n s ≡ true
    → (spend_item item n storage_normal s).0 ≡ true
unfolding has_item spend_item item_count
spend_item-paid item n s h = ground arith

-- Of different items that are all held, none is refused.
spend_gifts-held :
    (items : List (ℕ × ℤ)) (s : State)
    → IsDict items
    → all_held items s ≡ true
    → spend_gifts items s ≡ (true, spend_all items s)
unfolding spend_gifts spend_all all_held
spend_gifts-held [] s d h = refl
spend_gifts-held ((item, n) ∷ items) s (fresh, d) h =
    let held : has_item item n s ≡ true = ground arith in
    let t = (spend_item item n storage_normal s).1 in
    let (own, others) = spend-held item n s held in
    let held_t : all_held items t ≡ true = held_congr s t items item fresh others ∙ ground arith in
    rw (spend_item-paid item n s held) (spend_gifts-held items t d held_t)

-- What `grant_karma` leaves of the bags, and makes of the karma.
grant_karma-keeps :
    (f : Formulas) (d : Design) (now char : ℕ) (fexp : ℤ) (s : State)
    → let t = (grant_karma f d now char fexp s).1 in
      let r = risen f (d.char char).rarity fexp (karma_of char s) in
      (t.backpack ≡ s.backpack) × (t.karma ≡ insert char r s.karma)
unfolding grant_karma bump_quest_counter mail_rewards add_mail
grant_karma-keeps f d now char fexp s =
    let k = karma_of char s in
    let r = risen f (d.char char).rarity fexp k in
    let t = record s { karma = insert char r s.karma } in
    let (same_bags, same_karma) = mailed (karma_rank_rewards d char k.flv r.flv) r.flv t in
    by_test
      (λ (w : (List (ℕ × ℤ) × List ℕ) × State).
        (w.1.backpack ≡ s.backpack) × (w.1.karma ≡ insert char r s.karma))
      (leb r.flv k.flv) _ _ (λ _. (refl, refl)) (λ _. (same_bags, same_karma))
  where
    mailed :
        (owed : List (ℕ × ℤ)) (flv : ℕ) (t : State)
        → ((mail_rewards now flv owed t).backpack ≡ t.backpack)
          × ((mail_rewards now flv owed t).karma ≡ t.karma)
    mailed [] flv t = (refl, refl)
    mailed (p ∷ owed) flv t = (refl, refl)

-- Gifts that are given, `items`: each count falls by what is given of it, and the karma climbs the
-- ranks that the experience pays for, up to the last, where the rest is dropped.
pub record IsGiven (f : Formulas) (d : Design) (char : ℕ) (items : List (ℕ × ℤ)) (s t : State)
    : Type 0 where
  pub gifts_spent :
      (j : ℕ)
      → item_count storage_normal j t +ℤ taken (asked_of j items) ≡ item_count storage_normal j s
  pub karma :
      (flv : ℕ) × (fxp : ℤ) × IsClimbed
        (f.char_flv_need_xp (d.char char).rarity)
        max_flv
        (karma_of char s).flv
        ((karma_of char s).fxp +ℤ gifts_xp d char items)
        flv
        fxp
      × (lookup char t.karma
          ≡ some (
              if leb max_flv flv
              then record { flv = max_flv; fxp = pos 0 }
              else record { flv = flv; fxp = fxp }))

pub GiftOutcome : Formulas → Design → ℕ → List (ℕ × ℤ) → State → Given × State → Type 0
GiftOutcome f d char pairs s ((false, total, items, owed), t) = t ≡ s
GiftOutcome f d char pairs s ((true, total, items, owed), t) =
    (items ≡ wanted_of pairs)
    × (total ≡ gifts_xp d char items)
    × (leb_ℤ total (pos 0) ≡ false)
    × (ltb_ℤ max_gifts (amounts items) ≡ false)
    × IsGiven f d char items s t

module _ (f : Formulas) (d : Design) (now char : ℕ) (pairs : List (ℕ × ℤ)) (s : State) where
  grant_karma-IsGiven :
      all_held (wanted_of pairs) s ≡ true
      → let items = wanted_of pairs in
        IsGiven f d char items s
          (grant_karma f d now char (gifts_xp d char items) (spend_gifts items s).1).1
  unfolding risen
  grant_karma-IsGiven held =
      let items = wanted_of pairs in
      let dict = wanted_of-IsDict pairs in
      let u = spend_all items s in
      let spent = spend_gifts-held items s dict held in
      let total = gifts_xp d char items in
      let (bags, karma) = grant_karma-keeps f d now char total u in
      let same = ap (λ (w : State). w.karma) (spend_all-frame items s) in
      let k = karma_of char s in
      let need = f.char_flv_need_xp (d.char char).rarity in
      let (flv, fxp) = climb need (max_flv - k.flv) max_flv k.flv (k.fxp +ℤ total) in
      subst (λ (w : Bool × State). IsGiven f d char items s (grant_karma f d now char total w.1).1)
        (sym spent)
        (record {
          gifts_spent = λ j.
              ap (λ c. c +ℤ taken (asked_of j items)) (counts_congr u _ j bags)
              ∙ spend_all_lem items s j dict held;
          karma = (
            flv,
            fxp,
            climb-IsClimbed need (max_flv - k.flv) max_flv k.flv (k.fxp +ℤ total) (omega arith),
            ap (λ (m : Dict ℕ Karma). lookup char m) karma
                ∙ lookup-insert_self char _ u.karma
                ∙ ap
                    (λ (m : Dict ℕ Karma). some (
                      risen f (d.char char).rarity total
                        (lookup_or char (record { flv = 1; fxp = pos 0 }) m)))
                    same,
          );
        })

  -- Every request of `give_gifts` is refused and nothing changes, or gives the gifts of the
  -- request, each once with the amounts of its pairs together, at most two hundred and worth some
  -- karma: each count falls by what is given, and the karma climbs the ranks that the gifts pay
  -- for. No request is refused when a part of it is spent.
  pub give_gifts-outcome : GiftOutcome f d char pairs s (give_gifts f d now char pairs s)
  unfolding give_gifts GiftOutcome
  give_gifts-outcome =
      let P = GiftOutcome f d char pairs s in
      let items = wanted_of pairs in
      let total = gifts_xp d char items in
      by_test P (leb (length items) 0) (not_given, s) _ (λ _. refl)
        (λ _.
          by_test P (ltb max_gift_types (length items)) (not_given, s) _ (λ _. refl)
            (λ _.
              by_test P (ltb_ℤ max_gifts (amounts items)) (not_given, s) _ (λ _. refl)
                (λ few.
                  by_test P (not (all_held items s)) (not_given, s) _ (λ _. refl)
                    (λ all.
                      by_test P (leb_ℤ total (pos 0)) (not_given, s) _ (λ _. refl)
                        (λ worth.
                          let held : all_held items s ≡ true = ground arith in
                          let paid : (spend_gifts items s).0 ≡ true =
                            ap (λ (w : Bool × State). w.0)
                              (spend_gifts-held items s (wanted_of-IsDict pairs) held) in
                          by_test P (not (spend_gifts items s).0) _ _
                            (λ unpaid. absurd (ground arith))
                            (λ _. (refl, refl, worth, few, grant_karma-IsGiven held)))))))
