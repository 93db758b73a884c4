-- ===== src/Player/Roster/Inheriting.antt =====
-- What `inherit_char` makes of the roster and the teams.
use sevensins_server.Prelude.{
  ℕ, ◌+◌, ◌-◌, ◌<◌, ◌≡◌, refl, sym, subst, ap, inl, inr, Text, some, Option-cases, List, Bool, ◌||◌,
  not, by_test, Dict, lookup, insert, AllValues-insert, AllValues-lookup, get_or, ◌==◌, text_eq,
  text_beq, nat_eq, leb, ltb, Result, ℤ, pos, leb_ℤ, ltb_ℤ, ◌+ℤ◌, arith,
}
use sevensins_server.Player.Types.{Design, Cast, Formation, State}
use sevensins_server.Player.Quests.{bump_quest_counter}
use sevensins_server.Player.Money.{balance, currency_cash, currency_cash_paid, spend_diamonds}
use sevensins_server.Player.Casts.{char_rarity, in_formation}
use sevensins_server.Player.Casts.Spending.{spend-frame}
use sevensins_server.Player.Feeding.{max_limit_book, max_total_limit}
use sevensins_server.Player.Inherit.{
  NoInherit, impart_limit, inherit_cost_diamond, inherit_materials, pay_inherit, apprenticed,
  mentored, imparted, impart, inherit_char, alignment_base, alignment_count,
}
use sevensins_server.Player.Roster.{IsCast, IsRoster}
use sevensins_server.Player.Roster.Limits.{apprenticed-IsCast, mentored-IsCast}

-- The two keys of the account that the lemmas are about.
abbrev pub lists : State → Dict Text Cast × List Formation
lists s = (s.roster, s.formations)

spend_diamonds-lists :
    (d : Design) (amount : ℤ) (s : State) → lists (spend_diamonds d amount s).1 ≡ lists s
unfolding spend_diamonds bump_quest_counter
spend_diamonds-lists d amount s =
    let P : Bool × State → Type 0 = λ r. lists r.1 ≡ lists s in
    by_test P (leb_ℤ amount (pos 0)) _ _ (λ _. refl)
      (λ _.
        by_test P
          (ltb_ℤ (balance currency_cash s.currency +ℤ balance currency_cash_paid s.currency) amount)
          _ _ (λ _. refl) (λ _. refl))

pay_inherit-lists :
    (d : Design) (cost_type idx : ℕ) (s : State) → lists (pay_inherit d cost_type idx s).1 ≡ lists s
unfolding pay_inherit
pay_inherit-lists d cost_type idx s =
    by_test (λ (r : Bool × State). lists r.1 ≡ lists s) (cost_type == inherit_cost_diamond) _ _
      (λ _. spend_diamonds-lists d _ s)
      (λ _. ap lists (spend-frame (get_or inherit_materials idx 0) (pos 1) s))

-- An inherit leaves the roster, or changes the two casts, the apprentice below the caps.
module _ (P : Dict Text Cast × List Formation → Type 0) (d : Design) (in_uid out_uid : Text)
    (s : State) (h : P (lists s)) where
  impart-cases :
      (cost_type idx : ℕ) (app men : Cast)
      → (app.limit_book < max_limit_book
          → app.limit_book + app.limit_char < max_total_limit
          → P (
            insert out_uid (mentored men) (insert in_uid (apprenticed app) s.roster),
            s.formations,
          ))
      → P (lists (impart d in_uid out_uid cost_type idx app men s).1)
  unfolding impart imparted
  impart-cases cost_type idx app men change =
      let Q : Result NoInherit (ℕ × ℕ × ℕ) × State → Type 0 = λ r. P (lists r.1) in
      let t = record s { impart_limit = impart_limit s } in
      let same = pay_inherit-lists d cost_type idx t in
      by_test Q (get_or (impart_limit s) idx 0 == 0) _ _ (λ _. h)
        (λ _.
          by_test Q (men.limit_book + men.limit_char == 0) _ _ (λ _. h)
            (λ _.
              by_test Q
                (leb max_limit_book app.limit_book
                  || leb max_total_limit (app.limit_book + app.limit_char))
                _ _ (λ _. h)
                (λ low.
                  by_test Q (not (pay_inherit d cost_type idx t).0) _ _ (λ _. subst P (sym same) h)
                    (λ _.
                      subst
                        (λ (w : Dict Text Cast × List Formation). P (
                          insert out_uid (mentored men) (insert in_uid (apprenticed app) w.0),
                          w.1,
                        ))
                        (sym same) (change (ground arith) (ground arith))))))

  pub inherit_char-cases :
      (cost_type : ℕ)
      → ((app men : Cast)
          → lookup in_uid s.roster ≡ some app
          → lookup out_uid s.roster ≡ some men
          → app.limit_book < max_limit_book
          → app.limit_book + app.limit_char < max_total_limit
          → P (
            insert out_uid (mentored men) (insert in_uid (apprenticed app) s.roster),
            s.formations,
          ))
      → P (lists (inherit_char d in_uid out_uid cost_type s).1)
  unfolding inherit_char
  inherit_char-cases cost_type change = elim (Option-cases (lookup in_uid s.roster)) [
    | inl absent ↦ rw (absent, inherit_char) h
    | inr (app, found) ↦ elim (Option-cases (lookup out_uid s.roster)) [
      | inl absent ↦ rw (found, inherit_char, absent, inherit_char) h
      | inr (men, mentor) ↦
          let Q : Result NoInherit (ℕ × ℕ × ℕ) × State → Type 0 = λ r. P (lists r.1) in
          let alignment = (d.char app.id).alignment in
          rw (found, inherit_char, mentor, inherit_char)
            (by_test Q (text_beq in_uid out_uid) _ _ (λ _. h)
              (λ _.
                by_test Q (ltb (char_rarity d app.id) 4 || ltb (char_rarity d men.id) 4) _ _
                  (λ _. h)
                  (λ _.
                    by_test Q (not (char_rarity d app.id == char_rarity d men.id)) _ _ (λ _. h)
                      (λ _.
                        by_test Q (in_formation out_uid s.formations) _ _ (λ _. h)
                          (λ _.
                            by_test Q
                              (ltb alignment alignment_base
                                || leb (alignment_base + alignment_count) alignment)
                              _ _ (λ _. h)
                              (λ _.
                                impart-cases cost_type (alignment - alignment_base) app men
                                  (change app men found mentor)))))))
    ]
  ]

pub inherit_char-IsRoster :
    (d : Design) (in_uid out_uid : Text) (cost_type : ℕ) (s : State)
    → IsRoster d s.roster
    → IsRoster d (inherit_char d in_uid out_uid cost_type s).1.roster
inherit_char-IsRoster d in_uid out_uid cost_type s h =
    inherit_char-cases (λ r. IsRoster d r.0) d in_uid out_uid s h cost_type
      (λ app men found mentor book total.
        AllValues-insert (IsCast d) out_uid (mentored men) _
          (mentored-IsCast d men (AllValues-lookup (IsCast d) out_uid men s.roster h mentor))
          (AllValues-insert (IsCast d) in_uid (apprenticed app) s.roster
            (apprenticed-IsCast d app (AllValues-lookup (IsCast d) in_uid app s.roster h found) book
              total)
            h))
