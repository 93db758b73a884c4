-- ===== src/Player/Roster/Cases.antt =====
-- Each operation on casts either leaves the account or makes one change: what holds of the refusal
-- and of the change holds of the operation's answer and account.
use sevensins_server.Prelude.{
  ℕ, ◌+◌, ◌-◌, ◌*◌, times, ◌≤◌, ◌<◌, ◌≡◌, inl, inr, Text, some, Option-cases, List, [], Bool, true,
  false, ◌||◌, not, by_test, lookup, length, min, ◌==◌, text_eq, nat_eq, leb, ltb, if◌then◌else◌,
  Result, ok, ℤ, pos, ◌≤ℤ◌, ltb_ℤ, ltb_ℤ-cases, arith,
}
use sevensins_server.Player.Types.{Formulas, Design, Cast, State}
use sevensins_server.Player.Bag.{storage_normal, spend_item, has_item}
use sevensins_server.Player.Casts.{
  char_rarity, max_star, coins, take_coins, put_cast, star_of, all_held,
}
use sevensins_server.Player.Progress.{
  trainers, trainer_coin_cost, consumed, is_empty, total_of, train, level_up_char, rankup_gem,
  rank_up_cost, rank_up_char, super_rank_up_cost, super_rank_up_char,
}
use sevensins_server.Player.Feeding.{
  Fed, not_fed, materials, is_none, any_in_formation, consume, max_super_limit, ultra_levels,
  ultra_coin_cost, max_total_limit, food_totals, transcended, transcend_char, ultra_materials,
  ultra_transcend, limit_totals, char_limitup_cost, skilled, skill_up,
}

-- A guard of an operation.
guard :
    {A : Type 0} (Q : A × State → Type 0) (s : State) (x : A)
    → Q (x, s)
    → (b : Bool) (rest : A × State) → (b ≡ false → Q rest)
    → Q (if b then (x, s) else rest)
guard Q s x h b rest change = by_test Q b (x, s) rest (λ _. h) change

module _ (d : Design) (s : State) (uid : Text) where
  pub level_up_char-cases :
      (f : Formulas) (counts : List ℤ) (Q : (Bool × ℤ × List (ℕ × ℤ)) × State → Type 0)
      → let items = consumed trainers counts in
        let cost = times trainer_coin_cost (total_of items) in
        Q ((false, pos 0, []), s)
        → ((e : Cast)
            → lookup uid s.roster ≡ some e
            → all_held items s ≡ true
            → Q ((true, cost, items), train f d uid e items s))
        → Q (level_up_char f d uid counts s)
  unfolding level_up_char
  level_up_char-cases f counts Q h change = elim (Option-cases (lookup uid s.roster)) [
    | inl absent ↦ rw (absent, level_up_char) h
    | inr (e, found) ↦
        let items = consumed trainers counts in
        let refuse = guard Q s (false, pos 0, []) h in
        rw (found, level_up_char)
          (refuse (is_empty items) _ (λ _.
            refuse (ltb_ℤ (coins s) (times trainer_coin_cost (total_of items))) _
              (λ _. refuse (not (all_held items s)) _ (λ held. change e found (ground arith)))))
  ]

  pub rank_up_char-cases :
      (Q : (Bool × ℕ × ℕ) × State → Type 0)
      → Q ((false, 0, 0), s)
      → ((e : Cast)
          → let (gems, cost) = rank_up_cost (star_of d e) in
            lookup uid s.roster ≡ some e
            → 3 ≤ star_of d e
            → star_of d e < max_star
            → has_item rankup_gem (pos gems) s ≡ true
            → pos cost ≤ℤ coins s
            → Q (
              (true, gems, cost),
              put_cast uid
                  (record e { star = some (star_of d e + 1) })
                  (take_coins (pos cost) (spend_item rankup_gem (pos gems) storage_normal s).1),
            ))
      → Q (rank_up_char d uid s)
  unfolding rank_up_char
  rank_up_char-cases Q h change = elim (Option-cases (lookup uid s.roster)) [
    | inl absent ↦ rw (absent, rank_up_char) h
    | inr (e, found) ↦
        let (gems, cost) = rank_up_cost (star_of d e) in
        let refuse = guard Q s (false, 0, 0) h in
        rw (found, rank_up_char)
          (refuse (ltb (star_of d e) 3 || leb max_star (star_of d e)) _ (λ star.
            refuse (gems == 0) _ (λ _. refuse (not (has_item rankup_gem (pos gems) s)) _ (λ held.
              refuse (ltb_ℤ (coins s) (pos cost)) _ (λ rich.
                change e found (ground arith) (ground arith) (ground arith)
                  (ground (arith, ltb_ℤ-cases (coins s) (pos cost))))))))
  ]

  pub super_rank_up_char-cases :
      (Q : (Bool × ℕ) × State → Type 0)
      → Q ((false, 0), s)
      → ((e : Cast) (cost : ℕ)
          → lookup uid s.roster ≡ some e
          → super_rank_up_cost d e ≡ some cost
          → e.super_star < 6
          → pos cost ≤ℤ coins s
          → Q (
            (true, cost),
            put_cast uid
                (record e { star = some max_star; super_star = e.super_star + 1 })
                (take_coins (pos cost) s),
          ))
      → Q (super_rank_up_char d uid s)
  unfolding super_rank_up_char super_rank_up_cost
  super_rank_up_char-cases Q h change = elim (Option-cases (lookup uid s.roster)) [
    | inl absent ↦ rw (absent, super_rank_up_char) h
    | inr (e, found) ↦ elim (Option-cases (super_rank_up_cost d e)) [
      | inl refused ↦ rw (found, super_rank_up_char, refused, super_rank_up_char) h
      | inr (cost, price) ↦
          let low : e.super_star < 6 = ground arith in
          rw (found, super_rank_up_char, price, super_rank_up_char)
            (guard Q s (false, 0) h (ltb_ℤ (coins s) (pos cost)) _
              (λ rich.
                change e cost found price low (ground (arith, ltb_ℤ-cases (coins s) (pos cost)))))
    ]
  ]

module _ (d : Design) (s : State) (uid : Text) (uids : List Text)
    (Q : Result Text Fed × State → Type 0) (h : Q (ok not_fed, s)) where
  refuse :
      (b : Bool) (rest : Result Text Fed × State)
      → (b ≡ false → Q rest)
      → Q (if b then (ok not_fed, s) else rest)
  refuse = guard Q s (ok not_fed) h

  pub transcend_char-cases :
      (f : Formulas)
      → ((e : Cast)
          → let mats = materials uid uids s.roster in
            let (pxp, cost) = food_totals d (d.char e.id).job mats s.roster in
            lookup uid s.roster ≡ some e
            → any_in_formation mats s.formations ≡ false
            → Q (consume mats cost (true, mats, pxp, cost) (put_cast uid (transcended f pxp e) s)))
      → Q (transcend_char f d uid uids s)
  unfolding transcend_char
  transcend_char-cases f change = elim (Option-cases (lookup uid s.roster)) [
    | inl absent ↦ rw (absent, transcend_char) h
    | inr (e, found) ↦
        let mats = materials uid uids s.roster in
        let (pxp, cost) = food_totals d (d.char e.id).job mats s.roster in
        rw (found, transcend_char)
          (refuse (is_none mats) _ (λ _.
            refuse (any_in_formation mats s.formations) _
              (λ free. refuse (ltb_ℤ (coins s) (pos cost)) _ (λ _. change e found free))))
  ]

  pub ultra_transcend-cases :
      ((e : Cast)
        → let mats = ultra_materials uid e.id uids s in
          let cost = ultra_coin_cost * length mats in
          let level = min max_super_limit (e.super_limit + ultra_levels * length mats) in
          lookup uid s.roster ≡ some e
          → Q (
              consume mats cost
                (true, mats, level - e.super_limit, cost)
                (put_cast uid (record e { super_limit = level }) s)))
      → Q (ultra_transcend d uid uids s)
  unfolding ultra_transcend
  ultra_transcend-cases change = elim (Option-cases (lookup uid s.roster)) [
    | inl absent ↦ rw (absent, ultra_transcend) h
    | inr (e, found) ↦
        let mats = ultra_materials uid e.id uids s in
        rw (found, ultra_transcend)
          (refuse (not ((d.char e.id).rarity == 5)) _ (λ _.
            refuse (leb max_super_limit e.super_limit) _ (λ _. refuse (is_none mats) _ (λ _.
              refuse (ltb_ℤ (coins s) (pos (ultra_coin_cost * length mats))) _
                (λ _. change e found)))))
  ]

  pub skill_up-cases :
      ((e : Cast)
        → let mats = materials uid uids s.roster in
          let cur = e.limit_book + e.limit_char in
          let added = limit_totals d mats s.roster in
          let gained = min (cur + added.0 + added.1) max_total_limit - cur in
          let cost = gained * char_limitup_cost (char_rarity d e.id) in
          lookup uid s.roster ≡ some e
          → any_in_formation mats s.formations ≡ false
          → Q (consume mats cost (true, mats, gained, cost) (put_cast uid (skilled added e) s)))
      → Q (skill_up d uid uids s)
  unfolding skill_up
  skill_up-cases change = elim (Option-cases (lookup uid s.roster)) [
    | inl absent ↦ rw (absent, skill_up) h
    | inr (e, found) ↦
        let mats = materials uid uids s.roster in
        let cur = e.limit_book + e.limit_char in
        let added = limit_totals d mats s.roster in
        let gained = min (cur + added.0 + added.1) max_total_limit - cur in
        let cost = gained * char_limitup_cost (char_rarity d e.id) in
        rw (found, skill_up)
          (refuse (is_none mats) _ (λ _. refuse (any_in_formation mats s.formations) _ (λ free.
            refuse (leb max_total_limit cur) _ (λ _.
              refuse (gained == 0) _
                (λ _. refuse (ltb_ℤ (coins s) (pos cost)) _ (λ _. change e found free))))))
  ]
