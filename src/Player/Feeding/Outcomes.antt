-- ===== src/Player/Feeding/Outcomes.antt =====
-- `transcend_char`, `ultra_transcend` and `skill_up` on the account.
use sevensins_server.Prelude.{
  ℕ, ◌+◌, ◌-◌, ◌*◌, ◌≡◌, ◌∙◌, refl, ap, inl, inr, min, Text, some, none, Option-cases, List, [],
  ◌∷◌, length, true, false, ◌&&◌, not, Bool-cases, by_test, Dict, IsDict, insert-IsDict, lookup,
  lookup-insert, lookup-insert_self, contains, insert, ◌==◌, text_eq, text_beq, nat_eq, Result, ok,
  err, pos, ◌+ℤ◌, arith,
}
use sevensins_server.Player.Types.{Formulas, Design, Cast, State}
use sevensins_server.Player.Equips.{mem}
use sevensins_server.Player.Casts.{char_rarity, coins, put_cast, in_formation}
use sevensins_server.Player.Roster.Cases.{
  transcend_char-cases, ultra_transcend-cases, skill_up-cases,
}
use sevensins_server.Player.Feeding.{
  Fed, materials, consume, food_totals, transcended, transcend_char, ultra_materials, ultra_levels,
  ultra_coin_cost, max_super_limit, ultra_transcend, limit_totals, max_total_limit,
  char_limitup_cost, skilled, skill_up,
}
use sevensins_server.Player.Feeding.Consuming.{repeats, all_present, consume-repeated, consume-once}

-- A feeding that is done: the target has its new entry, the materials are gone, no other cast and
-- no team changes, and the coins fall by the price.
pub record IsFed (uid : Text) (e' : Cast) (ms : List Text) (price : ℕ) (s t : State) : Type 0 where
  pub target : lookup uid t.roster ≡ some e'
  pub gone : (u : Text) → mem u ms ≡ true → lookup u t.roster ≡ none
  pub kept :
      (u : Text) → text_beq uid u ≡ false → mem u ms ≡ false → lookup u t.roster ≡ lookup u s.roster
  pub coins_spent : coins t +ℤ pos price ≡ coins s
  pub teams : t.formations ≡ s.formations

-- The outcomes of a feeding with the materials `mats`, the new entry `grown` and the price `price`,
-- by the target's entry. It is refused and nothing changes; or it is done, with different
-- materials; or a material repeats, and the KeyError of one of them is raised once the target has
-- its new entry, and before any coin is charged.
pub FedOutcome :
    Text
    → (Cast → List Text)
    → (Cast → Cast)
    → (Cast → ℕ)
    → State
    → Result Text Fed × State
    → Type 0
FedOutcome uid mats grown price s (ok (false, ms, gained, cost), t) = t ≡ s
FedOutcome uid mats grown price s (ok (true, ms, gained, cost), t) =
    (e : Cast) × (lookup uid s.roster ≡ some e)
    × (ms ≡ mats e)
    × (cost ≡ price e)
    × (repeats (mats e) ≡ false)
    × IsFed uid (grown e) (mats e) (price e) s t
FedOutcome uid mats grown price s (err k, t) =
    (e : Cast) × (lookup uid s.roster ≡ some e)
    × (repeats (mats e) ≡ true)
    × (mem k (mats e) ≡ true)
    × (coins t ≡ coins s)
    × (lookup uid t.roster ≡ some (grown e))

all_present-insert :
    (k : Text) (e : Cast) (ms : List Text) (r : Dict Text Cast)
    → all_present ms r ≡ true
    → all_present ms (insert k e r) ≡ true
unfolding all_present
all_present-insert k e [] r h = refl
all_present-insert k e (m ∷ ms) r h =
    ground (arith, lookup-insert k m e r, all_present-insert k e ms r)

materials-present :
    (uid : Text) (ms : List Text) (r : Dict Text Cast)
    → (all_present (materials uid ms r) r ≡ true) × (mem uid (materials uid ms r) ≡ false)
unfolding materials all_present mem
materials-present uid [] r = (refl, refl)
materials-present uid (m ∷ ms) r =
    let rest = materials-present uid ms r in
    by_test (λ (xs : List Text). (all_present xs r ≡ true) × (mem uid xs ≡ false))
      (not (text_beq m []) && not (text_beq m uid) && contains m r) _ _ (λ fits. ground arith)
      (λ _. rest)

ultra_materials-present :
    (uid : Text) (id : ℕ) (ms : List Text) (s : State)
    → (all_present (ultra_materials uid id ms s) s.roster ≡ true)
      × (mem uid (ultra_materials uid id ms s) ≡ false)
unfolding ultra_materials all_present mem
ultra_materials-present uid id [] s = (refl, refl)
ultra_materials-present uid id (m ∷ ms) s =
    let rest = ultra_materials-present uid id ms s in
    elim (Option-cases (lookup m s.roster)) [
      | inl absent ↦ rw (absent, ultra_materials) rest
      | inr (e, found) ↦
          rw (found, ultra_materials)
            (by_test (λ (xs : List Text). (all_present xs s.roster ≡ true) × (mem uid xs ≡ false))
              (not (text_beq m [])
                && not (text_beq m uid)
                && e.id == id
                && not (in_formation m s.formations))
              _ _ (λ fits. ground arith) (λ _. rest))
    ]

module _ (uid : Text) (mats : Cast → List Text) (grown : Cast → Cast) (price : Cast → ℕ) (s : State)
    (dict : IsDict s.roster) where
  consumed-FedOutcome :
      (e : Cast) (gained : ℕ)
      → lookup uid s.roster ≡ some e
      → (all_present (mats e) s.roster ≡ true) × (mem uid (mats e) ≡ false)
      → FedOutcome uid mats grown price s
          (consume (mats e) (price e) (true, mats e, gained, price e) (put_cast uid (grown e) s))
  unfolding FedOutcome
  consumed-FedOutcome e gained found (all, apart) =
      let u = put_cast uid (grown e) s in
      let own = lookup-insert_self uid (grown e) s.roster in
      let answer : Fed = (true, mats e, gained, price e) in
      let dict' = insert-IsDict uid (grown e) s.roster dict in
      elim (Bool-cases (repeats (mats e))) [
        | inl twice ↦
            let r = consume-repeated (mats e) (price e) answer u dict' twice in
            let (k, at, is) = r.raised in
            rw is (e, found, twice, at, ap (λ (w : State). coins w) r.frame, r.kept uid apart ∙ own)
        | inr once ↦
            let (is, c) =
              consume-once (mats e) (price e) answer u dict'
                (all_present-insert uid (grown e) (mats e) s.roster all) once in
            rw is (
              e,
              found,
              refl,
              refl,
              once,
              record {
                target = c.kept uid apart ∙ own;
                gone = c.gone;
                kept = λ v other out.
                    c.kept v out ∙ ground (arith, lookup-insert uid v (grown e) s.roster);
                coins_spent = c.coins_spent;
                teams = c.teams;
              },
            )
      ]

module _ (d : Design) (uid : Text) (uids : List Text) (s : State) where
  abbrev pub ultra_mats : Cast → List Text
  ultra_mats e = ultra_materials uid e.id uids s

  abbrev pub chosen : List Text
  chosen = materials uid uids s.roster

  abbrev pub food : Cast → ℕ × ℕ
  food e = food_totals d (d.char e.id).job chosen s.roster

  abbrev pub ultra_raised : Cast → Cast
  ultra_raised e = record e {
    super_limit = min max_super_limit (e.super_limit + ultra_levels * length (ultra_mats e));
  }

  abbrev pub skill_gain : Cast → ℕ
  skill_gain e =
      let cur = e.limit_book + e.limit_char in
      let added = limit_totals d chosen s.roster in
      min (cur + added.0 + added.1) max_total_limit - cur

  abbrev pub skill_price : Cast → ℕ
  skill_price e = skill_gain e * char_limitup_cost (char_rarity d e.id)

  module _ (dict : IsDict s.roster) where
    -- On a roster that has each uid once, every request of `transcend_char` is refused without a
    -- trace, or is done, or repeats a material. Done, the target has the plus and the plus
    -- experience of the level loop, the materials of the request are gone, no other cast and no
    -- team changes, and the coins fall by the price of the materials. With a material that repeats
    -- a KeyError is raised when the target has its new plus already, and no coin is charged.
    pub transcend_char-outcome :
        (f : Formulas)
        → FedOutcome uid
            (λ e. chosen)
            (λ e. transcended f (food e).0 e)
            (λ e. (food e).1)
            s
            (transcend_char f d uid uids s)
    unfolding FedOutcome
    transcend_char-outcome f =
        let grown : Cast → Cast = λ e. transcended f (food e).0 e in
        let price : Cast → ℕ = λ e. (food e).1 in
        transcend_char-cases d s uid uids (FedOutcome uid (λ e. chosen) grown price s) refl f
          (λ e found _.
            consumed-FedOutcome uid (λ e. chosen) grown price s dict e (food e).0 found
              (materials-present uid uids s.roster))

    -- The same of `ultra_transcend`. Done, the ultra level rises by five for each material, up to
    -- twenty, for three million coins a material, and the materials are the casts of the request of
    -- the same character that are in no team.
    pub ultra_transcend-outcome :
        FedOutcome uid ultra_mats ultra_raised
          (λ e. ultra_coin_cost * length (ultra_mats e))
          s
          (ultra_transcend d uid uids s)
    unfolding FedOutcome
    ultra_transcend-outcome =
        let price : Cast → ℕ = λ e. ultra_coin_cost * length (ultra_mats e) in
        ultra_transcend-cases d s uid uids (FedOutcome uid ultra_mats ultra_raised price s) refl
          (λ e found.
            consumed-FedOutcome uid ultra_mats ultra_raised price s dict e
              ((ultra_raised e).super_limit - e.super_limit) found
              (ultra_materials-present uid e.id uids s))

    -- On a roster that has each uid once, every request of `skill_up` is refused without a trace,
    -- or is done, or repeats a material. Done, the two skill counters of the target are the clamped
    -- sums of what the materials carry and one for each, the materials are gone, no other cast and
    -- no team changes, and the coins fall by the levels of the unclamped sum times their price.
    -- With a material that repeats a KeyError is raised when the target has its new counters
    -- already, and no coin is charged.
    pub skill_up-outcome :
        FedOutcome uid
          (λ e. chosen)
          (λ e. skilled (limit_totals d chosen s.roster) e)
          skill_price
          s
          (skill_up d uid uids s)
    unfolding FedOutcome
    skill_up-outcome =
        let grown : Cast → Cast = λ e. skilled (limit_totals d chosen s.roster) e in
        skill_up-cases d s uid uids (FedOutcome uid (λ e. chosen) grown skill_price s) refl
          (λ e found _.
            consumed-FedOutcome uid (λ e. chosen) grown skill_price s dict e (skill_gain e) found
              (materials-present uid uids s.roster))
