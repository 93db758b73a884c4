-- ===== src/Player/CastTests.antt =====
-- The theorems on casts and teams, at a sample account.
use sevensins_server.Prelude.{
  ℕ, ◌+◌, ◌≡◌, inl, refl, Text, none, true, false, List, [], ◌∷◌, lookup, contains, length, text_eq,
  ℤ, pos,
}
use sevensins_server.Player.Types.{Design, State}
use sevensins_server.Player.Sample.{design, formulas, account, rich}
use sevensins_server.Player.Money.{add_currency}
use sevensins_server.Player.Progress.{level_up_char}
use sevensins_server.Player.Progress.Training.{TrainOutcome, level_up_char-outcome}
use sevensins_server.Player.Feeding.{transcended, transcend_char}
use sevensins_server.Player.Feeding.Outcomes.{FedOutcome, chosen, food, transcend_char-outcome}
use sevensins_server.Player.Karma.{give_gifts}
use sevensins_server.Player.Karma.Gifts.{GiftOutcome, give_gifts-outcome}
use sevensins_server.Player.Teams.{sell_chars, set_formation, add_char}
use sevensins_server.Player.Teams.Fresh.{add_char-fresh}
use sevensins_server.Player.Roster.{IsPaying}
use sevensins_server.Player.Roster.Kept.{IsAllowed}
use sevensins_server.Player.Roster.Standing.{IsStanding}
use sevensins_server.Player.Roster.Steps.{Step, Steps, Steps-IsAllowed, Steps-IsStanding}

prize : ℕ → ℤ → State → ℤ × State
prize item amount s = add_currency 1 amount s

prize-IsPaying : IsPaying design prize
unfolding prize add_currency
prize-IsPaying = record {
  roster = λ item amount s h. h;
  holders = λ item amount s u h. h;
  teams = λ item amount s. refl;
}

-- No cast yet; then two come, the first is put in a team and trained, and both are sold.
abbrev bare : State
bare = record rich { roster = []; formations = record { array = [] ∷ []; sup = pos 0 } ∷ [] }

abbrev first : Text
first = (add_char 101 1 none 0 bare).0

abbrev one : State
one = (add_char 101 1 none 0 bare).1

abbrev two : State
two = (add_char 102 1 none 0 one).1

abbrev formed_team : State
formed_team = (set_formation (pos 0) (first ∷ []) (pos 1) two).1

abbrev trained_one : State
trained_one = (level_up_char formulas design first (pos 2 ∷ []) formed_team).1

abbrev sold_all : State
sold_all = (sell_chars prize design (first ∷ []) trained_one).1

history : Steps formulas design prize bare sold_all
history = Steps.then_step bare one sold_all (Step.added 101 bare) (
    Steps.then_step one two sold_all (Step.added 102 one) (
      Steps.then_step two formed_team sold_all (Step.formed (pos 0) (first ∷ []) (pos 1) two) (
        Steps.then_step formed_team trained_one sold_all
          (Step.levelled first (pos 2 ∷ []) formed_team)
          (Steps.then_step trained_one sold_all sold_all (Step.sold (first ∷ []) trained_one)
            (Steps.done sold_all)))))

Steps-IsAllowed_example : IsAllowed design sold_all
Steps-IsAllowed_example =
    Steps-IsAllowed formulas design prize prize-IsPaying bare sold_all history tt

Steps-IsStanding_example : IsStanding sold_all
Steps-IsStanding_example =
    Steps-IsStanding formulas design prize prize-IsPaying bare sold_all history ((inl refl, tt), tt)

add_char-fresh_example :
    let (uid, t) = add_char 105 1 none 0 account in
    (contains uid account.roster ≡ false)
    × (contains uid t.roster ≡ true)
    × (length t.roster ≡ length account.roster + 1)
    × ((u : Text) → contains u account.roster ≡ true → lookup u t.roster ≡ lookup u account.roster)
add_char-fresh_example = add_char-fresh 105 1 none 0 account

level_up_char-outcome_example :
    TrainOutcome formulas design
      (71 ∷ [])
      (pos 2 ∷ [])
      rich
      (level_up_char formulas design (71 ∷ []) (pos 2 ∷ []) rich)
level_up_char-outcome_example = level_up_char-outcome formulas design (71 ∷ []) (pos 2 ∷ []) rich

-- Every item is a gift worth ten.
abbrev giving : Design
giving = record design {
  item = λ k. record {
    action = 3;
    param1 = 0;
    param2 = 10;
    param3 = 0;
    class = 0;
    rarity = 0;
    name = [];
    name_en = [];
  };
}

-- The second cast is fed to the first, named twice.
abbrev twice : List Text
twice = (72 ∷ []) ∷ (72 ∷ []) ∷ []

transcend_char-outcome_example :
    FedOutcome
      (71 ∷ [])
      (λ e. chosen design (71 ∷ []) twice rich)
      (λ e. transcended formulas (food design (71 ∷ []) twice rich e).0 e)
      (λ e. (food design (71 ∷ []) twice rich e).1)
      rich
      (transcend_char formulas design (71 ∷ []) twice rich)
transcend_char-outcome_example =
    transcend_char-outcome design (71 ∷ []) twice rich (refl, (refl, tt)) formulas

give_gifts-outcome_example :
    GiftOutcome formulas giving 101
      ((101, pos 2) ∷ (101, pos 1) ∷ [])
      rich
      (give_gifts formulas giving 7 101 ((101, pos 2) ∷ (101, pos 1) ∷ []) rich)
give_gifts-outcome_example =
    give_gifts-outcome formulas giving 7 101 ((101, pos 2) ∷ (101, pos 1) ∷ []) rich
