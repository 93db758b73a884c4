-- ===== src/Player/Progress/Training.antt =====
-- `level_up_char` on the account.
use sevensins_server.Prelude.{
  ℕ, ◌-◌, ◌≡◌, ◌∙◌, refl, ap, Text, some, none, List, [], ◌∷◌, Bool, true, false, Dict, IsDict,
  lookup, lookup_or-insert_self, lookup-insert_self, lookup-insert, nat_eq, text_eq, text_beq, leb,
  if◌then◌else◌, ℤ, pos, ◌+ℤ◌, ◌-ℤ◌, times, arith, int_laws,
}
use sevensins_server.Player.Types.{Formulas, Design, Cast, State}
use sevensins_server.Player.Bag.{storage_normal, item_count}
use sevensins_server.Player.Casts.{
  currency_coin, char_max_lv, coins, put_cast, climb, all_held, spend_all,
}
use sevensins_server.Player.Casts.Climbing.{IsClimbed, climb-IsClimbed}
use sevensins_server.Player.Casts.Spending.{
  spend_all-frame, all_held_congr, taken, asked_of, spend_all_lem,
}
use sevensins_server.Player.Roster.Cases.{level_up_char-cases}
use sevensins_server.Player.Progress.{
  trainers, trainer_coin_cost, consumed, total_of, gained_of, trained, train, level_up_char,
}

consumed-absent :
    (j : ℕ) (ts : Dict ℕ ℕ) (counts : List ℤ)
    → lookup j ts ≡ none
    → lookup j (consumed ts counts) ≡ none
unfolding consumed
consumed-absent j [] counts h = refl
consumed-absent j ((item, xp) ∷ ts) [] h = refl
consumed-absent j ((item, xp) ∷ ts) (n ∷ counts) h = ground (arith, consumed-absent j ts counts)

consumed-IsDict : (ts : Dict ℕ ℕ) (counts : List ℤ) → IsDict ts → IsDict (consumed ts counts)
unfolding consumed
consumed-IsDict [] counts d = tt
consumed-IsDict ((item, xp) ∷ ts) [] d = tt
consumed-IsDict ((item, xp) ∷ ts) (n ∷ counts) d =
    ground (arith, consumed-absent item ts counts d.0, consumed-IsDict ts counts d.1)

-- What a training that is done makes of the account, for the trainers `items`: each trainer's count
-- falls by what was asked of it, the coins by a thousand a trainer, no other cast changes, and the
-- cast climbs the levels that its experience pays for, up to its cap, where the rest is dropped.
pub record IsTrained (f : Formulas) (d : Design) (uid : Text) (items : List (ℕ × ℤ)) (e : Cast)
    (s t : State) : Type 0 where
  pub trainers_spent :
      (j : ℕ)
      → item_count storage_normal j t +ℤ taken (asked_of j items) ≡ item_count storage_normal j s
  pub coins_spent : coins t +ℤ times 1000 (total_of items) ≡ coins s
  pub cast : lookup uid t.roster ≡ some (trained f d e (gained_of items))
  pub other_casts : (u : Text) → text_beq uid u ≡ false → lookup u t.roster ≡ lookup u s.roster
  pub climbed :
      (lv : ℕ) × (xp : ℤ) × IsClimbed
        (f.char_lvup_need_xp (d.char e.id).rarity)
        (char_max_lv d e)
        e.lv
        (e.xp +ℤ gained_of items)
        lv
        xp
      × ((trained f d e (gained_of items)).lv ≡ lv)
      × ((trained f d e (gained_of items)).xp ≡ (if leb (char_max_lv d e) lv then pos 0 else xp))

sub_add : (x y : ℤ) → x -ℤ y +ℤ y ≡ x
sub_add x y = omega int_laws

train-IsTrained :
    (f : Formulas) (d : Design) (uid : Text) (e : Cast) (items : List (ℕ × ℤ)) (s : State)
    → IsDict items
    → all_held items s ≡ true
    → IsTrained f d uid items e s (train f d uid e items s)
unfolding train trained item_count
train-IsTrained f d uid e items s dict held =
    let e' = trained f d e (gained_of items) in
    let u = put_cast uid e' s in
    let v = spend_all items u in
    let frame = spend_all-frame items u in
    let bound = char_max_lv d e in
    let need = f.char_lvup_need_xp (d.char e.id).rarity in
    let (lv, xp) = climb need (bound - e.lv) bound e.lv (e.xp +ℤ gained_of items) in
    record {
      trainers_spent = λ j. spend_all_lem items u j dict (all_held_congr s u items refl ∙ held);
      coins_spent =
          rw
            (lookup_or-insert_self currency_coin
              (coins v -ℤ times trainer_coin_cost (total_of items)) (pos 0) v.currency)
            (sub_add (coins v) (times 1000 (total_of items)) ∙ ap (λ (w : State). coins w) frame);
      cast = ap (λ (w : State). lookup uid w.roster) frame ∙ lookup-insert_self uid e' s.roster;
      other_casts = λ w other.
          ap (λ (x : State). lookup w x.roster) frame
          ∙ ground (arith, lookup-insert uid w e' s.roster);
      climbed = (
        lv,
        xp,
        climb-IsClimbed need (bound - e.lv) bound e.lv (e.xp +ℤ gained_of items) (omega arith),
        refl,
        refl,
      );
    }

-- A training is refused and changes nothing, or it is done as `IsTrained` says, for the trainers
-- that the counts ask for.
pub TrainOutcome :
    Formulas → Design → Text → List ℤ → State → (Bool × ℤ × List (ℕ × ℤ)) × State → Type 0
TrainOutcome f d uid counts s ((false, cost, items), t) = t ≡ s
TrainOutcome f d uid counts s ((true, cost, items), t) =
    (e : Cast) × (lookup uid s.roster ≡ some e)
    × (items ≡ consumed trainers counts)
    × (cost ≡ times 1000 (total_of items))
    × IsTrained f d uid items e s t

-- Every request of `level_up_char`, whatever counts it has, is refused without a trace or done as
-- `IsTrained` says.
pub level_up_char-outcome :
    (f : Formulas) (d : Design) (uid : Text) (counts : List ℤ) (s : State)
    → TrainOutcome f d uid counts s (level_up_char f d uid counts s)
unfolding TrainOutcome
level_up_char-outcome f d uid counts s =
    let dict = consumed-IsDict trainers counts (refl, (refl, (refl, (refl, (refl, tt))))) in
    level_up_char-cases d s uid f counts (TrainOutcome f d uid counts s) refl
      (λ e found held. (e, found, refl, refl, train-IsTrained f d uid e _ s dict held))
