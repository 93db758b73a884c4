-- ===== src/Player/Rewards/Interfaces.antt =====
-- What the callers of `grant_reward` ask of it.
use sevensins_server.Prelude.{
  ℕ, ◌+◌, ◌≤◌, ◌≡◌, refl, ap, subst, ◌∙◌, inl, inr, Option, some, none, Option-cases, true, false,
  by_test, contains, length, text_eq, lookup, AllValues-insert, ℤ, arith,
}
use sevensins_server.Player.Types.{CharRow, Design, Cast, State}
use sevensins_server.Player.Casts.{max_star, star_of, char_max_lv}
use sevensins_server.Player.Casts.Stars.{default_star-le}
use sevensins_server.Player.Roster.{IsCast, IsPaying}
use sevensins_server.Player.Roster.Kept.{IsAllowed}
use sevensins_server.Player.Roulette.Limits.{IsPayout}
use sevensins_server.Player.Guild.SignOnce.{IsGuildKept}
use sevensins_server.Player.Teams.{fresh_uid, add_char}
use sevensins_server.Player.Teams.Fresh.{add_char-fresh}
use sevensins_server.Player.Gear.{Host}
use sevensins_server.Player.Rewards.{
  said_star, char_item_index, cast_reward, char_reward_of, grant_reward,
}
use sevensins_server.Player.Rewards.Kept.{grant_reward-keeps}

-- The names of the items say stars from 1 to 6.
pub record IsLabelled (host : Host) (d : Design) : Type 0 where
  pub stars :
      (iid n : ℕ)
      → host.star_prefix (host.strip (d.item iid).name) ≡ some n
      → (1 ≤ n) × (n ≤ max_star)

-- An account after a payout: its balances, energy, roster, bags and quest counters may be others.
abbrev pub IsPaid : State → State → Type 0
IsPaid s t = t ≡ record s {
  currency = t.currency;
  energy = t.energy;
  roster = t.roster;
  backpack = t.backpack;
  counters = t.counters;
}

star_in : Option (ℕ × ℕ × ℕ) → ℕ
star_in none = 0
star_in (some (char_id, star, shown)) = star

module _ (host : Host) (d : Design) where
  -- Whatever the item is, whatever the random choices are, and also where it raises: `grant_reward`
  -- changes no more than the balances, the energy, the roster, the bags and the quest counters of
  -- the account.
  pub grant_reward-frame :
      (item : ℕ) (amount : ℤ) (s : State) → IsPaid s (grant_reward host d item amount s).1
  unfolding add_char
  grant_reward-frame item amount s =
      grant_reward-keeps host d item (IsPaid s)
        (record {
          currency = λ t w h. ap (λ (u : State). record u { currency = w }) h;
          energy = λ t w h. ap (λ (u : State). record u { energy = w }) h;
          backpack = λ t w h. ap (λ (u : State). record u { backpack = w }) h;
          counters = λ t w h. ap (λ (u : State). record u { counters = w }) h;
          roster = λ t char_id star shown found h.
              ap
                (λ (u : State). record u { roster = (add_char char_id 1 (some star) 0 t).1.roster })
                h;
        })
        amount s refl

  -- A payout leaves the counters of the roulette alone.
  pub grant_reward-IsPayout : IsPayout (grant_reward host d)
  grant_reward-IsPayout = record {
    keeps = λ item amount s. ap (λ (t : State). t.roulette) (grant_reward-frame item amount s);
  }

  pub grant_reward-IsGuildKept : IsGuildKept (grant_reward host d)
  grant_reward-IsGuildKept = record {
    guild = λ item amount s. ap (λ (t : State). t.guild) (grant_reward-frame item amount s);
    player_id = λ item amount s. ap (λ (t : State). t.player_id) (grant_reward-frame item amount s);
  }

  module _ (labels : IsLabelled host d) where
    said_star-le :
        (row : CharRow) (iid : ℕ)
        → let star = said_star row (host.star_prefix (host.strip (d.item iid).name)) in
          (1 ≤ star) × (star ≤ max_star)
    unfolding said_star
    said_star-le row iid = elim (Option-cases (host.star_prefix (host.strip (d.item iid).name))) [
      | inl plain ↦ rw (plain, said_star) (default_star-le row)
      | inr (n, found) ↦ rw (found, said_star) (labels.stars iid n found)
    ]

    cast_reward-star :
        (iid char_id star shown : ℕ)
        → cast_reward host d iid ≡ some (char_id, star, shown)
        → (1 ≤ star) × (star ≤ max_star)
    unfolding cast_reward star_in
    cast_reward-star iid char_id star shown =
        let row = d.char (d.item iid).param1 in
        by_test
          (λ (o : Option (ℕ × ℕ × ℕ)).
            o ≡ some (char_id, star, shown) → (1 ≤ star) × (star ≤ max_star))
          row.known _ none
          (λ _ h. subst (λ n. (1 ≤ n) × (n ≤ max_star)) (ap star_in h) (said_star-le row iid))
          (λ _ h. absurd (ground arith))

    char_reward_of-star :
        (iid char_id star shown : ℕ)
        → char_reward_of host d iid ≡ some (char_id, star, shown)
        → (1 ≤ star) × (star ≤ max_star)
    unfolding char_reward_of
    char_reward_of-star iid char_id star shown h =
        elim (Option-cases (lookup (host.strip (d.item iid).name) (char_item_index host d))) [
          | inl absent ↦ ground (arith, absent, h, cast_reward-star iid char_id star shown)
          | inr (resolved, found) ↦ ground (
            arith,
            found,
            h,
            cast_reward-star iid char_id star shown,
            cast_reward-star resolved char_id star shown,
          )
        ]

    added-IsAllowed :
        (id star : ℕ) (s : State)
        → (1 ≤ star) × (star ≤ max_star)
        → IsAllowed d s
        → IsAllowed d (add_char id 1 (some star) 0 s).1
    unfolding add_char star_of char_max_lv
    added-IsAllowed id star s (low, high) h =
        AllValues-insert (IsCast d)
          (fresh_uid (length s.roster) s.player_id (length s.roster + 1) s.roster) _ s.roster
          (record {
            star_low = low;
            star_high = high;
            super_high = omega arith;
            plus_high = omega arith;
            ultra_high = omega arith;
            book_high = omega arith;
            limit_high = omega arith;
            level_high = omega arith;
          })
          h

    -- The rewards meet what the operations on the roster ask of them: where the names of the items
    -- say stars from 1 to 6, every cast that a reward adds keeps the limits of the game, every cast
    -- that was there stays, and no team changes.
    pub grant_reward-IsPaying : IsPaying d (grant_reward host d)
    grant_reward-IsPaying = record {
      roster = λ item amount s h.
          grant_reward-keeps host d item (IsAllowed d)
            (record {
              currency = λ t w g. g;
              energy = λ t w g. g;
              backpack = λ t w g. g;
              counters = λ t w g. g;
              roster = λ t char_id star shown found g.
                  added-IsAllowed char_id star t (char_reward_of-star item char_id star shown found)
                    g;
            })
            amount s h;
      holders = λ item amount s u h.
          grant_reward-keeps host d item (λ t. contains u t.roster ≡ true)
            (record {
              currency = λ t w g. g;
              energy = λ t w g. g;
              backpack = λ t w g. g;
              counters = λ t w g. g;
              roster = λ t char_id star shown found g.
                  ap (λ (o : Option Cast). elim o [ none ↦ false | some _ ↦ true ])
                    ((add_char-fresh char_id 1 (some star) 0 t).3 u g)
                  ∙ g;
            })
            amount s h;
      teams = λ item amount s. ap (λ (t : State). t.formations) (grant_reward-frame item amount s);
    }
