-- ===== src/Player/Roster/Steps.antt =====
-- The operations that change the roster and the teams, as the steps of an account.
use sevensins_server.Prelude.{
  ℕ, ◌+◌, ◌≡◌, Text, some, none, List, lookup, AllValues-insert, length, text_eq, ℤ, arith,
}
use sevensins_server.Player.Types.{Formulas, Design, Cast, State}
use sevensins_server.Player.Casts.{put_cast, star_of, char_max_lv}
use sevensins_server.Player.Casts.Stars.{default_star-le}
use sevensins_server.Player.Progress.{
  level_up_char, apply_char_xp, rank_up_char, super_rank_up_char,
}
use sevensins_server.Player.Feeding.{transcend_char, ultra_transcend, skill_up}
use sevensins_server.Player.Inherit.{inherit_char}
use sevensins_server.Player.Teams.{
  fresh_uid, sell_chars, decompose_chars, set_formation, toggle_char_lock,
  remove_from_all_formations, add_char,
}
use sevensins_server.Player.Roster.{IsCast, IsPaying}
use sevensins_server.Player.Roster.Kept.{
  IsAllowed, level_up_char-IsAllowed, apply_char_xp-IsAllowed, rank_up_char-IsAllowed,
  super_rank_up_char-IsAllowed, transcend_char-IsAllowed, ultra_transcend-IsAllowed,
  skill_up-IsAllowed, sell_chars-IsAllowed, decompose_chars-IsAllowed, toggle_char_lock-IsAllowed,
  set_formation-IsAllowed, remove_from_all_formations-IsAllowed,
}
use sevensins_server.Player.Roster.Inheriting.{inherit_char-IsRoster}
use sevensins_server.Player.Roster.Slots.{IsTeams-insert}
use sevensins_server.Player.Roster.Standing.{
  IsStanding, sell_chars-IsStanding, decompose_chars-IsStanding, set_formation-IsStanding,
  toggle_char_lock-IsStanding, remove_from_all_formations-IsStanding,
}
use sevensins_server.Player.Roster.Moved.{
  level_up_char-IsStanding, rank_up_char-IsStanding, super_rank_up_char-IsStanding,
  transcend_char-IsStanding, ultra_transcend-IsStanding, skill_up-IsStanding,
  inherit_char-IsStanding, add_char-IsStanding,
}

-- A cast that is added without a star of its own.
add_char-IsAllowed :
    (d : Design) (id : ℕ) (s : State) → IsAllowed d s → IsAllowed d (add_char id 1 none 0 s).1
unfolding add_char star_of char_max_lv
add_char-IsAllowed d id s h =
    let (low, high) = default_star-le (d.char id) in
    AllValues-insert (IsCast d)
      (fresh_uid (length s.roster) s.player_id (length s.roster + 1) s.roster) _ s.roster
      (record {
        star_low = low;
        star_high = high;
        super_high = omega arith;
        plus_high = omega arith;
        ultra_high = omega arith;
        book_high = omega arith;
        limit_high = omega arith;
        level_high = omega (arith, low);
      })
      h

module _ {ℓ} {Bucket : Type ℓ} (f : Formulas) (d : Design)
    (grant_reward : ℕ → ℤ → State → Bucket × State) where
  -- One operation, whatever its request is.
  pub data Step : State → State → Type 0 where
    levelled :
        (uid : Text) (counts : List ℤ) (s : State) → Step s (level_up_char f d uid counts s).1
    fought :
        (uid : Text) (e : Cast) (add : ℤ) (s : State)
        → lookup uid s.roster ≡ some e
        → Step s (put_cast uid (apply_char_xp f d add e).1 s)
    ranked : (uid : Text) (s : State) → Step s (rank_up_char d uid s).1
    super_ranked : (uid : Text) (s : State) → Step s (super_rank_up_char d uid s).1
    fed : (uid : Text) (uids : List Text) (s : State) → Step s (transcend_char f d uid uids s).1
    ultra_fed :
        (uid : Text) (uids : List Text) (s : State) → Step s (ultra_transcend d uid uids s).1
    taught : (uid : Text) (uids : List Text) (s : State) → Step s (skill_up d uid uids s).1
    inherited :
        (in_uid out_uid : Text) (cost_type : ℕ) (s : State)
        → Step s (inherit_char d in_uid out_uid cost_type s).1
    sold : (uids : List Text) (s : State) → Step s (sell_chars grant_reward d uids s).1
    decomposed : (uids : List Text) (s : State) → Step s (decompose_chars grant_reward d uids s).1
    formed :
        (index : ℤ) (uids : List Text) (support : ℤ) (s : State)
        → Step s (set_formation index uids support s).1
    locked : (uids : List Text) (s : State) → Step s (toggle_char_lock uids s).1
    removed : (uid : Text) (s : State) → Step s (remove_from_all_formations uid s).1
    added : (id : ℕ) (s : State) → Step s (add_char id 1 none 0 s).1

  -- A sequence of operations.
  pub data Steps : State → State → Type 0 where
    done : (s : State) → Steps s s
    then_step : (s t u : State) → Step s t → Steps t u → Steps s u

  module _ (pays : IsPaying d grant_reward) where
    Step-IsAllowed : (s t : State) → Step s t → IsAllowed d s → IsAllowed d t
    Step-IsAllowed _ _ (levelled uid counts s) h = level_up_char-IsAllowed d s h f uid counts
    Step-IsAllowed _ _ (fought uid e add s found) h =
        apply_char_xp-IsAllowed d s h f uid e add found
    Step-IsAllowed _ _ (ranked uid s) h = rank_up_char-IsAllowed d s h uid
    Step-IsAllowed _ _ (super_ranked uid s) h = super_rank_up_char-IsAllowed d s h uid
    Step-IsAllowed _ _ (fed uid uids s) h = transcend_char-IsAllowed d s h f uid uids
    Step-IsAllowed _ _ (ultra_fed uid uids s) h = ultra_transcend-IsAllowed d s h uid uids
    Step-IsAllowed _ _ (taught uid uids s) h = skill_up-IsAllowed d s h uid uids
    Step-IsAllowed _ _ (inherited a b c s) h = inherit_char-IsRoster d a b c s h
    Step-IsAllowed _ _ (sold uids s) h = sell_chars-IsAllowed d grant_reward pays uids s h
    Step-IsAllowed _ _ (decomposed uids s) h =
        decompose_chars-IsAllowed d grant_reward pays uids s h
    Step-IsAllowed _ _ (formed i uids support s) h = set_formation-IsAllowed d i uids support s h
    Step-IsAllowed _ _ (locked uids s) h = toggle_char_lock-IsAllowed d uids s h
    Step-IsAllowed _ _ (removed uid s) h = remove_from_all_formations-IsAllowed d uid s h
    Step-IsAllowed _ _ (added id s) h = add_char-IsAllowed d id s h

    Step-IsStanding : (s t : State) → Step s t → IsStanding s → IsStanding t
    Step-IsStanding _ _ (levelled uid counts s) h = level_up_char-IsStanding d s h f uid counts
    Step-IsStanding _ _ (fought uid e add s found) h = IsTeams-insert uid _ s.roster s.formations h
    Step-IsStanding _ _ (ranked uid s) h = rank_up_char-IsStanding d s h uid
    Step-IsStanding _ _ (super_ranked uid s) h = super_rank_up_char-IsStanding d s h uid
    Step-IsStanding _ _ (fed uid uids s) h = transcend_char-IsStanding d s h f uid uids
    Step-IsStanding _ _ (ultra_fed uid uids s) h = ultra_transcend-IsStanding d s h uid uids
    Step-IsStanding _ _ (taught uid uids s) h = skill_up-IsStanding d s h uid uids
    Step-IsStanding _ _ (inherited a b c s) h = inherit_char-IsStanding d s h a b c
    Step-IsStanding _ _ (sold uids s) h = sell_chars-IsStanding d grant_reward pays uids s h
    Step-IsStanding _ _ (decomposed uids s) h =
        decompose_chars-IsStanding d grant_reward pays uids s h
    Step-IsStanding _ _ (formed i uids support s) h = set_formation-IsStanding i uids support s h
    Step-IsStanding _ _ (locked uids s) h = toggle_char_lock-IsStanding uids s h
    Step-IsStanding _ _ (removed uid s) h = remove_from_all_formations-IsStanding uid s h
    Step-IsStanding _ _ (added id s) h = add_char-IsStanding d s h id 1 none 0

    -- When rewards add only casts that the game allows and change no team: whatever operations on
    -- casts and teams, the steps of `Step`, run one after another on an account in which each cast
    -- keeps the limits of the game, each cast of the account that they end at keeps them: the star,
    -- the super star, the plus, the ultra level, the two skill counters, and a level up to the cap
    -- that the star, the super star and the plus give.
    pub Steps-IsAllowed : (s t : State) → Steps s t → IsAllowed d s → IsAllowed d t
    Steps-IsAllowed _ _ (done s) h = h
    Steps-IsAllowed _ _ (then_step s t u step rest) h =
        Steps-IsAllowed t u rest (Step-IsAllowed s t step h)

    -- When rewards drop no cast and change no team: whatever operations on casts and teams, the
    -- steps of `Step`, run one after another on an account whose team slots are each empty or name
    -- a cast of the roster, each slot of the account that they end at is empty or names a cast of
    -- its roster: no cast that is consumed, sold or decomposed stays in a team.
    pub Steps-IsStanding : (s t : State) → Steps s t → IsStanding s → IsStanding t
    Steps-IsStanding _ _ (done s) h = h
    Steps-IsStanding _ _ (then_step s t u step rest) h =
        Steps-IsStanding t u rest (Step-IsStanding s t step h)
