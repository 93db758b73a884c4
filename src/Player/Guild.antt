-- ===== src/Player/Guild.antt =====
-- The guild of one of server/player_state/guild.py: `create_guild`, `quit_guild`, `_roll_sign_day`,
-- `guild_sign`, `guild_set_setting` and `guild_edit`. The clock and the daily period are arguments,
-- and so is Python's `str.strip`.
pub mod SignOnce
use sevensins_server.Prelude.{
  ℕ, zero, suc, ◌+◌, Text, Option, some, none, List, [], ◌∷◌, ◌++◌, Bool, true, false, ◌||◌, not,
  insert, ◌==◌, nat_eq, text_beq, ltb, if◌then◌else◌, Result, ok, err, ℤ, pos, ◌-ℤ◌, ltb_ℤ,
}
use sevensins_server.Player.Types.{Guild, State}
use sevensins_server.Player.Money.{balance}
use sevensins_server.Player.Equips.{mem}

-- CUR_MIRA, and what a guild costs.
abbrev pub cur_mira : ℕ
cur_mira = 16

abbrev pub guild_create_mira : ℤ
guild_create_mira = pos 200000

-- The error numbers.
pub data GuildError : Type 0 where
  guild_nil : GuildError
  cost_fail : GuildError
  name_len : GuildError
  had_guild : GuildError
  no_permission : GuildError

abbrev pub rank_director : ℕ
rank_director = 1

unfoldable pub create_guild :
    (Text → Text) → ℕ → ℕ → Text → Text → ℤ → ℤ → State → Result GuildError (Unit {0}) × State
create_guild strip now period name ad badge join_free s = elim s.guild [
  | some g ↦ (err had_guild, s)
  | none ↦
      let have = balance cur_mira s.currency in
      let g : Guild = record {
        uid = 103 ∷ s.player_id;
        name = strip name;
        ad = ad;
        announce = [];
        badge = badge;
        join_free = join_free;
        area = 0;
        create_time = now;
        edit_time = now;
        rank = rank_director;
        contribution = pos 0;
        sign_sum = 0;
        sign_day = period;
        sign_paid = 0;
        member_sign = [];
        challenge_top = [];
      } in
      if text_beq (strip name) []
      then (err name_len, s)
      else if ltb_ℤ have guild_create_mira
      then (err cost_fail, s)
      else (
        ok tt,
        record s {
          currency = insert cur_mira (have -ℤ guild_create_mira) s.currency;
          guild = some g;
        },
      )
]

pub quit_guild : State → Result GuildError (Unit {0}) × State
quit_guild s = elim s.guild [
  | none ↦ (err guild_nil, s)
  | some g ↦ (ok tt, record s { guild = none })
]

-- The guild with a sign count of this period.
unfoldable pub rolled_guild : ℕ → Guild → Guild
rolled_guild period g =
    if g.sign_day == period
    then g
    else record g { sign_day = period; sign_sum = 0; sign_paid = 0; member_sign = [] }

unfoldable pub roll_sign_day : ℕ → State → Bool × State
roll_sign_day period s = elim s.guild [
  | none ↦ (false, s)
  | some g ↦ (not (g.sign_day == period), record s { guild = some (rolled_guild period g) })
]

-- (limit, item, count) of GUILD_SIGN_LIMITS, _REWARD_IDS and _REWARD_COUNTS.
abbrev pub sign_tiers : List (ℕ × ℕ × ℤ)
sign_tiers = (1, 4, pos 20) ∷ (2, 4, pos 20) ∷ (3, 4, pos 30) ∷ (4, 4, pos 30) ∷ (5, 4, pos 50) ∷ []

-- g["sign_paid"] = n
unfoldable pub set_paid : ℕ → State → State
set_paid n s = elim s.guild [
  | none ↦ s
  | some g ↦ record s { guild = some (record g { sign_paid = n }) }
]

-- The member signs once a day.
unfoldable pub signed : Text → Guild → Guild
signed me g =
    if mem me g.member_sign
    then g
    else record g { member_sign = g.member_sign ++ (me ∷ []); sign_sum = g.sign_sum + 1 }

-- What pays a tier out: `grant_reward` of core.py.
module _ {ℓ} {Bucket : Type ℓ} (grant_reward : ℕ → ℤ → State → Bucket × State) where
  -- The loop from the tier `i` on, with `earned`.
  unfoldable pub pay_tiers : ℕ → ℕ → ℕ → List (ℕ × ℕ × ℤ) → State → List (ℕ × ℤ) × State
  pay_tiers i paid total [] s = ([], s)
  pay_tiers i paid total ((limit, item, count) ∷ tiers) s =
      let skipped = pay_tiers (i + 1) paid total tiers s in
      let t = (grant_reward item count s).1 in
      let (earned, u) = pay_tiers (i + 1) paid total tiers (set_paid (i + 1) t) in
      if ltb i paid || ltb total limit then skipped else ((item, count) ∷ earned, u)

  unfoldable pub sign_in : ℕ → Option Guild → State → (ℕ × List (ℕ × ℤ)) × State
  sign_in period none s = ((0, []), s)
  sign_in period (some g₀) s =
      let g = signed s.player_id (rolled_guild period g₀) in
      let (earned, t) =
        pay_tiers 0 g.sign_paid g.sign_sum sign_tiers (record s { guild = some g }) in
      ((g.sign_sum, earned), t)

  unfoldable pub guild_sign : ℕ → State → (ℕ × List (ℕ × ℤ)) × State
  guild_sign period s = sign_in period s.guild s

pub guild_set_setting : ℤ → ℤ → State → Result GuildError (Unit {0}) × State
guild_set_setting badge join_free s = elim s.guild [
  | none ↦ (err guild_nil, s)
  | some g ↦ (ok tt, record s { guild = some (record g { badge = badge; join_free = join_free }) })
]

-- texts[0] if texts else ""
abbrev pub first_text : List Text → Text
first_text [] = []
first_text (t ∷ ts) = t

-- EditType 2 is the ad, 3 the announcement.
pub guild_edit : ℕ → ℕ → List Text → State → Result GuildError (Unit {0}) × State
guild_edit now edit_type texts s = elim s.guild [
  | none ↦ (err guild_nil, s)
  | some g ↦
      if edit_type == 2
      then (ok tt, record s { guild = some (record g { ad = first_text texts }) })
      else if edit_type == 3
      then (
        ok tt,
        record s { guild = some (record g { announce = first_text texts; edit_time = now }) },
      )
      else (err no_permission, s)
]
