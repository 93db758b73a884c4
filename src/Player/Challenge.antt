-- ===== src/Player/Challenge.antt =====
-- Guild Weekly, server/player_state/challenge.py: `settle_day`, `_challenge`, `_refill_passes`,
-- `take_pending_settlement`, `start_challenge` and `finish_challenge`. What the clock says is an
-- argument: the week, the daily period and the weekday are numbers.
pub mod Scores
pub mod Brackets
pub mod Rolls
use Prim.Native.Nat.{max}
use sevensins_server.Prelude.{
  ℕ, zero, suc, ◌+◌, ◌-◌, ◌*◌, ◌/◌, min, Text, Option, some, none, List, [], ◌∷◌, ◌++◌, Bool, true,
  false, ◌||◌, ◌&&◌, not, Dict, lookup_or, insert, take, ◌==◌, nat_eq, leb, ltb, if◌then◌else◌,
  Result, ok, err, ℤ, pos, negsuc, pos_part, ◌+ℤ◌, ◌-ℤ◌, ltb_ℤ,
}
use sevensins_server.Player.Types.{RewardRow, StageRow, Design, Guild, Challenge, Settlement, State}
use sevensins_server.Player.Bag.{item_count, grant_item, spend_item, storage_normal}

abbrev pub challenge_book : ℕ
challenge_book = 8

abbrev pub challenge_difficulties : ℕ
challenge_difficulties = 4

abbrev pub challenge_pass_item : ℕ
challenge_pass_item = 22

abbrev pub challenge_max_times : ℕ
challenge_max_times = 3

abbrev pub reward_personal_daily : ℕ
reward_personal_daily = 3

abbrev pub reward_guild_daily : ℕ
reward_guild_daily = 5

-- challenge_key, _daily_period and challenge_weekday at one time.
pub record Clock : Type 0 where
  pub week : ℕ
  pub period : ℕ
  pub weekday : ℕ

-- out[(sort, difficulty)] = stage id, for the stages of the book; a later row wins.
pub find_stage : ℕ → ℕ → Option ℕ → List (ℕ × StageRow) → Option ℕ
find_stage weekday difficulty found [] = found
find_stage weekday difficulty found ((id, r) ∷ rows) =
    let fits = r.book == challenge_book && r.sort == weekday && r.difficulty == difficulty in
    find_stage weekday difficulty (if fits then some id else found) rows

pub challenge_stage_id : Design → ℕ → ℕ → Option ℕ
challenge_stage_id d weekday difficulty = find_stage weekday difficulty none d.stages

-- sorted(rows, key=lower), which keeps the order of equal rows.
unfoldable pub put_row : RewardRow → List RewardRow → List RewardRow
put_row r [] = r ∷ []
put_row r (x ∷ xs) = if leb r.lower x.lower then r ∷ x ∷ xs else x ∷ put_row r xs

unfoldable pub sort_rows : List RewardRow → List RewardRow
sort_rows [] = []
sort_rows (r ∷ rs) = put_row r (sort_rows rs)

unfoldable pub rows_of : ℕ → ℕ → List RewardRow → List RewardRow
rows_of type group [] = []
rows_of type group (r ∷ rs) =
    if r.type == type && r.group == group then r ∷ rows_of type group rs else rows_of type group rs

unfoldable pub reward_rows : Design → ℕ → ℕ → List RewardRow
reward_rows d type group = sort_rows (rows_of type group d.challenge_reward)

-- _bracket_index + 1, from the index `i` on: one past the last row that the score reaches.
unfoldable pub bracket_end : ℕ → ℕ → ℕ → List RewardRow → ℕ
bracket_end score i hit [] = hit
bracket_end score i hit (r ∷ rs) =
    bracket_end score (i + 1) (if leb r.lower score then i + 1 else hit) rs

-- The items of a row, `if iid and cnt`.
unfoldable pub row_items : List ℕ → List ℤ → List (ℕ × ℤ)
row_items [] counts = []
row_items (i ∷ ids) [] = []
row_items (i ∷ ids) (n ∷ counts) =
    if i == 0 || is_zero n then row_items ids counts else (i, n) ∷ row_items ids counts
  where
    is_zero : ℤ → Bool
    is_zero (pos m) = m == 0
    is_zero (negsuc m) = false

unfoldable pub rows_items : List RewardRow → List (ℕ × ℤ)
rows_items [] = []
rows_items (r ∷ rs) = row_items r.ids r.counts ++ rows_items rs

unfoldable pub bracket_rewards : Design → ℕ → ℕ → ℕ → List (ℕ × ℤ)
bracket_rewards d type group score =
    let rows = reward_rows d type group in rows_items (take (bracket_end score 0 0 rows) rows)

-- {}
abbrev pub no_challenge : Challenge
no_challenge = record {
  key = none;
  day = none;
  today = [];
  best = 0;
  runs = 0;
  group = none;
  refilled = none;
  pending = none;
}

-- int(ch.get("group") or challenge_weekday())
abbrev pub group_or : ℕ → Option ℕ → ℕ
group_or weekday none = weekday
group_or weekday (some g) = if g == 0 then weekday else g

abbrev pub is_at : ℕ → Option ℕ → Bool
is_at n none = false
is_at n (some m) = m == n

abbrev pub is_nil : List (ℕ × ℤ) → Bool
is_nil [] = true
is_nil (x ∷ xs) = false

-- The record with the week of the clock: another week's record is cleared.
unfoldable pub weekly : Clock → Challenge → Challenge
weekly c ch = if is_at c.week ch.key then ch else record no_challenge { key = some c.week }

-- The record of the new day.
abbrev pub daily : Clock → Challenge → Challenge
daily c ch = record ch {
  day = some c.period;
  today = [];
  best = 0;
  runs = 0;
  refilled = none;
  group = some c.weekday;
}

-- _refill_passes
unfoldable pub refill_passes : State → State
refill_passes s =
    let have = item_count storage_normal challenge_pass_item s in
    if ltb_ℤ have (pos challenge_max_times)
    then (grant_item challenge_pass_item (pos challenge_max_times -ℤ have) storage_normal s).1
    else s

-- The `setdefault` of the group.
abbrev pub with_group : Clock → Challenge → Challenge
with_group c ch = record ch { group = elim ch.group [ none ↦ some c.weekday | some g ↦ some g ] }

-- max(1, min(int(difficulty or 1), 4))
pub clamp_difficulty : ℤ → ℕ
clamp_difficulty n = max 1 (min (pos_part n) challenge_difficulties)

-- Why a run is refused.
pub data NoChallenge : Type 0 where
  no_stage : NoChallenge
  no_pass : NoChallenge

-- int(ch.pop("pending", 1) or 1)
abbrev pub pending_or : Option ℕ → ℕ
pending_or none = 1
pending_or (some n) = if n == 0 then 1 else n

-- The record with one run more.
unfoldable pub scored : ℕ → Challenge → Challenge
scored total ch = record ch {
  today = ch.today ++ (total ∷ []);
  best = if ltb ch.best total then total else ch.best;
  pending = none;
}

-- The guild's share of a run.
unfoldable pub contributed : ℕ → ℕ → Guild → Guild
contributed weekday total g = record g {
  contribution = g.contribution +ℤ pos total;
  challenge_top =
      if ltb (lookup_or weekday 0 g.challenge_top) total
      then insert weekday total g.challenge_top
      else g.challenge_top;
}

-- What pays a settlement out: `grant_reward` of core.py.
module _ {ℓ} {Bucket : Type ℓ} (grant_reward : ℕ → ℤ → State → Bucket × State) where
  unfoldable pub grant_list : List (ℕ × ℤ) → State → State
  grant_list [] s = s
  grant_list ((item, n) ∷ items) s = grant_list items (grant_reward item n s).1

  unfoldable pub settle_day : Design → Clock → Challenge → State → Option Settlement × State
  settle_day d c ch s =
      let group = group_or c.weekday ch.group in
      let personal = bracket_rewards d reward_personal_daily group ch.best in
      let guild = bracket_rewards d reward_guild_daily group ch.best in
      let t = grant_list (personal ++ guild) s in
      if ch.best == 0 then (none, s) else if is_nil personal && is_nil guild then (none, t) else (
        some (record { pscore = ch.best; gscore = ch.best; personal = personal; guild = guild }),
        t,
      )

  -- The settlement of the day that is over, where there was one, joins the queue.
  unfoldable pub settled : Design → Clock → Challenge → State → State
  settled d c ch s =
      let (announced, t) = settle_day d c ch s in
      elim ch.day [
        | none ↦ s
        | some _ ↦ elim announced [
          | none ↦ t
          | some p ↦ record t { challenge_pending = t.challenge_pending ++ (p ∷ []) }
        ]
      ]

  -- The record of the day, and the account with what a day that is over is paid.
  unfoldable pub rolled : Design → Clock → Challenge → State → Challenge × State
  rolled d c ch s = if is_at c.period ch.day then (ch, s) else (daily c ch, settled d c ch s)

  -- `_challenge` on the record that is stored, or on a new one.
  unfoldable pub challenge_with : Design → Clock → Challenge → State → Challenge × State
  challenge_with d c stored s =
      let (ch₀, t) = rolled d c (weekly c stored) s in
      let ch = with_group c ch₀ in
      let marked = record ch { refilled = some c.period } in
      if is_at c.period ch.refilled
      then (ch, record t { challenge = some ch })
      else (marked, record (refill_passes t) { challenge = some marked })

  unfoldable pub challenge_of : Design → Clock → State → Challenge × State
  challenge_of d c s =
      challenge_with d c (elim s.challenge [ none ↦ no_challenge | some ch ↦ ch ]) s

  unfoldable pub start_challenge : Design → Clock → ℤ → State → Result NoChallenge ℕ × State
  start_challenge d c wanted s =
      let difficulty = clamp_difficulty wanted in
      let (ch, t) = challenge_of d c s in
      let (paid, u) = spend_item challenge_pass_item (pos 1) storage_normal t in
      elim (challenge_stage_id d c.weekday difficulty) [
        | none ↦ (err no_stage, s)
        | some stage ↦
            if stage == 0 then (err no_stage, s) else if not paid then (err no_pass, u) else (
              ok stage,
              record u {
                challenge = some (record ch { runs = ch.runs + 1; pending = some difficulty });
              },
            )
      ]

  -- (damage, bonus, total)
  unfoldable pub finish_challenge : Design → Clock → ℤ → State → (ℕ × ℕ × ℕ) × State
  finish_challenge d c dealt s =
      let (ch, t) = challenge_of d c s in
      let difficulty = pending_or ch.pending in
      let damage = pos_part dealt in
      let bonus = damage * (difficulty - 1) / 4 in
      let total = damage + bonus in
      (
        (damage, bonus, total),
        record t {
          challenge = some (scored total ch);
          guild = elim t.guild [ none ↦ none | some g ↦ some (contributed c.weekday total g) ];
        },
      )

-- The first settlement of the queue, for its announcement.
pub take_pending_settlement : State → Option Settlement × State
take_pending_settlement s = elim s.challenge_pending [
  | [] ↦ (none, s)
  | p ∷ queue ↦ (some p, record s { challenge_pending = queue })
]
