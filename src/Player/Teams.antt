-- ===== src/Player/Teams.antt =====
-- The roster and the saved teams: `sell_chars`, `decompose_chars`, `set_formation`,
-- `toggle_char_lock` and `remove_from_all_formations` of server/player_state/roster.py, and
-- `add_char` of core.py.
pub mod Fresh
use sevensins_server.Prelude.{
  ℕ, zero, suc, ◌+◌, ◌-◌, Text, Option, some, none, List, [], ◌∷◌, ◌++◌, map, Bool, true, false,
  ◌||◌, ◌&&◌, not, Dict, lookup, lookup_or, contains, insert, erase, get_or, set, take, replicate,
  length, ◌==◌, nat_eq, text_eq, text_beq, leb, ltb, if◌then◌else◌, ℤ, pos, negsuc, ◌+ℤ◌,
}
use sevensins_server.Player.Types.{Design, DecomposeRow, Cast, Formation, State}
use sevensins_server.Player.Casts.{put_cast, in_formation}
use sevensins_server.Player.Equips.{mem}
use sevensins_server.Player.Mail.{str}

-- char_star(row.get("_rarity")). The rows of the design table have rarities from 1 on: 0 stands for a
-- row that is missing or has none, where Python catches the TypeError.
pub char_star : ℕ → ℕ
char_star zero = 0
char_star (suc n) = get_or (1 ∷ 3 ∷ 4 ∷ 5 ∷ 5 ∷ []) n 0

-- sell_coins: Python reads SELL_COIN_BY_RANK[-1] for rank 0.
pub sell_coins : ℕ → ℕ
sell_coins zero = 15000
sell_coins (suc n) = get_or (0 ∷ 0 ∷ 500 ∷ 1500 ∷ 3000 ∷ 15000 ∷ []) n 0

abbrev pub coin_item_id : ℕ
coin_item_id = 2

abbrev is_no_amount : ℤ → Bool
is_no_amount (pos n) = n == 0
is_no_amount (negsuc n) = false

pub char_sell_gain : Design → ℕ → ℕ → List (ℕ × ℤ)
char_sell_gain d id rank =
    let row = d.char id in
    let paid = if sell_coins rank == 0 then [] else (coin_item_id, pos (sell_coins rank)) ∷ [] in
    if row.sell_id == 0 || is_no_amount row.sell_number
    then paid
    else (row.sell_id, row.sell_number) ∷ paid

-- gain[item_id] = gain.get(item_id, 0) + amount, for each
unfoldable pub add_gains : List (ℕ × ℤ) → Dict ℕ ℤ → Dict ℕ ℤ
add_gains [] gain = gain
add_gains ((item, amount) ∷ items) gain =
    add_gains items (insert item (lookup_or item (pos 0) gain +ℤ amount) gain)

-- sorted(gain.items()), of different items
unfoldable pub place : ℕ × ℤ → List (ℕ × ℤ) → List (ℕ × ℤ)
place p [] = p ∷ []
place (item, n) ((j, m) ∷ rest) =
    if leb item j then (item, n) ∷ (j, m) ∷ rest else (j, m) ∷ place (item, n) rest

unfoldable pub sorted : List (ℕ × ℤ) → List (ℕ × ℤ)
sorted [] = []
sorted (p ∷ ps) = place p (sorted ps)

-- entry.get("star") or char_star(row.get("_rarity"))
pub sell_star : Design → Cast → ℕ
sell_star d e =
    let shown = char_star (d.char e.id).rarity in
    elim e.star [ none ↦ shown | some s ↦ if s == 0 then shown else s ]

-- The loop of `sell_chars`: the roster and the gains, and the casts that are sold.
unfoldable pub sell_rows :
    Design → List Text → Dict Text Cast × Dict ℕ ℤ → List Text × (Dict Text Cast × Dict ℕ ℤ)
sell_rows d [] acc = ([], acc)
sell_rows d (u ∷ us) (roster, gain) = elim (lookup u roster) [
  | none ↦ sell_rows d us (roster, gain)
  | some e ↦
      let (sold, acc) =
        sell_rows d us (erase u roster, add_gains (char_sell_gain d e.id (sell_star d e)) gain) in
      (u ∷ sold, acc)
]

-- form["array"] = ["" if u in gone else u for u in form["array"]]
unfoldable pub blanked : List Text → List Text → List Text
blanked gone [] = []
blanked gone (u ∷ us) = (if mem u gone then [] else u) ∷ blanked gone us

unfoldable pub blank_teams : List Text → List Formation → List Formation
blank_teams gone [] = []
blank_teams gone (f ∷ fs) = record f { array = blanked gone f.array } ∷ blank_teams gone fs

is_group : ℕ → Option ℕ → Bool
is_group g none = false
is_group g (some h) = h == g

gain_rows : ℕ → List DecomposeRow → List (ℕ × ℤ)
gain_rows g [] = []
gain_rows g (r ∷ rs) =
    if is_group g r.group && not (r.item_id == 0)
    then (r.item_id, r.item_count) ∷ gain_rows g rs
    else gain_rows g rs

pub decompose_gain : Design → ℕ → List (ℕ × ℤ)
decompose_gain d id = elim (d.char id).group [ none ↦ [] | some g ↦ gain_rows g d.char_decompose ]

-- The loop of `decompose_chars`: the casts that are not of a team, and not locked.
unfoldable pub decompose_rows :
    Design
    → List Formation
    → List Text
    → Dict Text Cast × Dict ℕ ℤ
    → List Text × (Dict Text Cast × Dict ℕ ℤ)
decompose_rows d teams [] acc = ([], acc)
decompose_rows d teams (u ∷ us) (roster, gain) =
    let skipped = decompose_rows d teams us (roster, gain) in
    elim (lookup u roster) [
      | none ↦ skipped
      | some e ↦
          let (done, acc) =
            decompose_rows d teams us (erase u roster, add_gains (decompose_gain d e.id) gain) in
          if in_formation u teams || e.lock then skipped else (u ∷ done, acc)
    ]

-- What pays a gain out: `grant_reward` of core.py.
module _ {ℓ} {Bucket : Type ℓ} (grant_reward : ℕ → ℤ → State → Bucket × State) where
  unfoldable pub grant_each : Dict ℕ ℤ → State → State
  grant_each [] s = s
  grant_each ((item, amount) ∷ gain) s = grant_each gain (grant_reward item amount s).1

  unfoldable pub sell_chars : Design → List Text → State → (List Text × List (ℕ × ℤ)) × State
  sell_chars d uids s =
      let (sold, (roster, gain)) = sell_rows d uids (s.roster, []) in
      (
        (sold, sorted gain),
        grant_each gain (record s { roster = roster; formations = blank_teams sold s.formations }),
      )

  unfoldable pub decompose_chars : Design → List Text → State → (List Text × List (ℕ × ℤ)) × State
  decompose_chars d uids s =
      let (done, (roster, gain)) = decompose_rows d s.formations uids (s.roster, []) in
      ((done, sorted gain), grant_each gain (record s { roster = roster }))

abbrev pub formation_slots : ℕ
formation_slots = 5

-- [u if u in state["roster"] else EMPTY_SLOT for u in uids]
unfoldable pub known_slots : Dict Text Cast → List Text → List Text
known_slots roster [] = []
known_slots roster (u ∷ us) = (if contains u roster then u else []) ∷ known_slots roster us

-- The team that an edit makes, padded with empty slots.
unfoldable pub team_of : Dict Text Cast → List Text → ℤ → Formation
team_of roster uids support =
    let slots = known_slots roster (take formation_slots uids) in
    record { array = slots ++ replicate (formation_slots - length slots) []; sup = support }

unfoldable pub set_formation : ℤ → List Text → ℤ → State → Formation × State
set_formation (negsuc i) uids support s = (team_of s.roster uids support, s)
set_formation (pos i) uids support s =
    let team = team_of s.roster uids support in
    (
      team,
      if ltb i (length s.formations) then record s { formations = set s.formations i team } else s,
    )

unfoldable pub toggle_char_lock : List Text → State → List (Text × Bool) × State
toggle_char_lock [] s = ([], s)
toggle_char_lock (u ∷ us) s = elim (lookup u s.roster) [
  | none ↦ toggle_char_lock us s
  | some e ↦
      let (changed, t) = toggle_char_lock us (put_cast u (record e { lock = not e.lock }) s) in
      ((u, not e.lock) ∷ changed, t)
]

-- {str(i + 1): f for i, f in enumerate(formations)}
pub numbered : ℕ → List Formation → Dict ℕ Formation
numbered n [] = []
numbered n (f ∷ fs) = (suc n, f) ∷ numbered (suc n) fs

unfoldable pub remove_from_all_formations : Text → State → Dict ℕ Formation × State
remove_from_all_formations u s =
    let teams = blank_teams (u ∷ []) s.formations in
    (numbered 0 teams, record s { formations = teams })

-- f"{player_id}{n:04d}"
pub char_uid : Text → ℕ → Text
char_uid player n = player ++ (replicate (4 - length (str n)) 48 ++ str n)

-- The `while uid in state["roster"]` loop.
pub fresh_uid : ℕ → Text → ℕ → Dict Text Cast → Text
fresh_uid zero player n roster = char_uid player n
fresh_uid (suc fuel) player n roster =
    let later = fresh_uid fuel player (n + 1) roster in
    if contains (char_uid player n) roster then later else char_uid player n

unfoldable pub add_char : ℕ → ℕ → Option ℕ → ℕ → State → Text × State
add_char id lv star super_star s =
    let n = length s.roster in
    let uid = fresh_uid n s.player_id (n + 1) s.roster in
    let e : Cast = record {
      id = id;
      lv = lv;
      xp = pos 0;
      plus = 0;
      pxp = pos 0;
      super_limit = 0;
      limit_book = 0;
      limit_char = 0;
      lock = false;
      star = star;
      super_star = super_star;
      equips = [];
    } in
    (uid, put_cast uid e s)
