-- ===== src/Player/Rewards.antt =====
-- Where a reward goes: `grant_reward` of server/player_state/core.py, `char_reward_of` and
-- `_char_item_index` and `item_bucket` of quests.py. An exception ends a loop; what it stored
-- before stays.
pub mod Kept
pub mod Buckets
pub mod Interfaces
pub mod Lands
use sevensins_server.Prelude.{
  ℕ, zero, suc, Text, Option, some, none, List, [], ◌∷◌, Bool, true, false, ◌&&◌, ◌||◌, not, Dict,
  lookup, lookup_or, contains, insert, ◌==◌, nat_eq, text_eq, text_beq, if◌then◌else◌, ℤ, pos,
  negsuc, ◌+ℤ◌, Result, ok, err,
}
use sevensins_server.Player.Types.{CharRow, Design, Item, Energy, State}
use sevensins_server.Player.Money.{capped_balance, add_currency}
use sevensins_server.Player.Bag.{grant_item, storage_normal, action_currency}
use sevensins_server.Player.Casts.{default_star}
use sevensins_server.Player.Teams.{add_char}
use sevensins_server.Player.Gear.{
  Host, GearError, is_test_item, is_rune_action, soulfrag_slot_index,
}
use sevensins_server.Player.Gear.Granting.{grant_rune, grant_soulmirror, soulmirror_box_items}

abbrev pub action_energy : ℕ
action_energy = 6

abbrev pub char_item_action : ℕ
char_item_action = 1

abbrev pub char_box_action : ℕ
char_box_action = 2

-- What `grant_reward` returns.
pub data Bucket : Type 0 where
  skipped : Bucket
  equipment : Bucket
  currency : Bucket
  energy : Bucket
  char : Bucket
  backpack : Bucket

-- The loop of `_char_item_index` on the dict `idx`: the first item of a name stays.
pub index_items : Host → Design → List ℕ → Dict Text ℕ → Dict Text ℕ
index_items host d [] idx = idx
index_items host d (iid ∷ iids) idx =
    let row = d.item iid in
    let name = host.strip row.name in
    index_items host d iids (
      if row.action == char_item_action && (d.char row.param1).known
      then (if text_beq name []
          then idx
          else if contains name idx
          then idx
          else insert name iid idx)
      else idx)

pub char_item_index : Host → Design → Dict Text ℕ
char_item_index host d = index_items host d d.item_ids []

-- The star that a name says, or else that of the cast.
unfoldable pub said_star : CharRow → Option ℕ → ℕ
said_star row none = default_star row
said_star row (some n) = n

-- `char_reward_of` from the lookup of the cast on, with the cast's id, its star and the item to
-- show.
unfoldable pub cast_reward : Host → Design → ℕ → Option (ℕ × ℕ × ℕ)
cast_reward host d iid =
    let row = d.item iid in
    let char_id = row.param1 in
    let star = said_star (d.char char_id) (host.star_prefix (host.strip row.name)) in
    if (d.char char_id).known then some (char_id, star, iid) else none

-- A box is resolved once: the index holds items of the first kind only.
unfoldable pub char_reward_of : Host → Design → ℕ → Option (ℕ × ℕ × ℕ)
char_reward_of host d iid =
    let row = d.item iid in
    if row.action == char_box_action
    then elim (lookup (host.strip row.name) (char_item_index host d)) [
      | none ↦ none
      | some resolved ↦ cast_reward host d resolved
    ]
    else if row.action == char_item_action
    then cast_reward host d iid
    else none

-- max(1, int(amount))
pub at_least_one : ℤ → ℕ
at_least_one (pos zero) = 1
at_least_one (pos (suc n)) = suc n
at_least_one (negsuc n) = 1

abbrev pub Step : Type 0
Step = State → Result GearError (Unit {0}) × State

-- One step after the other, unless it raises.
unfoldable pub then_do : Step → Step → Step
then_do f g s = let (r, t) = f s in elim r [ err e ↦ (err e, t) | ok _ ↦ g t ]

unfoldable pub repeat : ℕ → Step → Step
repeat zero f s = (ok tt, s)
repeat (suc n) f s = then_do f (repeat n f) s

-- A call whose result the loop drops.
unfoldable pub without_entry :
    Result GearError (ℕ × Item) × State → Result GearError (Unit {0}) × State
without_entry (err e, s) = (err e, s)
without_entry (ok entry, s) = (ok tt, s)

-- for iid in ids: grant_soulmirror(state, iid)
unfoldable pub mirror_step : Host → Design → ℕ → Step
mirror_step host d iid s = without_entry (grant_soulmirror host d iid 0 0 s)

unfoldable pub mirror_steps : Host → Design → List ℕ → Step
mirror_steps host d [] s = (ok tt, s)
mirror_steps host d (iid ∷ ids) s = then_do (mirror_step host d iid) (mirror_steps host d ids) s

unfoldable pub rune_step : Host → Design → ℕ → Step
rune_step host d iid s = without_entry (grant_rune host d iid 0 0 s)

-- ids if kind == "set" else [choice(ids)]
unfoldable pub box_step : Host → Design → List ℕ × Bool → Step
box_step host d (ids, is_set) s =
    mirror_steps host d (if is_set then ids else host.choice s 0 ids ∷ []) s

unfoldable pub char_step : ℕ → ℕ → Step
char_step char_id star s = (ok tt, (add_char char_id 1 (some star) 0 s).1)

unfoldable pub add_energy : ℕ → ℤ → State → State
add_energy key amount s =
    let slot = lookup_or key (record { energy = pos 0; cap = pos 0 }) s.energy in
    record s {
      energy =
          insert key (record slot { energy = capped_balance (slot.energy +ℤ amount) (pos 0) })
            s.energy;
    }

-- The bucket after the steps, or what they raised.
unfoldable pub landed :
    Bucket → Result GearError (Unit {0}) × State → Result GearError Bucket × State
landed bucket (ok u, s) = (ok bucket, s)
landed bucket (err e, s) = (err e, s)

-- What is not equipment, a currency or energy by its own action.
unfoldable pub grant_other : Host → Design → ℕ → ℤ → State → Result GearError Bucket × State
grant_other host d item amount s = elim (soulmirror_box_items d item) [
  | some box ↦ landed equipment (repeat (at_least_one amount) (box_step host d box) s)
  | none ↦ elim (char_reward_of host d item) [
    | some (char_id, star, shown) ↦
        landed char (repeat (at_least_one amount) (char_step char_id star) s)
    | none ↦ (ok backpack, (grant_item item amount storage_normal s).1)
  ]
]

unfoldable pub grant_reward : Host → Design → ℕ → ℤ → State → Result GearError Bucket × State
grant_reward host d item amount s =
    let row = d.item item in
    if is_test_item host d item
    then (ok skipped, s)
    else if is_rune_action row.action
    then landed equipment (repeat (at_least_one amount) (rune_step host d item) s)
    else elim (soulfrag_slot_index row.action) [
      | some _ ↦ landed equipment (repeat (at_least_one amount) (mirror_step host d item) s)
      | none ↦
          if row.action == action_currency && not (row.param1 == 0)
          then (ok currency, (add_currency row.param1 amount s).1)
          else if row.action == action_energy && not (row.param1 == 0)
          then (ok energy, add_energy row.param1 amount s)
          else grant_other host d item amount s
    ]

-- `item_bucket` from the box on, and where it says that `grant_reward` would put the item.
unfoldable pub other_bucket : Host → Design → ℕ → Bucket
other_bucket host d item = elim (soulmirror_box_items d item) [
  | some _ ↦ equipment
  | none ↦ elim (char_reward_of host d item) [ some _ ↦ char | none ↦ backpack ]
]

unfoldable pub item_bucket : Host → Design → ℕ → Bucket
item_bucket host d item =
    let row = d.item item in
    let is_mirror : Bool = elim (soulfrag_slot_index row.action) [ none ↦ false | some _ ↦ true ] in
    if is_rune_action row.action || is_mirror
    then equipment
    else if row.action == action_currency && not (row.param1 == 0)
    then currency
    else if row.action == action_energy && not (row.param1 == 0)
    then energy
    else other_bucket host d item
