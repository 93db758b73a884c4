-- ===== src/Player/Gear/Granting.antt =====
-- Equipment into its storage: `roll_rune`, `store_rune` and `grant_rune` of
-- server/player_state/gear.py, `grant_soulmirror` and `soulmirror_box_items` of core.py.
use Prim.Native.Nat.{max}
use sevensins_server.Prelude.{
  ℕ, zero, suc, ◌+◌, ◌-◌, ◌*◌, ◌/◌, ◌%◌, Text, Option, some, none, List, [], ◌∷◌, ◌++◌, Bool, true,
  false, ◌&&◌, ◌||◌, not, contains, insert, length, ◌==◌, nat_eq, text_eq, if◌then◌else◌, pos,
  Result, ok, err,
}
use sevensins_server.Player.Types.{Design, Item, Bag, State}
use sevensins_server.Player.Quests.{bump_quest_counter}
use sevensins_server.Player.Bag.{bag_of, put_bag, max_slot}
use sevensins_server.Player.Equips.{mem, storage_equipment}
use sevensins_server.Player.Teams.{char_uid}
use sevensins_server.Player.Gear.{Host, GearError, make_rune, make_soulmirror}

abbrev pub storage_soulfrag : ℕ
storage_soulfrag = 3

abbrev pub case_obtain_rune : ℕ
case_obtain_rune = 6

-- [e.get("uid") for e in bag.values()]
unfoldable pub bag_uids : Bag → List Text
bag_uids [] = []
bag_uids ((slot, e) ∷ bag) = e.uid ∷ bag_uids bag

-- f"{player_id}r{n:04d}" and f"{player_id}s{n:04d}"
unfoldable pub rune_uid : Text → ℕ → Text
rune_uid player n = char_uid (player ++ (114 ∷ [])) n

unfoldable pub mirror_uid : Text → ℕ → Text
mirror_uid player n = char_uid (player ++ (115 ∷ [])) n

-- The loops `while uid in taken: n += 1; uid = number(n)`.
unfoldable pub free_uid : ℕ → (ℕ → Text) → ℕ → List Text → Text
free_uid zero number n taken = number n
free_uid (suc fuel) number n taken =
    let later = free_uid fuel number (n + 1) taken in
    if mem (number n) taken then later else number n

unfoldable pub numbered_entry : ℕ → Text → Result GearError Item → Result GearError (ℕ × Item)
numbered_entry sid uid (err e) = err e
numbered_entry sid uid (ok entry) = ok (sid, record entry { uid = uid })

-- The entry with its `sid`; `reserved` are entries that were rolled before and not stored.
unfoldable pub roll_rune :
    Host → Design → ℕ → ℕ → ℕ → Bag → State → Result GearError (ℕ × Item) × State
roll_rune host d iid level enhance reserved s =
    let bag = bag_of storage_equipment s in
    let t = put_bag storage_equipment bag s in
    let taken = bag_uids bag ++ bag_uids reserved in
    let uid =
      free_uid (length taken) (rune_uid s.player_id) (length bag + length reserved + 1) taken in
    (
      numbered_entry (max (max_slot bag) (max_slot reserved) + 1) uid
          (make_rune host d iid level enhance t),
      t,
    )

-- The entry as it is stored.
unfoldable pub settled_rune : Text → Bag → ℕ × Item → ℕ × Item
settled_rune player bag (sid, entry) =
    let taken = bag_uids bag in
    let free = free_uid (length taken) (rune_uid player) (length bag + 1) taken in
    (
      (if contains sid bag then max_slot bag + 1 else sid),
      record entry { uid = if mem entry.uid taken then free else entry.uid },
    )

unfoldable pub store_rune : Design → ℕ × Item → State → (ℕ × Item) × State
store_rune d entry s =
    let bag = bag_of storage_equipment s in
    let (sid, e) = settled_rune s.player_id bag entry in
    (
      (sid, e),
      (bump_quest_counter d case_obtain_rune (pos 1) (some e.iid) none
          (put_bag storage_equipment (insert sid e bag) s)).1,
    )

-- `store_rune` of what `roll_rune` returns.
unfoldable pub store_rolled :
    Design → Result GearError (ℕ × Item) × State → Result GearError (ℕ × Item) × State
store_rolled d (err e, s) = (err e, s)
store_rolled d (ok entry, s) = let (stored, t) = store_rune d entry s in (ok stored, t)

unfoldable pub grant_rune : Host → Design → ℕ → ℕ → ℕ → State → Result GearError (ℕ × Item) × State
grant_rune host d iid level enhance s = store_rolled d (roll_rune host d iid level enhance [] s)

unfoldable pub store_mirror :
    Result GearError (ℕ × Item) → State → Result GearError (ℕ × Item) × State
store_mirror (err e) s = (err e, s)
store_mirror (ok (sid, e)) s =
    (ok (sid, e), put_bag storage_soulfrag (insert sid e (bag_of storage_soulfrag s)) s)

unfoldable pub grant_soulmirror :
    Host → Design → ℕ → ℕ → ℕ → State → Result GearError (ℕ × Item) × State
grant_soulmirror host d iid level enhance s =
    let bag = bag_of storage_soulfrag s in
    let t = put_bag storage_soulfrag bag s in
    let taken = bag_uids bag in
    let uid = free_uid (length taken) (mirror_uid s.player_id) (length bag + 1) taken in
    store_mirror
      (numbered_entry (max_slot bag + 1) uid (make_soulmirror host d iid level enhance t)) t

-- SOULMIRROR_BOX_FAMILIES.get(family): the first id, the actions, and whether the box is a set.
unfoldable pub box_family : ℕ → Option (ℕ × List ℕ × Bool)
box_family family =
    if family == 1004
    then some (400001, 101 ∷ 102 ∷ 103 ∷ [], true)
    else if family == 1006
    then some (450001, 104 ∷ 105 ∷ 106 ∷ [], true)
    else if family == 3000
    then some (400001, 101 ∷ 102 ∷ 103 ∷ [], false)
    else if family == 3002
    then some (450001, 104 ∷ 105 ∷ 106 ∷ [], false)
    else none

-- The loop over the slots from `slot` on: the ids, or `none` at a row that does not line up.
unfoldable pub box_ids : Design → ℕ → ℕ → List ℕ → Option (List ℕ)
box_ids d base slot [] = some []
box_ids d base slot (action ∷ actions) =
    let iid = base + slot * 5 + 4 in
    let row = d.item iid in
    let rest : Option (List ℕ) = box_ids d base (slot + 1) actions in
    if row.class == 3 && row.action == action && row.param2 == 5
    then elim rest [ none ↦ none | some ids ↦ some (iid ∷ ids) ]
    else none

-- The ids, and whether the box is a set or a selector.
unfoldable pub soulmirror_box_items : Design → ℕ → Option (List ℕ × Bool)
soulmirror_box_items d iid =
    let row = d.item iid in
    let suit = row.param1 % 1000 in
    if not (row.action == 2 || row.action == 7)
    then none
    else elim (box_family (row.param1 / 1000)) [
      | none ↦ none
      | some (first, actions, is_set) ↦
          if suit == 0 then none else elim (box_ids d (first + (suit - 1) * 15) 0 actions) [
            | none ↦ none
            | some ids ↦ some (ids, is_set)
          ]
    ]
