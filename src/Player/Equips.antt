-- ===== src/Player/Equips.antt =====
-- What the casts wear: `char_equips` and `unequip_everywhere` of server/player_state/core.py,
-- `wear_runes` of server/player_state/runes.py. A uid is a text, and the empty text is no piece.
pub mod Wearers
pub mod Worn
pub mod OneWearer
use sevensins_server.Prelude.{
  ℕ, ◌-◌, Text, Option, some, none, List, [], ◌∷◌, ◌++◌, map, Bool, true, false, not, ◌&&◌, ◌||◌,
  Dict, lookup, insert, text_eq, text_beq, take, length, replicate, if◌then◌else◌, Result, ok, err,
}
use sevensins_server.Player.Types.{Item, Bag, Cast, State}
use sevensins_server.Player.Bag.{bag_of}

abbrev pub char_equip_slots : ℕ
char_equip_slots = 18

-- BP_STORAGE_EQUIPMENT
abbrev pub storage_equipment : ℕ
storage_equipment = 2

pub char_equips : Cast → List Text
char_equips e =
    let stored = take char_equip_slots e.equips in
    stored ++ replicate (char_equip_slots - length stored) []

-- u in uids
unfoldable pub mem : Text → List Text → Bool
mem u [] = false
mem u (x ∷ xs) = text_beq x u || mem u xs

-- {u for u in uids if u}
pub pieces : List Text → List Text
pieces [] = []
pieces (x ∷ xs) = if text_beq x [] then pieces xs else x ∷ pieces xs

-- any(u in gone for u in cur)
pub wears : List Text → List Text → Bool
wears gone [] = false
wears gone (x ∷ xs) = mem x gone || wears gone xs

-- [("" if u in gone else u) for u in cur]
pub strip : List Text → List Text → List Text
strip gone [] = []
strip gone (x ∷ xs) = (if mem x gone then [] else x) ∷ strip gone xs

-- The loop of `unequip_everywhere` over the roster's items, with `affected`.
pub unequip_rows : List Text → Option Text → Dict Text Cast → Dict Text (List Text) × Dict Text Cast
unequip_rows gone keep [] = ([], [])
unequip_rows gone keep ((uid, e) ∷ rows) =
    let (affected, rest) = unequip_rows gone keep rows in
    let cur = char_equips e in
    let kept : Bool = elim keep [ none ↦ false | some k ↦ text_beq uid k ] in
    if wears gone cur
    then (
      (if kept then affected else (uid, strip gone cur) ∷ affected),
      (uid, record e { equips = strip gone cur }) ∷ rest,
    )
    else (affected, (uid, e) ∷ rest)

unfoldable pub unequip_everywhere : List Text → Option Text → State → Dict Text (List Text) × State
unequip_everywhere uids keep s =
    let (affected, roster) = unequip_rows (pieces uids) keep s.roster in
    (affected, record s { roster = roster })

-- The exceptions of `wear_runes`.
pub data WearError : Type 0 where
  unknown_cast : WearError
  not_held : Text → WearError

-- slots[i] = sent[i] for the slots that were sent
pub overwrite : List Text → List Text → List Text
overwrite sent [] = []
overwrite [] (x ∷ xs) = x ∷ xs
overwrite (u ∷ sent) (x ∷ xs) = u ∷ overwrite sent xs

-- {e.get("uid") for e in bag.values()}
pub uids_of : Bag → List Text
uids_of [] = []
uids_of ((slot, e) ∷ bag) = e.uid ∷ uids_of bag

-- The first uid sent that is a piece and not owned.
pub missing : List Text → List Text → Option Text
missing owned [] = none
missing owned (u ∷ us) =
    if not (text_beq u []) && not (mem u owned) then some u else missing owned us

-- The loop of `wear_runes` over the other casts, with `stolen`.
pub steal_rows : Text → List Text → Dict Text Cast → Dict Text (List Text) × Dict Text Cast
steal_rows char_uid worn [] = ([], [])
steal_rows char_uid worn ((uid, e) ∷ rows) =
    let (stolen, rest) = steal_rows char_uid worn rows in
    let cur = char_equips e in
    if text_beq uid char_uid
    then (stolen, (uid, e) ∷ rest)
    else if wears worn cur
    then ((uid, strip worn cur) ∷ stolen, (uid, record e { equips = strip worn cur }) ∷ rest)
    else (stolen, (uid, e) ∷ rest)

-- The part of `wear_runes` that changes the account.
pub wear_slots : Text → Cast → List Text → State → (List Text × Dict Text (List Text)) × State
wear_slots char_uid entry slots s =
    let (stolen, roster) = steal_rows char_uid (pieces slots) s.roster in
    (
      (slots, stolen),
      record s { roster = insert char_uid (record entry { equips = slots }) roster },
    )

pub wear_runes :
    Text → List Text → State → Result WearError ((List Text × Dict Text (List Text)) × State)
wear_runes char_uid equips s = elim (lookup char_uid s.roster) [
  | none ↦ err unknown_cast
  | some entry ↦
      let sent = take char_equip_slots equips in
      let slots = overwrite sent (char_equips entry) in
      elim (missing (uids_of (bag_of storage_equipment s)) (take (length sent) slots)) [
        | some u ↦ err (not_held u)
        | none ↦ ok (wear_slots char_uid entry slots s)
      ]
]
