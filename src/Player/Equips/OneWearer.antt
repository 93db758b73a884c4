-- ===== src/Player/Equips/OneWearer.antt =====
-- `wear_runes` and `unequip_everywhere` on the account.
use sevensins_server.Prelude.{
  ◌≤◌, ◌≡◌, ◌≢◌, ◌∙◌, refl, inl, inr, Text, Option, some, none, List, [], ◌∷◌, true, false, not,
  ◌&&◌, Option-cases, Dict, IsDict, lookup, lookup-insert_self, text_eq, text_beq_iff, take, drop,
  length, length-take, if◌then◌else◌, Result, ok, err, arith, ap,
}
use sevensins_server.Player.Types.{Cast, State}
use sevensins_server.Player.Bag.{bag_of}
use sevensins_server.Player.Equips.{
  WearError, unknown_cast, not_held, storage_equipment, char_equips, mem, pieces, uids_of, missing,
  overwrite, steal_rows, wear_slots, wear_runes, unequip_everywhere,
}
use sevensins_server.Player.Equips.Wearers.{mem-pieces, length-char_equips, length-overwrite}
use sevensins_server.Player.Equips.Worn.{wearers, wearers-unequip, wearers-steal}

-- Taking uids off everywhere leaves no cast that wears one of them, and as many that wear any other
-- uid, of those that are not empty.
pub wearers-unequip_everywhere :
    (u : Text) (uids : List Text) (keep : Option Text) (s : State)
    → u ≢ []
    → wearers u (unequip_everywhere uids keep s).1.roster
      ≡ (if mem u uids then 0 else wearers u s.roster)
unfolding unequip_everywhere
wearers-unequip_everywhere u uids keep s h =
    ground (arith, wearers-unequip u h (pieces uids) keep s.roster, mem-pieces u h uids)

missing-some :
    (owned us : List Text) (v : Text)
    → missing owned us ≡ some v
    → (v ≢ []) × (mem v us ≡ true) × (mem v owned ≡ false)
unfolding missing mem
missing-some owned [] v e = ground arith
missing-some owned (x ∷ us) v e =
    ground (arith, text_beq_iff x [], text_beq_iff x v, missing-some owned us v)

missing-none :
    (owned us : List Text) (v : Text)
    → v ≢ []
    → missing owned us ≡ none
    → (mem v us && not (mem v owned)) ≡ false
unfolding missing mem
missing-none owned [] v h e = refl
missing-none owned (x ∷ us) v h e =
    ground (arith, text_beq_iff x [], text_beq_iff x v, missing-none owned us v h)

take-overwrite :
    (sent xs : List Text) → length sent ≤ length xs → take (length sent) (overwrite sent xs) ≡ sent
unfolding overwrite
take-overwrite [] [] h = refl
take-overwrite [] (x ∷ xs) h = refl
take-overwrite (u ∷ sent) [] h = absurd (omega arith)
take-overwrite (u ∷ sent) (x ∷ xs) h = ap (λ t. u ∷ t) (take-overwrite sent xs (omega arith))

drop-overwrite :
    (sent xs : List Text) → drop (length sent) (overwrite sent xs) ≡ drop (length sent) xs
unfolding overwrite
drop-overwrite [] [] = refl
drop-overwrite [] (x ∷ xs) = refl
drop-overwrite (u ∷ sent) [] = refl
drop-overwrite (u ∷ sent) (x ∷ xs) = drop-overwrite sent xs

-- What a request of `wear_runes` with the slots `sent` comes to, for one piece `u`: it names a cast
-- that is not there; or it sends a piece that is not held; or the cast wears what was sent in the first
-- slots and what it wore in the others, `u` was held if it was sent, and nobody else wears it.
pub WearOutcome :
    Text
    → List Text
    → Text
    → State
    → Result WearError ((List Text × Dict Text (List Text)) × State)
    → Type 0
WearOutcome k sent u s (err unknown_cast) = lookup k s.roster ≡ none
WearOutcome k sent u s (err (not_held v)) =
    (v ≢ []) × (mem v sent ≡ true) × (mem v (uids_of (bag_of storage_equipment s)) ≡ false)
WearOutcome k sent u s (ok ((slots, stolen), t)) =
    (entry : Cast) × (lookup k s.roster ≡ some entry)
    × (take (length sent) slots ≡ sent)
    × (drop (length sent) slots ≡ drop (length sent) (char_equips entry))
    × (lookup k t.roster ≡ some (record entry { equips = slots }))
    × ((mem u sent && not (mem u (uids_of (bag_of storage_equipment s)))) ≡ false)
    × (if mem u slots then wearers u t.roster ≡ 1 else wearers u t.roster ≤ wearers u s.roster)

-- How `wear_runes` branches.
module _ (k : Text) (equips : List Text) (s : State) where
  wear-unknown : lookup k s.roster ≡ none → wear_runes k equips s ≡ err unknown_cast
  unfolding wear_runes
  wear-unknown h = rw (h, wear_runes)

  module _ (entry : Cast) (found : lookup k s.roster ≡ some entry) where
    asked : Option Text
    asked =
        missing (uids_of (bag_of storage_equipment s))
          (take (length (take 18 equips)) (overwrite (take 18 equips) (char_equips entry)))

    wear-not_held : (v : Text) → asked ≡ some v → wear_runes k equips s ≡ err (not_held v)
    unfolding wear_runes asked
    wear-not_held v h = rw (found, wear_runes, h)

    wear-done :
        asked ≡ none
        → wear_runes k equips s
          ≡ ok (wear_slots k entry (overwrite (take 18 equips) (char_equips entry)) s)
    unfolding wear_runes asked
    wear-done h = rw (found, wear_runes, h)

module _ (k u : Text) (equips : List Text) (s : State) (h : u ≢ []) (d : IsDict s.roster) where
  wear_found :
      (entry : Cast)
      → lookup k s.roster ≡ some entry
      → WearOutcome k (take 18 equips) u s (wear_runes k equips s)
  unfolding wear_slots WearOutcome asked
  wear_found entry found =
      let sent = take 18 equips in
      let slots = overwrite sent (char_equips entry) in
      let full = length-overwrite sent (char_equips entry) ∙ length-char_equips entry in
      let fits : length sent ≤ length (char_equips entry) =
        omega (arith, length-take 18 equips, length-char_equips entry) in
      let front = take-overwrite sent (char_equips entry) fits in
      elim (Option-cases (asked k equips s entry found)) [
        | inl held ↦
            rw (wear-done k equips s entry found held, WearOutcome)
              (
                entry,
                found,
                front,
                drop-overwrite sent (char_equips entry),
                lookup-insert_self k (record entry { equips = slots })
                    (steal_rows k (pieces slots) s.roster).1,
                missing-none (uids_of (bag_of storage_equipment s)) sent u h (rw front at held),
                wearers-steal k u slots entry s.roster h full d,
              )
        | inr (v, lacks) ↦
            rw (wear-not_held k equips s entry found v lacks, WearOutcome)
              (missing-some (uids_of (bag_of storage_equipment s)) sent v (rw front at lacks))
      ]

  -- For any uid that is not empty, and a roster with each cast once, every request of `wear_runes`
  -- comes to an outcome that `WearOutcome` describes: it is refused for a cast that is not there or
  -- for a piece that was sent and is not held; or it is done, and a piece never gains a second
  -- wearer.
  pub wear_runes-outcome : WearOutcome k (take 18 equips) u s (wear_runes k equips s)
  unfolding WearOutcome
  wear_runes-outcome = elim (Option-cases (lookup k s.roster)) [
    | inl absent ↦ rw (wear-unknown k equips s absent, WearOutcome) absent
    | inr (entry, found) ↦ wear_found entry found
  ]
