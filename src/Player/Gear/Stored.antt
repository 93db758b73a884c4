-- ===== src/Player/Gear/Stored.antt =====
-- A piece of equipment in its storage: its slot and its uid are its own.
use sevensins_server.Prelude.{
  ℕ, ◌+◌, ◌≡◌, refl, sym, subst, Text, none, List, [], ◌∷◌, ◌++◌, false, ◌||◌, by_test, lookup,
  contains, insert, lookup_or-insert_self, length, text_beq, text_beq_iff, nat_eq, arith,
}
use sevensins_server.Player.Types.{Design, Item, Bag, State}
use sevensins_server.Player.Quests.{bump_quest_counter}
use sevensins_server.Player.Bag.{bag_of, put_bag}
use sevensins_server.Player.Bag.Slots.{IsUnique, fresh_slot, insert-IsUnique}
use sevensins_server.Player.Equips.{mem, storage_equipment}
use sevensins_server.Player.Gear.Granting.{bag_uids, settled_rune, store_rune}
use sevensins_server.Player.Gear.Free.{rune_uid-absent}

abbrev pub IsDistinct : List Text → Type 0
IsDistinct [] = Unit
IsDistinct (t ∷ ts) = (mem t ts ≡ false) × IsDistinct ts

-- No two pieces share a slot or a uid.
pub record IsStored (bag : Bag) : Type 0 where
  pub slots : IsUnique bag
  pub uids : IsDistinct (bag_uids bag)

bag_uids-insert :
    (sid : ℕ) (e : Item) (bag : Bag)
    → lookup sid bag ≡ none
    → bag_uids (insert sid e bag) ≡ bag_uids bag ++ (e.uid ∷ [])
unfolding bag_uids
bag_uids-insert sid e [] h = refl
bag_uids-insert sid e ((k, x) ∷ bag) h = ground (arith, bag_uids-insert sid e bag)

mem-last : (t u : Text) (ts : List Text) → mem t (ts ++ (u ∷ [])) ≡ (mem t ts || text_beq u t)
unfolding mem
mem-last t u [] = ground arith
mem-last t u (x ∷ ts) = ground (arith, mem-last t u ts)

IsDistinct-last :
    (u : Text) (ts : List Text) → IsDistinct ts → mem u ts ≡ false → IsDistinct (ts ++ (u ∷ []))
unfolding mem
IsDistinct-last u [] h absent = (refl, tt)
IsDistinct-last u (x ∷ ts) h absent = (
  ground (arith, mem-last x u ts, h.0, absent, text_beq_iff x u, text_beq_iff u x),
  IsDistinct-last u ts h.1 (ground arith),
)

-- A piece in a free slot, under a uid of its own.
insert-IsStored :
    (sid : ℕ) (e : Item) (bag : Bag)
    → lookup sid bag ≡ none
    → mem e.uid (bag_uids bag) ≡ false
    → IsStored bag
    → IsStored (insert sid e bag)
insert-IsStored sid e bag free absent h = record {
  slots = insert-IsUnique sid e bag h.slots;
  uids =
      subst IsDistinct (sym (bag_uids-insert sid e bag free))
        (IsDistinct-last e.uid (bag_uids bag) h.uids absent);
}

pub settled-free :
    (player : Text) (bag : Bag) (entry : ℕ × Item)
    → lookup (settled_rune player bag entry).0 bag ≡ none
unfolding settled_rune
settled-free player bag (sid, entry) =
    by_test (λ n. lookup n bag ≡ none) (contains sid bag) _ _ (λ _. fresh_slot bag)
      (λ h. ground (arith, h))

settled-absent :
    (player : Text) (bag : Bag) (entry : ℕ × Item)
    → mem (settled_rune player bag entry).1.uid (bag_uids bag) ≡ false
unfolding settled_rune
settled-absent player bag (sid, entry) =
    by_test (λ u. mem u (bag_uids bag) ≡ false) (mem entry.uid (bag_uids bag)) _ _
      (λ _. rune_uid-absent player (length bag + 1) (bag_uids bag)) (λ h. h)

pub bag_of-put :
    (storage : ℕ) (bag : Bag) (s : State) → bag_of storage (put_bag storage bag s) ≡ bag
bag_of-put storage bag s = lookup_or-insert_self storage bag [] s.backpack

-- Where no two pieces of storage 2 share a slot or a uid, and whatever entry `store_rune` is given,
-- also one whose `sid` or `uid` is taken by now: it goes into a slot of storage 2 that was free,
-- under a uid that no piece there had, every other piece stays in its slot, and again no two pieces
-- share a slot or a uid.
pub store_rune-fresh :
    (d : Design) (entry : ℕ × Item) (s : State)
    → IsStored (bag_of storage_equipment s)
    → let bag = bag_of storage_equipment s in
      let stored = (store_rune d entry s).0 in
      let after = bag_of storage_equipment (store_rune d entry s).1 in
      (lookup stored.0 bag ≡ none)
      × (mem stored.1.uid (bag_uids bag) ≡ false)
      × (after ≡ insert stored.0 stored.1 bag)
      × IsStored after
unfolding store_rune bump_quest_counter
store_rune-fresh d entry s h =
    let bag = bag_of storage_equipment s in
    let (sid, e) = settled_rune s.player_id bag entry in
    let free = settled-free s.player_id bag entry in
    let absent = settled-absent s.player_id bag entry in
    let after = bag_of-put storage_equipment (insert sid e bag) s in
    (free, absent, after, subst IsStored (sym after) (insert-IsStored sid e bag free absent h))
