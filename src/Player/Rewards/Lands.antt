-- ===== src/Player/Rewards/Lands.antt =====
-- Where each reward lands, and how much of it.
use sevensins_server.Prelude.{
  ℕ, zero, suc, ◌+◌, ◌≡◌, refl, sym, ap, subst, ◌∙◌, Text, some, none, true, false, lookup, insert,
  nat_eq, ℤ, pos, ◌+ℤ◌, Result, ok, err, int_laws, arith,
}
use sevensins_server.Player.Types.{Design, Item, Bag, State}
use sevensins_server.Player.Quests.{bump_quest_counter}
use sevensins_server.Player.Bag.{bag_of, put_bag, count_in, item_count, max_slot}
use sevensins_server.Player.Bag.Slots.{own_held, count-add, fresh_slot}
use sevensins_server.Player.Equips.{storage_equipment}
use sevensins_server.Player.Gear.{
  Host, GearError, is_test_item, is_rune_action, rune_slot, soulfrag_slot, soulfrag_slot_index,
  is_internal_soulmirror, bonus_group_rows, has_rows,
}
use sevensins_server.Player.Gear.Granting.{
  storage_soulfrag, settled_rune, store_rune, store_rolled, roll_rune, grant_rune, numbered_entry,
  store_mirror, grant_soulmirror,
}
use sevensins_server.Player.Gear.Stored.{settled-free, bag_of-put}
use sevensins_server.Player.Gear.Made.{IsPiece, make_rune-ok, make_soulmirror-ok}
use sevensins_server.Player.Rewards.{
  Bucket, equipment, Step, at_least_one, then_do, repeat, without_entry, rune_step, mirror_step,
  landed, grant_reward,
}

count-piece :
    (iid sid : ℕ) (e : Item) (bag : Bag)
    → IsPiece iid e
    → lookup sid bag ≡ none
    → count_in iid (insert sid e bag) ≡ count_in iid bag +ℤ pos 1
count-piece iid sid e bag piece free =
    count-add iid sid e bag free
    ∙ ap (λ n. count_in iid bag +ℤ n) (own_held iid e piece.named ∙ piece.one)

uid-IsPiece :
    (iid : ℕ) (e : Item) (uid : Text) → IsPiece iid e → IsPiece iid (record e { uid = uid })
uid-IsPiece iid e uid h = record { named = h.named; one = h.one }

settled-IsPiece :
    (player : Text) (bag : Bag) (sid iid : ℕ) (e : Item)
    → IsPiece iid e
    → IsPiece iid (settled_rune player bag (sid, e)).1
unfolding settled_rune
settled-IsPiece player bag sid iid e h = uid-IsPiece iid e _ h

stored-count :
    (d : Design) (iid sid : ℕ) (e : Item) (s : State)
    → IsPiece iid e
    → item_count storage_equipment iid (store_rune d (sid, e) s).1
      ≡ item_count storage_equipment iid s +ℤ pos 1
unfolding item_count store_rune bump_quest_counter
stored-count d iid sid e s piece =
    let bag = bag_of storage_equipment s in
    let entry = settled_rune s.player_id bag (sid, e) in
    ap (count_in iid) (bag_of-put storage_equipment (insert entry.0 entry.1 bag) s)
    ∙ count-piece iid entry.0 entry.1 bag (settled-IsPiece s.player_id bag sid iid e piece)
        (settled-free s.player_id bag (sid, e))

same_count :
    (storage iid : ℕ) (s : State)
    → item_count storage iid (put_bag storage (bag_of storage s) s) ≡ item_count storage iid s
unfolding item_count
same_count storage iid s = ap (count_in iid) (bag_of-put storage (bag_of storage s) s)

-- A step that succeeds and adds one to a count.
abbrev Adds : (State → ℤ) → Step → Type 0
Adds m f = (s : State) → ((f s).0 ≡ ok tt) × (m (f s).1 ≡ m s +ℤ pos 1)

add_one : (a b c : ℤ) (n : ℕ) → b ≡ a +ℤ pos 1 → c ≡ b +ℤ pos n → c ≡ a +ℤ pos (suc n)
add_one a b c n h k =
    let sum : a +ℤ pos 1 +ℤ pos n ≡ a +ℤ pos (suc n) = omega int_laws in
    k ∙ ap (λ x. x +ℤ pos n) h ∙ sum

repeat-Adds :
    (m : State → ℤ) (f : Step)
    → Adds m f
    → (n : ℕ) (s : State) → ((repeat n f s).0 ≡ ok tt) × (m (repeat n f s).1 ≡ m s +ℤ pos n)
unfolding repeat then_do
repeat-Adds m f h zero s = (refl, omega int_laws)
repeat-Adds m f h (suc n) s =
    let (done, one) = h s in
    let (rest, more) = repeat-Adds m f h n (f s).1 in
    rw (done, repeat, then_do) (rest, add_one _ _ _ n one more)

module _ (host : Host) (d : Design) (iid : ℕ) where
  rolled_lem :
      (sid : ℕ) (uid : Text) (r : Result GearError Item) (s : State) (e : Item)
      → r ≡ ok e
      → IsPiece iid e
      → let after = without_entry (store_rolled d (numbered_entry sid uid r, s)) in
        (after.0 ≡ ok tt)
        × (item_count storage_equipment iid after.1 ≡ item_count storage_equipment iid s +ℤ pos 1)
  unfolding without_entry store_rolled numbered_entry
  rolled_lem sid uid (err x) s e h piece = absurd (ground arith)
  rolled_lem sid uid (ok x) s e h piece =
      let same : x ≡ e = ap (λ (r : Result GearError Item). elim r [ ok y ↦ y | err z ↦ x ]) h in
      (
        refl,
        stored-count d iid sid (record x { uid = uid }) s
            (uid-IsPiece iid x uid (subst (IsPiece iid) (sym same) piece)),
      )

  rune_step-Adds :
      (slot : ℕ)
      → is_test_item host d iid ≡ false
      → rune_slot d iid ≡ some slot
      → has_rows (bonus_group_rows d iid) ≡ true
      → Adds (item_count storage_equipment iid) (rune_step host d iid)
  unfolding rune_step grant_rune roll_rune
  rune_step-Adds slot real is_slot rows s =
      let t = put_bag storage_equipment (bag_of storage_equipment s) s in
      let (e, made, piece) = make_rune-ok host d iid 0 0 t slot real is_slot rows in
      let (done, more) = rolled_lem _ _ _ t e made piece in
      (done, more ∙ ap (λ n. n +ℤ pos 1) (same_count storage_equipment iid s))

  mirrored_lem :
      (sid : ℕ) (uid : Text) (r : Result GearError Item) (s : State) (e : Item)
      → lookup sid (bag_of storage_soulfrag s) ≡ none
      → r ≡ ok e
      → IsPiece iid e
      → let after = without_entry (store_mirror (numbered_entry sid uid r) s) in
        (after.0 ≡ ok tt)
        × (item_count storage_soulfrag iid after.1 ≡ item_count storage_soulfrag iid s +ℤ pos 1)
  unfolding without_entry store_mirror numbered_entry item_count
  mirrored_lem sid uid (err x) s e free h piece = absurd (ground arith)
  mirrored_lem sid uid (ok x) s e free h piece =
      let same : x ≡ e = ap (λ (r : Result GearError Item). elim r [ ok y ↦ y | err z ↦ x ]) h in
      let bag = bag_of storage_soulfrag s in
      (
        refl,
        ap (count_in iid) (bag_of-put storage_soulfrag _ s)
            ∙ count-piece iid sid (record x { uid = uid }) bag
                (uid-IsPiece iid x uid (subst (IsPiece iid) (sym same) piece)) free,
      )

  mirror_step-Adds :
      (slot : ℕ)
      → soulfrag_slot d iid ≡ some slot
      → is_internal_soulmirror d iid ≡ false
      → has_rows (bonus_group_rows d iid) ≡ true
      → Adds (item_count storage_soulfrag iid) (mirror_step host d iid)
  unfolding mirror_step grant_soulmirror
  mirror_step-Adds slot is_slot real rows s =
      let bag = bag_of storage_soulfrag s in
      let t = put_bag storage_soulfrag bag s in
      let (e, made, piece) = make_soulmirror-ok host d iid 0 0 t slot is_slot real rows in
      let free =
        subst (λ b. lookup (max_slot bag + 1) b ≡ none) (sym (bag_of-put storage_soulfrag bag s))
          (fresh_slot bag) in
      let (done, more) = mirrored_lem (max_slot bag + 1) _ _ t e free made piece in
      (done, more ∙ ap (λ n. n +ℤ pos 1) (same_count storage_soulfrag iid s))

-- The storage that the pieces of an item go to: it is a starshard, or a soulmirror of the game.
pub data Makes (d : Design) (item : ℕ) : ℕ → Type 0 where
  starshard : (slot : ℕ) → rune_slot d item ≡ some slot → Makes d item storage_equipment
  soulmirror :
      (slot : ℕ)
      → soulfrag_slot d item ≡ some slot
      → is_internal_soulmirror d item ≡ false
      → Makes d item storage_soulfrag

landed-ok :
    (bucket : Bucket) (r : Result GearError (Unit {0}) × State)
    → r.0 ≡ ok tt
    → landed bucket r ≡ (ok bucket, r.1)
unfolding landed
landed-ok bucket (ok u, s) h = refl
landed-ok bucket (err e, s) h = absurd (ground arith)

-- A reward that is a starshard or a soulmirror, no test or internal row, and has rows to roll from:
-- `grant_reward` returns `equipment`, and the storage of the piece holds `max(1, amount)` pieces of
-- the item more than before.
pub grant_reward-pieces :
    (host : Host) (d : Design) (item storage : ℕ) (amount : ℤ) (s : State)
    → Makes d item storage
    → is_test_item host d item ≡ false
    → has_rows (bonus_group_rows d item) ≡ true
    → let paid = grant_reward host d item amount s in
      (paid.0 ≡ ok equipment)
      × (item_count storage item paid.1 ≡ item_count storage item s +ℤ pos (at_least_one amount))
unfolding grant_reward rune_slot soulfrag_slot soulfrag_slot_index
grant_reward-pieces host d item _ amount s (starshard slot is_slot) real rows =
    let f = rune_step host d item in
    let (done, more) =
      repeat-Adds _ f (rune_step-Adds host d item slot real is_slot rows) (at_least_one amount) s in
    let shard : is_rune_action (d.item item).action ≡ true = ground (arith, is_slot) in
    rw (real, shard, landed-ok equipment (repeat (at_least_one amount) f s) done) (refl, more)
grant_reward-pieces host d item _ amount s (soulmirror slot is_slot public) real rows =
    let f = mirror_step host d item in
    let (done, more) =
      repeat-Adds _ f (mirror_step-Adds host d item slot is_slot public rows) (at_least_one amount)
        s in
    let other : is_rune_action (d.item item).action ≡ false = ground (arith, is_slot) in
    rw (real, other, is_slot, landed-ok equipment (repeat (at_least_one amount) f s) done)
      (refl, more)
