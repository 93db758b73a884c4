-- ===== src/Player/Rewards/Kept.antt =====
-- What every branch of `grant_reward` keeps of an account.
use sevensins_server.Prelude.{
  ℕ, zero, suc, ◌≡◌, inl, inr, some, Option-cases, List, [], ◌∷◌, Bool, ◌&&◌, not, by_test, Dict,
  text_eq, nat_eq, ◌==◌, ℤ, Result, ok, err, Result-cases,
}
use sevensins_server.Player.Types.{Design, Energy, Bag, Counters, Item, State}
use sevensins_server.Player.Quests.{bump_quest_counter}
use sevensins_server.Player.Money.{add_currency}
use sevensins_server.Player.Bag.{grant_item, action_currency}
use sevensins_server.Player.Teams.{add_char}
use sevensins_server.Player.Gear.{
  Host, GearError, is_test_item, is_rune_action, soulfrag_slot_index,
}
use sevensins_server.Player.Gear.Granting.{
  roll_rune, store_rune, store_rolled, store_mirror, grant_rune, grant_soulmirror,
  soulmirror_box_items,
}
use sevensins_server.Player.Rewards.{
  Bucket, Step, char_reward_of, at_least_one, then_do, repeat, without_entry, rune_step,
  mirror_step, mirror_steps, box_step, char_step, add_energy, landed, grant_other, grant_reward,
  action_energy,
}

-- A predicate on accounts that the writes of `grant_reward` keep: of the balances, the energy, the
-- bags and the quest counters, and of a cast that the item stands for.
pub record IsKept {ℓ} (host : Host) (d : Design) (item : ℕ) (Q : State → Type ℓ) : Type ℓ where
  pub currency : (s : State) (w : Dict ℕ ℤ) → Q s → Q (record s { currency = w })
  pub energy : (s : State) (w : Dict ℕ Energy) → Q s → Q (record s { energy = w })
  pub backpack : (s : State) (w : Dict ℕ Bag) → Q s → Q (record s { backpack = w })
  pub counters : (s : State) (w : Counters) → Q s → Q (record s { counters = w })
  pub roster :
      (s : State) (char_id star shown : ℕ)
      → char_reward_of host d item ≡ some (char_id, star, shown)
      → Q s
      → Q (add_char char_id 1 (some star) 0 s).1

module _ {ℓ} (host : Host) (d : Design) (item : ℕ) (Q : State → Type ℓ)
    (k : IsKept host d item Q) where
  abbrev IsSafe : Step → Type ℓ
  IsSafe f = (s : State) → Q s → Q (f s).1

  then_do-keeps : (f g : Step) → IsSafe f → IsSafe g → IsSafe (then_do f g)
  unfolding then_do
  then_do-keeps f g hf hg s h = elim (Result-cases (f s).0) [
    | inl (e, raised) ↦ rw (raised, then_do) (hf s h)
    | inr (u, done) ↦ rw (done, then_do) (hg (f s).1 (hf s h))
  ]

  repeat-keeps : (n : ℕ) (f : Step) → IsSafe f → IsSafe (repeat n f)
  unfolding repeat
  repeat-keeps zero f hf s h = h
  repeat-keeps (suc n) f hf s h = then_do-keeps f (repeat n f) hf (repeat-keeps n f hf) s h

  without_entry-keeps : (r : Result GearError (ℕ × Item) × State) → Q r.1 → Q (without_entry r).1
  unfolding without_entry
  without_entry-keeps (err e, s) h = h
  without_entry-keeps (ok entry, s) h = h

  store_rolled-keeps : (r : Result GearError (ℕ × Item) × State) → Q r.1 → Q (store_rolled d r).1
  unfolding store_rolled store_rune bump_quest_counter
  store_rolled-keeps (err e, s) h = h
  store_rolled-keeps (ok entry, s) h = k.counters _ _ (k.backpack s _ h)

  rune_step-keeps : (iid : ℕ) → IsSafe (rune_step host d iid)
  unfolding rune_step grant_rune roll_rune
  rune_step-keeps iid s h = without_entry-keeps _ (store_rolled-keeps _ (k.backpack s _ h))

  store_mirror-keeps : (r : Result GearError (ℕ × Item)) (s : State) → Q s → Q (store_mirror r s).1
  unfolding store_mirror
  store_mirror-keeps (err e) s h = h
  store_mirror-keeps (ok entry) s h = k.backpack s _ h

  grant_soulmirror-keeps : (iid : ℕ) (s : State) → Q s → Q (grant_soulmirror host d iid 0 0 s).1
  unfolding grant_soulmirror
  grant_soulmirror-keeps iid s h = store_mirror-keeps _ _ (k.backpack s _ h)

  mirror_step-keeps : (iid : ℕ) → IsSafe (mirror_step host d iid)
  unfolding mirror_step
  mirror_step-keeps iid s h =
      without_entry-keeps (grant_soulmirror host d iid 0 0 s) (grant_soulmirror-keeps iid s h)

  mirror_steps-keeps : (ids : List ℕ) → IsSafe (mirror_steps host d ids)
  unfolding mirror_steps
  mirror_steps-keeps [] s h = h
  mirror_steps-keeps (iid ∷ ids) s h =
      then_do-keeps _ _ (mirror_step-keeps iid) (mirror_steps-keeps ids) s h

  box_step-keeps : (box : List ℕ × Bool) → IsSafe (box_step host d box)
  unfolding box_step
  box_step-keeps (ids, is_set) s h = mirror_steps-keeps _ s h

  landed-keeps :
      (bucket : Bucket) (r : Result GearError (Unit {0}) × State) → Q r.1 → Q (landed bucket r).1
  unfolding landed
  landed-keeps bucket (ok u, s) h = h
  landed-keeps bucket (err e, s) h = h

  grant_other-keeps : (amount : ℤ) (s : State) → Q s → Q (grant_other host d item amount s).1
  unfolding grant_other grant_item char_step
  grant_other-keeps amount s h = elim (Option-cases (soulmirror_box_items d item)) [
    | inr (box, found) ↦
        rw (found, grant_other)
          (landed-keeps _ _ (repeat-keeps (at_least_one amount) _ (box_step-keeps box) s h))
    | inl no_box ↦ elim (Option-cases (char_reward_of host d item)) [
      | inl no_char ↦ rw (no_box, no_char, grant_other) (k.backpack s _ h)
      | inr ((char_id, star, shown), found) ↦
          rw (no_box, found, grant_other)
            (landed-keeps _ _ (
              repeat-keeps (at_least_one amount) _ (λ t g. k.roster t char_id star shown found g) s
                h))
    ]
  ]

  pub grant_reward-keeps : (amount : ℤ) (s : State) → Q s → Q (grant_reward host d item amount s).1
  unfolding grant_reward add_currency add_energy
  grant_reward-keeps amount s h =
      let P : Result GearError Bucket × State → Type ℓ = λ r. Q r.1 in
      let row = d.item item in
      by_test P (is_test_item host d item) _ _ (λ _. h)
        (λ _.
          by_test P (is_rune_action row.action) _ _
            (λ _.
              landed-keeps _ _ (repeat-keeps (at_least_one amount) _ (rune_step-keeps item) s h))
            (λ _. elim (Option-cases (soulfrag_slot_index row.action)) [
              | inr (slot, found) ↦ rw found (
                  landed-keeps _ _
                    (repeat-keeps (at_least_one amount) _ (mirror_step-keeps item) s h))
              | inl no_slot ↦ rw no_slot (
                  by_test P (row.action == action_currency && not (row.param1 == 0)) _ _
                    (λ _. k.currency s _ h)
                    (λ _.
                      by_test P (row.action == action_energy && not (row.param1 == 0)) _ _
                        (λ _. k.energy s _ h) (λ _. grant_other-keeps amount s h)))
            ]))
