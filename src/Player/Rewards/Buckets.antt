-- ===== src/Player/Rewards/Buckets.antt =====
-- The bucket that `grant_reward` returns, and the one that the callers foresee.
use sevensins_server.Prelude.{
  ℕ, ◌≡◌, refl, inl, inr, Option-cases, false, ◌&&◌, not, Bool-cases, ℤ, nat_eq, ◌==◌, Result, ok,
  err,
}
use sevensins_server.Player.Types.{Design, State}
use sevensins_server.Player.Bag.{action_currency}
use sevensins_server.Player.Gear.{
  Host, GearError, is_test_item, is_rune_action, soulfrag_slot_index,
}
use sevensins_server.Player.Gear.Granting.{soulmirror_box_items}
use sevensins_server.Player.Rewards.{
  Bucket, equipment, char, action_energy, char_reward_of, landed, grant_other, grant_reward,
  other_bucket, item_bucket,
}

-- The call raises, or its bucket is the one foreseen.
abbrev pub IsForeseen : Bucket → Result GearError Bucket → Type 0
IsForeseen b (ok c) = c ≡ b
IsForeseen b (err e) = Unit

landed-IsForeseen :
    (b : Bucket) (r : Result GearError (Unit {0}) × State) → IsForeseen b (landed b r).0
unfolding landed
landed-IsForeseen b (ok u, s) = refl
landed-IsForeseen b (err e, s) = tt

other-IsForeseen :
    (host : Host) (d : Design) (item : ℕ) (amount : ℤ) (s : State)
    → IsForeseen (other_bucket host d item) (grant_other host d item amount s).0
unfolding grant_other other_bucket
other-IsForeseen host d item amount s = elim (Option-cases (soulmirror_box_items d item)) [
  | inr (box, found) ↦ rw (found, grant_other, other_bucket) (landed-IsForeseen equipment _)
  | inl no_box ↦ elim (Option-cases (char_reward_of host d item)) [
    | inr (cast, found) ↦ rw (no_box, found, grant_other, other_bucket) (landed-IsForeseen char _)
    | inl no_char ↦ rw (no_box, no_char, grant_other, other_bucket) refl
  ]
]

-- An item that is no test row: the bucket that `grant_reward` returns, unless it raises, is that of
-- `item_bucket`.
pub grant_reward-item_bucket :
    (host : Host) (d : Design) (item : ℕ) (amount : ℤ) (s : State)
    → is_test_item host d item ≡ false
    → IsForeseen (item_bucket host d item) (grant_reward host d item amount s).0
unfolding grant_reward item_bucket
grant_reward-item_bucket host d item amount s real =
    let row = d.item item in
    elim (Bool-cases (is_rune_action row.action)) [
      | inl shard ↦ rw (real, shard) (landed-IsForeseen equipment _)
      | inr no_shard ↦ elim (Option-cases (soulfrag_slot_index row.action)) [
        | inr (slot, found) ↦ rw (real, no_shard, found) (landed-IsForeseen equipment _)
        | inl no_slot ↦ elim (Bool-cases (row.action == action_currency && not (row.param1 == 0))) [
          | inl paid ↦ rw (real, no_shard, no_slot, paid) refl
          | inr unpaid ↦ elim (Bool-cases (row.action == action_energy && not (row.param1 == 0))) [
            | inl fed ↦ rw (real, no_shard, no_slot, unpaid, fed) refl
            | inr unfed ↦
                rw (real, no_shard, no_slot, unpaid, unfed) (other-IsForeseen host d item amount s)
          ]
        ]
      ]
    ]
