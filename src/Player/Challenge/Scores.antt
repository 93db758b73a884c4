-- ===== src/Player/Challenge/Scores.antt =====
-- The day's best score through the calls that change the record.
use Prim.Native.Nat.{max}
use sevensins_server.Prelude.{
  ℕ, ◌≡◌, ◌∙◌, refl, sym, ap, subst, inl, inr, Option, some, none, Option-cases, List, [], ◌∷◌,
  ◌++◌, not, by_test, ◌==◌, nat_eq, Result, ℤ, pos, arith,
}
use sevensins_server.Player.Types.{Design, Challenge, State}
use sevensins_server.Player.Bag.{spend_item, storage_normal}
use sevensins_server.Player.Casts.Spending.{spend-frame}
use sevensins_server.Player.Challenge.{
  Clock, no_challenge, challenge_pass_item, is_at, weekly, rolled, challenge_with, challenge_of,
  NoChallenge, clamp_difficulty, challenge_stage_id, start_challenge, scored, finish_challenge,
}

-- max(today, default=0)
pub max_of : List ℕ → ℕ
max_of [] = 0
max_of (x ∷ xs) = max x (max_of xs)

-- The best score is the highest of the day's list.
abbrev pub IsScored : Challenge → Type 0
IsScored ch = ch.best ≡ max_of ch.today

unfoldable pub IsBest : Option Challenge → Type 0
IsBest none = Unit
IsBest (some ch) = IsScored ch

max_of-append : (xs : List ℕ) (n : ℕ) → max_of (xs ++ (n ∷ [])) ≡ max (max_of xs) n
unfolding max_of
max_of-append [] n = omega arith
max_of-append (x ∷ xs) n = omega (arith, max_of-append xs n)

scored-IsScored : (total : ℕ) (ch : Challenge) → IsScored ch → IsScored (scored total ch)
unfolding scored
scored-IsScored total ch h = rw (max_of-append ch.today total, ← h) (ground arith)

weekly-IsScored : (c : Clock) (ch : Challenge) → IsScored ch → IsScored (weekly c ch)
unfolding weekly max_of
weekly-IsScored c ch h = by_test IsScored (is_at c.week ch.key) _ _ (λ _. h) (λ _. refl)

module _ {ℓ} {Bucket : Type ℓ} (grant_reward : ℕ → ℤ → State → Bucket × State) (d : Design)
    (c : Clock) where
  -- The record that `_challenge` returns is the one that it stores.
  challenge_with-IsScored :
      (ch : Challenge) (s : State)
      → IsScored ch
      → let (r, t) = challenge_with grant_reward d c ch s in IsScored r × (t.challenge ≡ some r)
  unfolding challenge_with rolled max_of
  challenge_with-IsScored ch s h =
      let w = weekly c ch in
      let first : IsScored (rolled grant_reward d c w s).0 =
        by_test (λ (r : Challenge × State). IsScored r.0) (is_at c.period w.day) _ _
          (λ _. weekly-IsScored c ch h) (λ _. refl) in
      by_test (λ (r : Challenge × State). IsScored r.0 × (r.1.challenge ≡ some r.0))
        (is_at c.period (rolled grant_reward d c w s).0.refilled) _ _ (λ _. (first, refl))
        (λ _. (first, refl))

  challenge_of-IsScored :
      (s : State)
      → IsBest s.challenge
      → let (r, t) = challenge_of grant_reward d c s in IsScored r × (t.challenge ≡ some r)
  unfolding challenge_of IsBest max_of
  challenge_of-IsScored s h = elim (Option-cases s.challenge) [
    | inl absent ↦
        let stored : (elim s.challenge as (λ _. Challenge) [ none ↦ no_challenge | some ch ↦ ch ])
            ≡ no_challenge =
          ap (λ (o : Option Challenge). elim o [ none ↦ no_challenge | some ch ↦ ch ]) absent in
        challenge_with-IsScored _ s (
          ap (λ (k : Challenge). k.best) stored
          ∙ sym (ap (λ (k : Challenge). max_of k.today) stored))
    | inr (ch, found) ↦
        let stored : (elim s.challenge as (λ _. Challenge) [ none ↦ no_challenge | some k ↦ k ])
            ≡ ch =
          ap (λ (o : Option Challenge). elim o [ none ↦ no_challenge | some k ↦ k ]) found in
        challenge_with-IsScored _ s (subst IsScored (sym stored) (subst IsBest found h))
  ]

  start_challenge-IsBest :
      (wanted : ℤ) (s : State)
      → IsBest s.challenge
      → IsBest (start_challenge grant_reward d c wanted s).1.challenge
  unfolding start_challenge IsBest
  start_challenge-IsBest wanted s h =
      elim (Option-cases (challenge_stage_id d c.weekday (clamp_difficulty wanted))) [
        | inl absent ↦ rw (absent, start_challenge) h
        | inr (stage, found) ↦
            let (best, is) = challenge_of-IsScored s h in
            let t = (challenge_of grant_reward d c s).1 in
            let P : Result NoChallenge ℕ × State → Type 0 = λ r. IsBest r.1.challenge in
            let unspent =
              ap (λ (w : State). w.challenge) (spend-frame challenge_pass_item (pos 1) t) in
            rw (found, start_challenge)
              (by_test P (stage == 0) _ _ (λ _. h)
                (λ _.
                  by_test P (not (spend_item challenge_pass_item (pos 1) storage_normal t).0) _ _
                    (λ _. subst IsBest (sym (unspent ∙ is)) best) (λ _. best)))
      ]

  finish_challenge-IsBest :
      (dealt : ℤ) (s : State)
      → IsBest s.challenge
      → IsBest (finish_challenge grant_reward d c dealt s).1.challenge
  unfolding finish_challenge IsBest
  finish_challenge-IsBest dealt s h = scored-IsScored _ _ (challenge_of-IsScored s h).0

-- A call that changes the record, at any time.
pub data Call {ℓ} {Bucket : Type ℓ} (grant_reward : ℕ → ℤ → State → Bucket × State) (d : Design)
    : State → State → Type 0 where
  synced : (c : Clock) (s : State) → Call grant_reward d s (challenge_of grant_reward d c s).1
  started :
      (c : Clock) (wanted : ℤ) (s : State)
      → Call grant_reward d s (start_challenge grant_reward d c wanted s).1
  finished :
      (c : Clock) (dealt : ℤ) (s : State)
      → Call grant_reward d s (finish_challenge grant_reward d c dealt s).1

-- Whichever of the calls of Guild Weekly runs, and whenever, the best score of the record that it
-- leaves is the highest of the scores of the day's list, 0 for an empty one, if it was before.
pub Call-IsBest {ℓ} :
    {Bucket : Type ℓ} (grant_reward : ℕ → ℤ → State → Bucket × State) (d : Design) (s t : State)
    → Call grant_reward d s t
    → IsBest s.challenge
    → IsBest t.challenge
Call-IsBest grant_reward d _ _ (synced c s) h =
    let (best, is) = challenge_of-IsScored grant_reward d c s h in
    subst IsBest (sym is) (unfold IsBest in best)
Call-IsBest grant_reward d _ _ (started c wanted s) h =
    start_challenge-IsBest grant_reward d c wanted s h
Call-IsBest grant_reward d _ _ (finished c dealt s) h =
    finish_challenge-IsBest grant_reward d c dealt s h
