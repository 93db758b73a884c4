-- ===== src/Player/Guild/SignOnce.antt =====
-- The daily check-in of the guild, made twice.
use sevensins_server.Prelude.{
  ℕ, suc, ◌+◌, ◌≤◌, ◌≡◌, ◌∙◌, refl, sym, ap, inl, inr, min, Text, Option, some, none, Option-cases,
  List, [], ◌∷◌, ◌++◌, length, true, ◌||◌, by_test, ◌==◌, nat_eq, text_beq_iff, ltb, ℤ, arith,
}
use sevensins_server.Player.Types.{Guild, State}
use sevensins_server.Player.Equips.{mem}
use sevensins_server.Player.Guild.{
  rolled_guild, signed, set_paid, sign_tiers, pay_tiers, sign_in, guild_sign,
}

-- The limits count up from `i + 1`.
IsLadder : ℕ → List (ℕ × ℕ × ℤ) → Type 0
IsLadder i [] = Unit
IsLadder i ((limit, item, count) ∷ tiers) = (limit ≡ i + 1) × IsLadder (i + 1) tiers

-- A reward leaves the guild and the account's name.
pub record IsGuildKept {ℓ} {Bucket : Type ℓ} (grant_reward : ℕ → ℤ → State → Bucket × State)
    : Type 0 where
  pub guild : (item : ℕ) (n : ℤ) (s : State) → (grant_reward item n s).1.guild ≡ s.guild
  pub player_id : (item : ℕ) (n : ℤ) (s : State) → (grant_reward item n s).1.player_id ≡ s.player_id

mem_last : (me : Text) (ms : List Text) → mem me (ms ++ (me ∷ [])) ≡ true
unfolding mem
mem_last me [] = ground (arith, text_beq_iff me me)
mem_last me (m ∷ ms) = ground (arith, mem_last me ms)

-- Rolled and signed, the guild is of the period and the member is on its list.
rolled_day :
    (period : ℕ) (me : Text) (g : Guild)
    → ((signed me (rolled_guild period g)).sign_day == period) ≡ true
unfolding rolled_guild signed
rolled_day period me g =
    let h = rolled_guild period g in
    by_test (λ (k : Guild). (k.sign_day == period) ≡ true) (mem me h.member_sign) h
      (record h { member_sign = h.member_sign ++ (me ∷ []); sign_sum = h.sign_sum + 1 }) (λ _. own)
      (λ _. own)
  where
    own : ((rolled_guild period g).sign_day == period) ≡ true
    own =
        by_test (λ (k : Guild). (k.sign_day == period) ≡ true) (g.sign_day == period) g _ (λ h. h)
          (λ _. ground arith)

signed_list : (me : Text) (g : Guild) → mem me (signed me g).member_sign ≡ true
unfolding signed
signed_list me g =
    by_test (λ (k : Guild). mem me k.member_sign ≡ true) (mem me g.member_sign) g _ (λ h. h)
      (λ _. mem_last me g.member_sign)

-- A guild of the period with the member on its list is rolled and signed already.
unchanged :
    (period : ℕ) (me : Text) (g : Guild)
    → (g.sign_day == period) ≡ true
    → mem me g.member_sign ≡ true
    → signed me (rolled_guild period g) ≡ g
unfolding rolled_guild signed
unchanged period me g day on = rw (day, on) refl

module _ {ℓ} {Bucket : Type ℓ} (grant_reward : ℕ → ℤ → State → Bucket × State)
    (kept : IsGuildKept grant_reward) where
  -- Nothing is left to pay.
  nothing_left :
      (i paid total : ℕ) (tiers : List (ℕ × ℕ × ℤ)) (s : State)
      → IsLadder i tiers
      → min total (i + length tiers) ≤ paid
      → pay_tiers grant_reward i paid total tiers s ≡ ([], s)
  unfolding pay_tiers IsLadder
  nothing_left i paid total [] s l h = refl
  nothing_left i paid total ((limit, item, count) ∷ tiers) s (at, l) h =
      let rest = nothing_left (i + 1) paid total tiers s l (omega arith) in
      let skip : (ltb i paid || ltb total limit) ≡ true = ground arith in rw skip rest

  -- What the guild is after the loop.
  paid_after :
      (i paid total : ℕ) (tiers : List (ℕ × ℕ × ℤ)) (g : Guild) (s : State)
      → IsLadder i tiers
      → s.guild ≡ some g
      → min total i ≤ g.sign_paid
      → paid ≤ g.sign_paid
      → let t = (pay_tiers grant_reward i paid total tiers s).1 in
        (n : ℕ) × (t.guild ≡ some (record g { sign_paid = n }))
        × (t.player_id ≡ s.player_id)
        × (min total (i + length tiers) ≤ n)
  unfolding pay_tiers IsLadder set_paid
  paid_after i paid total [] g s l is low old = (g.sign_paid, is, refl, omega (arith, low))
  paid_after i paid total ((limit, item, count) ∷ tiers) g s (at, l) is low old =
      let t = (grant_reward item count s).1 in
      let is' : t.guild ≡ some g = kept.guild item count s ∙ is in
      let u = record t { guild = some (record g { sign_paid = i + 1 }) } in
      let written : set_paid (i + 1) t ≡ u = rw (is', set_paid) refl in
      let P : List (ℕ × ℤ) × State → Type 0 = λ r.
        (n : ℕ) × (r.1.guild ≡ some (record g { sign_paid = n }))
        × (r.1.player_id ≡ s.player_id)
        × (min total (i + suc (length tiers)) ≤ n) in
      by_test P (ltb i paid || ltb total limit) _ _
        (λ skip.
          let (n, a, b, c) =
            paid_after (i + 1) paid total tiers g s l is (ground (arith, low, old)) old in
          (n, a, b, omega (arith, c)))
        (λ pays.
          let (n, a, b, c) =
            paid_after (i + 1) paid total tiers (record g { sign_paid = i + 1 }) u l refl
              (omega arith) (ground arith) in
          rw written (n, a, b ∙ kept.player_id item count s, omega (arith, c)))

  sign_none :
      (period : ℕ) (s : State) → s.guild ≡ none → guild_sign grant_reward period s ≡ ((0, []), s)
  unfolding guild_sign sign_in
  sign_none period s absent = ap (λ o. sign_in grant_reward period o s) absent

  sign_some :
      (period : ℕ) (s : State) (g₀ : Guild)
      → s.guild ≡ some g₀
      → let g = signed s.player_id (rolled_guild period g₀) in
        let (earned, t) =
          pay_tiers grant_reward 0 g.sign_paid g.sign_sum sign_tiers
            (record s { guild = some g }) in
        guild_sign grant_reward period s ≡ ((g.sign_sum, earned), t)
  unfolding guild_sign sign_in
  sign_some period s g₀ found = ap (λ o. sign_in grant_reward period o s) found

  -- A check-in of the guild that is repeated in the same period pays nothing and changes nothing,
  -- and answers the same sum, when rewards leave the guild and the account's uid.
  pub guild_sign-again :
      (period : ℕ) (s : State)
      → let (answer, t) = guild_sign grant_reward period s in
        guild_sign grant_reward period t ≡ ((answer.0, []), t)
  unfolding IsLadder
  guild_sign-again period s = elim (Option-cases s.guild) [
    | inl absent ↦ simp (sign_none period s absent)
    | inr (g₀, found) ↦
        let me = s.player_id in
        let g = signed me (rolled_guild period g₀) in
        let u = record s { guild = some g } in
        let t = (pay_tiers grant_reward 0 g.sign_paid g.sign_sum sign_tiers u).1 in
        let (n, guild_after, same, paid) =
          paid_after 0 g.sign_paid g.sign_sum sign_tiers g u ladder refl (omega arith)
            (omega arith) in
        let g' = record g { sign_paid = n } in
        let stays =
          unchanged period me g' (rolled_day period me g₀)
            (signed_list me (rolled_guild period g₀)) in
        let whole : record t { guild = some g' } ≡ t =
          ap (λ (o : Option Guild). record t { guild = o }) (sym guild_after) in
        let stays' : signed t.player_id (rolled_guild period g') ≡ g' =
          ap (λ m. signed m (rolled_guild period g')) same ∙ stays in
        let again : guild_sign grant_reward period t ≡ ((g.sign_sum, []), t) =
          sign_some period t g' guild_after
          ∙ ap
              (λ (h : Guild).
                let (earned, v) =
                  pay_tiers grant_reward 0 h.sign_paid h.sign_sum sign_tiers
                    (record t { guild = some h }) in
                ((h.sign_sum, earned), v))
              stays'
          ∙ ap (λ (r : List (ℕ × ℤ) × State). ((g.sign_sum, r.0), r.1))
              (nothing_left 0 n g.sign_sum sign_tiers (record t { guild = some g' }) ladder paid)
          ∙ ap (λ (w : State). ((g.sign_sum, []), w)) whole in
        rw (sign_some period s g₀ found) again
  ]
    where
      ladder : IsLadder 0 sign_tiers
      ladder = (refl, (refl, (refl, (refl, (refl, tt)))))
