-- ===== src/Player/LoginBonus/Ladder.antt =====
-- A login in `advance_login_bonus`: the rung, the payment and the day.
use sevensins_server.Prelude.{
  ℕ, ◌+◌, ◌*◌, ◌/◌, ◌≤◌, ◌≡◌, ◌∙◌, refl, inl, inr, Option, List, [], true, false, ◌||◌, Bool-cases,
  Option-cases, length, length-append, ◌==◌, nat_eq, ltb, if◌then◌else◌, ℤ, arith, ap,
}
use sevensins_server.Player.Types.{Login, Design, State}
use sevensins_server.Player.Quests.{bump_quest_counter}
use sevensins_server.Player.Mail.{add_mail}
use sevensins_server.Player.LoginBonus.{
  ladder, is_empty, last_rung, next_rung, reward_of, pay_rung, roll, advance_login_bonus,
}

-- Rungs climbed since the first book, where each book has `last` of them.
pub position : ℕ → Login → ℕ
position last l = l.book * last + l.claimed_day

-- A day that was rolled.
pub record IsRolled (d : Design) (today : ℕ) (paid : List (ℕ × ℕ × ℕ)) (s t : State) : Type 0 where
  pub today_done : t.login.last_day ≡ today
  pub one_rung :
      position (last_rung (ladder d)) t.login ≡ position (last_rung (ladder d)) s.login + 1
  pub in_ladder : (1 ≤ t.login.claimed_day) × (t.login.claimed_day ≤ last_rung (ladder d))
  pub counted : t.login.total_days ≡ s.login.total_days + 1
  pub paid_once : length paid ≤ 1
  pub mailed : length t.mail ≡ length s.mail + length paid

bump-login :
    (d : Design) (c : ℕ) (a : ℤ) (v : Option ℕ) (to : Option ℤ) (s : State)
    → ((bump_quest_counter d c a v to s).1.login ≡ s.login)
      × ((bump_quest_counter d c a v to s).1.mail ≡ s.mail)
unfolding bump_quest_counter
bump-login d c a v to s = (refl, refl)

pay_rung_lem :
    (d : Design) (now day : ℕ) (s : State)
    → let (paid, t) = pay_rung d now day s in
      (t.login ≡ s.login) × (length paid ≤ 1) × (length t.mail ≡ length s.mail + length paid)
unfolding pay_rung add_mail
pay_rung_lem d now day s = elim (Option-cases (reward_of d day)) [
  | inl h ↦ rw (h, pay_rung) (refl, omega arith, omega arith)
  | inr ((form, item, count), h) ↦ rw (h, pay_rung) (refl, omega arith, length-append s.mail _)
]

next_rung_lem :
    (last : ℕ) (l : Login)
    → 1 ≤ last
    → l.claimed_day ≤ last
    → let (day, book) = next_rung last l in
      (book * last + day ≡ l.book * last + l.claimed_day + 1) × (1 ≤ day) × (day ≤ last)
unfolding next_rung
next_rung_lem last l h k = elim (Bool-cases (ltb last (l.claimed_day + 1))) [
  | inl over ↦
      let done : l.claimed_day ≡ last = ground arith in
      rw over (grind arith, omega arith, omega arith)
  | inr inside ↦ rw inside (omega arith, omega arith, ground arith)
]

roll_lem :
    (d : Design) (today : ℕ) (day book : ℕ) (s : State)
    → let t = roll d today (day, book) s in
      (t.login ≡ record {
        last_day = today;
        claimed_day = day;
        book = book;
        checkin_day = day;
        total_days = s.login.total_days + 1;
      })
      × (t.mail ≡ s.mail)
unfolding roll bump_quest_counter
roll_lem d today day book s = (refl, refl)

-- Where the account stands on a ladder that goes up to a rung of at least 1.
abbrev pub IsOnLadder : Design → State → Type 0
IsOnLadder d s = (1 ≤ last_rung (ladder d)) × (s.login.claimed_day ≤ last_rung (ladder d))

module _ (d : Design) (now : ℕ) (s : State) where
  advance-again : (s.login.last_day == now / 86400) ≡ true → advance_login_bonus d now s ≡ ([], s)
  unfolding advance_login_bonus
  advance-again h = rw h

  advance-no_ladder : is_empty (ladder d) ≡ true → advance_login_bonus d now s ≡ ([], s)
  unfolding advance_login_bonus
  advance-no_ladder h = ground arith

  advance-rolls :
      (s.login.last_day == now / 86400) ≡ false
      → is_empty (ladder d) ≡ false
      → let next = next_rung (last_rung (ladder d)) s.login in
        let (paid, t) = pay_rung d now next.0 s in
        advance_login_bonus d now s ≡ (paid, roll d (now / 86400) next t)
  unfolding advance_login_bonus
  advance-rolls other h = rw (other, h)

  -- For an account that stands on its ladder, whose last rung is 1 at least: a day that is rolled
  -- already changes nothing, and so does a game without a ladder. Otherwise the
  -- account climbs one rung, into the next book after the last rung, is paid once at most and by
  -- mail, and one more day is counted.
  pub advance_login_bonus_lem :
      IsOnLadder d s
      → let (paid, t) = advance_login_bonus d now s in
        if (s.login.last_day == now / 86400) || is_empty (ladder d)
        then (paid ≡ []) × (t ≡ s)
        else IsRolled d (now / 86400) paid s t
  unfolding position
  advance_login_bonus_lem on = elim (Bool-cases (s.login.last_day == now / 86400)) [
    | inl same ↦ rw (same, advance-again same) (refl, refl)
    | inr other ↦ elim (Bool-cases (is_empty (ladder d))) [
      | inl nothing ↦ rw (other, nothing, advance-no_ladder nothing) (refl, refl)
      | inr some_rows ↦
          let next = next_rung (last_rung (ladder d)) s.login in
          let (paid, t) = pay_rung d now next.0 s in
          let rung = next_rung_lem (last_rung (ladder d)) s.login on.0 on.1 in
          let (login, once, mailed) = pay_rung_lem d now next.0 s in
          let (l, m) = roll_lem d (now / 86400) next.0 next.1 t in
          rw (other, some_rows, advance-rolls other some_rows)
            (record {
              today_done = ap (λ (x : Login). x.last_day) l;
              one_rung = rw l rung.0;
              in_ladder = rw l (rung.1, rung.2);
              counted =
                  ap (λ (x : Login). x.total_days) l ∙ ap (λ (x : Login). x.total_days + 1) login;
              paid_once = once;
              mailed = rw m mailed;
            })
    ]
  ]

-- For an account that stands on its ladder, two logins on one day pay at most once: the second
-- changes nothing.
pub advance-advance :
    (d : Design) (now now' : ℕ) (s : State)
    → IsOnLadder d s
    → now / 86400 ≡ now' / 86400
    → let t = (advance_login_bonus d now s).1 in advance_login_bonus d now' t ≡ ([], t)
advance-advance d now now' s on h = elim (Bool-cases (is_empty (ladder d))) [
  | inl nothing ↦ advance-no_ladder d now' (advance_login_bonus d now s).1 nothing
  | inr some_rows ↦ elim (Bool-cases (s.login.last_day == now / 86400)) [
    | inl same ↦ rw (advance-again d now s same) (advance-again d now' s (rw (← h) same))
    | inr other ↦
        let rolled = rw (other, some_rows) at (advance_login_bonus_lem d now s on) in
        advance-again d now' (advance_login_bonus d now s).1 (ground (arith, rolled.today_done))
  ]
]
