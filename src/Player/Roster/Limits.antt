-- ===== src/Player/Roster/Limits.antt =====
-- The limits of a cast through each change of its entry.
use sevensins_server.Prelude.{
  ℕ, ◌+◌, ◌-◌, ◌≤◌, ◌<◌, not, by_test, some, ◌==◌, nat_eq, leb, if◌then◌else◌, ℤ, pos, ◌+ℤ◌, arith,
}
use sevensins_server.Player.Types.{Formulas, Design, Cast}
use sevensins_server.Player.Casts.{max_star, star_of, char_rarity, char_max_lv, climb}
use sevensins_server.Player.Casts.Climbing.{climb-IsClimbed}
use sevensins_server.Player.Progress.{trained, apply_char_xp}
use sevensins_server.Player.Feeding.{
  max_plus, max_super_limit, max_limit_book, max_total_limit, plus_need, transcended, skilled,
}
use sevensins_server.Player.Inherit.{apprenticed, mentored}
use sevensins_server.Player.Roster.{IsCast}

module _ (f : Formulas) (d : Design) where
  pub trained-IsCast : (e : Cast) (gained : ℤ) → IsCast d e → IsCast d (trained f d e gained)
  unfolding trained char_max_lv star_of
  trained-IsCast e gained k =
      let need = f.char_lvup_need_xp (d.char e.id).rarity in
      let bound = char_max_lv d e in
      let done = climb-IsClimbed need (bound - e.lv) bound e.lv (e.xp +ℤ gained) (omega arith) in
      record {
        star_low = k.star_low;
        star_high = k.star_high;
        super_high = k.super_high;
        plus_high = k.plus_high;
        ultra_high = k.ultra_high;
        book_high = k.book_high;
        limit_high = k.limit_high;
        level_high = done.in_range k.level_high;
      }

  pub transcended-IsCast : (e : Cast) (pxp : ℕ) → IsCast d e → IsCast d (transcended f pxp e)
  unfolding transcended char_max_lv star_of
  transcended-IsCast e pxp k =
      let done =
        climb-IsClimbed (plus_need f) (max_plus - e.plus) max_plus e.plus (e.pxp +ℤ pos pxp)
          (omega arith) in
      record {
        star_low = k.star_low;
        star_high = k.star_high;
        super_high = k.super_high;
        plus_high = done.in_range k.plus_high;
        ultra_high = k.ultra_high;
        book_high = k.book_high;
        limit_high = k.limit_high;
        level_high = omega (arith, k.level_high, done.up);
      }

  pub apply_char_xp-IsCast :
      (add : ℤ) (e : Cast) → IsCast d e → IsCast d (apply_char_xp f d add e).1
  unfolding apply_char_xp char_max_lv star_of
  apply_char_xp-IsCast add e k =
      let need = f.char_lvup_need_xp (char_rarity d e.id) in
      let bound = char_max_lv d e in
      let old_lv = if e.lv == 0 then 1 else e.lv in
      let done = climb-IsClimbed need (bound - old_lv) bound old_lv (e.xp +ℤ add) (omega arith) in
      record {
        star_low = k.star_low;
        star_high = k.star_high;
        super_high = k.super_high;
        plus_high = k.plus_high;
        ultra_high = k.ultra_high;
        book_high = k.book_high;
        limit_high = k.limit_high;
        level_high =
            by_test (λ (r : ℕ × ℤ). r.0 ≤ bound) (leb old_lv bound)
              (climb need (bound - old_lv) bound old_lv (e.xp +ℤ add)) (old_lv, e.xp)
              (λ h. done.in_range (ground arith)) (λ h. ground (arith, k.level_high, k.star_low));
      }

module _ (d : Design) (e : Cast) (k : IsCast d e) where
  -- rank_up_char and super_rank_up_char.
  pub ranked-IsCast : star_of d e < max_star → IsCast d (record e { star = some (star_of d e + 1) })
  unfolding char_max_lv star_of
  ranked-IsCast low = record {
    star_low = omega arith;
    star_high = omega (arith, low);
    super_high = k.super_high;
    plus_high = k.plus_high;
    ultra_high = k.ultra_high;
    book_high = k.book_high;
    limit_high = k.limit_high;
    level_high = omega (arith, k.level_high);
  }

  pub super_ranked-IsCast :
      e.super_star < 6 → IsCast d (record e { star = some max_star; super_star = e.super_star + 1 })
  unfolding char_max_lv star_of
  super_ranked-IsCast low = record {
    star_low = omega arith;
    star_high = omega arith;
    super_high = omega (arith, low);
    plus_high = k.plus_high;
    ultra_high = k.ultra_high;
    book_high = k.book_high;
    limit_high = k.limit_high;
    level_high = omega (arith, k.level_high, k.star_high);
  }

  pub ultra-IsCast : (n : ℕ) → n ≤ max_super_limit → IsCast d (record e { super_limit = n })
  unfolding char_max_lv star_of
  ultra-IsCast n low = record {
    star_low = k.star_low;
    star_high = k.star_high;
    super_high = k.super_high;
    plus_high = k.plus_high;
    ultra_high = low;
    book_high = k.book_high;
    limit_high = k.limit_high;
    level_high = k.level_high;
  }

  -- The two counters of the skill levels.
  skills-IsCast :
      (book char : ℕ)
      → book ≤ max_limit_book
      → book + char ≤ max_total_limit
      → IsCast d (record e { limit_book = book; limit_char = char })
  unfolding char_max_lv star_of
  skills-IsCast book char low total = record {
    star_low = k.star_low;
    star_high = k.star_high;
    super_high = k.super_high;
    plus_high = k.plus_high;
    ultra_high = k.ultra_high;
    book_high = low;
    limit_high = total;
    level_high = k.level_high;
  }

  pub skilled-IsCast : (added : ℕ × ℕ) → IsCast d (skilled added e)
  unfolding skilled
  skilled-IsCast (b, c) = skills-IsCast _ _ (omega arith) (omega arith)

  pub apprenticed-IsCast :
      e.limit_book < max_limit_book
      → e.limit_book + e.limit_char < max_total_limit
      → IsCast d (apprenticed e)
  unfolding apprenticed
  apprenticed-IsCast low total =
      skills-IsCast (e.limit_book + 1) e.limit_char (omega (arith, low)) (omega (arith, total))

  pub mentored-IsCast : IsCast d (mentored e)
  unfolding mentored
  mentored-IsCast =
      by_test (IsCast d) (leb 1 e.limit_char) _ _
        (λ _.
          skills-IsCast e.limit_book (e.limit_char - 1) k.book_high (omega (arith, k.limit_high)))
        (λ _.
          skills-IsCast (e.limit_book - 1) e.limit_char (omega (arith, k.book_high))
            (omega (arith, k.limit_high)))

  pub locked-IsCast : IsCast d (record e { lock = not e.lock })
  unfolding char_max_lv star_of
  locked-IsCast = record {
    star_low = k.star_low;
    star_high = k.star_high;
    super_high = k.super_high;
    plus_high = k.plus_high;
    ultra_high = k.ultra_high;
    book_high = k.book_high;
    limit_high = k.limit_high;
    level_high = k.level_high;
  }
