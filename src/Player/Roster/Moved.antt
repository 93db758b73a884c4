-- ===== src/Player/Roster/Moved.antt =====
-- The teams through the operations of one cast.
use sevensins_server.Prelude.{
  ℕ, ◌+◌, ◌≡◌, sym, subst, Text, Option, some, List, false, insert, length, text_eq, ℤ, pos,
}
use sevensins_server.Player.Types.{Formulas, Design, Cast, State}
use sevensins_server.Player.Casts.{put_cast, star_of}
use sevensins_server.Player.Casts.Spending.{spend-frame, spend_all-frame}
use sevensins_server.Player.Progress.{
  trainers, consumed, rank_up_cost, gained_of, trained, train, level_up_char, rankup_gem,
  rank_up_char, super_rank_up_char,
}
use sevensins_server.Player.Feeding.{
  any_in_formation, delete_casts, consume, transcend_char, ultra_transcend, skill_up,
}
use sevensins_server.Player.Inherit.{apprenticed, mentored, inherit_char}
use sevensins_server.Player.Teams.{fresh_uid, add_char}
use sevensins_server.Player.Roster.Cases.{
  level_up_char-cases, rank_up_char-cases, super_rank_up_char-cases, transcend_char-cases,
  ultra_transcend-cases, skill_up-cases,
}
use sevensins_server.Player.Roster.Kept.{consume-lists}
use sevensins_server.Player.Roster.Inheriting.{inherit_char-cases}
use sevensins_server.Player.Roster.Slots.{
  IsTeams, IsTeams-insert, delete_casts-IsTeams, ultra_materials-out,
}
use sevensins_server.Player.Roster.Standing.{IsStanding}

module _ (d : Design) (s : State) (h : IsStanding s) where
  put : (uid : Text) (e : Cast) → IsTeams (insert uid e s.roster) s.formations
  put uid e = IsTeams-insert uid e s.roster s.formations h

  consumed_put :
      {A : Type 0} (mats : List Text) (cost : ℕ) (a : A) (uid : Text) (e : Cast)
      → any_in_formation mats s.formations ≡ false
      → IsStanding (consume mats cost a (put_cast uid e s)).1
  consumed_put mats cost a uid e out =
      let u = put_cast uid e s in
      let (same_roster, same_teams) = consume-lists mats cost a u in
      subst (IsTeams (consume mats cost a u).1.roster) (sym same_teams) (
        subst (λ r. IsTeams r (delete_casts mats u).1.formations) (sym same_roster)
          (delete_casts-IsTeams mats u out (put uid e)))

  pub level_up_char-IsStanding :
      (f : Formulas) (uid : Text) (counts : List ℤ) → IsStanding (level_up_char f d uid counts s).1
  unfolding train
  level_up_char-IsStanding f uid counts =
      level_up_char-cases d s uid f counts (λ r. IsStanding r.1) h
        (λ e found _.
          let items = consumed trainers counts in
          let e' = trained f d e (gained_of items) in
          subst IsStanding (sym (spend_all-frame items (put_cast uid e' s))) (put uid e'))

  pub rank_up_char-IsStanding : (uid : Text) → IsStanding (rank_up_char d uid s).1
  rank_up_char-IsStanding uid =
      rank_up_char-cases d s uid (λ r. IsStanding r.1) h
        (λ e found _ low _ _.
          let gems = (rank_up_cost (star_of d e)).0 in
          let e' = record e { star = some (star_of d e + 1) } in
          subst (λ (w : State). IsTeams (insert uid e' w.roster) w.formations)
            (sym (spend-frame rankup_gem (pos gems) s)) (put uid e'))

  pub super_rank_up_char-IsStanding : (uid : Text) → IsStanding (super_rank_up_char d uid s).1
  super_rank_up_char-IsStanding uid =
      super_rank_up_char-cases d s uid (λ r. IsStanding r.1) h (λ e cost found _ low _. put uid _)

  pub transcend_char-IsStanding :
      (f : Formulas) (uid : Text) (uids : List Text) → IsStanding (transcend_char f d uid uids s).1
  transcend_char-IsStanding f uid uids =
      transcend_char-cases d s uid uids (λ r. IsStanding r.1) h f
        (λ e found out. consumed_put _ _ _ uid _ out)

  pub ultra_transcend-IsStanding :
      (uid : Text) (uids : List Text) → IsStanding (ultra_transcend d uid uids s).1
  ultra_transcend-IsStanding uid uids =
      ultra_transcend-cases d s uid uids (λ r. IsStanding r.1) h
        (λ e found. consumed_put _ _ _ uid _ (ultra_materials-out uid e.id uids s))

  pub skill_up-IsStanding : (uid : Text) (uids : List Text) → IsStanding (skill_up d uid uids s).1
  skill_up-IsStanding uid uids =
      skill_up-cases d s uid uids (λ r. IsStanding r.1) h
        (λ e found out. consumed_put _ _ _ uid _ out)

  pub inherit_char-IsStanding :
      (in_uid out_uid : Text) (cost_type : ℕ)
      → IsStanding (inherit_char d in_uid out_uid cost_type s).1
  inherit_char-IsStanding in_uid out_uid cost_type =
      inherit_char-cases (λ w. IsTeams w.0 w.1) d in_uid out_uid s h cost_type
        (λ app men found mentor book total.
          IsTeams-insert out_uid (mentored men) _ s.formations (put in_uid (apprenticed app)))

  pub add_char-IsStanding :
      (id lv : ℕ) (star : Option ℕ) (super_star : ℕ)
      → IsStanding (add_char id lv star super_star s).1
  unfolding add_char
  add_char-IsStanding id lv star super_star =
      put (fresh_uid (length s.roster) s.player_id (length s.roster + 1) s.roster) _
