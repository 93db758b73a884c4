-- ===== src/Player/Roster/Kept.antt =====
-- The limits of the whole roster through each operation.
use sevensins_server.Prelude.{
  ℕ, ◌+◌, ◌≡◌, refl, sym, ap, subst, inl, inr, Text, some, Option-cases, List, [], ◌∷◌, ◌||◌,
  by_test, Dict, lookup, contains, insert, erase, AllValues-insert, AllValues-erase,
  AllValues-lookup, text_eq, nat_eq, Result, Result-cases, ℤ, pos, negsuc, ltb, length, arith,
}
use sevensins_server.Player.Types.{Formulas, Design, Cast, Formation, State}
use sevensins_server.Player.Casts.{put_cast, star_of, in_formation}
use sevensins_server.Player.Casts.Spending.{spend-frame, spend_all-frame}
use sevensins_server.Player.Progress.{
  trainers, consumed, rank_up_cost, gained_of, trained, train, level_up_char, apply_char_xp,
  rankup_gem, rank_up_char, super_rank_up_char,
}
use sevensins_server.Player.Feeding.{
  delete_casts, consume, transcend_char, ultra_transcend, skill_up,
}
use sevensins_server.Player.Teams.{
  sell_rows, decompose_rows, grant_each, sell_chars, decompose_chars, toggle_char_lock,
  set_formation, remove_from_all_formations,
}
use sevensins_server.Player.Roster.{IsCast, IsRoster, IsPaying}
use sevensins_server.Player.Roster.Cases.{
  level_up_char-cases, rank_up_char-cases, super_rank_up_char-cases, transcend_char-cases,
  ultra_transcend-cases, skill_up-cases,
}
use sevensins_server.Player.Roster.Limits.{
  trained-IsCast, transcended-IsCast, apply_char_xp-IsCast, ranked-IsCast, super_ranked-IsCast,
  ultra-IsCast, skilled-IsCast, locked-IsCast,
}

pub consume-lists :
    {A : Type 0} (mats : List Text) (cost : ℕ) (a : A) (s : State)
    → ((consume mats cost a s).1.roster ≡ (delete_casts mats s).1.roster)
      × ((consume mats cost a s).1.formations ≡ (delete_casts mats s).1.formations)
unfolding consume
consume-lists mats cost a s = elim (Result-cases (delete_casts mats s).0) [
  | inl (k, raised) ↦ rw (raised, consume) (refl, refl)
  | inr (u, done) ↦ rw (done, consume) (refl, refl)
]

-- An account whose roster is allowed.
abbrev pub IsAllowed : Design → State → Type 0
IsAllowed d s = IsRoster d s.roster

module _ (d : Design) where
  delete_casts-IsAllowed :
      (ms : List Text) (s : State) → IsAllowed d s → IsAllowed d (delete_casts ms s).1
  unfolding delete_casts
  delete_casts-IsAllowed [] s h = h
  delete_casts-IsAllowed (m ∷ ms) s h =
      by_test (λ (r : Result Text (Unit {0}) × State). IsAllowed d r.1) (contains m s.roster) _ _
        (λ _.
          delete_casts-IsAllowed ms (record s { roster = erase m s.roster })
            (AllValues-erase (IsCast d) m s.roster h))
        (λ _. h)

  sell_rows-IsRoster :
      (us : List Text) (roster : Dict Text Cast) (gain : Dict ℕ ℤ)
      → IsRoster d roster
      → IsRoster d (sell_rows d us (roster, gain)).1.0
  unfolding sell_rows
  sell_rows-IsRoster [] roster gain h = h
  sell_rows-IsRoster (u ∷ us) roster gain h = elim (Option-cases (lookup u roster)) [
    | inl absent ↦ rw (absent, sell_rows) (sell_rows-IsRoster us roster gain h)
    | inr (e, found) ↦
        rw (found, sell_rows)
          (sell_rows-IsRoster us (erase u roster) _ (AllValues-erase (IsCast d) u roster h))
  ]

  decompose_rows-IsRoster :
      (teams : List Formation) (us : List Text) (roster : Dict Text Cast) (gain : Dict ℕ ℤ)
      → IsRoster d roster
      → IsRoster d (decompose_rows d teams us (roster, gain)).1.0
  unfolding decompose_rows
  decompose_rows-IsRoster teams [] roster gain h = h
  decompose_rows-IsRoster teams (u ∷ us) roster gain h = elim (Option-cases (lookup u roster)) [
    | inl absent ↦ rw (absent, decompose_rows) (decompose_rows-IsRoster teams us roster gain h)
    | inr (e, found) ↦
        rw (found, decompose_rows)
          (by_test (λ (r : List Text × (Dict Text Cast × Dict ℕ ℤ)). IsRoster d r.1.0)
            (in_formation u teams || e.lock) _ _
            (λ _. decompose_rows-IsRoster teams us roster gain h)
            (λ _.
              decompose_rows-IsRoster teams us (erase u roster) _
                (AllValues-erase (IsCast d) u roster h)))
  ]

  module _ {ℓ} {Bucket : Type ℓ} (grant_reward : ℕ → ℤ → State → Bucket × State)
      (pays : IsPaying d grant_reward) where
    grant_each-IsAllowed :
        (gain : Dict ℕ ℤ) (s : State) → IsAllowed d s → IsAllowed d (grant_each grant_reward gain s)
    unfolding grant_each
    grant_each-IsAllowed [] s h = h
    grant_each-IsAllowed ((item, n) ∷ gain) s h =
        grant_each-IsAllowed gain _ (pays.roster item n s h)

    pub sell_chars-IsAllowed :
        (uids : List Text) (s : State)
        → IsAllowed d s
        → IsAllowed d (sell_chars grant_reward d uids s).1
    unfolding sell_chars
    sell_chars-IsAllowed uids s h = grant_each-IsAllowed _ _ (sell_rows-IsRoster uids s.roster [] h)

    pub decompose_chars-IsAllowed :
        (uids : List Text) (s : State)
        → IsAllowed d s
        → IsAllowed d (decompose_chars grant_reward d uids s).1
    unfolding decompose_chars
    decompose_chars-IsAllowed uids s h =
        grant_each-IsAllowed _ _ (decompose_rows-IsRoster s.formations uids s.roster [] h)

  pub set_formation-IsAllowed :
      (index : ℤ) (uids : List Text) (support : ℤ) (s : State)
      → IsAllowed d s
      → IsAllowed d (set_formation index uids support s).1
  unfolding set_formation
  set_formation-IsAllowed (negsuc i) uids support s h = h
  set_formation-IsAllowed (pos i) uids support s h =
      by_test (IsAllowed d) (ltb i (length s.formations)) _ s (λ _. h) (λ _. h)

  pub remove_from_all_formations-IsAllowed :
      (u : Text) (s : State) → IsAllowed d s → IsAllowed d (remove_from_all_formations u s).1
  unfolding remove_from_all_formations
  remove_from_all_formations-IsAllowed u s h = h

  pub toggle_char_lock-IsAllowed :
      (us : List Text) (s : State) → IsAllowed d s → IsAllowed d (toggle_char_lock us s).1
  unfolding toggle_char_lock
  toggle_char_lock-IsAllowed [] s h = h
  toggle_char_lock-IsAllowed (u ∷ us) s h = elim (Option-cases (lookup u s.roster)) [
    | inl absent ↦ rw (absent, toggle_char_lock) (toggle_char_lock-IsAllowed us s h)
    | inr (e, found) ↦
        let k = AllValues-lookup (IsCast d) u e s.roster h found in
        rw (found, toggle_char_lock)
          (toggle_char_lock-IsAllowed us _
            (AllValues-insert (IsCast d) u _ s.roster (locked-IsCast d e k) h))
  ]

  module _ (s : State) (h : IsAllowed d s) where
    -- An allowed entry in place of one, with another bag or other coins.
    put : (uid : Text) (e : Cast) → IsCast d e → IsRoster d (insert uid e s.roster)
    put uid e k = AllValues-insert (IsCast d) uid e s.roster k h

    held : (uid : Text) (e : Cast) → lookup uid s.roster ≡ some e → IsCast d e
    held uid e found = AllValues-lookup (IsCast d) uid e s.roster h found

    consumed_put :
        {A : Type 0} (mats : List Text) (cost : ℕ) (a : A) (uid : Text) (e : Cast)
        → IsCast d e
        → IsAllowed d (consume mats cost a (put_cast uid e s)).1
    consumed_put mats cost a uid e k =
        subst (IsRoster d) (sym (consume-lists mats cost a (put_cast uid e s)).0)
          (delete_casts-IsAllowed mats (put_cast uid e s) (put uid e k))

    pub level_up_char-IsAllowed :
        (f : Formulas) (uid : Text) (counts : List ℤ)
        → IsAllowed d (level_up_char f d uid counts s).1
    unfolding train
    level_up_char-IsAllowed f uid counts =
        level_up_char-cases d s uid f counts (λ r. IsAllowed d r.1) h
          (λ e found _.
            let items = consumed trainers counts in
            let e' = trained f d e (gained_of items) in
            let frame = spend_all-frame items (put_cast uid e' s) in
            subst (IsRoster d) (sym (ap (λ (w : State). w.roster) frame))
              (put uid e' (trained-IsCast f d e (gained_of items) (held uid e found))))

    pub apply_char_xp-IsAllowed :
        (f : Formulas) (uid : Text) (e : Cast) (add : ℤ)
        → lookup uid s.roster ≡ some e
        → IsAllowed d (put_cast uid (apply_char_xp f d add e).1 s)
    apply_char_xp-IsAllowed f uid e add found =
        put uid _ (apply_char_xp-IsCast f d add e (held uid e found))

    pub rank_up_char-IsAllowed : (uid : Text) → IsAllowed d (rank_up_char d uid s).1
    rank_up_char-IsAllowed uid =
        rank_up_char-cases d s uid (λ r. IsAllowed d r.1) h
          (λ e found _ low _ _.
            let gems = (rank_up_cost (star_of d e)).0 in
            subst
              (λ (w : Dict Text Cast).
                IsRoster d (insert uid (record e { star = some (star_of d e + 1) }) w))
              (sym (ap (λ (w : State). w.roster) (spend-frame rankup_gem (pos gems) s)))
              (put uid _ (ranked-IsCast d e (held uid e found) low)))

    pub super_rank_up_char-IsAllowed : (uid : Text) → IsAllowed d (super_rank_up_char d uid s).1
    super_rank_up_char-IsAllowed uid =
        super_rank_up_char-cases d s uid (λ r. IsAllowed d r.1) h
          (λ e cost found _ low _. put uid _ (super_ranked-IsCast d e (held uid e found) low))

    pub transcend_char-IsAllowed :
        (f : Formulas) (uid : Text) (uids : List Text)
        → IsAllowed d (transcend_char f d uid uids s).1
    transcend_char-IsAllowed f uid uids =
        transcend_char-cases d s uid uids (λ r. IsAllowed d r.1) h f
          (λ e found free. consumed_put _ _ _ uid _ (transcended-IsCast f d e _ (held uid e found)))

    pub ultra_transcend-IsAllowed :
        (uid : Text) (uids : List Text) → IsAllowed d (ultra_transcend d uid uids s).1
    ultra_transcend-IsAllowed uid uids =
        ultra_transcend-cases d s uid uids (λ r. IsAllowed d r.1) h
          (λ e found.
            consumed_put _ _ _ uid _ (ultra-IsCast d e (held uid e found) _ (omega arith)))

    pub skill_up-IsAllowed : (uid : Text) (uids : List Text) → IsAllowed d (skill_up d uid uids s).1
    skill_up-IsAllowed uid uids =
        skill_up-cases d s uid uids (λ r. IsAllowed d r.1) h
          (λ e found free. consumed_put _ _ _ uid _ (skilled-IsCast d e (held uid e found) _))
