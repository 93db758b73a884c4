-- ===== src/Player/Roster/Standing.antt =====
-- The teams through the operations that sell and decompose casts, and through the edits of a team.
use sevensins_server.Prelude.{
  ℕ, zero, suc, ◌≡◌, refl, sym, subst, inl, inr, Text, Option-cases, List, [], ◌∷◌, true, false,
  ◌||◌, by_test, Dict, lookup, contains, erase, All, All-append, All-set, take, replicate, length,
  text_eq, nat_eq, ltb, ℤ, pos, negsuc, arith,
}
use sevensins_server.Player.Types.{Design, Cast, Formation, State}
use sevensins_server.Player.Casts.{in_formation}
use sevensins_server.Player.Equips.{mem}
use sevensins_server.Player.Teams.{
  sell_rows, blanked, blank_teams, decompose_rows, grant_each, sell_chars, decompose_chars,
  known_slots, formation_slots, team_of, set_formation, toggle_char_lock,
  remove_from_all_formations,
}
use sevensins_server.Player.Roster.{IsPaying}
use sevensins_server.Player.Roster.Slots.{
  IsSlot, IsTeams, IsTeams-grow, IsTeams-insert, IsTeams-erase, contains-erase,
}

-- An account whose teams stand.
abbrev pub IsStanding : State → Type 0
IsStanding s = IsTeams s.roster s.formations

-- A cast is sold, or it stays.
sell_rows-contains :
    (d : Design) (us : List Text) (r : Dict Text Cast) (gain : Dict ℕ ℤ) (u : Text)
    → contains u r ≡ true
    → mem u (sell_rows d us (r, gain)).0 ≡ false
    → contains u (sell_rows d us (r, gain)).1.0 ≡ true
unfolding sell_rows mem
sell_rows-contains d [] r gain u here kept = here
sell_rows-contains d (v ∷ us) r gain u here kept = elim (Option-cases (lookup v r)) [
  | inl absent ↦
      rw (absent, sell_rows)
        (sell_rows-contains d us r gain u here (rw (absent, sell_rows) at kept))
  | inr (e, found) ↦
      let kept' = rw (found, sell_rows) at kept in
      rw (found, sell_rows)
        (sell_rows-contains d us (erase v r) _ u (contains-erase v u r (ground arith) here)
          (ground arith))
]

blank_slots :
    (gone us : List Text) (r r' : Dict Text Cast)
    → ((u : Text) → contains u r ≡ true → mem u gone ≡ false → contains u r' ≡ true)
    → All (IsSlot r) us
    → All (IsSlot r') (blanked gone us)
unfolding blanked
blank_slots gone [] r r' keep h = tt
blank_slots gone (u ∷ us) r r' keep h = (
  by_test (IsSlot r') (mem u gone) [] u (λ _. inl refl)
      (λ stays. elim h.0 [ inl empty ↦ inl empty | inr here ↦ inr (keep u here stays) ]),
  blank_slots gone us r r' keep h.1,
)

blank_teams-IsTeams :
    (gone : List Text) (teams : List Formation) (r r' : Dict Text Cast)
    → ((u : Text) → contains u r ≡ true → mem u gone ≡ false → contains u r' ≡ true)
    → IsTeams r teams
    → IsTeams r' (blank_teams gone teams)
unfolding blank_teams
blank_teams-IsTeams gone [] r r' keep h = tt
blank_teams-IsTeams gone (f ∷ fs) r r' keep h =
    (blank_slots gone f.array r r' keep h.0, blank_teams-IsTeams gone fs r r' keep h.1)

decompose_rows-IsTeams :
    (d : Design) (teams : List Formation) (us : List Text) (r : Dict Text Cast) (gain : Dict ℕ ℤ)
    → IsTeams r teams
    → IsTeams (decompose_rows d teams us (r, gain)).1.0 teams
unfolding decompose_rows
decompose_rows-IsTeams d teams [] r gain h = h
decompose_rows-IsTeams d teams (u ∷ us) r gain h = elim (Option-cases (lookup u r)) [
  | inl absent ↦ rw (absent, decompose_rows) (decompose_rows-IsTeams d teams us r gain h)
  | inr (e, found) ↦
      rw (found, decompose_rows)
        (by_test (λ (w : List Text × (Dict Text Cast × Dict ℕ ℤ)). IsTeams w.1.0 teams)
          (in_formation u teams || e.lock) _ _ (λ _. decompose_rows-IsTeams d teams us r gain h)
          (λ out.
            decompose_rows-IsTeams d teams us (erase u r) _
              (IsTeams-erase u r teams (ground arith) h)))
]

module _ {ℓ} {Bucket : Type ℓ} (d : Design) (grant_reward : ℕ → ℤ → State → Bucket × State)
    (pays : IsPaying d grant_reward) where
  grant_each-IsStanding :
      (gain : Dict ℕ ℤ) (s : State) → IsStanding s → IsStanding (grant_each grant_reward gain s)
  unfolding grant_each
  grant_each-IsStanding [] s h = h
  grant_each-IsStanding ((item, n) ∷ gain) s h =
      let t = (grant_reward item n s).1 in
      grant_each-IsStanding gain t (
        subst (IsTeams t.roster) (sym (pays.teams item n s))
          (IsTeams-grow s.roster t.roster s.formations (pays.holders item n s) h))

  pub sell_chars-IsStanding :
      (uids : List Text) (s : State)
      → IsStanding s
      → IsStanding (sell_chars grant_reward d uids s).1
  unfolding sell_chars
  sell_chars-IsStanding uids s h = grant_each-IsStanding _ _ (
      blank_teams-IsTeams _ s.formations s.roster _ (λ u. sell_rows-contains d uids s.roster [] u)
        h)

  pub decompose_chars-IsStanding :
      (uids : List Text) (s : State)
      → IsStanding s
      → IsStanding (decompose_chars grant_reward d uids s).1
  unfolding decompose_chars
  decompose_chars-IsStanding uids s h =
      grant_each-IsStanding _ _ (decompose_rows-IsTeams d s.formations uids s.roster [] h)

known_slots-All : (r : Dict Text Cast) (us : List Text) → All (IsSlot r) (known_slots r us)
unfolding known_slots
known_slots-All r [] = tt
known_slots-All r (u ∷ us) = (
  by_test (IsSlot r) (contains u r) u [] (λ here. inr here) (λ _. inl refl),
  known_slots-All r us,
)

empty_slots : (r : Dict Text Cast) (n : ℕ) → All (IsSlot r) (replicate n [])
empty_slots r zero = tt
empty_slots r (suc n) = (inl refl, empty_slots r n)

pub set_formation-IsStanding :
    (index : ℤ) (uids : List Text) (support : ℤ) (s : State)
    → IsStanding s
    → IsStanding (set_formation index uids support s).1
unfolding set_formation team_of
set_formation-IsStanding (negsuc i) uids support s h = h
set_formation-IsStanding (pos i) uids support s h =
    by_test IsStanding (ltb i (length s.formations)) _ s
      (λ _.
        All-set (λ (f : Formation). All (IsSlot s.roster) f.array) s.formations i _ h
          (All-append (IsSlot s.roster) _ _ (known_slots-All s.roster (take formation_slots uids))
            (empty_slots s.roster _)))
      (λ _. h)

pub remove_from_all_formations-IsStanding :
    (u : Text) (s : State) → IsStanding s → IsStanding (remove_from_all_formations u s).1
unfolding remove_from_all_formations
remove_from_all_formations-IsStanding u s h =
    blank_teams-IsTeams (u ∷ []) s.formations s.roster s.roster (λ v here _. here) h

pub toggle_char_lock-IsStanding :
    (us : List Text) (s : State) → IsStanding s → IsStanding (toggle_char_lock us s).1
unfolding toggle_char_lock
toggle_char_lock-IsStanding [] s h = h
toggle_char_lock-IsStanding (u ∷ us) s h = elim (Option-cases (lookup u s.roster)) [
  | inl absent ↦ rw (absent, toggle_char_lock) (toggle_char_lock-IsStanding us s h)
  | inr (e, found) ↦
      rw (found, toggle_char_lock)
        (toggle_char_lock-IsStanding us _ (IsTeams-insert u _ s.roster s.formations h))
]
