-- ===== src/Player/Roster/Slots.antt =====
-- The slots of the saved teams when the roster changes.
use sevensins_server.Prelude.{
  ℕ, ◌≡◌, ◌⊎◌, refl, inl, inr, Text, Option-cases, List, [], ◌∷◌, true, false, ◌&&◌, not,
  Bool-cases, by_test, Dict, lookup, contains, insert, erase, lookup-insert, lookup-erase_ne, All,
  ◌==◌, text_eq, text_beq, text_beq_iff, nat_eq, Result, arith,
}
use sevensins_server.Player.Types.{Cast, Formation, State}
use sevensins_server.Player.Casts.{in_formation}
use sevensins_server.Player.Equips.{mem}
use sevensins_server.Player.Feeding.{any_in_formation, delete_casts, ultra_materials}

-- A slot is empty, or a cast of the roster stands in it.
abbrev pub IsSlot : Dict Text Cast → Text → Type 0
IsSlot roster u = (u ≡ []) ⊎ (contains u roster ≡ true)

abbrev pub IsTeams : Dict Text Cast → List Formation → Type 0
IsTeams roster teams = All (λ f. All (IsSlot roster) f.array) teams

mem_self :
    (u : Text) (us : List Text)
    → text_beq u [] ≡ false
    → (not (text_beq u []) && mem u (u ∷ us)) ≡ true
unfolding mem
mem_self u us h = ground (arith, text_beq_iff u u)

mem_more :
    (v u : Text) (us : List Text)
    → (not (text_beq v []) && mem v us) ≡ true
    → (not (text_beq v []) && mem v (u ∷ us)) ≡ true
unfolding mem
mem_more v u us h = ground arith

-- The roster may lose casts that are in no team.
pub IsTeams-keep :
    (r r' : Dict Text Cast) (teams : List Formation)
    → ((u : Text) → in_formation u teams ≡ true → contains u r ≡ true → contains u r' ≡ true)
    → IsTeams r teams
    → IsTeams r' teams
unfolding in_formation
IsTeams-keep r r' [] keep h = tt
IsTeams-keep r r' (f ∷ fs) keep h = (
  slots f.array (λ u at c. keep u (ground arith) c) h.0,
  IsTeams-keep r r' fs (λ u at c. keep u (ground arith) c) h.1,
)
  where
    slots :
        (us : List Text)
        → ((u : Text)
            → (not (text_beq u []) && mem u us) ≡ true
            → contains u r ≡ true
            → contains u r' ≡ true)
        → All (IsSlot r) us
        → All (IsSlot r') us
    slots [] keep h = tt
    slots (u ∷ us) keep h = (
      elim h.0 [
        | inl empty ↦ inl empty
        | inr here ↦ elim (Bool-cases (text_beq u [])) [
          | inl empty ↦ inl ((text_beq_iff u []).0 empty)
          | inr named ↦ inr (keep u (mem_self u us named) here)
        ]
      ],
      slots us (λ v at c. keep v (mem_more v u us at) c) h.1,
    )

pub IsTeams-grow :
    (r r' : Dict Text Cast) (teams : List Formation)
    → ((u : Text) → contains u r ≡ true → contains u r' ≡ true)
    → IsTeams r teams
    → IsTeams r' teams
IsTeams-grow r r' teams grow h = IsTeams-keep r r' teams (λ u at c. grow u c) h

pub contains-insert :
    (k u : Text) (e : Cast) (r : Dict Text Cast)
    → contains u r ≡ true
    → contains u (insert k e r) ≡ true
contains-insert k u e r h = ground (arith, lookup-insert k u e r)

pub IsTeams-insert :
    (k : Text) (e : Cast) (r : Dict Text Cast) (teams : List Formation)
    → IsTeams r teams
    → IsTeams (insert k e r) teams
IsTeams-insert k e r teams h = IsTeams-grow r _ teams (λ u c. contains-insert k u e r c) h

pub contains-erase :
    (k u : Text) (r : Dict Text Cast)
    → text_beq k u ≡ false
    → contains u r ≡ true
    → contains u (erase k r) ≡ true
contains-erase k u r other h = ground (arith, lookup-erase_ne k u r)

not_same :
    (k u : Text) (teams : List Formation)
    → in_formation k teams ≡ false
    → in_formation u teams ≡ true
    → text_beq k u ≡ false
not_same k u teams out at = ground (arith, text_beq_iff k u)

pub IsTeams-erase :
    (k : Text) (r : Dict Text Cast) (teams : List Formation)
    → in_formation k teams ≡ false
    → IsTeams r teams
    → IsTeams (erase k r) teams
IsTeams-erase k r teams out h =
    IsTeams-keep r _ teams (λ u at c. contains-erase k u r (not_same k u teams out at) c) h

pub delete_casts-IsTeams :
    (ms : List Text) (s : State)
    → any_in_formation ms s.formations ≡ false
    → IsTeams s.roster s.formations
    → IsTeams (delete_casts ms s).1.roster (delete_casts ms s).1.formations
unfolding delete_casts any_in_formation
delete_casts-IsTeams [] s out h = h
delete_casts-IsTeams (m ∷ ms) s out h =
    by_test (λ (r : Result Text (Unit {0}) × State). IsTeams r.1.roster r.1.formations)
      (contains m s.roster) _ _
      (λ _.
        delete_casts-IsTeams ms (record s { roster = erase m s.roster }) (ground arith)
          (IsTeams-erase m s.roster s.formations (ground arith) h))
      (λ _. h)

pub ultra_materials-out :
    (uid : Text) (id : ℕ) (ms : List Text) (s : State)
    → any_in_formation (ultra_materials uid id ms s) s.formations ≡ false
unfolding ultra_materials any_in_formation
ultra_materials-out uid id [] s = refl
ultra_materials-out uid id (m ∷ ms) s = elim (Option-cases (lookup m s.roster)) [
  | inl absent ↦ rw (absent, ultra_materials) (ultra_materials-out uid id ms s)
  | inr (e, found) ↦
      let rest = ultra_materials-out uid id ms s in
      rw (found, ultra_materials)
        (by_test (λ (xs : List Text). any_in_formation xs s.formations ≡ false)
          (not (text_beq m [])
            && not (text_beq m uid)
            && e.id == id
            && not (in_formation m s.formations))
          _ _ (λ free. ground arith) (λ _. rest))
]
