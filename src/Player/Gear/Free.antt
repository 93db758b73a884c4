-- ===== src/Player/Gear/Free.antt =====
-- The search for a uid that no piece of equipment has.
use sevensins_server.Prelude.{
  ℕ, zero, suc, ◌+◌, ◌≤◌, ◌≡◌, refl, sym, ap, ◌∙◌, Text, List, [], ◌∷◌, ◌++◌, true, false, by_test,
  length, text_beq, text_beq_iff, if◌then◌else◌, arith,
}
use sevensins_server.Player.Equips.{mem}
use sevensins_server.Player.Teams.Fresh.{char_uid-injective}
use sevensins_server.Player.Gear.Granting.{rune_uid, mirror_uid, free_uid}

without : Text → List Text → List Text
without x [] = []
without x (t ∷ ts) = if text_beq t x then without x ts else t ∷ without x ts

mem-without : (x u : Text) (ts : List Text) → text_beq x u ≡ false → mem u (without x ts) ≡ mem u ts
unfolding mem without
mem-without x u [] h = refl
mem-without x u (t ∷ ts) h =
    ground (arith, text_beq_iff x u, text_beq_iff t x, text_beq_iff t u, mem-without x u ts h)

length-without_le : (x : Text) (ts : List Text) → length (without x ts) ≤ length ts
unfolding without
length-without_le x [] = omega arith
length-without_le x (t ∷ ts) = ground (arith, length-without_le x ts)

length-without :
    (x : Text) (ts : List Text) → mem x ts ≡ true → length (without x ts) + 1 ≤ length ts
unfolding mem without
length-without x [] h = absurd (ground arith)
length-without x (t ∷ ts) h = ground (arith, length-without x ts, length-without_le x ts)

module _ (number : ℕ → Text) (injective : (n m : ℕ) → number n ≡ number m → n ≡ m) where
  other_number :
      (n k : ℕ) (ts : List Text)
      → n + 1 ≤ k
      → mem (number k) (without (number n) ts) ≡ mem (number k) ts
  other_number n k ts lt =
      mem-without (number n) (number k) ts
        (ground (arith, text_beq_iff (number n) (number k), injective n k))

  free_uid-without :
      (fuel n m : ℕ) (ts : List Text)
      → n + 1 ≤ m
      → (free_uid fuel number m (without (number n) ts) ≡ free_uid fuel number m ts)
        × (mem (free_uid fuel number m ts) (without (number n) ts)
            ≡ mem (free_uid fuel number m ts) ts)
  unfolding free_uid
  free_uid-without zero n m ts h = (refl, other_number n m ts h)
  free_uid-without (suc fuel) n m ts h =
      let (same, later) = free_uid-without fuel n (m + 1) ts (omega arith) in
      (
        ap (λ b. if b then free_uid fuel number (m + 1) (without (number n) ts) else number m)
              (other_number n m ts h)
            ∙ ap (λ t. if mem (number m) ts then t else number m) same,
        by_test (λ (t : Text). mem t (without (number n) ts) ≡ mem t ts) (mem (number m) ts) _ _
            (λ _. later) (λ _. other_number n m ts h),
      )

  -- As many rounds as there are uids find a number that none of them has.
  free_uid-absent :
      (fuel n : ℕ) (ts : List Text) → length ts ≤ fuel → mem (free_uid fuel number n ts) ts ≡ false
  unfolding free_uid mem
  free_uid-absent zero n [] h = refl
  free_uid-absent zero n (t ∷ ts) h = absurd (omega arith)
  free_uid-absent (suc fuel) n ts h =
      by_test (λ (t : Text). mem t ts ≡ false) (mem (number n) ts) _ _
        (λ here.
          let (same, later) = free_uid-without fuel n (n + 1) ts (omega arith) in
          sym later
          ∙ ap (λ t. mem t (without (number n) ts)) (sym same)
          ∙ free_uid-absent fuel (n + 1) (without (number n) ts)
              (omega (arith, length-without (number n) ts here)))
        (λ free. free)

pub rune_uid-absent :
    (player : Text) (n : ℕ) (ts : List Text)
    → mem (free_uid (length ts) (rune_uid player) n ts) ts ≡ false
unfolding rune_uid
rune_uid-absent player n ts =
    free_uid-absent (rune_uid player) (char_uid-injective (player ++ (114 ∷ []))) (length ts) n ts
      (omega arith)

pub mirror_uid-absent :
    (player : Text) (n : ℕ) (ts : List Text)
    → mem (free_uid (length ts) (mirror_uid player) n ts) ts ≡ false
unfolding mirror_uid
mirror_uid-absent player n ts =
    free_uid-absent (mirror_uid player) (char_uid-injective (player ++ (115 ∷ []))) (length ts) n ts
      (omega arith)
