-- ===== src/Player/Runes/Balanced.antt =====
-- How `apply_enhances` spreads its steps.
use sevensins_server.Prelude.{
  ℕ, zero, suc, ◌+◌, ◌≤◌, ◌≡◌, refl, List, [], ◌∷◌, true, false, by_test, Dict, lookup_or-insert,
  contains, insert, nat_eq, ◌==◌, if◌then◌else◌, arith,
}
use sevensins_server.Player.Types.{Attr, State}
use sevensins_server.Player.Gear.{Host, is_among, has_rows}
use sevensins_server.Player.Gear.Rolled.{IsApart, IsRandom}
use sevensins_server.Player.Runes.{
  enhance_of, sub_slots, lowest, at_low, picked, enhance_round, enhance_rounds, enhanced,
  apply_enhances,
}

-- No sub-stat is more than one enhance ahead of another.
abbrev pub IsBalanced : List ℕ → Dict ℕ ℕ → Type 0
IsBalanced slots enhances =
    (i j : ℕ)
    → is_among i slots ≡ true
    → is_among j slots ≡ true
    → enhance_of enhances i ≤ enhance_of enhances j + 1

abbrev pub total_enhances : Dict ℕ ℕ → List ℕ → ℕ
total_enhances enhances [] = 0
total_enhances enhances (j ∷ slots) = enhance_of enhances j + total_enhances enhances slots

lowest-le :
    (enhances : Dict ℕ ℕ) (slots : List ℕ) (j : ℕ)
    → is_among j slots ≡ true
    → lowest enhances slots ≤ enhance_of enhances j
unfolding lowest
lowest-le enhances [] j h = absurd (ground arith)
lowest-le enhances (k ∷ []) j h = ground (arith, h)
lowest-le enhances (k ∷ l ∷ slots) j h = ground (arith, h, lowest-le enhances (l ∷ slots) j)

at_low-in :
    (enhances : Dict ℕ ℕ) (low : ℕ) (slots : List ℕ) (j : ℕ)
    → is_among j (at_low enhances low slots) ≡ true
    → (is_among j slots ≡ true) × (enhance_of enhances j ≡ low)
unfolding at_low
at_low-in enhances low [] j h = absurd (ground arith)
at_low-in enhances low (k ∷ slots) j h = ground (arith, h, at_low-in enhances low slots j)

at_low-some :
    (enhances : Dict ℕ ℕ) (j : ℕ) (slots : List ℕ)
    → has_rows (at_low enhances (lowest enhances (j ∷ slots)) (j ∷ slots)) ≡ true
unfolding at_low lowest
at_low-some enhances j [] = ground arith
at_low-some enhances j (k ∷ slots) = ground (arith, at_low-some enhances k slots)

enhance-insert :
    (j i n : ℕ) (enhances : Dict ℕ ℕ)
    → enhance_of (insert j n enhances) i ≡ (if j == i then n else enhance_of enhances i)
enhance-insert j i n enhances = lookup_or-insert j i n 0 enhances

total-insert_ne :
    (j n : ℕ) (enhances : Dict ℕ ℕ) (slots : List ℕ)
    → is_among j slots ≡ false
    → total_enhances (insert j n enhances) slots ≡ total_enhances enhances slots
total-insert_ne j n enhances [] h = refl
total-insert_ne j n enhances (k ∷ slots) h =
    ground (arith, h, enhance-insert j k n enhances, total-insert_ne j n enhances slots)

total-insert :
    (j n : ℕ) (enhances : Dict ℕ ℕ) (slots : List ℕ)
    → IsApart slots
    → is_among j slots ≡ true
    → total_enhances (insert j n enhances) slots + enhance_of enhances j
      ≡ total_enhances enhances slots + n
total-insert j n enhances [] u h = absurd (ground arith)
total-insert j n enhances (k ∷ slots) u h = ground (
  arith,
  h,
  u.0,
  enhance-insert j k n enhances,
  total-insert_ne j n enhances slots,
  total-insert j n enhances slots u.1,
)

sub_slots-above :
    (subs : Dict ℕ ℕ) (first n j : ℕ) → is_among j (sub_slots subs first n) ≡ true → first ≤ j
unfolding sub_slots
sub_slots-above subs first zero j h = absurd (ground arith)
sub_slots-above subs first (suc n) j h = ground (arith, h, sub_slots-above subs (first + 1) n j)

sub_slots-IsApart : (subs : Dict ℕ ℕ) (first n : ℕ) → IsApart (sub_slots subs first n)
unfolding sub_slots
sub_slots-IsApart subs first zero = tt
sub_slots-IsApart subs first (suc n) =
    by_test IsApart (contains first subs) _ _
      (λ _. (
        ground (arith, sub_slots-above subs (first + 1) n first),
        sub_slots-IsApart subs (first + 1) n,
      ))
      (λ _. sub_slots-IsApart subs (first + 1) n)

module _ (host : Host) (random : IsRandom host) (s : State) where
  chosen : (n : ℕ) (xs : List ℕ) → has_rows xs ≡ true → is_among (host.choice s n xs) xs ≡ true
  chosen n [] h = absurd (ground arith)
  chosen n (x ∷ xs) h = random.choice_in s n x xs

  module _ (j : ℕ) (slots : List ℕ) where
    picked-low :
        (n : ℕ) (enhances : Dict ℕ ℕ)
        → let p = picked host s n (j ∷ slots) enhances in
          (is_among p (j ∷ slots) ≡ true) × (enhance_of enhances p ≡ lowest enhances (j ∷ slots))
    unfolding picked
    picked-low n enhances =
        at_low-in enhances (lowest enhances (j ∷ slots)) (j ∷ slots) _
          (chosen n _ (at_low-some enhances j slots))

    round-IsBalanced :
        (n : ℕ) (enhances : Dict ℕ ℕ)
        → IsBalanced (j ∷ slots) enhances
        → IsBalanced (j ∷ slots) (enhance_round host s n (j ∷ slots) enhances)
    unfolding enhance_round
    round-IsBalanced n enhances h i k hi hk =
        let p = picked host s n (j ∷ slots) enhances in
        let (member, low) = picked-low n enhances in
        ground (
          arith,
          enhance-insert p i (enhance_of enhances p + 1) enhances,
          enhance-insert p k (enhance_of enhances p + 1) enhances,
          h i k hi hk,
          h i p hi member,
          low,
          lowest-le enhances (j ∷ slots) k hk,
        )

    round-total :
        (n : ℕ) (enhances : Dict ℕ ℕ)
        → IsApart (j ∷ slots)
        → total_enhances (enhance_round host s n (j ∷ slots) enhances) (j ∷ slots)
          ≡ total_enhances enhances (j ∷ slots) + 1
    unfolding enhance_round
    round-total n enhances u =
        let p = picked host s n (j ∷ slots) enhances in
        let (member, low) = picked-low n enhances in
        omega (arith, total-insert p (enhance_of enhances p + 1) enhances (j ∷ slots) u member)

    rounds-spread :
        (steps n : ℕ) (touched enhances : Dict ℕ ℕ)
        → IsApart (j ∷ slots)
        → IsBalanced (j ∷ slots) enhances
        → let after = (enhance_rounds host s steps n (j ∷ slots) (touched, enhances)).1 in
          IsBalanced (j ∷ slots) after
          × (total_enhances after (j ∷ slots) ≡ total_enhances enhances (j ∷ slots) + steps)
    unfolding enhance_rounds
    rounds-spread zero n touched enhances u h = (h, omega arith)
    rounds-spread (suc steps) n touched enhances u h =
        let more = enhance_round host s n (j ∷ slots) enhances in
        let (balanced, sum) =
          rounds-spread steps (n + 1) _ more u (round-IsBalanced n enhances h) in
        (balanced, omega (arith, sum, round-total n enhances u))

  enhanced-spread :
      (attr : Attr) (steps : ℕ) (slots : List ℕ)
      → has_rows slots ≡ true
      → IsApart slots
      → IsBalanced slots attr.enhances
      → let after = (enhanced host s attr steps slots).1 in
        IsBalanced slots after.enhances
        × (total_enhances after.enhances slots ≡ total_enhances attr.enhances slots + steps)
  unfolding enhanced
  enhanced-spread attr steps [] held u h = absurd (ground arith)
  enhanced-spread attr steps (j ∷ slots) held u h =
      rounds-spread j slots steps 0 [] attr.enhances u h

  -- The enhances go to the sub-stats that have the fewest: where no sub-stat is more than one ahead
  -- of another, none is after either, and together they have `steps` more. The piece has a
  -- sub-stat, and a random choice is of its list.
  pub apply_enhances-spread :
      (attr : Attr) (steps count : ℕ)
      → has_rows (sub_slots attr.subs 1 count) ≡ true
      → IsBalanced (sub_slots attr.subs 1 count) attr.enhances
      → let slots = sub_slots attr.subs 1 count in
        let after = (apply_enhances host s attr steps count).1 in
        IsBalanced slots after.enhances
        × (total_enhances after.enhances slots ≡ total_enhances attr.enhances slots + steps)
  unfolding apply_enhances
  apply_enhances-spread attr steps count held h =
      enhanced-spread attr steps (sub_slots attr.subs 1 count) held
        (sub_slots-IsApart attr.subs 1 count) h
