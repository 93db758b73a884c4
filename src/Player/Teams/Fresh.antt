-- ===== src/Player/Teams/Fresh.antt =====
-- The uid that `add_char` gives.
use sevensins_server.Prelude.{
  ℕ, zero, suc, ◌+◌, ◌-◌, ◌≤◌, ◌≢◌, ◌≡◌, ◌∙◌, refl, sym, ap, Text, Option, some, none, [], ◌∷◌,
  ◌++◌, true, false, by_test, Dict, lookup, contains, insert, erase, lookup-insert,
  lookup-insert_self, lookup-erase_ne, length, drop, drop-length-append, replicate, text_eq,
  text_beq, text_beq_iff, if◌then◌else◌, arith,
}
use sevensins_server.Player.Types.{Cast, State}
use sevensins_server.Player.Mail.{str}
use sevensins_server.Player.Mail.Decimal.{decode, decode-str}
use sevensins_server.Player.Teams.{char_uid, fresh_uid, add_char}

pub char_uid-injective : (player : Text) (n m : ℕ) → char_uid player n ≡ char_uid player m → n ≡ m
unfolding char_uid
char_uid-injective player n m h =
    sym (number n) ∙ ap (λ t. decode 0 (drop (length player) t)) h ∙ number m
  where
    number : (k : ℕ) → decode 0 (drop (length player) (char_uid player k)) ≡ k
    number k =
        ap (λ t. decode 0 t)
          (drop-length-append player (replicate (4 - length (str k)) 48 ++ str k))
        ∙ decode-str (4 - length (str k)) k

length-erase :
    (k : Text) (d : Dict Text Cast) → contains k d ≡ true → length (erase k d) + 1 ≡ length d
length-erase k [] h = absurd (ground arith)
length-erase k ((j, e) ∷ d) h = ground (arith, length-erase k d)

other_number :
    (player : Text) (n k : ℕ) (d : Dict Text Cast)
    → n + 1 ≤ k
    → contains (char_uid player k) (erase (char_uid player n) d) ≡ contains (char_uid player k) d
other_number player n k d lt =
    let distinct : char_uid player n ≢ char_uid player k =
      λ e. absurd (omega (arith, char_uid-injective player n k e)) in
    let differ : text_beq (char_uid player n) (char_uid player k) ≡ false =
      ground (arith, text_beq_iff (char_uid player n) (char_uid player k)) in
    ap (λ (o : Option Cast). elim o [ none ↦ false | some _ ↦ true ])
      (lookup-erase_ne (char_uid player n) (char_uid player k) d differ)

-- Without the cast of an earlier number the loop runs the same.
fresh_uid-erase :
    (fuel : ℕ) (player : Text) (n m : ℕ) (d : Dict Text Cast)
    → n + 1 ≤ m
    → (fresh_uid fuel player m (erase (char_uid player n) d) ≡ fresh_uid fuel player m d)
      × (contains (fresh_uid fuel player m d) (erase (char_uid player n) d)
          ≡ contains (fresh_uid fuel player m d) d)
unfolding fresh_uid
fresh_uid-erase zero player n m d h = (refl, other_number player n m d h)
fresh_uid-erase (suc fuel) player n m d h =
    let (same, later) = fresh_uid-erase fuel player n (m + 1) d (omega arith) in
    (
      ap
            (λ b.
              if b
              then fresh_uid fuel player (m + 1) (erase (char_uid player n) d)
              else char_uid player m)
            (other_number player n m d h)
          ∙ ap (λ t. if contains (char_uid player m) d then t else char_uid player m) same,
      by_test (λ (t : Text). contains t (erase (char_uid player n) d) ≡ contains t d)
          (contains (char_uid player m) d) _ _ (λ _. later) (λ _. other_number player n m d h),
    )

inserted_here : (k : Text) (e : Cast) (d : Dict Text Cast) → contains k (insert k e d) ≡ true
inserted_here k e d = ground (arith, lookup-insert_self k e d)

inserted_other :
    (k u : Text) (e : Cast) (d : Dict Text Cast)
    → contains k d ≡ false
    → contains u d ≡ true
    → lookup u (insert k e d) ≡ lookup u d
inserted_other k u e d absent here = ground (arith, lookup-insert k u e d, text_beq_iff k u)

fresh_uid-absent :
    (fuel : ℕ) (player : Text) (n : ℕ) (d : Dict Text Cast)
    → length d ≤ fuel
    → contains (fresh_uid fuel player n d) d ≡ false
unfolding fresh_uid
fresh_uid-absent zero player n [] h = refl
fresh_uid-absent zero player n (e ∷ d) h = absurd (omega arith)
fresh_uid-absent (suc fuel) player n d h =
    by_test (λ (t : Text). contains t d ≡ false) (contains (char_uid player n) d) _ _
      (λ here.
        let (same, later) = fresh_uid-erase fuel player n (n + 1) d (omega arith) in
        sym later
        ∙ ap (λ t. contains t (erase (char_uid player n) d)) (sym same)
        ∙ fresh_uid-absent fuel player (n + 1) (erase (char_uid player n) d)
            (omega (arith, length-erase (char_uid player n) d here)))
      (λ free. free)

length-insert :
    (k : Text) (e : Cast) (d : Dict Text Cast)
    → contains k d ≡ false
    → length (insert k e d) ≡ length d + 1
length-insert k e [] h = refl
length-insert k e ((j, w) ∷ d) h = ground (arith, length-insert k e d)

module _ (id lv : ℕ) (star : Option ℕ) (super_star : ℕ) (s : State) where
  -- The search of `add_char` for a uid ends, whatever casts the account has: the uid that it
  -- returns is not in the roster before, names the new cast after, the roster has one cast more,
  -- and every other cast stays as it is.
  pub add_char-fresh :
      let (uid, t) = add_char id lv star super_star s in
      (contains uid s.roster ≡ false)
      × (contains uid t.roster ≡ true)
      × (length t.roster ≡ length s.roster + 1)
      × ((u : Text) → contains u s.roster ≡ true → lookup u t.roster ≡ lookup u s.roster)
  unfolding add_char
  add_char-fresh =
      let n = length s.roster in
      let uid = fresh_uid n s.player_id (n + 1) s.roster in
      let absent = fresh_uid-absent n s.player_id (n + 1) s.roster (omega arith) in
      (
        absent,
        inserted_here uid _ s.roster,
        length-insert uid _ s.roster absent,
        λ u here. inserted_other uid u _ s.roster absent here,
      )
