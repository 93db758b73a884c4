-- ===== src/Player/Mail/Due.antt =====
-- The mails of a claim, described without its loop.
use sevensins_server.Prelude.{
  ℕ, ◌≡◌, refl, Option, some, none, List, [], ◌∷◌, ◌++◌, Bool, true, false, by_test, Dict, ◌==◌,
  nat_eq, if◌then◌else◌, ℤ, arith,
}
use sevensins_server.Player.Types.{Mail}
use sevensins_server.Player.Mail.{asks, is_claimed}

-- A uid of the request.
unfoldable pub is_named : ℕ → List ℕ → Bool
is_named u [] = false
is_named u (v ∷ us) = if u == v then true else is_named u us

-- A mail that is due to a request: it is unread and has not expired, and the request names it, or
-- names none.
abbrev pub is_due : Option (List ℕ) → Mail → Bool
is_due uids m =
    let named : Bool = elim uids [ none ↦ true | some us ↦ is_named m.uid us ] in
    if m.read then false else if m.expired then false else named

-- The attachments, uids and mailbox that a claim should make, each on its own.
unfoldable pub attachments : Option (List ℕ) → List Mail → Dict ℕ ℤ
attachments uids [] = []
attachments uids (m ∷ ms) =
    if is_due uids m then m.items ++ attachments uids ms else attachments uids ms

unfoldable pub claimed_uids : Option (List ℕ) → List Mail → List ℕ
claimed_uids uids [] = []
claimed_uids uids (m ∷ ms) =
    if is_due uids m then m.uid ∷ claimed_uids uids ms else claimed_uids uids ms

abbrev pub mark : ℕ → Option (List ℕ) → Mail → Mail
mark now uids m = if is_due uids m then record m { read = true; updatetime = now } else m

unfoldable pub marked : ℕ → Option (List ℕ) → List Mail → List Mail
marked now uids [] = []
marked now uids (m ∷ ms) = mark now uids m ∷ marked now uids ms

asks-is_named : (us : List ℕ) (u : ℕ) → asks (some us) u ≡ is_named u us
unfolding asks is_named
asks-is_named [] u = refl
asks-is_named (v ∷ us) u = ground (arith, asks-is_named us u)

pub claimed-is_due : (uids : Option (List ℕ)) (m : Mail) → is_claimed uids m ≡ is_due uids m
unfolding asks
claimed-is_due none m = ground arith
claimed-is_due (some us) m = ground (arith, asks-is_named us m.uid)

pub mark-idle :
    (now : ℕ) (uids : Option (List ℕ)) (m : Mail) → is_due uids (mark now uids m) ≡ false
mark-idle now uids m =
    by_test (λ n. is_due uids n ≡ false) (is_due uids m) _ _ (λ _. refl) (λ idle. idle)
