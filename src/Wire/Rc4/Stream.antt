-- ===== src/Wire/Rc4/Stream.antt =====
-- `crypt` on whole messages and on their parts.
use sevensins_server.Prelude.{ℕ, suc, length, ◌≡◌, refl, ap, List, [], ◌∷◌, ◌++◌, arith}
use sevensins_server.Prelude.Bits.{bit_xor_cancel}
use sevensins_server.Wire.Rc4.{Rc4, advance, key_byte, crypt}

-- A receiver whose keystream stands where the sender's stood reads the message that was sent, and
-- both end in the same state.
pub crypt-crypt : (s : Rc4) (msg : List ℕ) → crypt s (crypt s msg).0 ≡ (msg, (crypt s msg).1)
unfolding crypt
crypt-crypt s [] = refl
crypt-crypt s (c ∷ msg) =
    ground (arith, bit_xor_cancel c (key_byte (advance s)), crypt-crypt (advance s) msg)

-- A message sent in two pieces is the message sent at once, and leaves the same state.
pub crypt-append :
    (s : Rc4) (xs ys : List ℕ)
    → crypt s (xs ++ ys)
      ≡ ((crypt s xs).0 ++ (crypt (crypt s xs).1 ys).0, (crypt (crypt s xs).1 ys).1)
unfolding crypt
crypt-append s [] ys = refl
crypt-append s (x ∷ xs) ys = ground (arith, crypt-append (advance s) xs ys)

-- The output has the length of the input.
pub length-crypt : (s : Rc4) (msg : List ℕ) → length (crypt s msg).0 ≡ length msg
unfolding crypt
length-crypt s [] = refl
length-crypt s (c ∷ msg) = ap suc (length-crypt (advance s) msg)

pub crypt-nil : (s : Rc4) → crypt s [] ≡ ([], s)
unfolding crypt
crypt-nil s = refl
