-- ===== src/Player/Mail/Decimal.antt =====
-- `str` of a number, read back.
use sevensins_server.Prelude.{
  ℕ, zero, suc, ◌+◌, ◌-◌, ◌*◌, ◌/◌, ◌≤◌, ◌<◌, ◌≡◌, ◌∙◌, ap, Text, [], ◌∷◌, ◌++◌, by_test, replicate,
  ltb, arith,
}
use sevensins_server.Player.Mail.{decimal, str}

-- int(s), with the value of the digits in front.
pub decode : ℕ → Text → ℕ
decode acc [] = acc
decode acc (c ∷ cs) = decode (acc * 10 + (c - 48)) cs

decode-decimal :
    (fuel n : ℕ) (rest : Text) → n ≤ fuel → decode 0 (decimal fuel n rest) ≡ decode n rest
unfolding decode decimal
decode-decimal zero n rest h = ap (λ m. decode m rest) (omega arith)
decode-decimal (suc fuel) n rest h =
    by_test (λ (t : Text). decode 0 t ≡ decode n rest) (ltb n 10) _ _
      (λ small. let low : n < 10 = ground arith in ap (λ m. decode m rest) (omega arith))
      (λ big.
        let high : 10 ≤ n = ground arith in
        decode-decimal fuel (n / 10) _ (omega arith) ∙ ap (λ m. decode m rest) (omega arith))

-- The number is read back through any zeros in front of it.
pub decode-str : (k n : ℕ) → decode 0 (replicate k 48 ++ str n) ≡ n
unfolding decode str
decode-str zero n = decode-decimal n n [] (omega arith)
decode-str (suc k) n = decode-str k n
