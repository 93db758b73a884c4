-- ===== src/Player/Equips/Wearers.antt =====
-- A cast's 18 slots: their length and their pieces.
use sevensins_server.Prelude.{
  ◌-◌, ◌≡◌, ◌≢◌, refl, Text, List, [], ◌∷◌, append-nil, true, false, text_eq, text_beq_iff, take,
  length, replicate, length-append, length-take, length-replicate, take-append_of_eq, if◌then◌else◌,
  arith,
}
use sevensins_server.Player.Types.{Cast}
use sevensins_server.Player.Equips.{char_equips, mem, pieces, wears, strip, overwrite}

pub length-char_equips : (e : Cast) → length (char_equips e) ≡ 18
unfolding char_equips
length-char_equips e = omega (
  arith,
  length-append (take 18 e.equips) (replicate (18 - length (take 18 e.equips)) []),
  length-take 18 e.equips,
  length-replicate {A = Text} (18 - length (take 18 e.equips)) [],
)

-- A full array is what is read back.
pub char_equips-full :
    (e : Cast) (xs : List Text) → length xs ≡ 18 → char_equips (record e { equips = xs }) ≡ xs
unfolding char_equips
char_equips-full e xs h =
    let whole : take 18 xs ≡ xs = rw append-nil at (take-append_of_eq 18 xs [] h) in
    rw (whole, h) (append-nil xs)

pub length-strip : (gone xs : List Text) → length (strip gone xs) ≡ length xs
unfolding strip
length-strip gone [] = refl
length-strip gone (x ∷ xs) = omega (arith, length-strip gone xs)

pub length-overwrite : (sent xs : List Text) → length (overwrite sent xs) ≡ length xs
unfolding overwrite
length-overwrite sent [] = refl
length-overwrite [] (x ∷ xs) = refl
length-overwrite (u ∷ sent) (x ∷ xs) = omega (arith, length-overwrite sent xs)

module _ (u : Text) (h : u ≢ []) where
  pub mem-pieces : (xs : List Text) → mem u (pieces xs) ≡ mem u xs
  unfolding mem pieces
  mem-pieces [] = refl
  mem-pieces (x ∷ xs) = ground (arith, text_beq_iff x u, text_beq_iff x [], mem-pieces xs)

  pub mem-strip :
      (gone xs : List Text) → mem u (strip gone xs) ≡ (if mem u gone then false else mem u xs)
  unfolding mem strip
  mem-strip gone [] = ground arith
  mem-strip gone (x ∷ xs) = ground (arith, text_beq_iff x u, text_beq_iff [] u, mem-strip gone xs)

  pub mem-wears :
      (gone xs : List Text) → wears gone xs ≡ false → mem u gone ≡ true → mem u xs ≡ false
  unfolding mem wears
  mem-wears gone [] p q = refl
  mem-wears gone (x ∷ xs) p q = ground (arith, text_beq_iff x u, mem-wears gone xs)
