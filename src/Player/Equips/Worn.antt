-- ===== src/Player/Equips/Worn.antt =====
-- How many casts wear a piece, before and after the loops over the roster.
use sevensins_server.Prelude.{
  ℕ, ◌+◌, ◌≤◌, ◌≡◌, ◌≢◌, ◌∙◌, refl, Text, Option, none, List, [], ◌∷◌, true, false, Dict, IsDict,
  lookup, insert, text_eq, text_beq, text_beq_iff, length, if◌then◌else◌, arith,
}
use sevensins_server.Player.Types.{Cast}
use sevensins_server.Player.Equips.{
  char_equips, mem, pieces, wears, strip, unequip_rows, steal_rows,
}
use sevensins_server.Player.Equips.Wearers.{
  mem-pieces, length-char_equips, length-strip, char_equips-full, mem-strip, mem-wears,
}

-- 1 where the cast wears the piece.
pub worn_by : Text → Cast → ℕ
worn_by u e = if mem u (char_equips e) then 1 else 0

pub wearers : Text → Dict Text Cast → ℕ
wearers u [] = 0
wearers u ((uid, e) ∷ rows) = worn_by u e + wearers u rows

-- The wearers other than one cast.
others : Text → Text → Dict Text Cast → ℕ
others k u [] = 0
others k u ((uid, e) ∷ rows) =
    if text_beq uid k then others k u rows else worn_by u e + others k u rows

module _ (u : Text) (h : u ≢ []) (gone : List Text) (e : Cast) where
  worn_by-strip :
      worn_by u (record e { equips = strip gone (char_equips e) })
      ≡ (if mem u gone then 0 else worn_by u e)
  unfolding worn_by
  worn_by-strip = ground (
    arith,
    char_equips-full e (strip gone (char_equips e))
        (length-strip gone (char_equips e) ∙ length-char_equips e),
    mem-strip u h gone (char_equips e),
  )

  worn_by-kept : wears gone (char_equips e) ≡ false → mem u gone ≡ true → worn_by u e ≡ 0
  unfolding worn_by
  worn_by-kept p q = ground (arith, mem-wears u h gone (char_equips e) p q)

module _ (u : Text) (h : u ≢ []) (gone : List Text) where
  -- `unequip_everywhere` takes a piece that is gone off every cast, and leaves any other.
  pub wearers-unequip :
      (keep : Option Text) (rows : Dict Text Cast)
      → wearers u (unequip_rows gone keep rows).1 ≡ (if mem u gone then 0 else wearers u rows)
  unfolding wearers unequip_rows
  wearers-unequip keep [] = ground arith
  wearers-unequip keep ((uid, e) ∷ rows) =
      ground (arith, wearers-unequip keep rows, worn_by-strip u h gone e, worn_by-kept u h gone e)

  -- The loop of `wear_runes` does so with the casts other than the one that puts the pieces on.
  others-steal :
      (k : Text) (rows : Dict Text Cast)
      → others k u (steal_rows k gone rows).1 ≡ (if mem u gone then 0 else others k u rows)
  unfolding others steal_rows
  others-steal k [] = ground arith
  others-steal k ((uid, e) ∷ rows) =
      ground (arith, others-steal k rows, worn_by-strip u h gone e, worn_by-kept u h gone e)

lookup-steal :
    (k j : Text) (gone : List Text) (rows : Dict Text Cast)
    → lookup j rows ≡ none
    → lookup j (steal_rows k gone rows).1 ≡ none
unfolding steal_rows
lookup-steal k j gone [] h = refl
lookup-steal k j gone ((uid, e) ∷ rows) h = ground (arith, lookup-steal k j gone rows)

steal_rows-IsDict :
    (k : Text) (gone : List Text) (rows : Dict Text Cast)
    → IsDict rows
    → IsDict (steal_rows k gone rows).1
unfolding steal_rows
steal_rows-IsDict k gone [] d = tt
steal_rows-IsDict k gone ((uid, e) ∷ rows) d =
    ground (arith, lookup-steal k uid gone rows, steal_rows-IsDict k gone rows)

others-absent :
    (k u : Text) (rows : Dict Text Cast) → lookup k rows ≡ none → wearers u rows ≡ others k u rows
unfolding others wearers
others-absent k u [] h = refl
others-absent k u ((uid, e) ∷ rows) h = ground (arith, others-absent k u rows)

others-le : (k u : Text) (rows : Dict Text Cast) → others k u rows ≤ wearers u rows
unfolding others wearers
others-le k u [] = omega arith
others-le k u ((uid, e) ∷ rows) = ground (arith, others-le k u rows)

wearers-insert :
    (k u : Text) (e : Cast) (rows : Dict Text Cast)
    → IsDict rows
    → wearers u (insert k e rows) ≡ worn_by u e + others k u rows
unfolding others wearers
wearers-insert k u e [] d = refl
wearers-insert k u e ((uid, x) ∷ rows) d =
    ground (arith, text_beq_iff uid k, others-absent k u rows, wearers-insert k u e rows)

-- A cast puts on a full array of slots after the loop: a piece of it has one wearer, any other
-- piece as many as before at most.
pub wearers-steal :
    (k u : Text) (slots : List Text) (entry : Cast) (rows : Dict Text Cast)
    → u ≢ []
    → length slots ≡ 18
    → IsDict rows
    → let t = insert k (record entry { equips = slots }) (steal_rows k (pieces slots) rows).1 in
      if mem u slots then wearers u t ≡ 1 else wearers u t ≤ wearers u rows
unfolding worn_by
wearers-steal k u slots entry rows h full d = ground (
  arith,
  wearers-insert k u (record entry { equips = slots }) (steal_rows k (pieces slots) rows).1
      (steal_rows-IsDict k (pieces slots) rows d),
  others-steal u h (pieces slots) k rows,
  mem-pieces u h slots,
  char_equips-full entry slots full,
  others-le k u rows,
)
