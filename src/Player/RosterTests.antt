-- ===== src/Player/RosterTests.antt =====
-- The theorems on what casts wear, at a sample account.
use sevensins_server.Prelude.{◌≢◌, refl, Text, [], ◌∷◌, text_eq, arith}
use sevensins_server.Player.Sample.{account}
use sevensins_server.Player.Equips.{wear_runes}
use sevensins_server.Player.Equips.OneWearer.{WearOutcome, wear_runes-outcome}

-- A starshard that the first cast wears.
abbrev shard : Text
shard = 65 ∷ []

shard-ne : shard ≢ []
shard-ne h = ground arith

wear_runes-outcome_example :
    WearOutcome (72 ∷ []) (shard ∷ []) shard account (wear_runes (72 ∷ []) (shard ∷ []) account)
wear_runes-outcome_example =
    wear_runes-outcome (72 ∷ []) shard (shard ∷ []) account shard-ne (refl, (refl, tt))
