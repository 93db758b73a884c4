-- ===== src/Prelude/Values.antt =====
-- A predicate on every value of a dictionary.
use mathlib.Core.Path.{◌≡◌, ap, subst}
use mathlib.Core.Option.{Option, none, some}
use mathlib.Core.List.{[], ◌∷◌}
use native.Mathlib.Omega.{arith}
use sevensins_server.Prelude.Tests.{Eq, ◌==◌, by_test}
use sevensins_server.Prelude.Dicts.{Dict, lookup, insert, erase}

module _ {ℓ κ μ} {K : Type ℓ} {V : Type κ} ⦃e : Eq K⦄ (P : V → Type μ) where
  abbrev pub AllValues : Dict K V → Type μ
  AllValues [] = Unit
  AllValues ((k, v) ∷ d) = P v × AllValues d

  pub AllValues-insert :
      (k : K) (v : V) (d : Dict K V) → P v → AllValues d → AllValues (insert k v d)
  AllValues-insert k v [] p h = (p, tt)
  AllValues-insert k v ((j, w) ∷ d) p h =
      by_test AllValues (j == k) ((j, v) ∷ d) ((j, w) ∷ insert k v d) (λ _. (p, h.1))
        (λ _. (h.0, AllValues-insert k v d p h.1))

  pub AllValues-erase : (k : K) (d : Dict K V) → AllValues d → AllValues (erase k d)
  AllValues-erase k [] h = tt
  AllValues-erase k ((j, w) ∷ d) h =
      by_test AllValues (j == k) d ((j, w) ∷ erase k d) (λ _. h.1)
        (λ _. (h.0, AllValues-erase k d h.1))

  pub AllValues-lookup : (k : K) (v : V) (d : Dict K V) → AllValues d → lookup k d ≡ some v → P v
  AllValues-lookup k v [] h found = absurd (ground arith)
  AllValues-lookup k v ((j, w) ∷ d) h found =
      by_test (λ (o : Option V). o ≡ some v → P v) (j == k) (some w) (lookup k d)
        (λ _ same. subst P (ap (λ o. elim o [ none ↦ w | some x ↦ x ]) same) h.0)
        (λ _ rest. AllValues-lookup k v d h.1 rest) found
