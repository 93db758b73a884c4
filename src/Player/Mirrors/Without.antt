-- ===== src/Player/Mirrors/Without.antt =====
-- A bag without the pieces of some uids.
use sevensins_server.Prelude.{
  ℕ, ◌≡◌, refl, ap, subst, Text, some, none, List, [], ◌∷◌, false, ◌||◌, by_test, lookup, erase,
  nat_eq, text_beq_iff, if◌then◌else◌, arith,
}
use sevensins_server.Player.Types.{Item, Bag}
use sevensins_server.Player.Bag.Slots.{IsUnique}
use sevensins_server.Player.Equips.{mem}
use sevensins_server.Player.Gear.Granting.{bag_uids}
use sevensins_server.Player.Gear.Stored.{IsStored}
use sevensins_server.Player.Runes.{find_rune}

-- The pieces of a bag whose uid is not among these.
abbrev pub without : List Text → Bag → Bag
without gone [] = []
without gone ((sid, e) ∷ bag) =
    if mem e.uid gone then without gone bag else (sid, e) ∷ without gone bag

without-absent : (u : Text) (bag : Bag) → mem u (bag_uids bag) ≡ false → without (u ∷ []) bag ≡ bag
unfolding mem bag_uids
without-absent u [] h = refl
without-absent u ((k, x) ∷ bag) h =
    ground (arith, text_beq_iff x.uid u, text_beq_iff u x.uid, h, without-absent u bag)

find_rune-lookup :
    (u : Text) (sid : ℕ) (e : Item) (bag : Bag)
    → IsUnique bag
    → find_rune u bag ≡ some (sid, e)
    → lookup sid bag ≡ some e
unfolding find_rune
find_rune-lookup u sid e [] h found = absurd (ground arith)
find_rune-lookup u sid e ((k, x) ∷ bag) h found =
    ground (arith, h.0, found, find_rune-lookup u sid e bag h.1)

pub erase-without :
    (u : Text) (sid : ℕ) (e : Item) (bag : Bag)
    → IsStored bag
    → find_rune u bag ≡ some (sid, e)
    → erase sid bag ≡ without (u ∷ []) bag
unfolding find_rune mem bag_uids
erase-without u sid e [] h found = absurd (ground arith)
erase-without u sid e ((k, x) ∷ bag) h found =
    let rest : IsStored bag = record { slots = h.slots.1; uids = h.uids.1 } in
    let absent : x.uid ≡ u → without (u ∷ []) bag ≡ bag =
      λ same. without-absent u bag (subst (λ w. mem w (bag_uids bag) ≡ false) same h.uids.0) in
    ground (
      arith,
      found,
      h.slots.0,
      absent,
      text_beq_iff x.uid u,
      text_beq_iff u x.uid,
      find_rune-lookup u sid e bag h.slots.1,
      erase-without u sid e bag rest,
    )

pub without-cons :
    (u : Text) (gone : List Text) (bag : Bag)
    → without (u ∷ []) (without gone bag) ≡ without (u ∷ gone) bag
unfolding mem
without-cons u gone [] = refl
without-cons u gone ((k, x) ∷ bag) = ground (arith, without-cons u gone bag)

pub find_rune-without :
    (u : Text) (gone : List Text) (bag : Bag)
    → mem u gone ≡ false
    → find_rune u (without gone bag) ≡ find_rune u bag
unfolding find_rune mem
find_rune-without u gone [] h = refl
find_rune-without u gone ((k, x) ∷ bag) h =
    ground (arith, h, text_beq_iff x.uid u, find_rune-without u gone bag h)

lookup-without :
    (k : ℕ) (gone : List Text) (bag : Bag)
    → lookup k bag ≡ none
    → lookup k (without gone bag) ≡ none
unfolding mem
lookup-without k gone [] h = refl
lookup-without k gone ((j, x) ∷ bag) h = ground (arith, h, lookup-without k gone bag)

mem-without :
    (u : Text) (gone : List Text) (bag : Bag)
    → mem u (bag_uids bag) ≡ false
    → mem u (bag_uids (without gone bag)) ≡ false
unfolding mem bag_uids
mem-without u gone [] h = refl
mem-without u gone ((j, x) ∷ bag) h = ground (arith, h, mem-without u gone bag)

pub without-IsStored : (gone : List Text) (bag : Bag) → IsStored bag → IsStored (without gone bag)
unfolding bag_uids
without-IsStored gone [] h = h
without-IsStored gone ((k, x) ∷ bag) h =
    let rest = without-IsStored gone bag (record { slots = h.slots.1; uids = h.uids.1 }) in
    by_test IsStored (mem x.uid gone) _ _ (λ _. rest)
      (λ _. record {
        slots = (lookup-without k gone bag h.slots.0, rest.slots);
        uids = (mem-without x.uid gone bag h.uids.0, rest.uids);
      })

-- The uids that the loop has gone through, newest first.
abbrev pub pushed : List Text → List Text → List Text
pushed [] seen = seen
pushed (u ∷ us) seen = pushed us (u ∷ seen)

mem-pushed : (u : Text) (us seen : List Text) → mem u (pushed us seen) ≡ (mem u us || mem u seen)
unfolding mem
mem-pushed u [] seen = refl
mem-pushed u (v ∷ us) seen = ground (arith, mem-pushed u us (v ∷ seen))

pub mem-pushed_none : (u : Text) (us : List Text) → mem u (pushed us []) ≡ mem u us
unfolding mem
mem-pushed_none u us = ground (arith, mem-pushed u us [])

without-same :
    (xs ys : List Text) (bag : Bag)
    → ((u : Text) → mem u xs ≡ mem u ys)
    → without xs bag ≡ without ys bag
without-same xs ys [] h = refl
without-same xs ys ((k, x) ∷ bag) h = ground (arith, h x.uid, without-same xs ys bag h)

pub without-pushed : (us : List Text) (bag : Bag) → without (pushed us []) bag ≡ without us bag
unfolding mem
without-pushed us bag = without-same (pushed us []) us bag (λ u. mem-pushed_none u us)

pub without-none : (bag : Bag) → without [] bag ≡ bag
unfolding mem
without-none [] = refl
without-none ((k, x) ∷ bag) = ap (λ b. (k, x) ∷ b) (without-none bag)
