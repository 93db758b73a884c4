-- ===== src/Player/Mirrors/Checks.antt =====
-- The tests of `dismantle_soulmirrors` on one uid.
use sevensins_server.Prelude.{
  ℕ, ◌≡◌, ◌⊎◌, refl, sym, ap, ◌∙◌, inl, inr, Text, Option, some, none, List, false, by_test, true,
  Bool, ◌&&◌, not, leb, subst, nat_eq, ◌==◌, Result, ok_injective, err_injective, ok, err, arith,
}
use sevensins_server.Player.Types.{Design, Item, Bag, State}
use sevensins_server.Player.Bag.{bag_of}
use sevensins_server.Player.Equips.{mem}
use sevensins_server.Player.Gear.Granting.{storage_soulfrag}
use sevensins_server.Player.Runes.{find_rune, attr_of}
use sevensins_server.Player.Mirrors.{
  soulmirror_tier, soulmirror_refund, MirrorError, no_soulmirror, no_tier, listed_twice,
  mirror_locked, check_entry, check_mirror, find_soulmirror,
}
use sevensins_server.Player.Mirrors.Without.{without, find_rune-without}

-- The actions of the three kinds of soulmirror.
abbrev pub is_mirror : Design → Item → Bool
is_mirror d e = leb 101 (d.item e.iid).action && leb (d.item e.iid).action 109

-- The bag holds a soulmirror of this uid that is not locked.
abbrev pub IsFree : Design → Bag → Text → Type 0
IsFree d bag uid =
    (sid : ℕ) × (e : Item) × (find_rune uid bag ≡ some (sid, e))
    × ((attr_of e.attr).lock ≡ false)
    × (is_mirror d e ≡ true)

-- What is wrong with the entry found for a uid: there is none, it is locked, or it is not locked
-- and no soulmirror.
abbrev pub IsEntryFault : Design → Option (ℕ × Item) → MirrorError → Type 0
IsEntryFault d o x =
    ((o ≡ none) × (x ≡ no_soulmirror))
    ⊎ ((sid : ℕ) × (e : Item) × (o ≡ some (sid, e))
        × (((attr_of e.attr).lock ≡ true) × (x ≡ mirror_locked)
            ⊎ ((attr_of e.attr).lock ≡ false) × (is_mirror d e ≡ false) × (x ≡ no_tier)))

-- What is wrong with a uid, where `twice` says whether it was named before.
abbrev pub IsFaulty : Design → Bag → Bool → Text → MirrorError → Type 0
IsFaulty d bag twice uid x =
    ((twice ≡ true) × (x ≡ listed_twice)) ⊎ ((twice ≡ false) × IsEntryFault d (find_rune uid bag) x)

tier-is_mirror : (d : Design) (e : Item) → ((soulmirror_tier d e).1 == 0) ≡ not (is_mirror d e)
unfolding soulmirror_tier
tier-is_mirror d e = ground arith

entry-IsEntryFault :
    (d : Design) (o : Option (ℕ × Item)) (x : MirrorError)
    → check_entry d o ≡ err x
    → IsEntryFault d o x
unfolding check_entry
entry-IsEntryFault d none x = λ h. inl (refl, sym (err_injective h))
entry-IsEntryFault d (some (k, e)) x =
    let P : Result MirrorError (ℕ × (ℕ × ℕ)) → Type 0 =
      λ r. r ≡ err x → IsEntryFault d (some (k, e)) x in
    by_test P (attr_of e.attr).lock _ _
      (λ held h. inr (k, e, refl, inl (held, sym (err_injective h))))
      (λ free.
        by_test P ((soulmirror_tier d e).1 == 0) _ _
          (λ other h. inr (
            k,
            e,
            refl,
            inr (
              free,
              (let same = tier-is_mirror d e in ground (arith, other, same)),
              sym (err_injective h),
            ),
          ))
          (λ _ h. absurd (ground arith)))

pub check_mirror-IsFaulty :
    (d : Design) (bag : Bag) (seen : List Text) (u : Text) (s : State) (x : MirrorError)
    → bag_of storage_soulfrag s ≡ without seen bag
    → check_mirror d seen u s ≡ err x
    → IsFaulty d bag (mem u seen) u x
unfolding check_mirror
check_mirror-IsFaulty d bag seen u s x left =
    by_test (λ (r : Result MirrorError (ℕ × (ℕ × ℕ))). r ≡ err x → IsFaulty d bag (mem u seen) u x)
      (mem u seen) _ _ (λ twice h. inl (twice, sym (err_injective h)))
      (λ new h. inr (
        new,
        subst (λ o. IsEntryFault d o x) (ap (find_rune u) left ∙ find_rune-without u seen bag new)
            (entry-IsEntryFault d (find_soulmirror u s) x h),
      ))

-- What a passed check says of the entry found.
pub record IsChecked (d : Design) (o : Option (ℕ × Item)) (sid item amount : ℕ) : Type 0 where
  pub entry : Item
  pub found : o ≡ some (sid, entry)
  pub free : (attr_of entry.attr).lock ≡ false
  pub kind : is_mirror d entry ≡ true
  pub refund :
      soulmirror_refund d
        (soulmirror_tier d entry).0
        (soulmirror_tier d entry).1
        (attr_of entry.attr).level
      ≡ (item, amount)

check_entry-IsChecked :
    (d : Design) (o : Option (ℕ × Item)) (sid item amount : ℕ)
    → check_entry d o ≡ ok (sid, (item, amount))
    → IsChecked d o sid item amount
unfolding check_entry
check_entry-IsChecked d none sid item amount = λ h. absurd (ground arith)
check_entry-IsChecked d (some (k, e)) sid item amount =
    let P : Result MirrorError (ℕ × (ℕ × ℕ)) → Type 0 =
      λ r. r ≡ ok (sid, (item, amount)) → IsChecked d (some (k, e)) sid item amount in
    by_test P (attr_of e.attr).lock _ _ (λ _ h. absurd (ground arith))
      (λ free.
        by_test P ((soulmirror_tier d e).1 == 0) _ _ (λ _ h. absurd (ground arith))
          (λ some_kind h.
            let p = ok_injective h in
            let same = tier-is_mirror d e in
            record {
              entry = e;
              found = ap (λ q. some (q.0, e)) p;
              free = free;
              kind = ground (arith, some_kind, same);
              refund = ap (λ q. q.1) p;
            }))

pub check_mirror-IsChecked :
    (d : Design) (seen : List Text) (u : Text) (s : State) (sid item amount : ℕ)
    → check_mirror d seen u s ≡ ok (sid, (item, amount))
    → (mem u seen ≡ false) × IsChecked d (find_soulmirror u s) sid item amount
unfolding check_mirror
check_mirror-IsChecked d seen u s sid item amount =
    by_test
      (λ (r : Result MirrorError (ℕ × (ℕ × ℕ))).
        r ≡ ok (sid, (item, amount))
        → (mem u seen ≡ false) × IsChecked d (find_soulmirror u s) sid item amount)
      (mem u seen) _ _ (λ _ h. absurd (ground arith))
      (λ new h. (new, check_entry-IsChecked d (find_soulmirror u s) sid item amount h))
