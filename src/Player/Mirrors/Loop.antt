-- ===== src/Player/Mirrors/Loop.antt =====
-- The loop of `dismantle_soulmirrors` over the uids.
use sevensins_server.Prelude.{
  ℕ, ◌≡◌, ◌⊎◌, refl, sym, ap, ◌∙◌, inl, inr, Text, some, none, List, [], ◌∷◌, ◌++◌, false, All,
  lookup_or-insert, lookup_or-insert_self, erase, nat_eq, ℤ, pos, Result, Result-cases, ok, err,
}
use sevensins_server.Player.Types.{Design, Item, Bag, State}
use sevensins_server.Player.Bag.{bag_of, storage_normal}
use sevensins_server.Player.Equips.{mem, unequip_everywhere}
use sevensins_server.Player.Teams.{add_gains}
use sevensins_server.Player.Gear.Granting.{storage_soulfrag}
use sevensins_server.Player.Gear.Stored.{IsStored}
use sevensins_server.Player.Runes.{find_rune, attr_of}
use sevensins_server.Player.Mirrors.{
  soulmirror_tier, soulmirror_refund, MirrorError, Dismantled, check_mirror, take_apart, noted,
  dismantle_rows,
}
use sevensins_server.Player.Mirrors.Without.{
  without, pushed, erase-without, without-cons, find_rune-without, without-IsStored,
}
use sevensins_server.Player.Mirrors.Checks.{
  IsFree, IsFaulty, check_mirror-IsFaulty, check_mirror-IsChecked,
}

-- What a bag gives back for these uids.
abbrev pub refunds : Design → List Text → Bag → List (ℕ × ℤ)
refunds d [] bag = []
refunds d (uid ∷ uids) bag = elim (find_rune uid bag) [
  | none ↦ refunds d uids bag
  | some (sid, e) ↦
      let (rarity, sf_type) = soulmirror_tier d e in
      let (item, amount) = soulmirror_refund d rarity sf_type (attr_of e.attr).level in
      (item, pos amount) ∷ refunds d uids bag
]

-- Storage 3.
abbrev pub mirrors : State → Bag
mirrors s = bag_of storage_soulfrag s

take_apart-mirrors :
    (u : Text) (sid : ℕ) (s : State) → mirrors (take_apart u sid s).1 ≡ erase sid (mirrors s)
unfolding take_apart unequip_everywhere
take_apart-mirrors u sid s =
    lookup_or-insert_self storage_soulfrag (erase sid (mirrors s)) [] s.backpack

take_apart-normal :
    (u : Text) (sid : ℕ) (s : State)
    → bag_of storage_normal (take_apart u sid s).1 ≡ bag_of storage_normal s
unfolding take_apart unequip_everywhere
take_apart-normal u sid s =
    lookup_or-insert storage_soulfrag storage_normal (erase sid (mirrors s)) [] s.backpack

-- No uid twice, and none of the ones seen.
abbrev pub IsOnce : List Text → List Text → Type 0
IsOnce seen [] = Unit
IsOnce seen (u ∷ us) = (mem u seen ≡ false) × IsOnce (u ∷ seen) us

-- The loop ended before a uid that fails, and the ones before it did not: what it took until then
-- is gone.
pub record IsStopped (d : Design) (bag : Bag) (x : MirrorError) (uids seen : List Text)
    (s t : State) : Type 0 where
  pub before : List Text
  pub bad : Text
  pub rest : List Text
  pub split : uids ≡ before ++ (bad ∷ rest)
  pub free : All (IsFree d bag) before
  pub once : IsOnce seen before
  pub fault : IsFaulty d bag (mem bad (pushed before seen)) bad x
  pub gone : mirrors t ≡ without (pushed before seen) bag
  pub unpaid : bag_of storage_normal t ≡ bag_of storage_normal s

pub record IsFinished (d : Design) (bag : Bag) (uids seen : List Text) (acc done : Dismantled)
    (s t : State) : Type 0 where
  pub gone : mirrors t ≡ without (pushed uids seen) bag
  pub unpaid : bag_of storage_normal t ≡ bag_of storage_normal s
  pub gains : done.per_item ≡ add_gains (refunds d uids bag) acc.per_item
  pub free : All (IsFree d bag) uids
  pub once : IsOnce seen uids

module _ (d : Design) (bag : Bag) (stored : IsStored bag) where
  abbrev LoopOutcome :
      List Text → List Text → Dismantled → State → Result MirrorError Dismantled × State → Type 0
  LoopOutcome uids seen acc s r =
      ((x : MirrorError) × (r.0 ≡ err x) × IsStopped d bag x uids seen s r.1)
      ⊎ ((done : Dismantled) × (r.0 ≡ ok done) × IsFinished d bag uids seen acc done s r.1)

  refunds-cons :
      (u : Text) (us : List Text) (sid item amount : ℕ) (e : Item)
      → find_rune u bag ≡ some (sid, e)
      → soulmirror_refund d (soulmirror_tier d e).0 (soulmirror_tier d e).1 (attr_of e.attr).level
        ≡ (item, amount)
      → refunds d (u ∷ us) bag ≡ (item, pos amount) ∷ refunds d us bag
  refunds-cons u us sid item amount e found refund =
      rw (found, refunds) (ap (λ (q : ℕ × ℕ). (q.0, pos q.1) ∷ refunds d us bag) refund)

  pub rows-outcome :
      (uids seen : List Text) (acc : Dismantled) (s : State)
      → mirrors s ≡ without seen bag
      → LoopOutcome uids seen acc s (dismantle_rows d seen acc uids s)
  unfolding dismantle_rows noted add_gains
  rows-outcome [] seen acc s h =
      inr (acc, refl, record { gone = h; unpaid = refl; gains = refl; free = tt; once = tt })
  rows-outcome (u ∷ uids) seen acc s h = elim (Result-cases (check_mirror d seen u s)) [
    | inl (x, raised) ↦
        rw (raised, dismantle_rows)
          (inl (
            x,
            refl,
            record {
              before = [];
              bad = u;
              rest = uids;
              split = refl;
              free = tt;
              once = tt;
              fault = check_mirror-IsFaulty d bag seen u s x h raised;
              gone = h;
              unpaid = refl;
            },
          ))
    | inr ((sid, (item, amount)), passed) ↦
        let (new, checked) = check_mirror-IsChecked d seen u s sid item amount passed in
        let e = checked.entry in
        let here : find_rune u (without seen bag) ≡ some (sid, e) =
          ap (find_rune u) (sym h) ∙ checked.found in
        let found : find_rune u bag ≡ some (sid, e) =
          sym (find_rune-without u seen bag new) ∙ here in
        let t = (take_apart u sid s).1 in
        let h' : mirrors t ≡ without (u ∷ seen) bag =
          take_apart-mirrors u sid s
          ∙ ap (erase sid) h
          ∙ erase-without u sid e (without seen bag) (without-IsStored seen bag stored) here
          ∙ without-cons u seen bag in
        let acc1 = noted (sid, (item, amount)) (take_apart u sid s).0 acc in
        rw (passed, dismantle_rows)
          (elim (rows-outcome uids (u ∷ seen) acc1 t h') [
            | inl (x, raised, stopped) ↦ inl (
              x,
              raised,
              record {
                before = u ∷ stopped.before;
                bad = stopped.bad;
                rest = stopped.rest;
                split = ap (λ us. u ∷ us) stopped.split;
                free = ((sid, e, found, checked.free, checked.kind), stopped.free);
                once = (new, stopped.once);
                fault = stopped.fault;
                gone = stopped.gone;
                unpaid = stopped.unpaid ∙ take_apart-normal u sid s;
              },
            )
            | inr (done, finished, f) ↦ inr (
              done,
              finished,
              record {
                gone = f.gone;
                unpaid = f.unpaid ∙ take_apart-normal u sid s;
                gains =
                    f.gains
                    ∙ ap (λ rs. add_gains rs acc.per_item)
                        (sym (refunds-cons u uids sid item amount e found checked.refund));
                free = ((sid, e, found, checked.free, checked.kind), f.free);
                once = (new, f.once);
              },
            )
          ])
  ]
