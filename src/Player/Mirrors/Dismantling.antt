-- ===== src/Player/Mirrors/Dismantling.antt =====
-- What `dismantle_soulmirrors` takes and pays.
use sevensins_server.Prelude.{
  ℕ, zero, suc, ◌≡◌, ◌⊎◌, refl, sym, subst, ap, ◌∙◌, inl, inr, Text, List, [], ◌∷◌, ◌++◌, All, Dict,
  lookup_or-insert, lookup_or-insert_self, nat_eq, ℤ, pos, negsuc, Result, ok, err,
}
use sevensins_server.Player.Types.{Design, Bag, State}
use sevensins_server.Player.Bag.{bag_of, grant_in, grant_item, storage_normal}
use sevensins_server.Player.Equips.{mem}
use sevensins_server.Player.Teams.{add_gains}
use sevensins_server.Player.Gear.Granting.{storage_soulfrag}
use sevensins_server.Player.Gear.Stored.{IsStored}
use sevensins_server.Player.Mirrors.{
  MirrorError, Dismantled, dismantle_rows, grant_refunds, paid_out, dismantle_soulmirrors,
}
use sevensins_server.Player.Mirrors.Without.{without, mem-pushed_none, without-pushed, without-none}
use sevensins_server.Player.Mirrors.Checks.{IsFree, IsFaulty}
use sevensins_server.Player.Mirrors.Loop.{refunds, mirrors, IsOnce, rows-outcome}

-- The bag after these amounts: an amount of 0 makes no stack.
abbrev pub granted : Dict ℕ ℤ → Bag → Bag
granted [] bag = bag
granted ((item, pos zero) ∷ items) bag = granted items bag
granted ((item, pos (suc n)) ∷ items) bag = granted items (grant_in item (pos (suc n)) bag).1
granted ((item, negsuc n) ∷ items) bag = granted items (grant_in item (negsuc n) bag).1

granted_one :
    (item : ℕ) (n : ℤ) (s : State)
    → let t = (grant_item item n storage_normal s).1 in
      (bag_of storage_normal t ≡ (grant_in item n (bag_of storage_normal s)).1)
      × (mirrors t ≡ mirrors s)
unfolding grant_item
granted_one item n s =
    let bag = (grant_in item n (bag_of storage_normal s)).1 in
    (
      lookup_or-insert_self storage_normal bag [] s.backpack,
      lookup_or-insert storage_normal storage_soulfrag bag [] s.backpack,
    )

grant_refunds_lem :
    (items : Dict ℕ ℤ) (s : State)
    → (bag_of storage_normal (grant_refunds items s) ≡ granted items (bag_of storage_normal s))
      × (mirrors (grant_refunds items s) ≡ mirrors s)
unfolding grant_refunds grant_item
grant_refunds_lem [] s = (refl, refl)
grant_refunds_lem ((item, pos zero) ∷ items) s = grant_refunds_lem items s
grant_refunds_lem ((item, pos (suc n)) ∷ items) s =
    let t = (grant_item item (pos (suc n)) storage_normal s).1 in
    let (paid, kept) = grant_refunds_lem items t in
    let (here, apart) = granted_one item (pos (suc n)) s in
    (paid ∙ ap (granted items) here, kept ∙ apart)
grant_refunds_lem ((item, negsuc n) ∷ items) s =
    let t = (grant_item item (negsuc n) storage_normal s).1 in
    let (paid, kept) = grant_refunds_lem items t in
    let (here, apart) = granted_one item (negsuc n) s in
    (paid ∙ ap (granted items) here, kept ∙ apart)

-- What a request to dismantle leads to.
pub record IsRefused (d : Design) (x : MirrorError) (uids : List Text) (s t : State) : Type 0 where
  pub before : List Text
  pub bad : Text
  pub rest : List Text
  pub split : uids ≡ before ++ (bad ∷ rest)
  pub free : All (IsFree d (mirrors s)) before
  pub once : IsOnce [] before
  pub fault : IsFaulty d (mirrors s) (mem bad before) bad x
  pub gone : mirrors t ≡ without before (mirrors s)
  pub unpaid : bag_of storage_normal t ≡ bag_of storage_normal s

pub record IsDismantled (d : Design) (uids : List Text) (done : Dismantled) (s t : State)
    : Type 0 where
  pub gone : mirrors t ≡ without uids (mirrors s)
  pub gains : done.per_item ≡ add_gains (refunds d uids (mirrors s)) []
  pub paid : bag_of storage_normal t ≡ granted done.per_item (bag_of storage_normal s)
  pub free : All (IsFree d (mirrors s)) uids
  pub once : IsOnce [] uids

abbrev pub DismantleOutcome :
    Design → List Text → State → Result MirrorError Dismantled × State → Type 0
DismantleOutcome d uids s r =
    ((x : MirrorError) × (r.0 ≡ err x) × IsRefused d x uids s r.1)
    ⊎ ((done : Dismantled) × (r.0 ≡ ok done) × IsDismantled d uids done s r.1)

-- Where no two soulmirrors share a slot or a uid, a request to dismantle either is done: every uid
-- is named once and is that of a mirror that is not locked, exactly these mirrors are gone, and the
-- bag has the refund of each; or it is refused at the first uid that is named twice, that no entry
-- has, whose entry is locked, or whose entry is no soulmirror, with the error for that: the uids
-- before it are named once and of mirrors that are not locked, these mirrors are gone all the same,
-- and the bag has nothing for them.
pub dismantle_soulmirrors-outcome :
    (d : Design) (uids : List Text) (s : State)
    → IsStored (mirrors s)
    → DismantleOutcome d uids s (dismantle_soulmirrors d uids s)
unfolding dismantle_soulmirrors paid_out
dismantle_soulmirrors-outcome d uids s stored =
    let none_yet : Dismantled = record { per_item = []; removed = []; affected = [] } in
    let bag = mirrors s in
    elim (rows-outcome d bag stored uids [] none_yet s (sym (without-none bag))) [
      | inl (x, raised, stopped) ↦
          rw (raised, paid_out)
            (inl (
              x,
              refl,
              record {
                before = stopped.before;
                bad = stopped.bad;
                rest = stopped.rest;
                split = stopped.split;
                free = stopped.free;
                once = stopped.once;
                fault =
                    subst (λ b. IsFaulty d bag b stopped.bad x)
                      (mem-pushed_none stopped.bad stopped.before) stopped.fault;
                gone = stopped.gone ∙ without-pushed stopped.before bag;
                unpaid = stopped.unpaid;
              },
            ))
      | inr (done, finished, f) ↦
          let (paid, kept) =
            grant_refunds_lem done.per_item (dismantle_rows d [] none_yet uids s).1 in
          rw (finished, paid_out)
            (inr (
              done,
              refl,
              record {
                gone = kept ∙ f.gone ∙ without-pushed uids bag;
                gains = f.gains;
                paid = paid ∙ ap (granted done.per_item) f.unpaid;
                free = f.free;
                once = f.once;
              },
            ))
    ]
