-- ===== src/Player/Feeding/Consuming.antt =====
-- Deleting the materials of a request and charging for them.
use sevensins_server.Prelude.{
  ℕ, ◌≡◌, ◌∙◌, refl, ap, subst, inl, inr, Text, none, List, [], ◌∷◌, Bool, true, false, ◌||◌, ◌&&◌,
  Bool-cases, Dict, IsDict, lookup, lookup_or-insert_self, contains, erase, lookup-erase_ne,
  lookup-erase_self, erase-IsDict, text_eq, text_beq, text_beq_iff, nat_eq, Result, ok, err, ℤ, pos,
  ◌+ℤ◌, ◌-ℤ◌, arith, int_laws,
}
use sevensins_server.Player.Types.{Cast, State}
use sevensins_server.Player.Equips.{mem}
use sevensins_server.Player.Casts.{currency_coin, coins}
use sevensins_server.Player.Feeding.{delete_casts, consume}

-- Does a uid stand in the list twice?
pub repeats : List Text → Bool
repeats [] = false
repeats (m ∷ ms) = mem m ms || repeats ms

unfoldable pub all_present : List Text → Dict Text Cast → Bool
all_present [] r = true
all_present (m ∷ ms) r = contains m r && all_present ms r

contains-erase_ne :
    (k u : Text) (r : Dict Text Cast) → text_beq k u ≡ false → contains u (erase k r) ≡ contains u r
contains-erase_ne k u r h = ground (arith, lookup-erase_ne k u r)

all_present-erase :
    (k : Text) (ms : List Text) (r : Dict Text Cast)
    → mem k ms ≡ false
    → all_present ms (erase k r) ≡ all_present ms r
unfolding all_present mem
all_present-erase k [] r h = refl
all_present-erase k (m ∷ ms) r h =
    let other : text_beq k m ≡ false = ground (arith, text_beq_iff k m, text_beq_iff m k) in
    rw (contains-erase_ne k m r other, all_present-erase k ms r (ground arith))

-- The roster without the casts of a list, and nothing else changed.
pub record IsWithout (ms : List Text) (s t : State) : Type 0 where
  pub frame : t ≡ record s { roster = t.roster }
  pub gone : (u : Text) → mem u ms ≡ true → lookup u t.roster ≡ none
  pub kept : (u : Text) → mem u ms ≡ false → lookup u t.roster ≡ lookup u s.roster

deleted_once :
    (ms : List Text) (s : State)
    → IsDict s.roster
    → all_present ms s.roster ≡ true
    → repeats ms ≡ false
    → ((delete_casts ms s).0 ≡ ok tt) × IsWithout ms s (delete_casts ms s).1
unfolding delete_casts all_present repeats mem
deleted_once [] s dict all once =
    (refl, record { frame = refl; gone = λ u h. absurd (ground arith); kept = λ u _. refl })
deleted_once (m ∷ ms) s dict all once =
    let u = record s { roster = erase m s.roster } in
    let here : contains m s.roster ≡ true = ground arith in
    let (fine, rest) =
      deleted_once ms u (erase-IsDict m s.roster dict)
        (all_present-erase m ms s.roster (ground arith) ∙ ground arith) (ground arith) in
    let cleared = rest.kept m (ground arith) ∙ lookup-erase_self m s.roster dict in
    rw here (
      fine,
      record {
        frame = rest.frame;
        gone = λ v h. elim (Bool-cases (text_beq m v)) [
          | inl same ↦
              subst (λ w. lookup w (delete_casts ms u).1.roster ≡ none) ((text_beq_iff m v).0 same)
                cleared
          | inr other ↦ rest.gone v (ground arith)
        ];
        kept = λ v h. rest.kept v (ground arith) ∙ lookup-erase_ne m v s.roster (ground arith);
      },
    )

-- What a `del` that raises leaves: casts are gone, all of the list.
pub record IsRaised {A : Type 0} (ms : List Text) (s : State) (r : Result Text A × State)
    : Type 0 where
  pub raised : (k : Text) × (mem k ms ≡ true) × (r.0 ≡ err k)
  pub frame : r.1 ≡ record s { roster = r.1.roster }
  pub kept : (u : Text) → mem u ms ≡ false → lookup u r.1.roster ≡ lookup u s.roster

IsRaised-later :
    (m : Text) (ms : List Text) (s : State)
    → contains m s.roster ≡ true
    → IsRaised ms
        (record s { roster = erase m s.roster })
        (delete_casts ms (record s { roster = erase m s.roster }))
    → IsRaised (m ∷ ms) s (delete_casts (m ∷ ms) s)
unfolding delete_casts mem
IsRaised-later m ms s here rest =
    let (k, at, is) = rest.raised in
    rw here (record {
      raised = (k, ground arith, is);
      frame = rest.frame;
      kept = λ v h. rest.kept v (ground arith) ∙ lookup-erase_ne m v s.roster (ground arith);
    })

IsRaised-now :
    (m : Text) (ms : List Text) (s : State)
    → contains m s.roster ≡ false
    → IsRaised (m ∷ ms) s (delete_casts (m ∷ ms) s)
unfolding delete_casts mem
IsRaised-now m ms s absent = rw absent (record {
  raised = (m, ground (arith, text_beq_iff m m), refl);
  frame = refl;
  kept = λ v h. refl;
})

contains-erase_self : (k : Text) (r : Dict Text Cast) → IsDict r → contains k (erase k r) ≡ false
contains-erase_self k r dict = ground (arith, lookup-erase_self k r dict)

missing_raises :
    (k : Text) (ms : List Text) (s : State)
    → mem k ms ≡ true
    → contains k s.roster ≡ false
    → IsRaised ms s (delete_casts ms s)
unfolding mem
missing_raises k [] s at absent = absurd (ground arith)
missing_raises k (m ∷ ms) s at absent = elim (Bool-cases (contains m s.roster)) [
  | inl here ↦
      let other : text_beq m k ≡ false = ground (arith, text_beq_iff m k) in
      IsRaised-later m ms s here
        (missing_raises k ms _ (ground arith) (contains-erase_ne m k s.roster other ∙ absent))
  | inr gone ↦ IsRaised-now m ms s gone
]

pub repeated_raises :
    (ms : List Text) (s : State)
    → IsDict s.roster
    → repeats ms ≡ true
    → IsRaised ms s (delete_casts ms s)
unfolding repeats
repeated_raises [] s dict twice = absurd (ground arith)
repeated_raises (m ∷ ms) s dict twice = elim (Bool-cases (contains m s.roster)) [
  | inr gone ↦ IsRaised-now m ms s gone
  | inl here ↦ IsRaised-later m ms s here (elim (Bool-cases (mem m ms)) [
    | inl again ↦ missing_raises m ms _ again (contains-erase_self m s.roster dict)
    | inr once ↦ repeated_raises ms _ (erase-IsDict m s.roster dict) (ground arith)
  ])
]

sub_add : (x y : ℤ) → x -ℤ y +ℤ y ≡ x
sub_add x y = omega int_laws

-- A list that repeats raises before the coins are charged; another is deleted and charged.
pub consume-repeated :
    {A : Type 0} (ms : List Text) (cost : ℕ) (a : A) (s : State)
    → IsDict s.roster
    → repeats ms ≡ true
    → IsRaised ms s (consume ms cost a s)
unfolding consume
consume-repeated ms cost a s dict twice =
    let r = repeated_raises ms s dict twice in
    let (k, at, is) = r.raised in
    rw (is, consume) (record { raised = (k, at, refl); frame = r.frame; kept = r.kept })

pub record IsConsumed (ms : List Text) (cost : ℕ) (s t : State) : Type 0 where
  pub coins_spent : coins t +ℤ pos cost ≡ coins s
  pub gone : (u : Text) → mem u ms ≡ true → lookup u t.roster ≡ none
  pub kept : (u : Text) → mem u ms ≡ false → lookup u t.roster ≡ lookup u s.roster
  pub teams : t.formations ≡ s.formations

pub consume-once :
    {A : Type 0} (ms : List Text) (cost : ℕ) (a : A) (s : State)
    → IsDict s.roster
    → all_present ms s.roster ≡ true
    → repeats ms ≡ false
    → ((consume ms cost a s).0 ≡ ok a) × IsConsumed ms cost s (consume ms cost a s).1
unfolding consume
consume-once ms cost a s dict all once =
    let (fine, without) = deleted_once ms s dict all once in
    let t = (delete_casts ms s).1 in
    rw (fine, consume)
      (
        refl,
        record {
          coins_spent =
              rw (lookup_or-insert_self currency_coin (coins t -ℤ pos cost) (pos 0) t.currency)
                (sub_add (coins t) (pos cost) ∙ ap (λ (w : State). coins w) without.frame);
          gone = without.gone;
          kept = without.kept;
          teams = ap (λ (w : State). w.formations) without.frame;
        },
      )
