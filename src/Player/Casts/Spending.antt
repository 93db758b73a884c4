-- ===== src/Player/Casts/Spending.antt =====
-- Spending several different items at once, as level training and gifts do.
use sevensins_server.Prelude.{
  ℕ, ◌≡◌, ◌≢◌, ◌⊎◌, ◌∙◌, sym, ap, refl, inl, inr, List, [], ◌∷◌, true, false, Bool-cases, IsDict,
  lookup, lookup_or, nat_eq, nat_beq_iff, none, ℤ, pos, ◌+ℤ◌, ◌≤ℤ◌, max_ℤ, ltb_ℤ, leb_ℤ-cases,
  arith, int_laws,
}
use sevensins_server.Player.Types.{State}
use sevensins_server.Player.Bag.{bag_of, count_in, storage_normal, item_count, has_item, spend_item}
use sevensins_server.Player.Bag.Stock.{spend_item_lem}
use sevensins_server.Player.Casts.{all_held, spend_all}

-- What a request for an amount takes: a negative one takes nothing.
abbrev pub taken : ℤ → ℤ
taken n = max_ℤ (pos 0) n

spend_none :
    (item : ℕ) (n : ℤ) (storage : ℕ) (s : State)
    → n ≤ℤ pos 0
    → spend_item item n storage s ≡ (true, s)
unfolding spend_item
spend_none item n storage s h = ground arith

-- One item that is held is spent.
pub spend-held :
    (item : ℕ) (n : ℤ) (s : State)
    → has_item item n s ≡ true
    → let t = (spend_item item n storage_normal s).1 in
      (item_count storage_normal item t +ℤ taken n ≡ item_count storage_normal item s)
      × ((j : ℕ) → j ≢ item → item_count storage_normal j t ≡ item_count storage_normal j s)
unfolding has_item
spend-held item n s h = elim (leb_ℤ-cases n (pos 0)) [
  | inl (_, none_asked) ↦
      let zero_taken : taken n ≡ pos 0 = ground arith in
      rw (spend_none item n storage_normal s none_asked, zero_taken)
        (omega int_laws, λ j other. refl)
  | inr (_, asked) ↦
      let all_taken : taken n ≡ n = ground arith in
      let enough : ltb_ℤ (item_count storage_normal item s) n ≡ false = ground arith in
      let (_, count, others) =
        rw enough at (spend_item_lem item storage_normal n s (omega arith)) in
      (rw all_taken count, others)
]

-- What the items of a request are asked for together.
abbrev pub asked_of : ℕ → List (ℕ × ℤ) → ℤ
asked_of j items = lookup_or j (pos 0) items

nat_cases : (a b : ℕ) → (a ≡ b) ⊎ (a ≢ b)
nat_cases a b = ground arith

add_zero : (x y : ℤ) → y ≡ pos 0 → x +ℤ y ≡ x
add_zero x y h = rw h (omega int_laws)

pub held_congr :
    (s t : State) (items : List (ℕ × ℤ)) (item : ℕ)
    → lookup item items ≡ none
    → ((j : ℕ) → j ≢ item → item_count storage_normal j t ≡ item_count storage_normal j s)
    → all_held items t ≡ all_held items s
unfolding all_held has_item
held_congr s t [] item h same = refl
held_congr s t ((i, n) ∷ items) item h same =
    let other : i ≢ item = ground (arith, nat_beq_iff i item) in
    let rest : lookup item items ≡ none = ground arith in
    rw (same i other, held_congr s t items item rest same)

asked-cons_self : (item : ℕ) (n : ℤ) (items : List (ℕ × ℤ)) → asked_of item ((item, n) ∷ items) ≡ n
asked-cons_self item n items = ground arith

asked-cons_ne :
    (j item : ℕ) (n : ℤ) (items : List (ℕ × ℤ))
    → j ≢ item
    → asked_of j ((item, n) ∷ items) ≡ asked_of j items
asked-cons_ne j item n items h = ground (arith, nat_beq_iff item j)

asked-absent :
    (j : ℕ) (items : List (ℕ × ℤ)) → lookup j items ≡ none → taken (asked_of j items) ≡ pos 0
asked-absent j items h = ground arith

-- Of different items that are all held, each count falls by what was asked of it.
pub spend_all_lem :
    (items : List (ℕ × ℤ)) (s : State) (j : ℕ)
    → IsDict items
    → all_held items s ≡ true
    → item_count storage_normal j (spend_all items s) +ℤ taken (asked_of j items)
      ≡ item_count storage_normal j s
unfolding spend_all all_held
spend_all_lem [] s j d h = omega int_laws
spend_all_lem ((item, n) ∷ items) s j (fresh, d) h =
    let t = (spend_item item n storage_normal s).1 in
    let held : has_item item n s ≡ true = ground arith in
    let (own, others) = spend-held item n s held in
    let held_s : all_held items s ≡ true = ground arith in
    let held_t : all_held items t ≡ true = held_congr s t items item fresh others ∙ held_s in
    let rest = spend_all_lem items t j d held_t in
    elim (nat_cases j item) [
      | inl same ↦ rw same (
          rw (asked-cons_self item n items, ← own)
            (ap (λ c. c +ℤ taken n)
              (sym (add_zero _ _ (asked-absent item items fresh)) ∙ rw same at rest)))
      | inr other ↦ rw (asked-cons_ne j item n items other, ← others j other) rest
    ]

-- Spending changes bags only.
pub spend-frame :
    (item : ℕ) (n : ℤ) (s : State)
    → let t = (spend_item item n storage_normal s).1 in t ≡ record s { backpack = t.backpack }
unfolding spend_item
spend-frame item n s = elim (leb_ℤ-cases n (pos 0)) [
  | inl (none_asked, _) ↦ rw none_asked
  | inr (asked, _) ↦ elim (Bool-cases (ltb_ℤ (count_in item (bag_of storage_normal s)) n)) [
    | inl short ↦ rw (asked, short)
    | inr enough ↦ rw (asked, enough)
  ]
]

pub spend_all-frame :
    (items : List (ℕ × ℤ)) (s : State)
    → let t = spend_all items s in t ≡ record s { backpack = t.backpack }
unfolding spend_all
spend_all-frame [] s = refl
spend_all-frame ((item, n) ∷ items) s =
    let t = (spend_item item n storage_normal s).1 in
    let u = spend_all items t in
    spend_all-frame items t
    ∙ ap (λ (x : State). record x { backpack = u.backpack }) (spend-frame item n s)

-- What is held depends on the bags only.
pub counts_congr :
    (s t : State) (j : ℕ)
    → t.backpack ≡ s.backpack
    → item_count storage_normal j t ≡ item_count storage_normal j s
unfolding item_count
counts_congr s t j h = rw h

pub all_held_congr :
    (s t : State) (items : List (ℕ × ℤ))
    → t.backpack ≡ s.backpack
    → all_held items t ≡ all_held items s
unfolding all_held has_item
all_held_congr s t [] h = refl
all_held_congr s t ((i, n) ∷ items) h = rw (counts_congr s t i h, all_held_congr s t items h)
