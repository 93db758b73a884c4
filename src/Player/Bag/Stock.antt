-- ===== src/Player/Bag/Stock.antt =====
-- `spend_item` and its loop over the stacks of an item.
use sevensins_server.Prelude.{
  ℕ, ◌≡◌, ◌≢◌, ◌⊎◌, refl, inl, inr, [], ◌∷◌, true, false, lookup_or-insert_self, ap, nat_eq,
  if◌then◌else◌, ℤ, pos, ◌+ℤ◌, ◌-ℤ◌, ◌≤ℤ◌, ◌<ℤ◌, min_ℤ, leb_ℤ, ltb_ℤ, leb_ℤ-cases, ltb_ℤ-cases,
  int_laws, arith,
}
use sevensins_server.Player.Types.{Item, Bag, State}
use sevensins_server.Player.Bag.{bag_of, put_bag, count_in, item_count, drain, spend_item}

-- An item id of its own.
drain-others :
    (iid j : ℕ) (left : ℤ) (bag : Bag) → j ≢ iid → count_in j (drain iid left bag) ≡ count_in j bag
unfolding drain count_in
drain-others iid j left [] h = refl
drain-others iid j left ((slot, e) ∷ bag) h =
    ground
      (arith, drain-others iid j left bag h, drain-others iid j (left -ℤ min_ℤ e.amount left) bag h)

module _ (iid slot : ℕ) (e : Item) (bag : Bag) where
  count-cons : e.iid ≡ iid → count_in iid ((slot, e) ∷ bag) ≡ e.amount +ℤ count_in iid bag
  unfolding count_in
  count-cons same = ground arith

  count-cons_ne : e.iid ≢ iid → count_in iid ((slot, e) ∷ bag) ≡ count_in iid bag
  unfolding count_in
  count-cons_ne other = ground arith

-- One round of the loop, by how it branches.
module _ (iid : ℕ) (left : ℤ) (slot : ℕ) (e : Item) (bag : Bag) where
  drain_done : left ≤ℤ pos 0 → drain iid left ((slot, e) ∷ bag) ≡ (slot, e) ∷ bag
  unfolding drain
  drain_done h = ground arith

  drain_other :
      pos 1 ≤ℤ left
      → e.iid ≢ iid
      → drain iid left ((slot, e) ∷ bag) ≡ (slot, e) ∷ drain iid left bag
  unfolding drain
  drain_other p h = ground arith

  drain_empty :
      pos 1 ≤ℤ left
      → e.iid ≡ iid
      → e.amount ≤ℤ left
      → drain iid left ((slot, e) ∷ bag) ≡ drain iid (left -ℤ e.amount) bag
  unfolding drain
  drain_empty p h k =
      let none_left : e.amount -ℤ e.amount ≡ pos 0 = omega int_laws in ground (arith, none_left)

  drain_part :
      pos 1 ≤ℤ left
      → e.iid ≡ iid
      → left <ℤ e.amount
      → drain iid left ((slot, e) ∷ bag)
        ≡ (slot, record e { amount = e.amount -ℤ left }) ∷ drain iid (left -ℤ left) bag
  unfolding drain
  drain_part p h k =
      let some_left : pos 1 ≤ℤ (e.amount -ℤ left) = omega int_laws in ground (arith, some_left)

drain_zero : (iid : ℕ) (left : ℤ) (bag : Bag) → left ≤ℤ pos 0 → drain iid left bag ≡ bag
drain_zero iid left [] h = unfold drain in refl
drain_zero iid left ((slot, e) ∷ bag) h = drain_done iid left slot e bag h

ℕ-cases : (a b : ℕ) → (a ≡ b) ⊎ (a ≢ b)
ℕ-cases a b = ground arith

-- The loop takes exactly what it was asked for, if the stacks hold as much.
drain-count :
    (iid : ℕ) (left : ℤ) (bag : Bag)
    → pos 0 ≤ℤ left
    → left ≤ℤ count_in iid bag
    → count_in iid (drain iid left bag) +ℤ left ≡ count_in iid bag
drain-count iid left [] p h = unfold drain count_in in omega int_laws
drain-count iid left ((slot, e) ∷ bag) p h = elim (leb_ℤ-cases left (pos 0)) [
  | inl (_, done) ↦ rw (drain_done iid left slot e bag done) (omega int_laws)
  | inr (_, more) ↦ elim (ℕ-cases e.iid iid) [
    | inr other ↦
        let same = count-cons_ne iid slot e bag other in
        rw
          (
            drain_other iid left slot e bag (omega arith) other,
            count-cons_ne iid slot e (drain iid left bag) other,
            same,
          )
          (drain-count iid left bag p (rw same at h))
    | inl same ↦
        let sum = count-cons iid slot e bag same in
        elim (leb_ℤ-cases e.amount left) [
          | inl (_, whole) ↦
              rw (drain_empty iid left slot e bag (omega arith) same whole, sum)
                (let h' = rw sum at h in
                  rw (← drain-count iid (left -ℤ e.amount) bag (omega int_laws) (omega int_laws))
                    (omega int_laws))
          | inr (_, part) ↦
              rw
                (
                  drain_part iid left slot e bag (omega arith) same part,
                  drain_zero iid (left -ℤ left) bag (omega int_laws),
                  count-cons iid slot (record e { amount = e.amount -ℤ left }) bag same,
                  sum,
                )
                (omega int_laws)
        ]
  ]
]

count-put :
    (j storage : ℕ) (bag : Bag) (s : State)
    → item_count storage j (put_bag storage bag s) ≡ count_in j bag
unfolding item_count
count-put j storage bag s = ap (count_in j) (lookup_or-insert_self storage bag [] s.backpack)

module _ (iid storage : ℕ) (amount : ℤ) (s : State) (p : pos 1 ≤ℤ amount) where
  spend-short :
      ltb_ℤ (item_count storage iid s) amount ≡ true → spend_item iid amount storage s ≡ (false, s)
  unfolding spend_item item_count
  spend-short test =
      let positive : leb_ℤ amount (pos 0) ≡ false = ground arith in rw (positive, test)

  spend-done :
      ltb_ℤ (item_count storage iid s) amount ≡ false
      → spend_item iid amount storage s
        ≡ (true, put_bag storage (drain iid amount (bag_of storage s)) s)
  unfolding spend_item item_count
  spend-done test =
      let positive : leb_ℤ amount (pos 0) ≡ false = ground arith in rw (positive, test)

-- Spending a positive amount succeeds exactly when the stacks of the item hold as much together.
-- Then the count of the item falls by the amount and that of no other item changes; otherwise the
-- account is left as it was.
pub spend_item_lem :
    (iid storage : ℕ) (amount : ℤ) (s : State)
    → pos 1 ≤ℤ amount
    → let (done, t) = spend_item iid amount storage s in
      if ltb_ℤ (item_count storage iid s) amount
      then (done ≡ false) × (t ≡ s)
      else (done ≡ true)
        × (item_count storage iid t +ℤ amount ≡ item_count storage iid s)
        × ((j : ℕ) → j ≢ iid → item_count storage j t ≡ item_count storage j s)
spend_item_lem iid storage amount s p = elim (ltb_ℤ-cases (item_count storage iid s) amount) [
  | inl (test, short) ↦ rw (test, spend-short iid storage amount s p test) (refl, refl)
  | inr (test, enough) ↦
      rw (test, spend-done iid storage amount s p test)
        (
          refl,
          rw count-put
              (unfold item_count in drain-count iid amount (bag_of storage s) (omega arith) enough),
          λ j other.
              rw count-put
                (unfold item_count in drain-others iid j amount (bag_of storage s) other),
        )
]
