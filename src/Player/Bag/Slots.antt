-- ===== src/Player/Bag/Slots.antt =====
-- `grant_item` and the slots of a bag.
use sevensins_server.Prelude.{
  ℕ, ◌+◌, ◌<◌, ◌≡◌, ◌≢◌, ◌⊎◌, ◌∙◌, refl, sym, inl, inr, some, none, [], ◌∷◌, true, false,
  Bool-cases, Option-cases, lookup, insert, lookup-insert, lookup_or-insert_self, lookup_or-insert,
  ◌==◌, nat_eq, if◌then◌else◌, ℤ, pos, ◌+ℤ◌, +ℤ_comm, Text, int_laws, arith,
}
use sevensins_server.Player.Types.{Item, Bag, State}
use sevensins_server.Player.Money.{capped_balance}
use sevensins_server.Player.Bag.{bag_of, count_in, find_stack, max_slot, grant_in, grant_item}

-- No slot is used twice.
abbrev pub IsUnique : Bag → Type 0
IsUnique [] = Unit
IsUnique ((slot, e) ∷ bag) = (lookup slot bag ≡ none) × IsUnique bag

pub own : ℕ → Item → ℤ
own j e = if e.iid == j then e.amount else pos 0

find_stack-lookup :
    (iid : ℕ) (bag : Bag) (slot : ℕ) (e : Item)
    → IsUnique bag
    → find_stack iid bag ≡ some (slot, e)
    → (lookup slot bag ≡ some e) × (e.iid ≡ iid)
unfolding find_stack
find_stack-lookup iid [] slot e u h = cc
find_stack-lookup iid ((k, x) ∷ bag) slot e u h =
    ground (arith, find_stack-lookup iid bag slot e u.1)

lookup_above : (bag : Bag) (slot : ℕ) → max_slot bag < slot → lookup slot bag ≡ none
unfolding max_slot
lookup_above [] slot h = refl
lookup_above ((k, x) ∷ bag) slot h = ground (arith, lookup_above bag slot)

pub insert-IsUnique :
    (slot : ℕ) (e : Item) (bag : Bag) → IsUnique bag → IsUnique (insert slot e bag)
insert-IsUnique slot e [] u = (refl, tt)
insert-IsUnique slot e ((k, x) ∷ bag) u =
    ground (arith, insert-IsUnique slot e bag u.1, lookup-insert slot k e bag)

swap_in : (y a b x e : ℤ) → a +ℤ x ≡ b +ℤ e → y +ℤ a +ℤ x ≡ y +ℤ b +ℤ e
swap_in y a b x e h =
    let assoc = λ (p q r : ℤ). (let o : p +ℤ q +ℤ r ≡ p +ℤ (q +ℤ r) = omega int_laws in o) in
    rw (assoc y a x, h, assoc y b e)

count-cons :
    (j k : ℕ) (y : Item) (bag : Bag) → count_in j ((k, y) ∷ bag) ≡ own j y +ℤ count_in j bag
unfolding count_in own
count-cons j k y bag = elim (Bool-cases (y.iid == j)) [
  | inl same ↦ rw same
  | inr other ↦ rw other (omega int_laws)
]

insert-cons_self :
    (slot k : ℕ) (e y : Item) (bag : Bag)
    → (k == slot) ≡ true
    → insert slot e ((k, y) ∷ bag) ≡ (k, e) ∷ bag
insert-cons_self slot k e y bag h = rw h

insert-cons_ne :
    (slot k : ℕ) (e y : Item) (bag : Bag)
    → (k == slot) ≡ false
    → insert slot e ((k, y) ∷ bag) ≡ (k, y) ∷ insert slot e bag
insert-cons_ne slot k e y bag h = rw h

-- Replacing a stack, and adding one.
count-replace :
    (j slot : ℕ) (e x : Item) (bag : Bag)
    → lookup slot bag ≡ some x
    → count_in j (insert slot e bag) +ℤ own j x ≡ count_in j bag +ℤ own j e
count-replace j slot e x [] h = cc
count-replace j slot e x ((k, y) ∷ bag) h = elim (Bool-cases (k == slot)) [
  | inl here ↦
      let same : y ≡ x = ground arith in
      rw (insert-cons_self slot k e y bag here, count-cons j k e bag, count-cons j k y bag, same)
        (omega int_laws)
  | inr later ↦
      let h' : lookup slot bag ≡ some x = ground arith in
      rw
        (
          insert-cons_ne slot k e y bag later,
          count-cons j k y (insert slot e bag),
          count-cons j k y bag,
        )
        (swap_in (own j y) (count_in j (insert slot e bag)) (count_in j bag) (own j x) (own j e)
          (count-replace j slot e x bag h'))
]

pub count-add :
    (j slot : ℕ) (e : Item) (bag : Bag)
    → lookup slot bag ≡ none
    → count_in j (insert slot e bag) ≡ count_in j bag +ℤ own j e
count-add j slot e [] h = rw count-cons (+ℤ_comm (own j e) (count_in j []))
count-add j slot e ((k, y) ∷ bag) h =
    let later : (k == slot) ≡ false = ground arith in
    let h' : lookup slot bag ≡ none = ground arith in
    rw
      (
        insert-cons_ne slot k e y bag later,
        count-cons j k y (insert slot e bag),
        count-cons j k y bag,
        count-add j slot e bag h',
      )
      (omega int_laws)

-- `max((int(k) for k in bag), default=0) + 1` is a slot of its own.
pub fresh_slot : (bag : Bag) → lookup (max_slot bag + 1) bag ≡ none
fresh_slot bag = lookup_above bag (max_slot bag + 1) (omega arith)

-- Granting stores one stack: that of the item grows, up to the ceiling, or a new one in a slot of
-- its own holds exactly the amount. Every other item keeps its count, and no slot is used twice.
pub record IsGranted (iid : ℕ) (amount : ℤ) (b c : Bag) : Type 0 where
  pub unique : IsUnique c
  pub others : (j : ℕ) → j ≢ iid → count_in j c ≡ count_in j b
  pub grown :
      ((slot : ℕ) × (e : Item) × (find_stack iid b ≡ some (slot, e))
        × (count_in iid c +ℤ e.amount
            ≡ count_in iid b +ℤ capped_balance (e.amount +ℤ amount) (pos 0)))
      ⊎ ((find_stack iid b ≡ none) × (count_in iid c ≡ count_in iid b +ℤ amount))

own_self :
    (iid : ℕ) (a : ℤ) (u : Text)
    → own iid (record { iid = iid; amount = a; uid = u; attr = none }) ≡ a
unfolding own
own_self iid a u = ground arith

pub own_held : (iid : ℕ) (e : Item) → e.iid ≡ iid → own iid e ≡ e.amount
unfolding own
own_held iid e h = ground arith

pub own_ne : (j : ℕ) (e : Item) → j ≢ e.iid → own j e ≡ pos 0
unfolding own
own_ne j e h = ground arith

add_zero : (x y : ℤ) → y ≡ pos 0 → x +ℤ y ≡ x
add_zero x y h = rw h (omega int_laws)

cancel_zero : (a b x y : ℤ) → x ≡ pos 0 → y ≡ pos 0 → a +ℤ x ≡ b +ℤ y → a ≡ b
cancel_zero a b x y hx hy h = sym (add_zero a x hx) ∙ h ∙ add_zero b y hy

grant_new :
    (iid : ℕ) (amount : ℤ) (b : Bag)
    → IsUnique b
    → find_stack iid b ≡ none
    → IsGranted iid amount b (grant_in iid amount b).1
unfolding grant_in
grant_new iid amount b u h =
    let e : Item = record { iid = iid; amount = amount; uid = []; attr = none } in
    rw (h, grant_in)
      (record {
        unique = insert-IsUnique (max_slot b + 1) e b u;
        others = λ j other.
            count-add j (max_slot b + 1) e b (fresh_slot b)
            ∙ add_zero (count_in j b) (own j e) (own_ne j e other);
        grown =
            inr
              (h, count-add iid (max_slot b + 1) e b (fresh_slot b) ∙ rw (own_self iid amount []));
      })

grant_more :
    (iid : ℕ) (amount : ℤ) (b : Bag) (slot : ℕ) (x : Item)
    → IsUnique b
    → find_stack iid b ≡ some (slot, x)
    → IsGranted iid amount b (grant_in iid amount b).1
unfolding grant_in
grant_more iid amount b slot x u h =
    let e : Item = record x { amount = capped_balance (x.amount +ℤ amount) (pos 0) } in
    let (at, same) = find_stack-lookup iid b slot x u h in
    rw (h, grant_in)
      (record {
        unique = insert-IsUnique slot e b u;
        others = λ j other.
            cancel_zero (count_in j (insert slot e b)) (count_in j b) (own j x) (own j e)
              (own_ne j x (rw same other)) (own_ne j e (rw same other))
              (count-replace j slot e x b at);
        grown = inl (
          slot,
          x,
          h,
          rw (own_held iid x same, own_held iid e same) at (count-replace iid slot e x b at),
        );
      })

-- Granting an item to a bag whose slots are all different.
pub grant_in-IsGranted :
    (iid : ℕ) (amount : ℤ) (b : Bag) → IsUnique b → IsGranted iid amount b (grant_in iid amount b).1
grant_in-IsGranted iid amount b u = elim (Option-cases (find_stack iid b)) [
  | inl nothing ↦ grant_new iid amount b u nothing
  | inr ((slot, x), held) ↦ grant_more iid amount b slot x u held
]

-- Granting an item to a storage whose slots are all different puts it there, as `IsGranted` says,
-- and leaves every other storage as it was.
pub grant_item_lem :
    (iid storage : ℕ) (amount : ℤ) (s : State)
    → IsUnique (bag_of storage s)
    → IsGranted iid amount (bag_of storage s) (bag_of storage (grant_item iid amount storage s).1)
      × ((k : ℕ) → k ≢ storage → bag_of k (grant_item iid amount storage s).1 ≡ bag_of k s)
unfolding grant_item
grant_item_lem iid storage amount s u =
    let bag = (grant_in iid amount (bag_of storage s)).1 in
    (
      rw (lookup_or-insert_self storage bag [] s.backpack)
          (grant_in-IsGranted iid amount (bag_of storage s) u),
      λ k other. ground (arith, lookup_or-insert storage k bag [] s.backpack),
    )
