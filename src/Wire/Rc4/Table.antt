-- ===== src/Wire/Rc4/Table.antt =====
-- The table and indices of the keystream state.
use sevensins_server.Prelude.{
  ℕ, zero, suc, ◌+◌, ◌%◌, ◌<◌, ◌≡◌, refl, ◌==◌, nat_eq, ap, if◌then◌else◌, ltb, List, [], ◌∷◌,
  arith, some, length, get_or, set, All, length-set, All-set, All-get_or,
}
use sevensins_server.Prelude.Bits.{bit_xor-lt}
use sevensins_server.Wire.Rc4.{Rc4, range_from, swap, schedule, init, advance, key_byte, crypt}

-- How often a value stands in a table.
abbrev pub count : ℕ → List ℕ → ℕ
count v [] = 0
count v (x ∷ xs) = (if x == v then 1 else 0) + count v xs

abbrev pub IsByte : ℕ → Type 0
IsByte b = b < 256

-- Each byte stands in the table once, nothing else does, and both indices are in range.
pub record IsTable (t : List ℕ) : Type 0 where
  pub size : length t ≡ 256
  pub bytes : All IsByte t
  pub each_once : (v : ℕ) → count v t ≡ (if ltb v 256 then 1 else 0)

pub record IsValid (s : Rc4) : Type 0 where
  pub is_table : IsTable s.table
  pub i_in : s.i < 256
  pub j_in : s.j < 256

count-set :
    (v : ℕ) (t : List ℕ) (i w : ℕ)
    → i < length t
    → count v (set t i w) + (if get_or t i 0 == v then 1 else 0)
      ≡ count v t + (if w == v then 1 else 0)
count-set v [] i w h = absurd (omega arith)
count-set v (x ∷ t) zero w h = omega arith
count-set v (x ∷ t) (suc i) w h = omega (arith, count-set v t i w (omega arith))

get_or-set :
    (t : List ℕ) (i j w : ℕ)
    → i < length t
    → get_or (set t i w) j 0 ≡ (if i == j then w else get_or t j 0)
get_or-set [] i j w h = absurd (omega arith)
get_or-set (x ∷ t) zero zero w h = refl
get_or-set (x ∷ t) zero (suc j) w h = ground arith
get_or-set (x ∷ t) (suc i) zero w h = ground arith
get_or-set (x ∷ t) (suc i) (suc j) w h = ground (arith, get_or-set t i j w (omega arith))

count-swap :
    (v : ℕ) (t : List ℕ) (i j : ℕ) → i < length t → j < length t → count v (swap t i j) ≡ count v t
unfolding swap
count-swap v t i j hi hj = ground (
  arith,
  length-set t i (get_or t j 0),
  count-set v t i (get_or t j 0) hi,
  count-set v (set t i (get_or t j 0)) j (get_or t i 0)
      (omega (arith, length-set t i (get_or t j 0))),
  get_or-set t i j (get_or t j 0) hi,
)

swap-IsTable : (t : List ℕ) (i j : ℕ) → i < 256 → j < 256 → IsTable t → IsTable (swap t i j)
swap-IsTable t i j hi hj v = record {
  size =
      unfold swap in
      omega (
        arith,
        v.size,
        length-set t i (get_or t j 0),
        length-set (set t i (get_or t j 0)) j (get_or t i 0),
      );
  bytes =
      unfold swap in
      All-set IsByte (set t i (get_or t j 0)) j (get_or t i 0)
        (All-set IsByte t i (get_or t j 0) v.bytes (All-get_or IsByte t j 0 v.bytes (omega arith)))
        (All-get_or IsByte t i 0 v.bytes (omega arith));
  each_once = λ w. ground (
    arith,
    v.each_once w,
    v.size,
    count-swap w t i j (omega (arith, v.size)) (omega (arith, v.size)),
  );
}

schedule-IsTable :
    (n i : ℕ) (key t : List ℕ) (j : ℕ) → n + i ≡ 256 → IsTable t → IsTable (schedule n i key t j)
unfolding schedule
schedule-IsTable zero i key t j h v = v
schedule-IsTable (suc n) i key t j h v =
    let j' = (j + get_or t i 0 + get_or key (i % length key) 0) % 256 in
    schedule-IsTable n (suc i) key (swap t i j') j' (omega arith)
      (swap-IsTable t i j' (omega arith) (omega arith) v)

length-range_from : (k n : ℕ) → length (range_from k n) ≡ n
unfolding range_from
length-range_from k zero = refl
length-range_from k (suc n) = omega (arith, length-range_from (suc k) n)

range_from-IsByte : (k n : ℕ) → k + n < 257 → All IsByte (range_from k n)
unfolding range_from
range_from-IsByte k zero h = tt
range_from-IsByte k (suc n) h = (omega arith, range_from-IsByte (suc k) n (omega arith))

count-range_from :
    (v k n : ℕ)
    → count v (range_from k n) ≡ (if ltb v k then 0 else (if ltb v (k + n) then 1 else 0))
unfolding range_from
count-range_from v k zero = ground arith
count-range_from v k (suc n) = ground (arith, count-range_from v (suc k) n)

pub range_from-IsTable : IsTable (range_from 0 256)
range_from-IsTable = record {
  size = length-range_from 0 256;
  bytes = range_from-IsByte 0 256 (omega arith);
  each_once = λ v. ground (arith, count-range_from v 0 256);
}

-- The key schedule makes a state of any key that is not empty, and the state is valid.
pub init-IsValid : (k : ℕ) (key : List ℕ) → (s : Rc4) × (init (k ∷ key) ≡ some s) × IsValid s
unfolding init
init-IsValid k key = (
  record { table = schedule 256 0 (k ∷ key) (range_from 0 256) 0; i = 0; j = 0 },
  refl,
  record {
    is_table =
        schedule-IsTable 256 0 (k ∷ key) (range_from 0 256) 0 (omega arith) range_from-IsTable;
    i_in = omega arith;
    j_in = omega arith;
  },
)

advance-IsValid : (s : Rc4) → IsValid s → IsValid (advance s)
unfolding advance
advance-IsValid s v = record {
  is_table = swap-IsTable s.table _ _ (omega arith) (omega arith) v.is_table;
  i_in = omega arith;
  j_in = omega arith;
}

key_byte-lt : (s : Rc4) → IsValid s → key_byte s < 256
unfolding key_byte
key_byte-lt s v = All-get_or IsByte s.table _ 0 v.is_table.bytes (omega arith)

-- From a valid state, encrypting bytes gives as many bytes and leaves a valid state, whose table is
-- a permutation of the bytes.
pub crypt-IsValid :
    (s : Rc4) (msg : List ℕ)
    → IsValid s
    → All IsByte msg
    → IsValid (crypt s msg).1 × All IsByte (crypt s msg).0 × (length (crypt s msg).0 ≡ length msg)
unfolding crypt
crypt-IsValid s [] v h = (v, tt, refl)
crypt-IsValid s (c ∷ msg) v h =
    let v' = advance-IsValid s v in
    let (w, out, len) = crypt-IsValid (advance s) msg v' h.1 in
    (w, (bit_xor-lt 8 c (key_byte (advance s)) h.0 (key_byte-lt (advance s) v'), out), ap suc len)
