-- ===== src/Wire/Rc4.antt =====
-- class RC4 of server/wire.py: one keystream for each direction of a connection.
pub mod Stream
pub mod Table
use sevensins_server.Prelude.{
  ℕ, ◌≡◌, refl, zero, suc, ◌+◌, ◌%◌, bit_xor, Option, none, some, List, [], ◌∷◌, length, get_or,
  set,
}

pub record Rc4 : Type 0 where
  pub table : List ℕ
  pub i : ℕ
  pub j : ℕ

-- list(range(n + k)) from k on
pub range_from : ℕ → ℕ → List ℕ
range_from k zero = []
range_from k (suc n) = k ∷ range_from (suc k) n

-- S[i], S[j] = S[j], S[i]: both are read before either is written.
pub swap : List ℕ → ℕ → ℕ → List ℕ
swap t i j = set (set t i (get_or t j 0)) j (get_or t i 0)

-- The rounds of the key schedule that are left, from round i on. `& 0xFF` is `% 256`.
pub schedule : ℕ → ℕ → List ℕ → List ℕ → ℕ → List ℕ
schedule zero i key t j = t
schedule (suc n) i key t j =
    let j' = (j + get_or t i 0 + get_or key (i % length key) 0) % 256 in
    schedule n (suc i) key (swap t i j') j'

-- RC4(key). An empty key raises ZeroDivisionError at `i % len(key)`.
pub init : List ℕ → Option Rc4
init [] = none
init (k ∷ key) =
    some (record { table = schedule 256 0 (k ∷ key) (range_from 0 256) 0; i = 0; j = 0 })

-- One round of the loop in `crypt`, before the output byte.
pub advance : Rc4 → Rc4
unfolding swap
advance s =
    let i' = (s.i + 1) % 256 in
    let j' = (s.j + get_or s.table i' 0) % 256 in
    record { table = swap s.table i' j'; i = i'; j = j' }

-- S[(S[i] + S[j]) & 0xFF]
pub key_byte : Rc4 → ℕ
key_byte s = get_or s.table ((get_or s.table s.i 0 + get_or s.table s.j 0) % 256) 0

-- The output and the state after it.
pub crypt : Rc4 → List ℕ → List ℕ × Rc4
unfolding advance key_byte
crypt s [] = ([], s)
crypt s (c ∷ bytes) =
    let s' = advance s in let (out, t) = crypt s' bytes in (bit_xor c (key_byte s') ∷ out, t)

-- The published vector of the key "Key" and the text "Plaintext".
vector :
    elim (init (75 ∷ 101 ∷ 121 ∷ [])) [
      | none ↦ []
      | some s ↦ (crypt s (80 ∷ 108 ∷ 97 ∷ 105 ∷ 110 ∷ 116 ∷ 101 ∷ 120 ∷ 116 ∷ [])).0
    ]
    ≡ 0xbb ∷ 0xf3 ∷ 0x16 ∷ 0xe8 ∷ 0xd9 ∷ 0x40 ∷ 0xaf ∷ 0x0a ∷ 0xd3 ∷ []
unfolding init schedule swap range_from crypt
vector = refl
