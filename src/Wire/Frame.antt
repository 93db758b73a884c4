-- ===== src/Wire/Frame.antt =====
-- Frames: `chksum` and `make_header` of server/wire.py, and how `handle` of
-- server/titan_server.py writes and reads them.
pub mod RoundTrip
pub mod Stream
use mathlib.Core.Option
use sevensins_server.Prelude.{
  Option, some, none, ℕ, zero, suc, ◌+◌, ◌*◌, ◌/◌, ◌%◌, ◌^◌, bit_xor, List, [], ◌∷◌, ◌++◌, Result,
  ok, err, ◌>>=◌, ◌>>◌, raise_if, ltb, leb, ◌==◌, nat_eq, if◌then◌else◌, length, take, drop,
}
use sevensins_server.Wire.Rc4.{Rc4, crypt}

abbrev pub hdr_len : ℕ
hdr_len = 6

pub chksum : ℕ → ℕ → ℕ
chksum mtype size = bit_xor 0x5c ((3 * mtype + size) % 30)

pub data HeaderError : Type 0 where
  value_error : HeaderError
  overflow_error : HeaderError

-- size.to_bytes(4, "big"), for a size that fits
abbrev pub to_bytes4 : ℕ → List ℕ
to_bytes4 n = n / 2 ^ 24 % 256 ∷ n / 2 ^ 16 % 256 ∷ n / 2 ^ 8 % 256 ∷ n % 256 ∷ []

-- int.from_bytes(b, "big")
pub from_bytes : ℕ → List ℕ → ℕ
from_bytes acc [] = acc
from_bytes acc (b ∷ bs) = from_bytes (acc * 256 + b) bs

-- `bytes` refuses a number of more than eight bits, `to_bytes` one of more than 32.
pub make_header : ℕ → ℕ → Result HeaderError (List ℕ)
make_header mtype size = do
  raise_if (leb 256 (chksum mtype size)) value_error
  raise_if (leb 256 mtype) value_error
  raise_if (leb (2 ^ 32) size) overflow_error
  ok (chksum mtype size ∷ mtype ∷ to_bytes4 size)

-- One frame of `send`: the bytes put on the connection, and the keystream after them.
pub send_frame : Rc4 → ℕ → List ℕ → Result HeaderError (List ℕ × Rc4)
send_frame s mtype body = do hdr ← make_header mtype (length body); ok (crypt s (hdr ++ body))

-- What a round of the read loop comes to. `interrupted`: the peer closed inside a body, and
-- `crypt(None)` raises.
pub data Read : Type 0 where
  closed : Read
  bad_checksum : ℕ → ℕ → Read
  interrupted : Read
  frame : ℕ → List ℕ → List ℕ → Rc4 → Read

-- Once the header is decrypted: the check, then the body.
pub read_body : Rc4 → ℕ → ℕ → ℕ → List ℕ → Read
read_body s chk mtype size input =
    if chk == chksum mtype size
    then (if size == 0
        then frame mtype [] input s
        else (if ltb (length input) size
            then interrupted
            else frame mtype (crypt s (take size input)).0 (drop size input)
                (crypt s (take size input)).1))
    else bad_checksum mtype size

pub read_header : Rc4 → List ℕ → List ℕ → Read
read_header s (chk ∷ mtype ∷ size) input = read_body s chk mtype (from_bytes 0 size) input
read_header s _ input = closed

-- One round on the bytes that the peer sends from now on, before it closes.
pub read_frame : Rc4 → List ℕ → Read
read_frame s input =
    if ltb (length input) hdr_len
    then closed
    else read_header (crypt s (take hdr_len input)).1 (crypt s (take hdr_len input)).0
        (drop hdr_len input)

-- The calls of `send` on one connection, in order.
pub send_all : Rc4 → List (ℕ × List ℕ) → Result HeaderError (List ℕ × Rc4)
send_all s [] = ok ([], s)
send_all s ((mtype, body) ∷ ms) = do
  (out, s') ← send_frame s mtype body
  (rest, t) ← send_all s' ms
  ok (out ++ rest, t)

-- The read loop of `handle`, on all that the peer sends: the frames, and how the loop ends. Fuel
-- that ran out is `none`.
pub read_loop : ℕ → Rc4 → List ℕ → Option (List (ℕ × List ℕ) × Read)
read_loop zero s input = none
read_loop (suc fuel) s input = elim (read_frame s input) [
  | frame mtype body rest t ↦ Option.map (λ r. ((mtype, body) ∷ r.0, r.1)) (read_loop fuel t rest)
  | closed ↦ some ([], closed)
  | interrupted ↦ some ([], interrupted)
  | bad_checksum mtype size ↦ some ([], bad_checksum mtype size)
]

-- A frame takes six bytes at least.
pub read_all : Rc4 → List ℕ → Option (List (ℕ × List ℕ) × Read)
read_all s input = read_loop (suc (length input)) s input
