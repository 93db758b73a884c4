-- ===== src/Wire/Frame/RoundTrip.antt =====
-- One frame: `send`, and the read of its header and body.
use sevensins_server.Prelude.{
  ℕ, suc, ◌+◌, ◌*◌, ◌%◌, ◌^◌, ◌<◌, ◌≡◌, refl, ◌∙◌, List, [], ◌∷◌, ◌++◌, append_assoc, ok, ltb,
  nat_eq, length, length-append, take-append_of_eq, drop-append_of_eq, false, arith,
}
use sevensins_server.Prelude.Bits.{bit_xor-lt}
use sevensins_server.Wire.Rc4.{Rc4, crypt}
use sevensins_server.Wire.Rc4.Stream.{crypt-crypt, crypt-append, length-crypt, crypt-nil}
use sevensins_server.Wire.Frame.{
  chksum, to_bytes4, from_bytes, make_header, send_frame, frame, read_body, read_header, read_frame,
}

from_bytes-to_bytes4 : (n : ℕ) → n < 2 ^ 32 → from_bytes 0 (to_bytes4 n) ≡ n
unfolding from_bytes
from_bytes-to_bytes4 n h = omega arith

chksum-lt : (mtype size : ℕ) → chksum mtype size < 256
unfolding chksum
chksum-lt mtype size = bit_xor-lt 8 0x5c ((3 * mtype + size) % 30) (omega arith) (omega arith)

header : ℕ → ℕ → List ℕ
header mtype size = chksum mtype size ∷ mtype ∷ to_bytes4 size

make_header-ok :
    (mtype size : ℕ) → mtype < 256 → size < 2 ^ 32 → make_header mtype size ≡ ok (header mtype size)
unfolding make_header header
make_header-ok mtype size hm hs = ground (arith, chksum-lt mtype size)

-- The two parts of an encrypted frame, each read by the keystream that wrote it.
read_body-crypt :
    (s : Rc4) (mtype : ℕ) (body rest : List ℕ)
    → read_body s (chksum mtype (length body)) mtype (length body) ((crypt s body).0 ++ rest)
      ≡ frame mtype body rest (crypt s body).1
unfolding read_body
read_body-crypt s mtype [] rest = ground (arith, crypt-nil s)
read_body-crypt s mtype (b ∷ body) rest =
    let c = (crypt s (b ∷ body)).0 in
    let size : length c ≡ suc (length body) = length-crypt s (b ∷ body) in
    ground (
      arith,
      size,
      length-append c rest,
      take-append_of_eq (suc (length body)) c rest size,
      drop-append_of_eq (suc (length body)) c rest size,
      crypt-crypt s (b ∷ body),
    )

length-header : (mtype size : ℕ) → length (header mtype size) ≡ 6
unfolding header
length-header mtype size = refl

read_header-header :
    (s : Rc4) (mtype : ℕ) (body rest : List ℕ)
    → length body < 2 ^ 32
    → read_header s (header mtype (length body)) ((crypt s body).0 ++ rest)
      ≡ frame mtype body rest (crypt s body).1
unfolding read_header header
read_header-header s mtype body rest h =
    rw (from_bytes-to_bytes4 (length body) h) (read_body-crypt s mtype body rest)

read_frame-crypt :
    (s : Rc4) (mtype : ℕ) (body rest : List ℕ)
    → length body < 2 ^ 32
    → read_frame s ((crypt s (header mtype (length body) ++ body)).0 ++ rest)
      ≡ frame mtype body rest (crypt s (header mtype (length body) ++ body)).1
unfolding read_frame
read_frame-crypt s mtype body rest h =
    let hdr = header mtype (length body) in
    let c = (crypt s hdr).0 in
    let t = (crypt s hdr).1 in
    let size : length c ≡ 6 = length-crypt s hdr ∙ length-header mtype (length body) in
    rw (crypt-append s hdr body, append_assoc)
      (let enough : ltb (length (c ++ ((crypt t body).0 ++ rest))) 6 ≡ false =
          ground (arith, size, length-append c ((crypt t body).0 ++ rest)) in
        rw
          (
            enough,
            take-append_of_eq 6 c ((crypt t body).0 ++ rest) size,
            drop-append_of_eq 6 c ((crypt t body).0 ++ rest) size,
            crypt-crypt s hdr,
          )
          (read_header-header t mtype body rest h))

-- A frame whose type is a byte and whose body has fewer than 2^32 bytes is sent, and the peer whose keystream stands where the sender's stood reads its type and
-- body, whatever follows it, and ends with the sender's keystream.
pub read_frame-send_frame :
    (s : Rc4) (mtype : ℕ) (body : List ℕ)
    → mtype < 256
    → length body < 2 ^ 32
    → (out : List ℕ) × (t : Rc4) × (send_frame s mtype body ≡ ok (out, t))
      × ((rest : List ℕ) → read_frame s (out ++ rest) ≡ frame mtype body rest t)
unfolding send_frame
read_frame-send_frame s mtype body hm hb = (
  (crypt s (header mtype (length body) ++ body)).0,
  (crypt s (header mtype (length body) ++ body)).1,
  rw (make_header-ok mtype (length body) hm hb),
  λ rest. read_frame-crypt s mtype body rest hb,
)
