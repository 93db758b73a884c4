-- ===== src/Wire/Frame/Stream.antt =====
-- All the frames of one side, and the loop that reads them.
use mathlib.Core.Option
use sevensins_server.Prelude.{
  ℕ, zero, suc, ◌+◌, ◌^◌, ◌<◌, ◌≤◌, ◌≡◌, ◌≢◌, ◌⊎◌, inl, inr, refl, some, none, List, [], ◌∷◌, ◌++◌,
  ok, All, ltb, nat_eq, length, length-drop, take, drop, Bool-cases, Option-cases, arith,
}
use sevensins_server.Wire.Rc4.{Rc4, crypt}
use sevensins_server.Wire.Frame.{
  Read, frame, closed, interrupted, bad_checksum, send_all, read_frame, read_header, read_body,
  read_loop, read_all,
}
use sevensins_server.Wire.Frame.RoundTrip.{read_frame-send_frame}

-- A message that a header can describe.
abbrev pub Fits : ℕ × List ℕ → Type 0
Fits m = (m.0 < 256) × (length m.1 < 2 ^ 32)

-- What a frame leaves of the input is shorter by the header at least.
read_body_shrinks :
    (s t : Rc4) (chk mtype size m : ℕ) (input body rest : List ℕ)
    → read_body s chk mtype size input ≡ frame m body rest t
    → length rest ≤ length input
unfolding read_body
read_body_shrinks s t chk mtype size m input body rest h = ground (arith, length-drop size input)

read_header_shrinks :
    (s t : Rc4) (hdr : List ℕ) (m : ℕ) (input body rest : List ℕ)
    → read_header s hdr input ≡ frame m body rest t
    → length rest ≤ length input
unfolding read_header
read_header_shrinks s t [] m input body rest h = cc
read_header_shrinks s t (c ∷ []) m input body rest h = cc
read_header_shrinks s t (c ∷ mt ∷ hdr) m input body rest h =
    read_body_shrinks s t c mt _ m input body rest h

read_frame_shrinks :
    (s t : Rc4) (m : ℕ) (input body rest : List ℕ)
    → read_frame s input ≡ frame m body rest t
    → length rest + 6 ≤ length input
unfolding read_frame
read_frame_shrinks s t m input body rest h = elim (Bool-cases (ltb (length input) 6)) [
  | inl short ↦ let e : closed ≡ frame m body rest t = rw short at h in cc
  | inr long ↦
      let e = rw long at h in
      ground (
        arith,
        length-drop 6 input,
        read_header_shrinks (crypt s (take 6 input)).1 t (crypt s (take 6 input)).0 m (drop 6 input)
            body rest e,
      )
]

Read-cases :
    (r : Read)
    → ((m : ℕ) × (body : List ℕ) × (rest : List ℕ) × (t : Rc4) × (r ≡ frame m body rest t))
      ⊎ ((r ≡ closed) ⊎ ((r ≡ interrupted) ⊎ ((c : ℕ) × (z : ℕ) × (r ≡ bad_checksum c z))))
Read-cases closed = inr (inl refl)
Read-cases interrupted = inr (inr (inl refl))
Read-cases (bad_checksum c z) = inr (inr (inr (c, z, refl)))
Read-cases (frame m body rest t) = inl (m, body, rest, t, refl)

read_loop-frame :
    (n : ℕ) (s t : Rc4) (m : ℕ) (input body rest : List ℕ)
    → read_frame s input ≡ frame m body rest t
    → read_loop (suc n) s input ≡ Option.map (λ r. ((m, body) ∷ r.0, r.1)) (read_loop n t rest)
unfolding read_loop
read_loop-frame n s t m input body rest h = rw (h, read_loop)

read_loop-stops :
    (n : ℕ) (s : Rc4) (input : List ℕ)
    → (read_frame s input ≡ closed)
      ⊎ ((read_frame s input ≡ interrupted)
          ⊎ ((c : ℕ) × (z : ℕ) × (read_frame s input ≡ bad_checksum c z)))
    → read_loop (suc n) s input ≡ some ([], read_frame s input)
unfolding read_loop
read_loop-stops n s input (inl h) = rw (h, read_loop)
read_loop-stops n s input (inr (inl h)) = rw (h, read_loop)
read_loop-stops n s input (inr (inr (c, z, h))) = rw (h, read_loop)

read_loop_total : (n : ℕ) (s : Rc4) (input : List ℕ) → length input < n → read_loop n s input ≢ none
unfolding read_loop
read_loop_total zero s input h e = omega arith
read_loop_total (suc n) s input h e = elim (Read-cases (read_frame s input)) [
  | inl (m, body, rest, t, got) ↦ elim (Option-cases (read_loop n t rest)) [
    | inl out_of_fuel ↦
        read_loop_total n t rest (omega (arith, read_frame_shrinks s t m input body rest got))
          out_of_fuel
    | inr (r, more) ↦ ground (arith, read_loop-frame n s t m input body rest got)
  ]
  | inr stops ↦ ground (arith, read_loop-stops n s input stops)
]

-- The loop that reads all of a peer's bytes ends on any input: its fuel never runs out.
pub read_all_total : (s : Rc4) (input : List ℕ) → read_all s input ≢ none
unfolding read_all
read_all_total s input = read_loop_total (suc (length input)) s input (omega arith)

read_frame-nil : (s : Rc4) → read_frame s [] ≡ closed
unfolding read_frame
read_frame-nil s = refl

read_loop-nil : (n : ℕ) (s : Rc4) → read_loop (suc n) s [] ≡ some ([], closed)
unfolding read_loop
read_loop-nil n s = rw (read_frame-nil s, read_loop)

read_empty : (n : ℕ) (s : Rc4) → 0 < n → read_loop n s [] ≡ some ([], closed)
read_empty zero s h = absurd (omega arith)
read_empty (suc n) s h = read_loop-nil n s

read_first :
    (n : ℕ) (s s' : Rc4) (mtype : ℕ) (body out more : List ℕ) (ms : List (ℕ × List ℕ))
    → length (out ++ more) < n
    → read_frame s (out ++ more) ≡ frame mtype body more s'
    → ((n : ℕ) → length more < n → read_loop n s' more ≡ some (ms, closed))
    → read_loop n s (out ++ more) ≡ some ((mtype, body) ∷ ms, closed)
read_first zero s s' mtype body out more ms h e ih = absurd (omega arith)
read_first (suc n) s s' mtype body out more ms h e ih = rw (
  read_loop-frame n s s' mtype (out ++ more) body more e,
  ih n (omega (arith, read_frame_shrinks s s' mtype (out ++ more) body more e)),
)

read_loop-send_all :
    (s : Rc4) (ms : List (ℕ × List ℕ))
    → All Fits ms
    → (out : List ℕ) × (t : Rc4) × (send_all s ms ≡ ok (out, t))
      × ((n : ℕ) → length out < n → read_loop n s out ≡ some (ms, closed))
unfolding send_all
read_loop-send_all s [] h = ([], s, refl, λ n lt. read_empty n s lt)
read_loop-send_all s ((mtype, body) ∷ ms) (fits, h) =
    let (out, s', sent, got) = read_frame-send_frame s mtype body fits.0 fits.1 in
    let (more, t, sent_more, got_more) = read_loop-send_all s' ms h in
    (
      out ++ more,
      t,
      rw (sent, sent_more),
      λ n lt. read_first n s s' mtype body out more ms lt (got more) got_more,
    )

-- Messages that fit a header are all sent, and the loop of a peer whose keystream stands where the
-- sender's stood reads exactly these messages, in order, and then sees the end.
pub read_all-send_all :
    (s : Rc4) (ms : List (ℕ × List ℕ))
    → All Fits ms
    → (out : List ℕ) × (t : Rc4) × (send_all s ms ≡ ok (out, t))
      × (read_all s out ≡ some (ms, closed))
unfolding read_all
read_all-send_all s ms h =
    let (out, t, sent, got) = read_loop-send_all s ms h in
    (out, t, sent, got (suc (length out)) (omega arith))
