-- ===== src/Player/Mail/Claims.antt =====
-- `claim_mail` against a description of the mailbox, also where a payout raises.
use sevensins_server.Prelude.{
  ℕ, ◌≡◌, ◌⊎◌, ◌∙◌, refl, sym, ap, subst, by_test, inl, inr, Option, List, [], ◌∷◌, ◌++◌, true,
  false, Dict, nat_eq, if◌then◌else◌, ℤ, Result, Result-cases, ok_injective, ok, err, arith,
}
use sevensins_server.Player.Types.{Mail, State}
use sevensins_server.Player.Mail.{
  is_claimed, grant_items, left, taken, paid_row, claim_rows, claim_mail,
}
use sevensins_server.Player.Mail.Due.{
  is_due, attachments, claimed_uids, marked, mark, mark-idle, claimed-is_due,
}

module _ {ℓ κ} {E : Type ℓ} {Bucket : Type κ}
    (grant_reward : ℕ → ℤ → State → Result E Bucket × State) where
  grant_items-append :
      (xs ys : Dict ℕ ℤ) (bs cs : List Bucket) (s t : State)
      → grant_items grant_reward xs bs s ≡ (ok cs, t)
      → grant_items grant_reward (xs ++ ys) bs s ≡ grant_items grant_reward ys cs t
  unfolding grant_items
  grant_items-append [] ys bs cs s t h =
      let p : bs ≡ cs = ok_injective (ap (λ (q : Result E (List Bucket) × State). q.0) h) in
      let q : s ≡ t = ap (λ (q : Result E (List Bucket) × State). q.1) h in
      λ k. grant_items grant_reward ys (p k) (q k)
  grant_items-append ((i, c) ∷ xs) ys bs cs s t h =
      let (r, u) = grant_reward i c s in
      let after : Dict ℕ ℤ → Result E Bucket → Result E (List Bucket) × State =
        λ zs r. elim r [ err e ↦ (err e, u) | ok b ↦ grant_items grant_reward zs (b ∷ bs) u ] in
      elim (Result-cases r) [
        | inl (e, raised) ↦
            let h' : (let q : Result E (List Bucket) × State = (err e, u) in q ≡ (ok cs, t)) =
              sym (ap (after xs) raised) ∙ h in
            absurd (ground (arith, h'))
        | inr (b, paid) ↦
            ap (after (xs ++ ys)) paid
            ∙ grant_items-append xs ys (b ∷ bs) cs u t (sym (ap (after xs) paid) ∙ h)
      ]

  -- A payout that raised ended the claim at a mail that was due: what was due before it is paid and
  -- marked read, this one is paid as far as the payout went and is not, nor is any later mail.
  pub record IsStopped (now : ℕ) (uids : Option (List ℕ)) (ms : List Mail) (bs : List Bucket)
      (s : State) (e : E) (after : List Mail) (t : State) : Type (ℓ ⊔ κ) where
    pub before : List Mail
    pub bad : Mail
    pub rest : List Mail
    pub split : ms ≡ before ++ (bad ∷ rest)
    pub due : is_due uids bad ≡ true
    pub buckets : List Bucket
    pub between : State
    pub paid : grant_items grant_reward (attachments uids before) bs s ≡ (ok buckets, between)
    pub raised : grant_items grant_reward bad.items buckets between ≡ (err e, t)
    pub mails : after ≡ marked now uids before ++ (bad ∷ rest)

  -- Every attachment that is due is paid, in order, and what was due is marked read.
  pub record IsPaid (now : ℕ) (uids : Option (List ℕ)) (ms : List Mail) (bs : List Bucket)
      (s : State) (out : List ℕ × List Bucket) (after : List Mail) (t : State) : Type (ℓ ⊔ κ) where
    pub paid : grant_items grant_reward (attachments uids ms) bs s ≡ (ok out.1, t)
    pub claimed : out.0 ≡ claimed_uids uids ms
    pub mails : after ≡ marked now uids ms

  abbrev pub RowsOutcome :
      ℕ
      → Option (List ℕ)
      → List Mail
      → List Bucket
      → State
      → (Result E (List ℕ × List Bucket) × List Mail) × State
      → Type (ℓ ⊔ κ)
  RowsOutcome now uids ms bs s ((r, after), t) =
      ((e : E) × (r ≡ err e) × IsStopped now uids ms bs s e after t)
      ⊎ ((out : List ℕ × List Bucket) × (r ≡ ok out) × IsPaid now uids ms bs s out after t)

  module _ (now : ℕ) (uids : Option (List ℕ)) (m : Mail) (ms : List Mail) (bs : List Bucket)
      (s : State) where
    kept-outcome :
        is_due uids m ≡ false
        → RowsOutcome now uids ms bs s (claim_rows grant_reward now uids ms bs s)
        → RowsOutcome now uids
            (m ∷ ms)
            bs
            s
            (left grant_reward m (claim_rows grant_reward now uids ms bs s))
    unfolding attachments claimed_uids marked
    kept-outcome idle (inl (e, r, x)) = inl (
      e,
      r,
      record {
        before = m ∷ x.before;
        bad = x.bad;
        rest = x.rest;
        split = ap (λ l. m ∷ l) x.split;
        due = x.due;
        buckets = x.buckets;
        between = x.between;
        paid = rw idle x.paid;
        raised = x.raised;
        mails = rw idle (ap (λ l. m ∷ l) x.mails);
      },
    )
    kept-outcome idle (inr (out, r, x)) = inr (
      out,
      r,
      record {
        paid = rw idle x.paid;
        claimed = rw idle x.claimed;
        mails = rw idle (ap (λ l. m ∷ l) x.mails);
      },
    )

    taken-outcome :
        (cs : List Bucket) (t : State)
        → is_due uids m ≡ true
        → grant_items grant_reward m.items bs s ≡ (ok cs, t)
        → RowsOutcome now uids ms cs t (claim_rows grant_reward now uids ms cs t)
        → RowsOutcome now uids
            (m ∷ ms)
            bs
            s
            (taken grant_reward now m (claim_rows grant_reward now uids ms cs t))
    unfolding attachments claimed_uids marked
    taken-outcome cs t due here (inl (e, r, x)) = inl (
      e,
      ap
          (λ q. elim q as (λ _. Result E (List ℕ × List Bucket)) [
            | err e ↦ err e
            | ok out ↦ ok (m.uid ∷ out.0, out.1)
          ])
          r,
      record {
        before = m ∷ x.before;
        bad = x.bad;
        rest = x.rest;
        split = ap (λ l. m ∷ l) x.split;
        due = x.due;
        buckets = x.buckets;
        between = x.between;
        paid =
            rw due (grant_items-append m.items (attachments uids x.before) bs cs s t here ∙ x.paid);
        raised = x.raised;
        mails = rw due (ap (λ l. record m { read = true; updatetime = now } ∷ l) x.mails);
      },
    )
    taken-outcome cs t due here (inr (out, r, x)) = inr (
      (m.uid ∷ out.0, out.1),
      ap
          (λ q. elim q as (λ _. Result E (List ℕ × List Bucket)) [
            | err e ↦ err e
            | ok out ↦ ok (m.uid ∷ out.0, out.1)
          ])
          r,
      record {
        paid = rw due (grant_items-append m.items (attachments uids ms) bs cs s t here ∙ x.paid);
        claimed = rw due (ap (λ l. m.uid ∷ l) x.claimed);
        mails = rw due (ap (λ l. record m { read = true; updatetime = now } ∷ l) x.mails);
      },
    )

    due-outcome :
        (g : Result E (List Bucket) × State)
        → is_due uids m ≡ true
        → grant_items grant_reward m.items bs s ≡ g
        → ((cs : List Bucket) (t : State)
            → RowsOutcome now uids ms cs t (claim_rows grant_reward now uids ms cs t))
        → RowsOutcome now uids
            (m ∷ ms)
            bs
            s
            (paid_row grant_reward now m ms g (claim_rows grant_reward now uids ms))
    unfolding paid_row grant_items attachments marked
    due-outcome (err e, t) due here others = inl (
      e,
      refl,
      record {
        before = [];
        bad = m;
        rest = ms;
        split = refl;
        due = due;
        buckets = bs;
        between = s;
        paid = refl;
        raised = here;
        mails = refl;
      },
    )
    due-outcome (ok cs, t) due here others = taken-outcome cs t due here (others cs t)

  rows-outcome :
      (now : ℕ) (uids : Option (List ℕ)) (ms : List Mail) (bs : List Bucket) (s : State)
      → RowsOutcome now uids ms bs s (claim_rows grant_reward now uids ms bs s)
  unfolding claim_rows grant_items attachments claimed_uids marked
  rows-outcome now uids [] bs s =
      inr (([], bs), refl, record { paid = refl; claimed = refl; mails = refl })
  rows-outcome now uids (m ∷ ms) bs s =
      let same = claimed-is_due uids m in
      let others = rows-outcome now uids ms in
      by_test (RowsOutcome now uids (m ∷ ms) bs s) (is_claimed uids m) _ _
        (λ asked.
          due-outcome now uids m ms bs s (grant_items grant_reward m.items bs s) (sym same ∙ asked)
            refl others)
        (λ kept. kept-outcome now uids m ms bs s (sym same ∙ kept) (others bs s))

  -- A second round over the mails that a first one marked.
  rows-settled :
      (now now' : ℕ) (uids : Option (List ℕ)) (ms : List Mail) (bs : List Bucket) (s : State)
      → claim_rows grant_reward now' uids (marked now uids ms) bs s
        ≡ ((ok ([], bs), marked now uids ms), s)
  unfolding claim_rows marked
  rows-settled now now' uids [] bs s = refl
  rows-settled now now' uids (m ∷ ms) bs s =
      let n = mark now uids m in
      let idle : is_claimed uids n ≡ false = claimed-is_due uids n ∙ mark-idle now uids m in
      let others = claim_rows grant_reward now' uids (marked now uids ms) in
      ap
        (λ b.
          if b
          then paid_row grant_reward now' n (marked now uids ms)
              (grant_items grant_reward n.items bs s) others
          else left grant_reward n (others bs s))
        idle
      ∙ ap (left grant_reward n) (rows-settled now now' uids ms bs s)

  -- What a claim comes to, on the account: the description of its loop, where `after` is the
  -- account that the payouts left.
  abbrev pub ClaimOutcome :
      ℕ → Option (List ℕ) → State → Result E (List ℕ × List Bucket) × State → Type (ℓ ⊔ κ)
  ClaimOutcome now uids s (r, t) =
      (after : State) × (t ≡ record after { mail = t.mail })
      × RowsOutcome now uids s.mail [] s ((r, t.mail), after)

  -- Whatever pays an attachment out, and whether or not it raises, a claim either pays the
  -- attachments of exactly the mails that are unread, have not expired and are asked for, in order,
  -- marks exactly these read and returns their uids; or a payout raised at such a mail, and then
  -- the ones before it are paid and marked read, and it and all later mails are as they were.
  pub claim_mail_lem :
      (now : ℕ) (uids : Option (List ℕ)) (s : State)
      → ClaimOutcome now uids s (claim_mail grant_reward now uids s)
  unfolding claim_mail
  claim_mail_lem now uids s =
      ((claim_rows grant_reward now uids s.mail [] s).1, refl, rows-outcome now uids s.mail [] s)

  -- After a claim that did not raise, claiming the same uids again, at any time, pays nothing and
  -- changes nothing.
  pub claim_mail-claim_mail :
      (now now' : ℕ) (uids : Option (List ℕ)) (s t : State) (out : List ℕ × List Bucket)
      → claim_mail grant_reward now uids s ≡ (ok out, t)
      → claim_mail grant_reward now' uids t ≡ (ok ([], []), t)
  unfolding claim_mail
  claim_mail-claim_mail now now' uids s t out h =
      let (after, _, came) = subst (ClaimOutcome now uids s) h (claim_mail_lem now uids s) in
      elim came [
        | inl (e, r, _) ↦ absurd (ground (arith, r))
        | inr (_, _, x) ↦
            ap
              (λ (q : (Result E (List ℕ × List Bucket) × List Mail) × State).
                (q.0.0, record q.1 { mail = q.0.1 }))
              (subst (λ ms. claim_rows grant_reward now' uids ms [] t ≡ ((ok ([], []), ms), t))
                (sym x.mails) (rows-settled now now' uids s.mail [] t))
      ]
