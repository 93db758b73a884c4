-- ===== src/Player/Mail.antt =====
-- The mailbox of server/player_state/mail.py: `add_mail`, `unread_mail_count` and `claim_mail`. A
-- mail's uid, the text of a number, is that number.
pub mod Due
pub mod Uids
pub mod Claims
pub mod Decimal
use Prim.Native.Nat.{max}
use sevensins_server.Prelude.{
  ℕ, zero, suc, ◌+◌, ◌/◌, ◌%◌, Text, Option, some, none, List, [], ◌∷◌, ◌++◌, Bool, true, false,
  ◌&&◌, ◌||◌, not, Dict, ◌==◌, nat_eq, ltb, if◌then◌else◌, ℤ, Result, ok, err,
}
use sevensins_server.Player.Types.{Mail, State}

-- str(n), with the codes of the digits in front of `rest`.
decimal : ℕ → ℕ → Text → Text
decimal zero n rest = (48 + n % 10) ∷ rest
decimal (suc fuel) n rest =
    let more = decimal fuel (n / 10) ((48 + n % 10) ∷ rest) in
    if ltb n 10 then (48 + n % 10) ∷ rest else more

pub str : ℕ → Text
str n = decimal n n []

-- max((int(m["uid"]) for m in mails), default=0)
pub max_uid : List Mail → ℕ
max_uid [] = 0
max_uid (m ∷ ms) = max m.uid (max_uid ms)

-- `timestamp` is `now` where the caller gives none.
unfoldable pub add_mail : ℕ → ℕ → Dict ℕ ℤ → Text → State → ℕ × State
add_mail now format_id items custom s =
    let uid = max_uid s.mail + 1 in
    let m : Mail = record {
      uid = uid;
      format_id = format_id;
      items = items;
      custom = custom;
      read = false;
      expired = false;
      timestamp = now;
      updatetime = now;
    } in
    (uid, record s { mail = s.mail ++ (m ∷ []) })

pub unread_mail_count : List Mail → ℕ
unread_mail_count [] = 0
unread_mail_count (m ∷ ms) = if m.read then unread_mail_count ms else 1 + unread_mail_count ms

-- u in uids, where None is every uid
unfoldable pub asks : Option (List ℕ) → ℕ → Bool
asks none u = true
asks (some []) u = false
asks (some (v ∷ vs)) u = v == u || asks (some vs) u

-- Not one of the two `continue`s.
abbrev pub is_claimed : Option (List ℕ) → Mail → Bool
is_claimed uids m = not (m.read || m.expired) && asks uids m.uid

-- What pays an attachment out: `grant_reward` of core.py, which names the bucket that it changed,
-- or raises, and does not touch the mailbox.
module _ {ℓ κ} {E : Type ℓ} {Bucket : Type κ}
    (grant_reward : ℕ → ℤ → State → Result E Bucket × State) where
  unfoldable pub grant_items : Dict ℕ ℤ → List Bucket → State → Result E (List Bucket) × State
  grant_items [] buckets s = (ok buckets, s)
  grant_items ((item, count) ∷ items) buckets s =
      let (r, t) = grant_reward item count s in
      elim r [ err e ↦ (err e, t) | ok b ↦ grant_items items (b ∷ buckets) t ]

  -- A mail that is left as it is, and one that is claimed, in front of the round of the others.
  abbrev pub left :
      Mail
      → (Result E (List ℕ × List Bucket) × List Mail) × State
      → (Result E (List ℕ × List Bucket) × List Mail) × State
  left m ((r, rest), s) = ((r, m ∷ rest), s)

  abbrev pub taken :
      ℕ
      → Mail
      → (Result E (List ℕ × List Bucket) × List Mail) × State
      → (Result E (List ℕ × List Bucket) × List Mail) × State
  taken now m ((r, rest), s) = (
    (
      elim r [ err e ↦ err e | ok out ↦ ok (m.uid ∷ out.0, out.1) ],
      record m { read = true; updatetime = now } ∷ rest,
    ),
    s,
  )

  -- The round of a mail that is claimed, with what paying its attachments came to.
  unfoldable pub paid_row :
      ℕ
      → Mail
      → List Mail
      → Result E (List Bucket) × State
      → (List Bucket → State → (Result E (List ℕ × List Bucket) × List Mail) × State)
      → (Result E (List ℕ × List Bucket) × List Mail) × State
  paid_row now m ms (err e, s) others = ((err e, m ∷ ms), s)
  paid_row now m ms (ok buckets, s) others = taken now m (others buckets s)

  -- The loop, on the mails from here on: the uids claimed with the buckets, or the exception that
  -- ends it; these mails after it; and the account.
  unfoldable pub claim_rows :
      ℕ
      → Option (List ℕ)
      → List Mail
      → List Bucket
      → State
      → (Result E (List ℕ × List Bucket) × List Mail) × State
  claim_rows now uids [] buckets s = ((ok ([], buckets), []), s)
  claim_rows now uids (m ∷ ms) buckets s =
      let others = claim_rows now uids ms in
      if is_claimed uids m
      then paid_row now m ms (grant_items m.items buckets s) others
      else left m (others buckets s)

  unfoldable pub claim_mail : ℕ → Option (List ℕ) → State → Result E (List ℕ × List Bucket) × State
  claim_mail now uids s =
      let ((r, mails), t) = claim_rows now uids s.mail [] s in (r, record t { mail = mails })
