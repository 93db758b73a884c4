-- ===== src/Player/Mail/Uids.antt =====
-- `add_mail`: the uids of the mailbox.
use sevensins_server.Prelude.{
  ℕ, ◌+◌, ◌<◌, ◌≡◌, refl, Text, List, [], ◌∷◌, ◌++◌, Bool, true, false, ◌||◌, Dict, ◌==◌, nat_eq, ℤ,
  arith,
}
use sevensins_server.Player.Types.{Mail, State}
use sevensins_server.Player.Mail.{max_uid, add_mail, unread_mail_count}

-- No two mails share a uid.
unfoldable pub has_uid : ℕ → List Mail → Bool
has_uid u [] = false
has_uid u (m ∷ ms) = m.uid == u || has_uid u ms

abbrev pub IsMailbox : List Mail → Type 0
IsMailbox [] = Unit
IsMailbox (m ∷ ms) = (has_uid m.uid ms ≡ false) × IsMailbox ms

has_uid_max : (u : ℕ) (ms : List Mail) → max_uid ms < u → has_uid u ms ≡ false
unfolding max_uid has_uid
has_uid_max u [] h = refl
has_uid_max u (m ∷ ms) h = ground (arith, has_uid_max u ms)

has_uid-append : (u : ℕ) (ms ns : List Mail) → has_uid u (ms ++ ns) ≡ (has_uid u ms || has_uid u ns)
unfolding has_uid
has_uid-append u [] ns = refl
has_uid-append u (m ∷ ms) ns = ground (arith, has_uid-append u ms ns)

append-IsMailbox :
    (ms : List Mail) (n : Mail)
    → IsMailbox ms
    → has_uid n.uid ms ≡ false
    → IsMailbox (ms ++ (n ∷ []))
unfolding has_uid
append-IsMailbox [] n h f = (refl, tt)
append-IsMailbox (m ∷ ms) n h f =
    ground (arith, has_uid-append m.uid ms (n ∷ []), append-IsMailbox ms n h.1)

unread-append :
    (ms ns : List Mail) → unread_mail_count (ms ++ ns) ≡ unread_mail_count ms + unread_mail_count ns
unfolding unread_mail_count
unread-append [] ns = omega arith
unread-append (m ∷ ms) ns = ground (arith, unread-append ms ns)

-- In a mailbox where no two mails share a uid, a queued mail has a uid of its own, the new mailbox
-- is such a one, and it has one more unread mail.
pub add_mail_lem :
    (now format_id : ℕ) (items : Dict ℕ ℤ) (custom : Text) (s : State)
    → IsMailbox s.mail
    → let (uid, t) = add_mail now format_id items custom s in
      (has_uid uid s.mail ≡ false)
      × (has_uid uid t.mail ≡ true)
      × IsMailbox t.mail
      × (unread_mail_count t.mail ≡ unread_mail_count s.mail + 1)
unfolding add_mail unread_mail_count has_uid
add_mail_lem now format_id items custom s h =
    let fresh = has_uid_max (max_uid s.mail + 1) s.mail (omega arith) in
    (
      fresh,
      ground (
        arith,
        has_uid-append (max_uid s.mail + 1) s.mail (
            record {
              uid = max_uid s.mail + 1;
              format_id = format_id;
              items = items;
              custom = custom;
              read = false;
              expired = false;
              timestamp = now;
              updatetime = now;
            }
            ∷ []),
      ),
      append-IsMailbox s.mail _ h fresh,
      unread-append s.mail _,
    )
