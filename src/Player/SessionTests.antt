-- ===== src/Player/SessionTests.antt =====
-- The theorem on who may save an account, at two logins of one player, and a third login that
-- takes the id of the first one's dict again.
use sevensins_server.Prelude.{
  ℕ, ◌≡◌, ◌≢◌, ◌⊎◌, refl, Dict, lookup, insert, Bool, err, Text, some, [], ◌∷◌, true, false, nat_eq,
  arith, text_eq, ok,
}
use sevensins_server.Player.Sessions.{
  Loaded, World, stale_session, save, load, register, supersede, Steps, loads, registers, forgets,
  forget, is_in, dropped, done, step,
}
use sevensins_server.Player.Sessions.Ownership.{start, save_lem}

abbrev player : Text
player = 55 ∷ []

abbrev files : Dict Text ℕ
files = (player, 5) ∷ []

-- The first connection loads and logs in, then the second does: the first is superseded.
abbrev account_of : Bool → Loaded ℕ
account_of b = record { player = player; content = 5; registered = b }

abbrev world : World ℕ
world = record {
  files = files;
  live = (player, 2) ∷ [];
  superseded = 1 ∷ [];
  memory = (1, account_of true) ∷ (2, account_of true) ∷ [];
}

abbrev world_1 : World ℕ
world_1 = record { files = files; live = []; superseded = []; memory = (1, account_of false) ∷ [] }

abbrev world_2 : World ℕ
world_2 = record {
  files = files;
  live = (player, 1) ∷ [];
  superseded = [];
  memory = (1, account_of true) ∷ [];
}

abbrev world_3 : World ℕ
world_3 = record world_2 { memory = (1, account_of true) ∷ (2, account_of false) ∷ [] }

steps : Steps (start files) world
unfolding load register supersede
steps = step (start files) world_1 world (loads 1 player 5 (start files) refl) (
    step world_1 world_2 world (registers 1 (account_of false) world_1 refl refl) (
      step world_2 world_3 world (loads 2 player 5 world_2 refl)
        (step world_3 world world (registers 2 (account_of false) world_3 refl refl) (done world))))

-- Both logins were of one connection, which drops the first dict; another player's login takes its
-- id.
abbrev other : Text
other = 56 ∷ []

abbrev guest : Bool → Loaded ℕ
guest b = record { player = other; content = 8; registered = b }

abbrev world_4 : World ℕ
world_4 = record world { memory = (2, account_of true) ∷ [] }

abbrev world_5 : World ℕ
world_5 = record world {
  files = (player, 5) ∷ (other, 8) ∷ [];
  memory = (2, account_of true) ∷ (1, guest false) ∷ [];
}

abbrev world_6 : World ℕ
world_6 = record world_5 {
  live = (player, 2) ∷ (other, 1) ∷ [];
  memory = (2, account_of true) ∷ (1, guest true) ∷ [];
}

stale_at : (x : Loaded ℕ) → lookup 1 world.memory ≡ some x → lookup x.player world.live ≢ some 1
stale_at x found live = absurd (ground arith)

steps_on : Steps world world_6
unfolding load register supersede forget
steps_on =
    step world world_4 world_6
      (forgets 1 (account_of true) world refl (stale_at (account_of true) refl))
      (step world_4 world_5 world_6 (loads 1 other 8 world_4 refl)
        (step world_5 world_6 world_6 (registers 1 (guest false) world_5 refl refl) (done world_6)))

and_then : {w v u : World ℕ} → Steps w v → Steps v u → Steps w u
and_then (done w) t = t
and_then (step w v u s t') t = step w v _ s (and_then t' t)

-- The newest login of that player, and its save is refused.
refused_newest :
    (lookup other world_6.live ≡ some 1) × (save 1 (guest true) world_6 ≡ err stale_session)
unfolding save is_in
refused_newest = (refl, refl)

save_lem_example :
    let all = and_then steps steps_on in
    ((lookup other world_6.live ≡ some 1)
      × (save 1 (guest true) world_6
          ≡ ok (record world_6 { files = insert other 8 world_6.files })))
    ⊎ ((lookup other world_6.live ≢ some 1) × (save 1 (guest true) world_6 ≡ err stale_session))
    ⊎ ((lookup other world_6.live ≡ some 1)
        × (is_in 1 (dropped all) ≡ true)
        × (save 1 (guest true) world_6 ≡ err stale_session))
save_lem_example = save_lem files world_6 1 (guest true) (and_then steps steps_on) refl refl
