-- ===== src/Player/Sessions/Ownership.antt =====
-- Who may save an account, after any steps of the connections.
use sevensins_server.Prelude.{
  ℕ, ◌≡◌, ◌≢◌, ◌⊎◌, refl, sym, subst, inl, inr, Text, some, Option-cases, List, [], ◌∷◌, ◌++◌, true,
  ◌||◌, Bool-cases, Dict, lookup, insert, ◌==◌, nat_eq, nat_beq_iff, text_eq, if◌then◌else◌, ok,
  err, arith,
}
use sevensins_server.Player.Sessions.{
  Loaded, World, is_in, stale_session, save, Step, loads, registers, plays, saves, leaves, forgets,
  Steps, done, step, dropped_by, dropped,
}
use sevensins_server.Player.Sessions.Registry.{
  IsOwned, load-IsOwned, play-IsOwned, leave-IsOwned, register-IsOwned, forget-IsOwned,
}

-- The ids dropped, the last one first.
abbrev onto : List ℕ → List ℕ → List ℕ
onto [] lost = lost
onto (i ∷ is) lost = onto is (i ∷ lost)

onto-append : (is js lost : List ℕ) → onto (is ++ js) lost ≡ onto js (onto is lost)
onto-append [] js lost = refl
onto-append (i ∷ is) js lost = onto-append is js (i ∷ lost)

is_in-onto : (i : ℕ) (is lost : List ℕ) → is_in i (onto is lost) ≡ (is_in i is || is_in i lost)
unfolding is_in
is_in-onto i [] lost = refl
is_in-onto i (j ∷ is) lost = ground (arith, is_in-onto i is (j ∷ lost))

module _ {ℓ} {A : Type ℓ} where
  save-ok :
      (i : ℕ) (x : Loaded A) (w v : World A)
      → save i x w ≡ ok v
      → (v.memory ≡ w.memory) × (v.live ≡ w.live) × (v.superseded ≡ w.superseded)
  unfolding save
  save-ok i x w v h = ground arith

  save-IsOwned :
      (lost : List ℕ) (i : ℕ) (x : Loaded A) (w v : World A)
      → save i x w ≡ ok v
      → IsOwned lost w
      → IsOwned lost v
  save-IsOwned lost i x w v e h =
      let (m, l, s) = save-ok i x w v e in
      record {
        memory_once = rw m h.memory_once;
        live_once = rw l h.live_once;
        owner = λ j y at r fresh. rw l (h.owner j y (rw m at at) r (rw s at fresh));
        live_held = λ p j at. rw m (h.live_held p j (rw l at at));
        live_fresh = λ p j at. rw s (h.live_fresh p j (rw l at at));
        stale_held = λ j stale. rw m (h.stale_held j (rw s at stale));
      }

  Step-IsOwned :
      {w v : World A} (lost : List ℕ) (s : Step w v)
      → IsOwned lost w
      → IsOwned (onto (dropped_by s) lost) v
  Step-IsOwned lost (loads i pid a w f) h = load-IsOwned i lost w h pid a f
  Step-IsOwned lost (registers i x w f r) h = register-IsOwned i lost w h x f r
  Step-IsOwned lost (plays i x a w f) h = play-IsOwned i lost w h x f a
  Step-IsOwned lost (saves i x w v f r e) h = save-IsOwned lost i x w v e h
  Step-IsOwned lost (leaves i x w f) h = leave-IsOwned i lost w h x f
  Step-IsOwned lost (forgets i x w f n) h = forget-IsOwned i lost w h x f n

  Steps-IsOwned :
      {w v : World A} (lost : List ℕ) (t : Steps w v)
      → IsOwned lost w
      → IsOwned (onto (dropped t) lost) v
  unfolding dropped
  Steps-IsOwned lost (done w) h = h
  Steps-IsOwned lost (step w v u s t) h =
      subst (λ l. IsOwned l u) (sym (onto-append (dropped_by s) (dropped t) lost))
        (Steps-IsOwned (onto (dropped_by s) lost) t (Step-IsOwned lost s h))

  -- When the server starts no account is held.
  abbrev pub start : Dict Text A → World A
  start files = record { files = files; live = []; superseded = []; memory = [] }

  start-IsOwned : (files : Dict Text A) → IsOwned [] (start files)
  unfolding is_in
  start-IsOwned files = record {
    memory_once = tt;
    live_once = tt;
    owner = λ i x at r s. ground arith;
    live_held = λ p j at. ground arith;
    live_fresh = λ p j at. ground arith;
    stale_held = λ i s. ground arith;
  }

  live_test :
      (p : Text) (i : ℕ) (w : World A) → (lookup p w.live ≡ some i) ⊎ (lookup p w.live ≢ some i)
  live_test p i w = elim (Option-cases (lookup p w.live)) [
    | inl absent ↦ inr (λ e. ground arith)
    | inr (j, found) ↦ elim (Bool-cases (j == i)) [
      | inl same ↦ inl (ground (arith, nat_beq_iff j i))
      | inr other ↦ inr (λ e. ground (arith, nat_beq_iff j i))
    ]
  ]

  save_test :
      (i : ℕ) (x : Loaded A) (w : World A)
      → save i x w ≡ (
          if is_in i w.superseded
          then err stale_session
          else ok (record w { files = insert x.player x.content w.files }))
  unfolding save
  save_test i x w = refl

  -- After any steps of the connections from the server's start, in any order: a connection that
  -- logged in and whose login is not the newest of that player cannot save, `save` raises
  -- StaleSession; and one whose login is the newest saves its account, which writes the account's
  -- file and nothing else, or it is refused too, but only where the id of its dict is one that a
  -- dict had which a second login of a connection dropped.
  pub save_lem :
      (files : Dict Text A) (w : World A) (i : ℕ) (x : Loaded A) (steps : Steps (start files) w)
      → lookup i w.memory ≡ some x
      → x.registered ≡ true
      → ((lookup x.player w.live ≡ some i)
          × (save i x w ≡ ok (record w { files = insert x.player x.content w.files })))
        ⊎ ((lookup x.player w.live ≢ some i) × (save i x w ≡ err stale_session))
        ⊎ ((lookup x.player w.live ≡ some i)
            × (is_in i (dropped steps) ≡ true)
            × (save i x w ≡ err stale_session))
  unfolding is_in
  save_lem files w i x steps at r =
      let h = Steps-IsOwned [] steps (start-IsOwned files) in
      let again = is_in-onto i (dropped steps) [] in
      elim (Bool-cases (is_in i w.superseded)) [
        | inl stale ↦
            let refused : save i x w ≡ err stale_session = rw (save_test, stale) in
            elim (live_test x.player i w) [
              | inl live ↦ inr (
                  inr (
                    live,
                    (let known = h.live_fresh x.player i live in ground (arith, again)),
                    refused,
                  ))
              | inr idle ↦ inr (inl (idle, refused))
            ]
        | inr fresh ↦ inl (h.owner i x at r fresh, rw (save_test, fresh))
      ]
