-- ===== src/Player/Sessions/Registry.antt =====
-- The registry of live accounts: an invariant of its steps.
use sevensins_server.Prelude.{
  ℕ, ◌≡◌, ◌≢◌, Text, Option, some, none, List, [], ◌∷◌, Bool, true, false, ◌&&◌, ◌||◌, not, IsDict,
  lookup, lookup-insert, lookup-erase_ne, lookup-erase_self, insert-IsDict, erase-IsDict, ◌==◌,
  nat_eq, nat_beq_iff, text_eq, text_beq, text_beq_iff, if◌then◌else◌, arith,
}
use sevensins_server.Player.Sessions.{
  Loaded, World, is_in, discard, supersede, release, load, register, play, leave, forget,
}

is_in-discard :
    (i j : ℕ) (js : List ℕ) → is_in i (discard j js) ≡ (if j == i then false else is_in i js)
unfolding is_in discard
is_in-discard i j [] = ground arith
is_in-discard i j (k ∷ js) = ground (arith, is_in-discard i j js)

module _ {ℓ} {A : Type ℓ} where
  -- Tests on what the memory holds at an id.
  abbrev pub logged_in : Option (Loaded A) → Bool
  logged_in none = false
  logged_in (some x) = x.registered

  abbrev pub plays_as : Text → Option (Loaded A) → Bool
  plays_as p none = false
  plays_as p (some x) = text_beq x.player p && x.registered

  plays_as-player :
      (p q : Text) (m : Option (Loaded A)) → plays_as p m ≡ true → plays_as q m ≡ true → p ≡ q
  plays_as-player p q none h k = ground arith
  plays_as-player p q (some x) h k =
      ground (arith, text_beq_iff x.player p, text_beq_iff x.player q)

  -- With the ids that second logins dropped: a dict that logged in and is still held is superseded,
  -- or else the live one of its player. A live dict is held, and is not superseded unless its id
  -- was dropped; a superseded id was dropped, or its dict is held.
  pub record IsOwned (lost : List ℕ) (w : World A) : Type ℓ where
    pub memory_once : IsDict w.memory
    pub live_once : IsDict w.live
    pub owner :
        (i : ℕ) (x : Loaded A)
        → lookup i w.memory ≡ some x
        → x.registered ≡ true
        → is_in i w.superseded ≡ false
        → lookup x.player w.live ≡ some i
    pub live_held :
        (p : Text) (j : ℕ) → lookup p w.live ≡ some j → plays_as p (lookup j w.memory) ≡ true
    pub live_fresh :
        (p : Text) (j : ℕ)
        → lookup p w.live ≡ some j
        → (is_in j w.superseded && not (is_in j lost)) ≡ false
    pub stale_held :
        (i : ℕ)
        → is_in i w.superseded ≡ true
        → (logged_in (lookup i w.memory) || is_in i lost) ≡ true

  module _ (i : ℕ) (lost : List ℕ) (w : World A) (h : IsOwned lost w) where
    pub load-IsOwned :
        (pid : Text) (a : A) → lookup i w.memory ≡ none → IsOwned lost (load i pid a w)
    unfolding load
    load-IsOwned pid a free =
        let e : Loaded A = record { player = pid; content = a; registered = false } in
        record {
          memory_once = insert-IsDict i e w.memory h.memory_once;
          live_once = h.live_once;
          owner = λ j x at r s. ground (arith, lookup-insert i j e w.memory, h.owner j x);
          live_held = λ p j at.
              ground (arith, nat_beq_iff i j, lookup-insert i j e w.memory, h.live_held p j at);
          live_fresh = h.live_fresh;
          stale_held = λ j s.
              ground (arith, nat_beq_iff i j, lookup-insert i j e w.memory, h.stale_held j s);
        }

    module _ (x : Loaded A) (at : lookup i w.memory ≡ some x) where
      pub play-IsOwned : (a : A) → IsOwned lost (play i x a w)
      unfolding play
      play-IsOwned a =
          let e : Loaded A = record x { content = a } in
          record {
            memory_once = insert-IsDict i e w.memory h.memory_once;
            live_once = h.live_once;
            owner = λ j y at' r s.
                ground (arith, lookup-insert i j e w.memory, h.owner j y, h.owner i x);
            live_held = λ p j l.
                ground (arith, nat_beq_iff i j, lookup-insert i j e w.memory, h.live_held p j l);
            live_fresh = h.live_fresh;
            stale_held = λ j s.
                ground (arith, nat_beq_iff i j, lookup-insert i j e w.memory, h.stale_held j s);
          }

      pub leave-IsOwned : IsOwned lost (leave i x w)
      unfolding leave release
      leave-IsOwned = record {
        memory_once = ground (arith, erase-IsDict i w.memory h.memory_once);
        live_once = ground (arith, h.live_once, erase-IsDict x.player w.live h.live_once);
        owner = λ j y at' r s. ground (
          arith,
          nat_beq_iff i j,
          lookup-erase_ne i j w.memory,
          lookup-erase_self i w.memory h.memory_once,
          is_in-discard j i w.superseded,
          h.owner j y,
          text_beq_iff x.player y.player,
          lookup-erase_ne x.player y.player w.live,
        );
        live_held = λ p j l. ground (
          arith,
          nat_beq_iff i j,
          lookup-erase_ne i j w.memory,
          text_beq_iff x.player p,
          lookup-erase_ne x.player p w.live,
          lookup-erase_self x.player w.live h.live_once,
          h.live_held p j,
        );
        live_fresh = λ p j l. ground (
          arith,
          is_in-discard j i w.superseded,
          text_beq_iff x.player p,
          lookup-erase_ne x.player p w.live,
          lookup-erase_self x.player w.live h.live_once,
          h.live_fresh p j,
        );
        stale_held = λ j s. ground (
          arith,
          nat_beq_iff i j,
          is_in-discard j i w.superseded,
          lookup-erase_ne i j w.memory,
          h.stale_held j,
        );
      }

      pub register-IsOwned : x.registered ≡ false → IsOwned lost (register i x w)
      unfolding register supersede is_in
      register-IsOwned un =
          let e : Loaded A = record x { registered = true } in
          record {
            memory_once = ground (arith, insert-IsDict i e w.memory h.memory_once);
            live_once = ground (arith, insert-IsDict x.player i w.live h.live_once);
            owner = λ j y at' r s. ground (
              arith,
              nat_beq_iff i j,
              lookup-insert i j e w.memory,
              h.owner j y,
              text_beq_iff x.player y.player,
              lookup-insert x.player y.player i w.live,
            );
            live_held = λ p j l. ground (
              arith,
              nat_beq_iff i j,
              lookup-insert i j e w.memory,
              text_beq_iff x.player p,
              lookup-insert x.player p i w.live,
              h.live_held p j,
            );
            live_fresh = λ p j l. ground (
              arith,
              text_beq_iff x.player p,
              lookup-insert x.player p i w.live,
              h.live_fresh p j,
              h.live_held p j,
              h.live_held x.player j,
              h.live_held x.player i,
              plays_as-player p x.player (lookup j w.memory),
              h.stale_held i,
            );
            stale_held = λ j s. ground (
              arith,
              nat_beq_iff i j,
              lookup-insert i j e w.memory,
              h.stale_held j,
              h.live_held x.player j,
            );
          }

      pub forget-IsOwned : lookup x.player w.live ≢ some i → IsOwned (i ∷ lost) (forget i w)
      unfolding forget is_in
      forget-IsOwned idle = record {
        memory_once = erase-IsDict i w.memory h.memory_once;
        live_once = h.live_once;
        owner = λ j y at' r s. ground (
          arith,
          nat_beq_iff i j,
          lookup-erase_ne i j w.memory,
          lookup-erase_self i w.memory h.memory_once,
          h.owner j y,
        );
        live_held = λ p j l. ground (
          arith,
          nat_beq_iff i j,
          lookup-erase_ne i j w.memory,
          text_beq_iff x.player p,
          h.live_held p j,
        );
        live_fresh = λ p j l. ground (arith, h.live_fresh p j);
        stale_held =
            λ j s. ground (arith, nat_beq_iff i j, lookup-erase_ne i j w.memory, h.stale_held j s);
      }
