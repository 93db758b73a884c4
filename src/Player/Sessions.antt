-- ===== src/Player/Sessions.antt =====
-- Who may write an account: the registry of live states in `handle` of server/titan_server.py, with
-- `supersede`, `release` and `save` of server/player_state/core.py, as steps of several
-- connections. An account dict in memory is known by its id. An account's content is of any type.
pub mod Registry
pub mod Ownership
use sevensins_server.Prelude.{
  ℕ, ◌≡◌, ◌≢◌, Text, Option, some, none, List, [], ◌∷◌, ◌++◌, Bool, true, false, ◌&&◌, not, Dict,
  lookup, insert, erase, ◌==◌, nat_eq, text_eq, if◌then◌else◌, Result, ok, err,
}

-- The account dict of a connection, and whether its login has put it into `_live_states`.
pub record Loaded {ℓ} (A : Type ℓ) : Type ℓ where
  pub player : Text
  pub content : A
  pub registered : Bool

-- The files, `_live_states`, `_SUPERSEDED`, and the dicts in memory.
pub record World {ℓ} (A : Type ℓ) : Type ℓ where
  pub files : Dict Text A
  pub live : Dict Text ℕ
  pub superseded : List ℕ
  pub memory : Dict ℕ (Loaded A)

-- id(state) in _SUPERSEDED
unfoldable pub is_in : ℕ → List ℕ → Bool
is_in i [] = false
is_in i (j ∷ js) = if j == i then true else is_in i js

pub discard : ℕ → List ℕ → List ℕ
discard i [] = []
discard i (j ∷ js) = if j == i then discard i js else j ∷ discard i js

pub data SaveError : Type 0 where
  stale_session : SaveError

module _ {ℓ} {A : Type ℓ} where
  unfoldable pub supersede : ℕ → World A → World A
  supersede i w = record w { superseded = i ∷ w.superseded }

  pub release : ℕ → World A → World A
  release i w = record w { superseded = discard i w.superseded }

  -- `save(state)` for the dict `i`.
  unfoldable pub save : ℕ → Loaded A → World A → Result SaveError (World A)
  save i x w =
      if is_in i w.superseded
      then err stale_session
      else ok (record w { files = insert x.player x.content w.files })

  -- ps.load(pid): a dict of its own with what the file holds. A file that was repaired or made is
  -- written at once.
  unfoldable pub load : ℕ → Text → A → World A → World A
  load i pid a w = record w {
    files = insert pid a w.files;
    memory = insert i (record { player = pid; content = a; registered = false }) w.memory;
  }

  -- The block of a login under `_sessions_lock`.
  unfoldable pub register : ℕ → Loaded A → World A → World A
  register i x w =
      let v : World A = elim (lookup x.player w.live) [
        | none ↦ w
        | some old ↦ if old == i then w else supersede old w
      ] in
      record v {
        live = insert x.player i v.live;
        memory = insert i (record x { registered = true }) v.memory;
      }

  -- A request changes the connection's dict.
  unfoldable pub play : ℕ → Loaded A → A → World A → World A
  play i x a w = record w { memory = insert i (record x { content = a }) w.memory }

  -- The `finally` block, after which the dict is garbage.
  pub leave : ℕ → Loaded A → World A → World A
  leave i x w =
      let owner : Bool = elim (lookup x.player w.live) [ none ↦ false | some j ↦ j == i ] in
      let v : World A = if owner then record w { live = erase x.player w.live } else w in
      let u = release i v in record u { memory = erase i u.memory }

  -- The dict `i` of a connection that logged in a second time: nothing holds it any more, and its
  -- id stays where it is in `_SUPERSEDED`.
  unfoldable pub forget : ℕ → World A → World A
  forget i w = record w { memory = erase i w.memory }

  -- What the connections do, one at a time, in any order. Ids of dicts in memory are different, an
  -- id is taken again once its dict is gone, and a connection saves once it has registered. A dict
  -- that is not the live one of its player goes at any time after its connection let go of it.
  pub data Step : World A → World A → Type ℓ where
    loads :
        (i : ℕ) (pid : Text) (a : A) (w : World A)
        → lookup i w.memory ≡ none
        → Step w (load i pid a w)
    registers :
        (i : ℕ) (x : Loaded A) (w : World A)
        → lookup i w.memory ≡ some x
        → x.registered ≡ false
        → Step w (register i x w)
    plays :
        (i : ℕ) (x : Loaded A) (a : A) (w : World A)
        → lookup i w.memory ≡ some x
        → Step w (play i x a w)
    saves :
        (i : ℕ) (x : Loaded A) (w v : World A)
        → lookup i w.memory ≡ some x
        → x.registered ≡ true
        → save i x w ≡ ok v
        → Step w v
    leaves :
        (i : ℕ) (x : Loaded A) (w : World A) → lookup i w.memory ≡ some x → Step w (leave i x w)
    forgets :
        (i : ℕ) (x : Loaded A) (w : World A)
        → lookup i w.memory ≡ some x
        → lookup x.player w.live ≢ some i
        → Step w (forget i w)

  pub data Steps : World A → World A → Type ℓ where
    done : (w : World A) → Steps w w
    step : (w v u : World A) → Step w v → Steps v u → Steps w u

  -- The ids of the dicts that second logins dropped.
  abbrev pub dropped_by : {w v : World A} → Step w v → List ℕ
  dropped_by (loads i pid a w f) = []
  dropped_by (registers i x w f r) = []
  dropped_by (plays i x a w f) = []
  dropped_by (saves i x w v f r e) = []
  dropped_by (leaves i x w f) = []
  dropped_by (forgets i x w f n) = i ∷ []

  unfoldable pub dropped : {w v : World A} → Steps w v → List ℕ
  dropped (done w) = []
  dropped (step w v u s t) = dropped_by s ++ dropped t
