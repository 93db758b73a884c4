-- ===== src/Player/Quests/Completed.antt =====
-- Completion of quests under `bump_quest_counter`.
use sevensins_server.Prelude.{
  ℕ, ◌≡◌, ◌∙◌, refl, Option, some, none, List, [], ◌∷◌, lookup, lookup_or, lookup-insert, ◌==◌,
  nat_eq, if◌then◌else◌, ℤ, pos, arith,
}
use sevensins_server.Player.Types.{Design, QuestRow, SpQuest, Counters, State}
use sevensins_server.Player.Quests.{
  sp_complete, sp_in_progress, quest_completed, Touched, bumped, bump_sp, bump_case, bump_row,
  bump_rows, bump_quest_counter,
}

-- The quests that are finished, and the entry of a finished quest with a counter of its own.
abbrev pub finished_entry : ℕ → Counters → Option SpQuest
finished_entry q c = elim (lookup q c.sp_quests) [
  | none ↦ none
  | some e ↦ if e.status == sp_complete then some e else none
]

pub record SameFinished (b c : Counters) : Type 0 where
  pub quests : b.quests ≡ c.quests
  pub entries : (q : ℕ) → finished_entry q b ≡ finished_entry q c

SameFinished-trans : {a b c : Counters} → SameFinished a b → SameFinished b c → SameFinished a c
SameFinished-trans h k = record {
  quests = h.quests ∙ k.quests;
  entries = λ q. h.entries q ∙ k.entries q;
}

module _ (amount : ℤ) (to : Option ℤ) where
  bump_sp-SameFinished :
      (qid : ℕ) (row : QuestRow) (ts : List Touched) (c : Counters)
      → SameFinished (bump_sp amount to qid row (ts, c)).1 c
  unfolding bump_sp
  bump_sp-SameFinished qid row ts c = record {
    quests = ground arith;
    entries = λ q.
        let e = lookup_or qid (record { cnt = pos 0; status = sp_in_progress }) c.sp_quests in
        ground (arith, lookup-insert qid q (record e { cnt = bumped amount to e.cnt }) c.sp_quests);
  }

  bump_case-SameFinished :
      (row : QuestRow) (ts : List Touched) (c : Counters)
      → SameFinished (bump_case amount to row (ts, c)).1 c
  unfolding bump_case
  bump_case-SameFinished row ts c = record { quests = ground arith; entries = λ q. ground arith }

  module _ (case_id : ℕ) (case_v1 : Option ℕ) where
    bump_row-SameFinished :
        (qid : ℕ) (row : QuestRow) (ts : List Touched) (c : Counters)
        → SameFinished (bump_row case_id case_v1 amount to (qid, row) (ts, c)).1 c
    unfolding bump_row
    bump_row-SameFinished qid row ts c =
        let sp = bump_sp-SameFinished qid row ts c in
        let case = bump_case-SameFinished row ts c in
        record {
          quests = ground (arith, sp.quests, case.quests);
          entries = λ q. ground (arith, sp.entries q, case.entries q);
        }

    bump_rows-SameFinished :
        (rows : List (ℕ × QuestRow)) (ts : List Touched) (c : Counters)
        → SameFinished (bump_rows case_id case_v1 amount to rows (ts, c)).1 c
    unfolding bump_rows
    bump_rows-SameFinished [] ts c = record { quests = refl; entries = λ q. refl }
    bump_rows-SameFinished ((qid, row) ∷ rows) ts c =
        let (ts', c') = bump_row case_id case_v1 amount to (qid, row) (ts, c) in
        SameFinished-trans (bump_rows-SameFinished rows ts' c') (bump_row-SameFinished qid row ts c)

    -- A bump leaves the finished quests as they were: none is added, none is lost, and the entry of
    -- a finished quest keeps its count.
    pub bump-SameFinished :
        (d : Design) (s : State)
        → SameFinished (bump_quest_counter d case_id amount case_v1 to s).1.counters s.counters
    unfolding bump_quest_counter
    bump-SameFinished d s = bump_rows-SameFinished d.quests [] s.counters

    quest_completed-SameFinished :
        (b c : Counters) (q : ℕ) → SameFinished b c → quest_completed b q ≡ quest_completed c q
    unfolding quest_completed
    quest_completed-SameFinished b c q h = ground (arith, h.quests, h.entries q)

    -- No quest becomes complete or incomplete by a bump.
    pub quest_completed-bump :
        (d : Design) (s : State) (q : ℕ)
        → quest_completed (bump_quest_counter d case_id amount case_v1 to s).1.counters q
          ≡ quest_completed s.counters q
    quest_completed-bump d s q = quest_completed-SameFinished _ s.counters q (bump-SameFinished d s)
