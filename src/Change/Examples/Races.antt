-- ===== src/Change/Examples/Races.antt =====
-- Callers that commit at the same time.
use kr0ki.Common.{
  inl, inr, ap, sym, Bool-cases, if◌then◌else◌, ℕ, String, ◌==◌, ◌≡◌, ◌≤◌, refl, none, some, List,
  [], ◌∷◌, All,
}
use kr0ki.Common.Results.{ok}
use kr0ki.Common.OrdMap.{lookup, add, discard, contains}
use kr0ki.Change.Model.{Stored, lock_key}
use kr0ki.Change.Service.{Proposals, propose, commit, validate}
use kr0ki.Change.InMemory.{Server, in_memory, post, head_id}
use kr0ki.Change.Tasks.{
  Task, starts, finished, Shared, System, turn, comes, Reached, here, further, key_of, advance,
  run_alone,
}
use kr0ki.Change.Tasks.Moves.{holds}
use kr0ki.Change.Tasks.Exclusion.{IsFresh, holders, Reached-holders}
use kr0ki.Change.Tasks.Rank.{IsFinished}
use kr0ki.Change.Tasks.Progress.{Reached-finish}
use kr0ki.Change.Examples.{Value, values, numeral, server, proposal, stored, proposals, id}

-- Two calls commit the proposal at the same time.
abbrev Model : Type 0
Model = System (in_memory values numeral)

abbrev key : String
key = "p\0main"

abbrev calm : Model
calm = record { shared = record { world = server; proposals = proposals; held = [] }; tasks = [] }

abbrev after_turns : ℕ → Model
after_turns n =
    let (shared, t) = run_alone (in_memory values numeral) n (starts id none) calm.shared in
    record { shared = shared; tasks = t ∷ starts id none ∷ [] }

abbrev Raced : ℕ → Type 0
Raced n = Reached (in_memory values numeral) (λ s. key_of s ≡ key) calm (after_turns n)

called : Raced 0
unfolding run_alone
called = further (further here (comes id none)) (comes id none)

committed : Raced 6
unfolding run_alone advance contains add discard lookup
committed =
    let go : (n : ℕ) → Task Value =
      λ n. (run_alone (in_memory values numeral) n (starts id none) calm.shared).1 in
    let others = starts id none ∷ [] in
    further
      (further
        (further
          (further
            (further (further called (turn [] others (go 0) refl)) (turn [] others (go 1) refl))
            (turn [] others (go 2) refl))
          (turn [] others (go 3) refl))
        (turn [] others (go 4) refl))
      (turn [] others (go 5) refl)

keyed : (i : String) (s : Stored Value) → lookup i proposals ≡ some s → key_of s ≡ key
unfolding lookup lock_key
keyed i s listed = elim (Bool-cases (id == i)) [
  | inl same ↦
      let at : (if id == i then some stored else none) ≡ some stored = rw same refl in
      let e : stored ≡ s = cc in ap (λ t. key_of t) (sym e)
  | inr differs ↦
      let at : (if id == i then some stored else none) ≡ none = rw differs refl in absurd (cc)
]

fresh : IsFresh values numeral key calm
fresh = record { no_tasks = refl; no_locks = refl; proposals = keyed }

Reached-holders_example :
    (holders (after_turns 6).tasks ≤ 1)
    × (holders (after_turns 6).tasks ≡ holds key (after_turns 6).shared.held)
Reached-holders_example = Reached-holders values numeral key calm (after_turns 6) fresh committed

Reached-finish_example :
    (u : Model) × Reached (in_memory values numeral) (λ s. key_of s ≡ key) (after_turns 6) u
    × All IsFinished u.tasks
Reached-finish_example = Reached-finish values numeral key calm (after_turns 6) fresh committed

-- Two calls name one branch in two ways, by its id and as the project's default: neither waits for
-- the other, and both commit on the same base.
abbrev other_way : Stored Value
other_way = record stored {
  proposal = record proposal { change_id = "chg-other"; branch_id = none };
}

aliased : List (Task Value)
aliased =
    let start : Shared (Server Value) Value = record {
      world = server;
      proposals = (id, stored) ∷ ("chg-other", other_way) ∷ [];
      held = [];
    } in
    let b = in_memory values numeral in
    let (one, t) = run_alone b 4 (starts id none) start in
    let (two, u) = run_alone b 4 (starts "chg-other" none) one in
    let (three, t') = run_alone b 2 t two in let (four, u') = run_alone b 2 u three in t' ∷ u' ∷ []

aliased_calls :
    aliased
    ≡ finished (ok (record { change_id = id; base_revision = none; commit_id = "commit-1" }))
      ∷ finished
          (ok (record { change_id = "chg-other"; base_revision = none; commit_id = "commit-2" }))
      ∷ []
unfolding aliased run_alone lookup kr0ki.Change.Service.same_revision contains head_id post add
    lock_key numeral
aliased_calls = refl
