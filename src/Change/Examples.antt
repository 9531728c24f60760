-- ===== src/Change/Examples.antt =====
-- Two requirements are proposed and committed on an in-memory server.
mod Settling
mod Races
use kr0ki.Common.{
  eq_refl, ◌||◌, subst, inl, inr, ap, sym, Bool-cases, ◌∙◌, map, if◌then◌else◌, ℕ, zero, suc,
  String, ◌==◌, ◌≡◌, ◌≤◌, refl, ◌⊎◌, Bool, true, false, ◌&&◌, Option, none, some, List, [], ◌∷◌,
  ◌++◌, All, filter_map, and_then, eqb,
}
use kr0ki.Common.Results.{ok}
use kr0ki.Common.OrdMap.{lookup, insert, remove, add, discard, contains}
use kr0ki.Sync.Model.{Json, Fields, Element, DesiredElement, DataVersion, element_identifier}
use kr0ki.Sync.Diff.{diff_managed, change_for, updated_payload, owned_field_differs}
use kr0ki.Sync.Diff.Duplicates.{is_refused, repeats, diff_managed-repeats}
use kr0ki.Change.Settling.{JsonLaws, IsWritable, change_for-settles}
use kr0ki.Change.Model.{ProposedChange, Stored, create, lock_key}
use kr0ki.Change.Service.{Proposals, propose, commit, validate}
use kr0ki.Change.InMemory.{new_server, element_of, Snapshot, Server, in_memory, post, head_id}
use kr0ki.Change.Outcomes.{Outcome, commit-Outcome}
use kr0ki.Change.Acceptance.{propose-commit}
use kr0ki.Change.Tasks.{
  Task, starts, finished, Shared, System, turn, comes, Reached, here, further, key_of, advance,
  run_alone,
}
use kr0ki.Change.Tasks.Moves.{Follows, holds}
use kr0ki.Change.Tasks.Exclusion.{IsFresh, holders, Reached-holders}
use kr0ki.Change.Tasks.Rank.{IsFinished}
use kr0ki.Change.Tasks.Progress.{Reached-finish}
use kr0ki.Change.Tasks.Alone.{left, run_alone-commit}

-- Values: texts, and lists of texts.
pub data Value : Type 0 where
  text : String → Value
  texts : List String → Value

unfoldable pub equal_texts : List String → List String → Bool
equal_texts [] [] = true
equal_texts (s ∷ ss) (t ∷ ts) = (s == t) && equal_texts ss ts
equal_texts _ _ = false

unfoldable pub equal : Value → Value → Bool
equal (text s) (text t) = s == t
equal (texts ss) (texts ts) = equal_texts ss ts
equal _ _ = false

unfoldable pub as_text : Value → Option String
as_text (text s) = some s
as_text (texts ss) = none

unfoldable pub as_list : Value → Option (List Value)
as_list (text s) = none
as_list (texts ss) = some (map text ss)

abbrev pub values : Json Value
values = record {
  eq = equal;
  of_text = text;
  of_list = λ vs. texts (filter_map as_text vs);
  as_text = as_text;
  as_list = as_list;
}

unfoldable pub numeral : ℕ → String
numeral n = if eqb n 1 then "1" else "2"

abbrev pub server : Server Value
server = new_server false

abbrev pub digest : String → Option String → Option String → List (DataVersion Value) → String
digest project branch head changes = "0123456789abcdef01234567"

abbrev pub wanted : List (DesiredElement Value)
wanted =
    record { identifier = "req:a"; type_ = "Requirement"; fields = ("name", text "A") ∷ [] } ∷ []

abbrev first_change : DataVersion Value
first_change = record {
  payload = some (
      ("@type", text "Requirement")
      ∷ ("aliasIds", texts ("req:a" ∷ []))
      ∷ ("identifier", text "req:a")
      ∷ ("name", text "A")
      ∷ []);
  identity = none;
}

abbrev pub proposal : ProposedChange
proposal = record {
  change_id = "chg-0123456789abcdef01234567";
  project_id = "p";
  branch_id = some "main";
  base_revision = none;
  summary = record { operation = create; identifier = "req:a" } ∷ [];
}

abbrev pub stored : Stored Value
stored = record { proposal = proposal; changes = first_change ∷ [] }

abbrev pub proposals : Proposals Value
proposals = (proposal.change_id, stored) ∷ []

abbrev pub id : String
id = proposal.change_id

proposed :
    propose values (in_memory values numeral) digest "p" (some "main") "req:" wanted [] server
    ≡ (server, proposals, ok proposal)
unfolding propose diff_managed head_id contains lookup insert kr0ki.Common.Text.take_chars as_text
proposed = refl

propose-commit_example :
    (new : Snapshot Value) × (after : Server Value) × (commit
        (in_memory values numeral)
        id
        none
        proposals
        server
      ≡ (
        after,
        remove id proposals,
        ok (record { change_id = id; base_revision = none; commit_id = new.id }),
      ))
    × (after.commits ≡ [] ++ (new ∷ []))
propose-commit_example =
    propose-commit values numeral digest "p" (some "main") "req:" wanted [] proposals proposal
      server server refl proposed

commit-Outcome_example :
    Outcome
      (in_memory values numeral)
      id
      (some "commit-0")
      proposals
      server
      (commit (in_memory values numeral) id (some "commit-0") proposals server)
commit-Outcome_example =
    commit-Outcome (in_memory values numeral) id (some "commit-0") proposals server

run_alone-commit_example :
    run_alone
      (in_memory values numeral)
      6
      (starts id none)
      (record { world = server; proposals = proposals; held = [] })
    ≡ left (in_memory values numeral) (commit (in_memory values numeral) id none proposals server)
run_alone-commit_example = run_alone-commit (in_memory values numeral) id none proposals server
