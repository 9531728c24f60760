-- ===== src/Behavior/Table.antt =====
-- crates/kr0ki-behavior/src/validation.rs, `impl StateMachine`: structural validation of a table of
-- transitions. A finding is appended at each point at which the source appends it.

pub mod Spec
pub mod Findings
pub mod States
pub mod Rows
pub mod Validity
pub mod Reach
use kr0ki.Common.{
  ℕ, String, ◌<>◌, ◌==◌, Bool, true, false, not, ◌&&◌, ◌||◌, Option, none, some, List, [], ◌∷◌,
  ◌++◌, if◌then◌else◌, is_some_and, is_empty, filter,
}
use kr0ki.Common.Results.{Result, ok, err}
use kr0ki.Common.Text.{trims_to_something}
use kr0ki.Common.Sort.{sort_by}
use kr0ki.Common.OrdMap
use kr0ki.Common.OrdMap.{OrdMap, OrdSet}
use kr0ki.Behavior.Model.{
  Anchor, Severity, error, warning, Diagnostic, State, Transition, StateMachine, compare_diagnostic,
  is_error,
}

unfoldable pub nonempty : String → Bool
unfolding trims_to_something
nonempty value = trims_to_something value

-- `finding(&mut findings, …)` under a test: one diagnostic, or none.
unfoldable pub finding_if : Bool → String → Severity → String → Option Anchor → List Diagnostic
finding_if false code severity message anchor = []
finding_if true code severity message anchor =
    record { code = code; severity = severity; message = message; anchor = anchor } ∷ []

-- The loop over the states: the map of states by id, and the findings.
unfoldable pub check_states : List State → OrdMap State → OrdMap State × List Diagnostic
check_states [] states = (states, [])
check_states (s ∷ rest) states =
    let bad = not (nonempty s.id) || OrdMap.contains_key s.id states in
    let states' = if nonempty s.id then OrdMap.insert s.id s states else states in
    let (all_states, found) = check_states rest states' in
    (
      all_states,
      finding_if bad "duplicate_state" error ("state id is empty or duplicated: " <> s.id) s.anchor
          ++ found,
    )

-- What the loop over the transitions remembers.
pub record Seen : Type 0 where
  pub ids : OrdSet
  pub unguarded : List (String × String)

unfoldable pub has_pair : String → String → List (String × String) → Bool
has_pair a b [] = false
has_pair a b ((x, y) ∷ rest) = (x == a && y == b) || has_pair a b rest

unfoldable pub is_terminal_in : OrdMap State → String → Bool
is_terminal_in states id = is_some_and (OrdMap.lookup id states) (λ s. s.terminal)

abbrev pub is_unguarded : Option String → Bool
is_unguarded none = true
is_unguarded (some _) = false

-- The body of the loop over the transitions, for one transition.
unfoldable pub check_transition : OrdMap State → Seen → Transition → Seen × List Diagnostic
check_transition states seen t =
    let bad_id = not (nonempty t.id) || OrdMap.contains t.id seen.ids in
    let absent = not (OrdMap.contains_key t.from states) || not (OrdMap.contains_key t.to states) in
    let blank =
      not (nonempty t.event)
      || is_some_and t.guard (λ s. not (nonempty s))
      || is_some_and t.effect (λ s. not (nonempty s)) in
    let repeated = is_unguarded t.guard && has_pair t.from t.event seen.unguarded in
    (
      record {
        ids = if nonempty t.id then OrdMap.add t.id seen.ids else seen.ids;
        unguarded =
            if is_unguarded t.guard then (t.from, t.event) ∷ seen.unguarded else seen.unguarded;
      },
      finding_if bad_id "duplicate_transition" error
            ("transition id is empty or duplicated: " <> t.id) t.anchor
          ++ finding_if absent "transition_target" error
              ("transition " <> t.id <> " references absent state") t.anchor
          ++ finding_if (is_terminal_in states t.from) "terminal_transition" error
              ("terminal state " <> t.from <> " has outgoing transition") t.anchor
          ++ finding_if blank "transition_content" error
              "event, guard and effect identifiers must be nonempty" t.anchor
          ++ finding_if repeated "ambiguous_transition" error
              ("multiple unguarded transitions for " <> t.from <> " / " <> t.event) t.anchor,
    )

unfoldable pub check_transitions : OrdMap State → Seen → List Transition → List Diagnostic
check_transitions states seen [] = []
check_transitions states seen (t ∷ rest) =
    let (seen', found) = check_transition states seen t in
    found ++ check_transitions states seen' rest

-- The targets of the transitions that leave a state, in the table's order.
unfoldable pub targets : String → List Transition → List String
targets state [] = []
targets state (t ∷ rest) =
    let more = targets state rest in if t.from == state then t.to ∷ more else more

-- `pending.extend(…)` on a stack whose top stands first.
unfoldable pub push_all : List String → List String → List String
push_all [] pending = pending
push_all (x ∷ xs) pending = push_all xs (x ∷ pending)

-- `while let Some(state) = pending.pop()`: the states reached, and what is still pending when the
-- fuel runs out.
unfoldable pub reach_loop : ℕ → List Transition → List String → OrdSet → OrdSet × List String
reach_loop fuel ts [] reached = (reached, [])
reach_loop ℕ.zero ts (state ∷ pending) reached = (reached, state ∷ pending)
reach_loop (ℕ.suc fuel) ts (state ∷ pending) reached = elim (OrdMap.contains state reached) [
  | true ↦ reach_loop fuel ts pending reached
  | false ↦ reach_loop fuel ts (push_all (targets state ts) pending) (OrdMap.add state reached)
]

abbrev pub transition_count : List Transition → ℕ
transition_count [] = 0
transition_count (t ∷ ts) = ℕ.suc (transition_count ts)

-- Each transition is pushed at most once, and the initial state once: this fuel is enough.
unfoldable pub reachable : StateMachine → OrdSet
reachable m =
    (reach_loop (ℕ.suc (transition_count m.transitions)) m.transitions (m.initial ∷ []) []).0

unfoldable pub check_reachable : String → OrdSet → List State → List Diagnostic
check_reachable initial reached [] = []
check_reachable initial reached (s ∷ rest) =
    finding_if (not (OrdMap.contains s.id reached)) "unreachable_state" warning
      ("state " <> s.id <> " is unreachable from initial state " <> initial) s.anchor
    ++ check_reachable initial reached rest

abbrev pub nothing_seen : Seen
nothing_seen = record { ids = []; unguarded = [] }

unfoldable pub validate : StateMachine → List Diagnostic
validate m =
    let (states, found) = check_states m.states [] in
    sort_by compare_diagnostic (
      finding_if (not (nonempty m.id) || not (nonempty m.name)) "machine_identifier" error
        "machine id and name must be nonempty" none
      ++ (found
          ++ (finding_if (not (OrdMap.contains_key m.initial states)) "initial_state" error
                "initial state must exist" none
              ++ (check_transitions states nothing_seen m.transitions
                  ++ check_reachable m.initial (reachable m) m.states))))

-- `ensure_valid`: the errors among the findings, or nothing.
unfoldable pub ensure_valid : StateMachine → Result (Unit {0}) (List Diagnostic)
unfolding validate
ensure_valid m =
    let errors = filter is_error (validate m) in if is_empty errors then ok tt else err errors
