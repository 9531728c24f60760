-- ===== src/Behavior/Table/Spec.antt =====
-- What a valid transition table is, said of the whole table: no loop, no map and no set.
use mathlib.Core.List.{Memᴰ}
use kr0ki.Common.{String, ◌==◌, ◌≡◌, Bool, true, not, ◌&&◌, List, [], ◌∷◌, any, all, is_some_and}
use kr0ki.Behavior.Model.{State, Transition, StateMachine}
use kr0ki.Behavior.Table.{nonempty, is_unguarded}

abbrev pub has_state : List State → String → Bool
has_state states id = any (λ s. s.id == id) states

abbrev pub has_terminal : List State → String → Bool
has_terminal states id = any (λ s. s.id == id && s.terminal) states

-- No id is blank, and none occurs twice.
abbrev pub distinct_states : List State → Bool
distinct_states [] = true
distinct_states (s ∷ rest) = nonempty s.id && not (has_state rest s.id) && distinct_states rest

abbrev pub has_transition : List Transition → String → Bool
has_transition ts id = any (λ t. t.id == id) ts

abbrev pub distinct_transitions : List Transition → Bool
distinct_transitions [] = true
distinct_transitions (t ∷ rest) =
    nonempty t.id && not (has_transition rest t.id) && distinct_transitions rest

-- A row without a guard, out of a state on an event.
abbrev pub answers_always : String → String → Transition → Bool
answers_always from event t = is_unguarded t.guard && t.from == from && t.event == event

-- At most one row without a guard leaves a state on an event.
abbrev pub unambiguous : List Transition → Bool
unambiguous [] = true
unambiguous (t ∷ rest) =
    not (is_unguarded t.guard && any (answers_always t.from t.event) rest) && unambiguous rest

-- A row joins two states of the table, leaves no terminal one, and has no blank name.
abbrev pub good_row : List State → Transition → Bool
good_row states t =
    has_state states t.from
    && has_state states t.to
    && not (has_terminal states t.from)
    && nonempty t.event
    && not (is_some_and t.guard (λ s. not (nonempty s)))
    && not (is_some_and t.effect (λ s. not (nonempty s)))

unfoldable pub well_formed : StateMachine → Bool
well_formed m =
    nonempty m.id
    && nonempty m.name
    && distinct_states m.states
    && has_state m.states m.initial
    && distinct_transitions m.transitions
    && unambiguous m.transitions
    && all (good_row m.states) m.transitions

-- The rows lead from the initial state to a state.
pub data Reaches (initial : String) (ts : List Transition) : String → Type 0 where
  here : {state : String} → state ≡ initial → Reaches initial ts state
  along :
      {state : String} (t : Transition)
      → Memᴰ t ts
      → Reaches initial ts t.from
      → state ≡ t.to
      → Reaches initial ts state
