-- ===== src/Behavior/Table/Validity.antt =====
-- The decision of `ensure_valid`: the findings hold an error exactly when the table is not well
-- formed.
use kr0ki.Common.{
  ◌≡◌, ◌↔◌, ◌∙◌, refl, true, false, not, ◌&&◌, ◌||◌, List, [], ◌∷◌, arith, String, all, Bool-cases,
  inl, inr,
}
use kr0ki.Common.Results.{ok}
use kr0ki.Common.OrdMap
use kr0ki.Common.OrdMap.{OrdMap, OrdSet, contains-nil, lookup-nil}
use kr0ki.Common.Sort.{sort_by, any-sort_by}
use kr0ki.Behavior.Model.{Diagnostic, State, Transition, StateMachine, is_error, compare_diagnostic}
use kr0ki.Behavior.Table.{
  nonempty, check_states, check_transitions, check_reachable, reachable, validate, ensure_valid,
  nothing_seen, is_terminal_in, has_pair,
}
use kr0ki.Behavior.Table.Spec.{
  distinct_states, distinct_transitions, unambiguous, good_row, well_formed,
}
use kr0ki.Behavior.Table.Findings.{
  flawed, flawed-nil, flawed-append, flawed-error, flawed-warning, is_empty-filter,
}
use kr0ki.Behavior.Table.States.{
  fresh-nil, check_states_lem, lookup-check_states, terminal-check_states,
}
use kr0ki.Behavior.Table.Rows.{row_in, new_ids, new_pairs, check_transitions_lem}

flawed-sort_by : (ds : List Diagnostic) → flawed (sort_by compare_diagnostic ds) ≡ flawed ds
unfolding flawed
flawed-sort_by ds = any-sort_by compare_diagnostic is_error ds

-- A state that is not reached is a warning.
flawed-check_reachable :
    (initial : String) (reached : OrdSet) (states : List State)
    → flawed (check_reachable initial reached states) ≡ false
unfolding check_reachable
flawed-check_reachable initial reached [] = flawed-nil
flawed-check_reachable initial reached (s ∷ rest) =
    rw (flawed-append, flawed-warning, flawed-check_reachable initial reached rest)

states_of : StateMachine → OrdMap State
states_of m = (check_states m.states []).0

flawed-validate :
    (m : StateMachine)
    → flawed (validate m) ≡ (
        not (nonempty m.id && nonempty m.name)
        || flawed (check_states m.states []).1
        || not (OrdMap.contains_key m.initial (states_of m))
        || flawed (check_transitions (states_of m) nothing_seen m.transitions))
unfolding validate states_of
flawed-validate m = rw flawed-sort_by (
    simp (flawed-append, flawed-error)
      (ground (arith, flawed-check_reachable m.initial (reachable m) m.states)))

new_ids-nothing : (ts : List Transition) → new_ids nothing_seen ts ≡ true
new_ids-nothing [] = refl
new_ids-nothing (t ∷ ts) = ground (arith, contains-nil t.id, new_ids-nothing ts)

new_pairs-nothing : (ts : List Transition) → new_pairs nothing_seen ts ≡ true
unfolding has_pair
new_pairs-nothing [] = refl
new_pairs-nothing (t ∷ ts) = ground (arith, new_pairs-nothing ts)

no_terminal : (k : String) → is_terminal_in [] k ≡ false
unfolding is_terminal_in
no_terminal k = rw (lookup-nil {V = State} k)

-- In the map of distinct states a row is good as it is in the list.
row_in-states :
    (states : List State)
    → distinct_states states ≡ true
    → (t : Transition) → row_in (check_states states []).0 t ≡ good_row states t
row_in-states states d t = ground (
  arith,
  lookup-check_states states [] t.from d,
  lookup-check_states states [] t.to d,
  terminal-check_states states [] t.from (ground (arith, fresh-nil states)),
  lookup-nil {V = State} t.from,
  lookup-nil {V = State} t.to,
  no_terminal t.from,
)

rows_in-states :
    (states : List State)
    → distinct_states states ≡ true
    → (ts : List Transition) → all (row_in (check_states states []).0) ts ≡ all (good_row states) ts
rows_in-states states d [] = refl
rows_in-states states d (t ∷ ts) = rw (row_in-states states d t, rows_in-states states d ts)

states_found-distinct :
    (states : List State) → flawed (check_states states []).1 ≡ not (distinct_states states)
states_found-distinct states = check_states_lem states [] ∙ ground (arith, fresh-nil states)

transitions_found :
    (states : OrdMap State) (ts : List Transition)
    → flawed (check_transitions states nothing_seen ts)
      ≡ not (distinct_transitions ts && unambiguous ts && all (row_in states) ts)
transitions_found states ts =
    check_transitions_lem states nothing_seen ts
    ∙ ground (arith, new_ids-nothing ts, new_pairs-nothing ts)

flawed-not-well_formed : (m : StateMachine) → flawed (validate m) ≡ not (well_formed m)
unfolding well_formed states_of
flawed-not-well_formed m = elim (Bool-cases (distinct_states m.states)) [
  | inl d ↦
      rw (flawed-validate, states_found-distinct, transitions_found)
        (rw (rows_in-states m.states d m.transitions) (
          ground (
            arith,
            d,
            lookup-check_states m.states [] m.initial d,
            lookup-nil {V = State} m.initial,
          )))
  | inr d ↦ rw (flawed-validate, states_found-distinct) (ground (arith, d))
]

-- `ensure_valid` accepts a table exactly when its names are not blank, its states and its
-- transitions have distinct ids, its initial state is one of them, no two rows without a guard
-- leave one state on one event, and every row joins two of its states and leaves no terminal one.
pub ensure_valid-iff_well_formed :
    (m : StateMachine) → (ensure_valid m ≡ ok tt) ↔ (well_formed m ≡ true)
unfolding ensure_valid
ensure_valid-iff_well_formed m = (
  λ h. ground (arith, flawed-not-well_formed m, is_empty-filter (validate m)),
  λ h. ground (arith, flawed-not-well_formed m, is_empty-filter (validate m)),
)
