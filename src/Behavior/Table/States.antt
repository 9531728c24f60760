-- ===== src/Behavior/Table/States.antt =====
-- The loop over the states, against the table as a whole.
use kr0ki.Common.{
  String, eq_iff, ◌≡◌, ◌∙◌, refl, Bool, true, not, ◌&&◌, ◌||◌, List, [], ◌∷◌, arith, if◌then◌else◌,
  all, is_some,
}
use kr0ki.Common.OrdMap
use kr0ki.Common.OrdMap.{OrdMap, lookup-insert, lookup-nil}
use kr0ki.Behavior.Model.{State}
use kr0ki.Behavior.Table.{nonempty, check_states, is_terminal_in}
use kr0ki.Behavior.Table.Spec.{has_state, has_terminal, distinct_states}
use kr0ki.Behavior.Table.Findings.{flawed, flawed-append, flawed-error}

-- The map as the loop leaves it for the rest of the list.
abbrev after : OrdMap State → State → OrdMap State
after m s = if nonempty s.id then OrdMap.insert s.id s m else m

check_states-map :
    (s : State) (rest : List State) (m : OrdMap State)
    → (check_states (s ∷ rest) m).0 ≡ (check_states rest (after m s)).0
unfolding check_states
check_states-map s rest m = refl

check_states-flawed :
    (s : State) (rest : List State) (m : OrdMap State)
    → flawed (check_states (s ∷ rest) m).1 ≡ (
        (not (nonempty s.id) || OrdMap.contains_key s.id m)
        || flawed (check_states rest (after m s)).1)
unfolding check_states
check_states-flawed s rest m = rw (flawed-append, flawed-error)

abbrev pub fresh : OrdMap State → List State → Bool
fresh m states = all (λ s. not (OrdMap.contains_key s.id m)) states

fresh-insert :
    (k : String) (v : State) (m : OrdMap State) (states : List State)
    → fresh (OrdMap.insert k v m) states ≡ (fresh m states && not (has_state states k))
fresh-insert k v m [] = refl
fresh-insert k v m (s ∷ rest) =
    ground (arith, lookup-insert k s.id v m, eq_iff k s.id, eq_iff s.id k, fresh-insert k v m rest)

-- The loop finds an error unless the ids are new, not blank and distinct.
pub check_states_lem :
    (states : List State) (m : OrdMap State)
    → flawed (check_states states m).1 ≡ not (fresh m states && distinct_states states)
check_states_lem [] m = unfold check_states flawed in refl
check_states_lem (s ∷ rest) m =
    check_states-flawed s rest m
    ∙ ground (arith, check_states_lem rest (after m s), fresh-insert s.id s m rest)

-- The map that the loop returns holds the entries that it began with and the states of the list.
pub lookup-check_states :
    (states : List State) (m : OrdMap State) (k : String)
    → distinct_states states ≡ true
    → is_some (OrdMap.lookup k (check_states states m).0)
      ≡ (has_state states k || is_some (OrdMap.lookup k m))
lookup-check_states [] m k h = unfold check_states in refl
lookup-check_states (s ∷ rest) m k h = rw check_states-map (
    lookup-check_states rest (after m s) k (ground arith)
    ∙ ground (arith, lookup-insert s.id k s m))

-- The map's state at an id is terminal exactly when some state of the list with that id is.
pub terminal-check_states :
    (states : List State) (m : OrdMap State) (k : String)
    → (fresh m states && distinct_states states) ≡ true
    → is_terminal_in (check_states states m).0 k ≡ (has_terminal states k || is_terminal_in m k)
terminal-check_states [] m k h = unfold check_states in refl
terminal-check_states (s ∷ rest) m k h = rw check_states-map (
    terminal-check_states rest (after m s) k (ground (arith, fresh-insert s.id s m rest))
    ∙ unfold is_terminal_in in ground (arith, lookup-insert s.id k s m, eq_iff s.id k))

pub fresh-nil : (states : List State) → fresh [] states ≡ true
fresh-nil [] = refl
fresh-nil (s ∷ rest) = ground (arith, lookup-nil {V = State} s.id, fresh-nil rest)
