-- ===== src/Behavior/Examples.antt =====
-- A door that opens, closes and breaks: runs of the table and of its runtime.
mod Documents
use mathlib.Core.List.{Permᴰ}
use kr0ki.Common.{
  ℕ, String, ◌==◌, ◌≡◌, ◌↔◌, refl, Bool, true, false, Option, none, some, List, [], ◌∷◌,
}
use kr0ki.Common.Results.{ok, err}
use kr0ki.Common.OrdMap
use kr0ki.Behavior.Model.{State, Transition, StateMachine}
use kr0ki.Behavior.Table.{nonempty, ensure_valid, reachable, reach_loop, transition_count}
use kr0ki.Behavior.Table.Spec.{well_formed, Reaches}
use kr0ki.Behavior.Table.Validity.{ensure_valid-iff_well_formed}
use kr0ki.Behavior.Table.Reach.{search_ends, reachable-iff_Reaches}
use kr0ki.Behavior.Runtime.{
  RuntimeContext, no_transition, StateMachineRuntime, new, step, is_terminal,
}
use kr0ki.Behavior.Runtime.Selection.{Answers, reorder, step-reorder}
use kr0ki.Behavior.Runtime.Trace.{start, next, IsCoherent, Reached-IsCoherent}

abbrev state : String → Bool → State
state id terminal = record { id = id; terminal = terminal; anchor = none }

abbrev row : String → String → String → String → Option String → Transition
row id from to event guard = record {
  id = id;
  from = from;
  to = to;
  event = event;
  guard = guard;
  effect = none;
  anchor = none;
}

abbrev opening : Transition
opening = row "t1" "closed" "open" "push" (some "unlocked")

abbrev breaking : Transition
breaking = row "t2" "closed" "broken" "push" (some "rusty")

abbrev door : StateMachine
door = record {
  id = "door";
  name = "Door";
  initial = "closed";
  states = state "closed" false ∷ state "open" false ∷ state "broken" true ∷ [];
  transitions = opening ∷ breaking ∷ row "t3" "open" "closed" "pull" none ∷ [];
}

-- The context is a number that the effects count up; a door is unlocked and not rusty.
abbrev context : RuntimeContext ℕ
context = record { guard = λ c name. ok (name == "unlocked"); effect = λ c name. (ℕ.suc c, ok tt) }

abbrev shut : StateMachineRuntime
shut = record { machine = door; state = "closed"; trace = [] }

abbrev pushed : StateMachineRuntime
pushed = (step context shut "push" 0).0

door_accepted : ensure_valid door ≡ ok tt
door_accepted = (ensure_valid-iff_well_formed door).1 (unfold well_formed nonempty in refl)

door-new : new door ≡ ok shut
unfolding new
door-new = rw door_accepted

Reached-IsCoherent_example : IsCoherent door pushed
Reached-IsCoherent_example =
    Reached-IsCoherent context {m = door} {r = pushed} (next (start door-new) "push" 0 refl)

ensure_valid-iff_well_formed_example : (ensure_valid door ≡ ok tt) ↔ (well_formed door ≡ true)
ensure_valid-iff_well_formed_example = ensure_valid-iff_well_formed door

door_answers : Answers context 0
door_answers name = (name == "unlocked", refl)

shut_live : is_terminal shut ≡ false
unfolding is_terminal
shut_live = refl

abbrev exchanged : List Transition
exchanged = breaking ∷ opening ∷ row "t3" "open" "closed" "pull" none ∷ []

step-reorder_example :
    step context (reorder shut exchanged) "push" 0
    ≡ (let (r, c, result) = step context shut "push" 0 in (reorder r exchanged, c, result))
step-reorder_example =
    step-reorder context 0 door_answers shut exchanged "push" (Permᴰ.swap refl refl)

reachable-iff_Reaches_example :
    (OrdMap.contains "open" (reachable door) ≡ true) ↔ Reaches "closed" door.transitions "open"
reachable-iff_Reaches_example = reachable-iff_Reaches door "open"

search_ends_example :
    (reach_loop (ℕ.suc (transition_count door.transitions)) door.transitions ("closed" ∷ []) []).1
    ≡ []
search_ends_example = search_ends door

pull_refused : (step context shut "pull" 0).2 ≡ err (no_transition "closed" "pull")
unfolding step
pull_refused = refl

-- The push opens the door.
pushed_open : pushed.state ≡ "open"
unfolding step
pushed_open = refl
