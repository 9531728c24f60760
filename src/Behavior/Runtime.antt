-- ===== src/Behavior/Runtime.antt =====
-- crates/kr0ki-behavior/src/machine.rs: the executor over a transition table. A method with
-- `&mut self` returns the new runtime; the application's context is an interface.
pub mod Selection
pub mod Trace
use kr0ki.Common.{
  String, ◌==◌, Bool, true, false, ◌&&◌, Option, none, some, List, [], ◌∷◌, ◌++◌, if◌then◌else◌,
  any, filter, is_some,
}
use kr0ki.Common.Results.{Result, ok, err, map_err, ◌>>=◌}
use kr0ki.Behavior.Model.{State, Transition, StateMachine, Diagnostic}
use kr0ki.Behavior.Table.{ensure_valid}

-- `trait RuntimeContext`: `guard` takes `&self`, `effect` takes `&mut self`.
pub record RuntimeContext (C : Type 0) : Type 0 where
  pub guard : C → String → Result Bool String
  pub effect : C → String → C × Result (Unit {0}) String

pub record TransitionTrace : Type 0 where
  pub transition : String
  pub from : String
  pub to : String
  pub event : String
  pub guard : Option String
  pub effect : Option String
  pub terminal : Bool

pub data RuntimeError : Type 0 where
  invalid_model : List Diagnostic → RuntimeError
  terminal_state : String → RuntimeError
  no_transition : String → String → RuntimeError
  ambiguous : String → String → RuntimeError
  guard_failed : String → String → RuntimeError
  effect_failed : String → String → RuntimeError

pub record StateMachineRuntime : Type 0 where
  pub machine : StateMachine
  pub state : String
  pub trace : List TransitionTrace

unfoldable pub new : StateMachine → Result StateMachineRuntime RuntimeError
new machine = map_err invalid_model (ensure_valid machine) >>= λ _.
    ok (record { machine = machine; state = machine.initial; trace = [] })

-- `is_terminal`, of a state of the table.
unfoldable pub is_terminal_state : StateMachine → String → Bool
is_terminal_state m state = any (λ s. s.id == state && s.terminal) m.states

unfoldable pub is_terminal : StateMachineRuntime → Bool
unfolding is_terminal_state
is_terminal r = is_terminal_state r.machine r.state

-- The transitions that the loop of `step` goes through.
unfoldable pub candidates : StateMachine → String → String → List Transition
candidates m state event = filter (λ t. t.from == state && t.event == event) m.transitions

trace_of : StateMachine → String → Transition → TransitionTrace
unfolding is_terminal_state
trace_of m event t = record {
  transition = t.id;
  from = t.from;
  to = t.to;
  event = event;
  guard = t.guard;
  effect = t.effect;
  terminal = is_terminal_state m t.to;
}

-- The rest of `step`, once a transition has been selected and its effect has answered.
unfoldable pub move :
    StateMachineRuntime
    → String
    → Transition
    → Result (Unit {0}) RuntimeError
    → StateMachineRuntime × Result TransitionTrace RuntimeError
unfolding trace_of
move r event t (err e) = (r, err e)
move r event t (ok _) =
    let entry = trace_of r.machine event t in
    (record r { state = t.to; trace = r.trace ++ (entry ∷ []) }, ok entry)

module _ {C : Type 0} (ctx : RuntimeContext C) where
  -- The value of a transition's guard; one with no guard is enabled.
  unfoldable pub guard_value : C → Transition → Result Bool RuntimeError
  guard_value c t = elim t.guard [
    | none ↦ ok true
    | some name ↦ map_err (guard_failed name) (ctx.guard c name)
  ]

  -- The loop: the enabled transition so far, or an error at the second one.
  unfoldable pub select :
      C
      → String
      → String
      → Option Transition
      → List Transition
      → Result (Option Transition) RuntimeError
  unfolding guard_value
  select c state event enabled [] = ok enabled
  select c state event enabled (t ∷ rest) = guard_value c t >>= λ selected.
      if selected && is_some enabled
      then err (ambiguous state event)
      else select c state event (if selected then some t else enabled) rest

  -- `context.effect(name)` of the selected transition, if it names one.
  unfoldable pub run_effect : C → Option String → C × Result (Unit {0}) RuntimeError
  run_effect c none = (c, ok tt)
  run_effect c (some name) =
      let (c', answer) = ctx.effect c name in (c', map_err (effect_failed name) answer)

  unfoldable pub take_selected :
      StateMachineRuntime
      → String
      → C
      → Result (Option Transition) RuntimeError
      → StateMachineRuntime × C × Result TransitionTrace RuntimeError
  unfolding run_effect move
  take_selected r event c (err e) = (r, c, err e)
  take_selected r event c (ok none) = (r, c, err (no_transition r.state event))
  take_selected r event c (ok (some t)) =
      let (c', answer) = run_effect c t.effect in
      let (r', result) = move r event t answer in (r', c', result)

  unfoldable pub step :
      StateMachineRuntime
      → String
      → C
      → StateMachineRuntime × C × Result TransitionTrace RuntimeError
  unfolding is_terminal candidates select take_selected
  step r event c =
      if is_terminal r
      then (r, c, err (terminal_state r.state))
      else take_selected r event c
          (select c r.state event none (candidates r.machine r.state event))
