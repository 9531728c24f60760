-- ===== src/Behavior/Runtime/Trace.antt =====
-- What the trace of a runtime says: a walk through the table, from the initial state to the state
-- in which the runtime is.
use mathlib.Core.List.{Memᴰ}
use kr0ki.Common.{
  String, ◌==◌, eq_iff, ◌≡◌, ◌∙◌, sym, refl, ap, subst, ◌⊎◌, inl, inr, Bool, true, false, ◌&&◌,
  Option, none, some, List, [], ◌∷◌, ◌++◌, arith, filter, Bool-cases,
}
use kr0ki.Common.Results.{ok, err, Result-cases}
use kr0ki.Behavior.Model.{Transition, StateMachine}
use kr0ki.Behavior.Table.{ensure_valid}
use kr0ki.Behavior.Runtime.{
  RuntimeContext, RuntimeError, guard_value, select, candidates, StateMachineRuntime,
  TransitionTrace, step, take_selected, is_terminal, is_terminal_state, new,
}

-- The entry records a transition of the table out of a state that is not terminal.
pub record FromTable (m : StateMachine) (e : TransitionTrace) : Type 0 where
  pub row : Transition
  pub listed : Memᴰ row m.transitions
  pub names : e.transition ≡ row.id
  pub leaves : e.from ≡ row.from
  pub enters : e.to ≡ row.to
  pub reads : e.event ≡ row.event
  pub live : is_terminal_state m e.from ≡ false
  pub ends : e.terminal ≡ is_terminal_state m e.to

-- The entries lead from one state to another.
abbrev pub IsWalk : StateMachine → String → List TransitionTrace → String → Type 0
IsWalk m from [] to = from ≡ to
IsWalk m from (e ∷ es) to = (e.from ≡ from) × FromTable m e × IsWalk m e.to es to

-- The runtime runs its machine, and its trace is a walk to its state.
pub record IsCoherent (m : StateMachine) (r : StateMachineRuntime) : Type 0 where
  pub same : r.machine ≡ m
  pub walk : IsWalk m m.initial r.trace r.state

IsWalk-snoc :
    (m : StateMachine) (from via : String) (es : List TransitionTrace) (e : TransitionTrace)
    → IsWalk m from es via
    → e.from ≡ via
    → FromTable m e
    → IsWalk m from (es ++ (e ∷ [])) e.to
IsWalk-snoc m from via [] e w p t = (p ∙ sym w, t, refl)
IsWalk-snoc m from via (d ∷ es) e w p t = (w.0, w.1, IsWalk-snoc m d.to via es e w.2 p t)

mem-cons-cases : (t u : Transition) (ts : List Transition) → Memᴰ t (u ∷ ts) → (t ≡ u) ⊎ Memᴰ t ts
mem-cons-cases t u ts (Memᴰ.head e) = inl e
mem-cons-cases t u ts (Memᴰ.tail h) = inr h

mem-filter :
    (p : Transition → Bool) (t : Transition) (ts : List Transition)
    → Memᴰ t (filter p ts)
    → Memᴰ t ts × (p t ≡ true)
mem-filter p t [] h = elim h [ ]
mem-filter p t (u ∷ ts) h = elim (Bool-cases (p u)) [
  | inl keep ↦ elim (mem-cons-cases t u (filter p ts) (rw keep at h)) [
    | inl e ↦ (Memᴰ.head e, rw (e, keep))
    | inr k ↦ let (a, b) = mem-filter p t ts k in (Memᴰ.tail a, b)
  ]
  | inr drop ↦ let (a, b) = mem-filter p t ts (rw drop at h) in (Memᴰ.tail a, b)
]

mem-candidates :
    (m : StateMachine) (state event : String) (t : Transition)
    → Memᴰ t (candidates m state event)
    → Memᴰ t m.transitions × (t.from ≡ state) × (t.event ≡ event)
unfolding candidates
mem-candidates m state event t h =
    let (listed, test) = mem-filter (λ u. u.from == state && u.event == event) t m.transitions h in
    (listed, ground (arith, eq_iff t.from state), ground (arith, eq_iff t.event event))

module _ {C : Type 0} (ctx : RuntimeContext C) where
  -- A step that fails leaves the runtime as it was, state and trace.
  pub step_error-keeps :
      (r : StateMachineRuntime) (event : String) (c : C) {e : RuntimeError}
      → (step ctx r event c).2 ≡ err e
      → (step ctx r event c).0 ≡ r
  unfolding step
  step_error-keeps r event c h = ground arith

  select-mem :
      (c : C) (state event : String) (acc : Option Transition) (ts : List Transition)
      {t : Transition}
      → select ctx c state event acc ts ≡ ok (some t)
      → Memᴰ t ts ⊎ (acc ≡ some t)
  unfolding select
  select-mem c state event acc [] h = inr (ground arith)
  select-mem c state event none (u ∷ ts) {t} h = elim (Result-cases (guard_value ctx c u)) [
    | inr (e, g) ↦ absurd (ground arith)
    | inl (true, g) ↦ elim (select-mem c state event (some u) ts {t = t} (ground arith)) [
      | inl m ↦ inl (Memᴰ.tail m)
      | inr q ↦ inl (Memᴰ.head (ground arith))
    ]
    | inl (false, g) ↦ elim (select-mem c state event none ts {t = t} (ground arith)) [
      | inl m ↦ inl (Memᴰ.tail m)
      | inr q ↦ inr q
    ]
  ]
  select-mem c state event (some a) (u ∷ ts) {t} h = elim (Result-cases (guard_value ctx c u)) [
    | inr (e, g) ↦ absurd (ground arith)
    | inl (true, g) ↦ absurd (ground arith)
    | inl (false, g) ↦ elim (select-mem c state event (some a) ts {t = t} (ground arith)) [
      | inl m ↦ inl (Memᴰ.tail m)
      | inr q ↦ inr q
    ]
  ]

  select-some :
      (c : C) (state event : String) (ts : List Transition) {t : Transition}
      → select ctx c state event none ts ≡ ok (some t)
      → Memᴰ t ts
  select-some c state event ts {t} h = elim (select-mem c state event none ts {t = t} h) [
    | inl m ↦ m
    | inr q ↦ absurd (cc)
  ]

  -- The transition that a step takes, with what its taking needs.
  record Taken (r : StateMachineRuntime) (event : String) (r' : StateMachineRuntime)
      (e : TransitionTrace) : Type 0 where
    entry : FromTable r.machine e
    from_here : e.from ≡ r.state
    reads_event : e.event ≡ event
    result : r' ≡ record r { state = e.to; trace = r.trace ++ (e ∷ []) }

  take_selected-Taken :
      (r : StateMachineRuntime) (event : String) (c : C) (t : Transition) {e : TransitionTrace}
      → is_terminal_state r.machine r.state ≡ false
      → Memᴰ t r.machine.transitions
      → t.from ≡ r.state
      → t.event ≡ event
      → (take_selected ctx r event c (ok (some t))).2 ≡ ok e
      → Taken r event (take_selected ctx r event c (ok (some t))).0 e
  unfolding take_selected
  take_selected-Taken r event c t {e} live listed at_state on_event h =
      let here : e.from ≡ r.state = ground arith in
      record {
        entry = record {
          row = t;
          listed = listed;
          names = ground arith;
          leaves = ground arith;
          enters = ground arith;
          reads = ground arith;
          live = ap (is_terminal_state r.machine) here ∙ live;
          ends = ground arith;
        };
        from_here = here;
        reads_event = ground arith;
        result = ground arith;
      }

  step-Taken :
      (r : StateMachineRuntime) (event : String) (c : C) {e : TransitionTrace}
      → (step ctx r event c).2 ≡ ok e
      → Taken r event (step ctx r event c).0 e
  unfolding step
  step-Taken r event c {e} h = elim (Bool-cases (is_terminal r)) [
    | inl over ↦ absurd (ground arith)
    | inr live ↦
        elim (Result-cases (select ctx c r.state event none (candidates r.machine r.state event))) [
          | inr (x, g) ↦ absurd (ground arith)
          | inl (none, g) ↦ absurd (ground arith)
          | inl (some t, g) ↦
              let (listed, at_state, on_event) =
                mem-candidates r.machine r.state event t
                  (select-some c r.state event (candidates r.machine r.state event) g) in
              rw (live, g)
                (take_selected-Taken r event c t live listed at_state on_event (rw (live, g) at h))
        ]
  ]

  -- The runtimes that steps lead to from a new one, under any events and contexts.
  pub data Reached (m : StateMachine) : StateMachineRuntime → Type 0 where
    start : {r : StateMachineRuntime} → new m ≡ ok r → Reached m r
    next :
        {r s : StateMachineRuntime}
        → Reached m r
        → (event : String) (c : C) → (step ctx r event c).0 ≡ s
        → Reached m s

  new-IsCoherent : (m : StateMachine) (r : StateMachineRuntime) → new m ≡ ok r → IsCoherent m r
  unfolding new
  new-IsCoherent m r made = elim (Result-cases (ensure_valid m)) [
    | inl (u, fine) ↦
        let shape : r ≡ record { machine = m; state = m.initial; trace = [] } = ground arith in
        rw shape (record { same = refl; walk = refl })
    | inr (e, bad) ↦ absurd (ground arith)
  ]

  Taken-IsCoherent :
      (m : StateMachine) (r s : StateMachineRuntime) (event : String) (e : TransitionTrace)
      → Taken r event s e
      → IsCoherent m r
      → IsCoherent m s
  Taken-IsCoherent m r s event e t h = rw t.result (record {
    same = h.same;
    walk =
        IsWalk-snoc m m.initial r.state r.trace e h.walk t.from_here
          (subst (λ k. FromTable k e) h.same t.entry);
  })

  -- Whatever the events and the contexts, the trace is a walk through the validated table, from
  -- its initial state to the state of the runtime: each entry records a row of the table, out of a
  -- state that is not terminal, and says truly whether it enters a terminal state.
  pub Reached-IsCoherent :
      {m : StateMachine} {r : StateMachineRuntime} → Reached m r → IsCoherent m r
  Reached-IsCoherent {m} (start {r} made) = new-IsCoherent m r made
  Reached-IsCoherent {m} (next {r} {s} before event c to) =
      elim (Result-cases (step ctx r event c).2) [
        | inl (e, done) ↦ subst (IsCoherent m) to (
            Taken-IsCoherent m r (step ctx r event c).0 event e (step-Taken r event c done)
              (Reached-IsCoherent before))
        | inr (e, failed) ↦
            subst (IsCoherent m) (sym (step_error-keeps r event c failed) ∙ to)
              (Reached-IsCoherent before)
      ]
