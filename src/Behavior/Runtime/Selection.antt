-- ===== src/Behavior/Runtime/Selection.antt =====
-- What the loop of `step` selects, stated without the loop: how many transitions are enabled.
use mathlib.Core.List.{Permᴰ}
use mathlib.Core.List.Permᴰ as PermD
use kr0ki.Common.{
  String, ◌==◌, ◌≡◌, ◌∙◌, refl, Bool, true, ◌&&◌, Option, none, some, List, [], ◌∷◌, arith, false,
  filter, Bool-cases, inl, inr,
}
use kr0ki.Common.Results.{Result, ok, err, map_err}
use kr0ki.Behavior.Model.{Transition, StateMachine}
use kr0ki.Behavior.Runtime.{
  RuntimeContext, RuntimeError, ambiguous, guard_failed, guard_value, select, candidates,
  StateMachineRuntime, step, take_selected, is_terminal,
}

-- None, exactly one, or several of the transitions.
pub data Enabled : Type 0 where
  nothing : Enabled
  only : Transition → Enabled
  several : Enabled

infixr 40 ◌⊔◌
abbrev pub ◌⊔◌ : Enabled → Enabled → Enabled
nothing ⊔ e = e
only t ⊔ nothing = only t
only t ⊔ only u = several
only t ⊔ several = several
several ⊔ e = several

⊔_left_comm : (a b c : Enabled) → (a ⊔ (b ⊔ c)) ≡ (b ⊔ (a ⊔ c))
⊔_left_comm a b c = ground arith

⊔_assoc : (a b c : Enabled) → ((a ⊔ b) ⊔ c) ≡ (a ⊔ (b ⊔ c))
⊔_assoc a b c = ground arith

several-⊔ : (t u : Transition) (e : Enabled) → (only t ⊔ (only u ⊔ e)) ≡ several
several-⊔ t u e = ground arith

-- The value of the guard of a transition, where it answers.
abbrev enabled_by : Result Bool RuntimeError → Transition → Enabled
enabled_by (ok true) t = only t
enabled_by _ t = nothing

-- What the loop returns for each count.
abbrev pub choose : String → String → Enabled → Result (Option Transition) RuntimeError
choose state event nothing = ok none
choose state event (only t) = ok (some t)
choose state event several = err (ambiguous state event)

abbrev so_far : Option Transition → Enabled
so_far none = nothing
so_far (some t) = only t

module _ {C : Type 0} (ctx : RuntimeContext C) (c : C) where
  -- The enabled transitions of a list, counted with no regard to order.
  unfoldable pub enabled_of : List Transition → Enabled
  enabled_of [] = nothing
  enabled_of (t ∷ ts) = enabled_by (guard_value ctx c t) t ⊔ enabled_of ts

  -- Every guard answers.
  abbrev pub Answers : Type 0
  Answers = (name : String) → (b : Bool) × (ctx.guard c name ≡ ok b)

  guard_answers : Answers → (t : Transition) → (b : Bool) × (guard_value ctx c t ≡ ok b)
  unfolding guard_value
  guard_answers all t = go t.guard
    where
      go :
          (g : Option String)
          → (b : Bool) × (elim g [
            | none ↦ ok true
            | some name ↦ map_err (guard_failed name) (ctx.guard c name)
          ]
              ≡ ok b)
      go none = (true, refl)
      go (some name) = let (b, e) = all name in (b, ground arith)

  select-from :
      Answers
      → (state event : String) (acc : Option Transition) (ts : List Transition)
      → select ctx c state event acc ts ≡ choose state event (so_far acc ⊔ enabled_of ts)
  unfolding select enabled_of
  select-from all state event none [] = refl
  select-from all state event (some t) [] = refl
  select-from all state event acc (t ∷ ts) =
      let (b, e) = guard_answers all t in
      ground (arith, e, select-from all state event acc ts, select-from all state event (some t) ts)

  pub select_lem :
      Answers
      → (state event : String) (ts : List Transition)
      → select ctx c state event none ts ≡ choose state event (enabled_of ts)
  select_lem all state event ts = select-from all state event none ts

  pub enabled_of-perm : {ts us : List Transition} → Permᴰ ts us → enabled_of ts ≡ enabled_of us
  unfolding enabled_of
  enabled_of-perm Permᴰ.nil = refl
  enabled_of-perm (Permᴰ.cons e p) = ground (arith, e, enabled_of-perm p)
  enabled_of-perm (Permᴰ.swap {l = l} e f) =
      rw (e, f)
        (⊔_left_comm (enabled_by (guard_value ctx c _) _) (enabled_by (guard_value ctx c _) _)
          (enabled_of l))
  enabled_of-perm (Permᴰ.trans p q) = enabled_of-perm p ∙ enabled_of-perm q

-- `filter` on a permuted list.
filter-perm :
    (p : Transition → Bool) {ts us : List Transition}
    → Permᴰ ts us
    → Permᴰ (filter p ts) (filter p us)
filter-perm p Permᴰ.nil = Permᴰ.nil
filter-perm p (Permᴰ.cons {a} {b} e q) = elim (Bool-cases (p b)) [
  | inl t ↦ rw (e, t) (Permᴰ.cons refl (filter-perm p q))
  | inr f ↦ rw (e, f) (filter-perm p q)
]
filter-perm p (Permᴰ.swap {a} {b} {a'} {b'} {l} e f) = elim (Bool-cases (p a')) [
  | inl t ↦ elim (Bool-cases (p b')) [
    | inl u ↦ rw (e, f, t, u) (Permᴰ.swap refl refl)
    | inr u ↦ rw (e, f, t, u) (PermD.refl _)
  ]
  | inr t ↦ elim (Bool-cases (p b')) [
    | inl u ↦ rw (e, f, t, u) (PermD.refl _)
    | inr u ↦ rw (e, f, t, u) (PermD.refl _)
  ]
]
filter-perm p (Permᴰ.trans q r) = Permᴰ.trans (filter-perm p q) (filter-perm p r)

-- The same table with its transitions in another order.
abbrev pub reorder : StateMachineRuntime → List Transition → StateMachineRuntime
reorder r ts = record r { machine = record r.machine { transitions = ts } }

module _ {C : Type 0} (ctx : RuntimeContext C) where
  -- Where every guard answers, a step of a runtime whose state is not terminal acts on the count
  -- of the transitions that leave the state on the event and are enabled: none is an error, two
  -- are an error, and one is taken; their order is not looked at.
  pub step-choose :
      (c : C)
      → Answers ctx c
      → (r : StateMachineRuntime) (event : String) → is_terminal r ≡ false
      → step ctx r event c
        ≡ take_selected ctx r event c
            (choose r.state event (enabled_of ctx c (candidates r.machine r.state event)))
  unfolding step
  step-choose c all r event live = rw (live, select_lem ctx c all _ event _)

  candidates-perm :
      (c : C) (m : StateMachine) (ts : List Transition) (state event : String)
      → Permᴰ m.transitions ts
      → enabled_of ctx c (candidates m state event)
        ≡ enabled_of ctx c (candidates (record m { transitions = ts }) state event)
  unfolding candidates
  candidates-perm c m ts state event p =
      enabled_of-perm ctx c (filter-perm (λ t. t.from == state && t.event == event) p)

  -- Taking the selected transition does not look at the table's order.
  take_selected-reorder :
      (r : StateMachineRuntime) (ts : List Transition) (event : String) (c : C)
      (selected : Result (Option Transition) RuntimeError)
      → take_selected ctx (reorder r ts) event c selected ≡ (
          let (r', c', result) = take_selected ctx r event c selected in
          (reorder r' ts, c', result))
  unfolding take_selected
  take_selected-reorder r ts event c (err e) = refl
  take_selected-reorder r ts event c (ok none) = refl
  take_selected-reorder r ts event c (ok (some t)) = ground arith

  -- Where every guard answers, a table with its transitions in another order takes the same step:
  -- the same result, the same context, the same next state and trace.
  pub step-reorder :
      (c : C)
      → Answers ctx c
      → (r : StateMachineRuntime) (ts : List Transition) (event : String)
      → Permᴰ r.machine.transitions ts
      → step ctx (reorder r ts) event c
        ≡ (let (r', c', result) = step ctx r event c in (reorder r' ts, c', result))
  unfolding step
  step-reorder c all r ts event p = elim (Bool-cases (is_terminal r)) [
    | inl over ↦ rw over
    | inr live ↦
        rw (live, select_lem ctx c all _ event _, select_lem ctx c all _ event _)
          (rw (← candidates-perm c r.machine ts r.state event p) (
            take_selected-reorder r ts event c
              (choose r.state event (enabled_of ctx c (candidates r.machine r.state event)))))
  ]
