-- ===== src/Behavior/Table/Reach.antt =====
-- The search for the reachable states: it ends, and it finds the states to which rows lead.
mod Loop
use Loop.{
  open_rows-nothing, reach_loop-ends, reach_loop_sound, reach_loop-IsClosed, reach_loop-keeps,
}
use mathlib.Core.List.{Memᴰ}
use kr0ki.Common.{
  ℕ, ◌+◌, ◌≤◌, String, ◌==◌, eq_iff, ◌≡◌, ◌↔◌, refl, sym, subst, inl, inr, true, false, ◌||◌, List,
  [], ◌∷◌, arith, if◌then◌else◌, length, Bool-cases,
}
use kr0ki.Common.OrdMap
use kr0ki.Common.OrdMap.{OrdSet, contains-add, contains-nil}
use kr0ki.Behavior.Model.{Transition, StateMachine}
use kr0ki.Behavior.Table.{targets, push_all, reach_loop, transition_count, reachable}
use kr0ki.Behavior.Table.Spec.{Reaches, here, along}

module _ (m : StateMachine) where
  -- The search for the reachable states ends: with one round for the initial state and one for each
  -- row of the table, nothing is left pending.
  pub search_ends :
      (reach_loop (ℕ.suc (transition_count m.transitions)) m.transitions (m.initial ∷ []) []).1 ≡ []
  search_ends =
      reach_loop-ends (ℕ.suc (transition_count m.transitions)) m.transitions (m.initial ∷ []) []
        (omega (arith, open_rows-nothing m.transitions))

  -- The search reaches the initial state, and where it reaches the source of a row, its target.
  reachable-initial : OrdMap.contains m.initial (reachable m) ≡ true
  unfolding reachable
  reachable-initial =
      let kept =
        reach_loop-keeps m.initial m.transitions (ℕ.suc (transition_count m.transitions))
          (m.initial ∷ []) [] m.initial
          (unfold OrdMap.contains in ground (arith, eq_iff m.initial m.initial)) in
      ground (arith, kept, search_ends, contains-nil m.initial)

  reachable-row :
      (t : Transition)
      → Memᴰ t m.transitions
      → OrdMap.contains t.from (reachable m) ≡ true
      → OrdMap.contains t.to (reachable m) ≡ true
  unfolding reachable
  reachable-row t listed h =
      let closed =
        reach_loop-IsClosed m.initial m.transitions (ℕ.suc (transition_count m.transitions))
          (m.initial ∷ []) [] (λ u l e. absurd (ground (arith, contains-nil u.from))) in
      ground (arith, closed t listed h, search_ends, contains-nil t.to)

  reachable_complete :
      (k : String) → Reaches m.initial m.transitions k → OrdMap.contains k (reachable m) ≡ true
  reachable_complete k (here e) = rw e reachable-initial
  reachable_complete k (along t listed before e) =
      rw e (reachable-row t listed (reachable_complete t.from before))

  reachable_sound :
      (k : String) → OrdMap.contains k (reachable m) ≡ true → Reaches m.initial m.transitions k
  unfolding reachable
  reachable_sound =
      reach_loop_sound m.initial m.transitions (ℕ.suc (transition_count m.transitions))
        (m.initial ∷ []) []
        (λ k h.
          here {state = k}
            (unfold OrdMap.contains in ground (arith, eq_iff m.initial k, contains-nil k)))
        (λ k h. absurd (ground (arith, contains-nil k)))

  -- The states that the search finds are those to which rows of the table lead from the initial
  -- state: all of them, and no other.
  pub reachable-iff_Reaches :
      (k : String) → (OrdMap.contains k (reachable m) ≡ true) ↔ Reaches m.initial m.transitions k
  reachable-iff_Reaches k = (reachable_sound k, reachable_complete k)
