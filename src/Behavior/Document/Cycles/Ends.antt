-- ===== src/Behavior/Document/Cycles/Ends.antt =====
-- crates/kr0ki-behavior/src/validation.rs, `containment_cycles`: its loops end.
use kr0ki.Common.{
  ℕ, zero, suc, ◌+◌, ◌≤◌, String, ◌≡◌, refl, true, false, List, [], ◌∷◌, ◌++◌, arith, length, All,
  Bool-cases, inl, inr,
}
use kr0ki.Common.OrdMap.{OrdSet, contains, add}
use kr0ki.Behavior.Document.Cycles.Costs.{
  cost-add, cost-nil, unvisited, unvisited-add, unvisited-cost,
}
use kr0ki.Behavior.Document.Cycles.Vertices.{AreIn, forward-AreIn, reverse-AreIn}
use kr0ki.Behavior.Document.Cycles.{
  Contains, forward, reverse, walk, cost, push_parents, collect, ids_of,
}

abbrev weight : List (String × List String) → ℕ
weight [] = 0
weight ((node, children) ∷ below) = suc (length children) + weight below

-- The first traversal ends, from any pending vertices: each turn takes one off the children that are
-- still to be looked at, or moves a vertex that is not visited yet to the pending ones.
pub walk_ends :
    (m : Contains) (ids : List String) (fuel : ℕ) (pending : List (String × List String))
    (visited : OrdSet) (finished : List String)
    → ((k : String) → AreIn ids (forward m k))
    → All (λ p. AreIn ids p.1) pending
    → weight pending + cost m ids visited ≤ fuel
    → (walk fuel m pending visited finished).0 ≡ []
unfolding walk
walk_ends m ids fuel [] visited finished closed inside enough = refl
walk_ends m ids zero ((node, children) ∷ below) visited finished closed inside enough =
    absurd (omega (arith, enough))
walk_ends m ids (suc fuel) ((node, []) ∷ below) visited finished closed (here, inside) enough =
    walk_ends m ids fuel below visited (node ∷ finished) closed inside (omega (arith, enough))
walk_ends m ids (suc fuel) ((node, child ∷ more) ∷ below) visited finished closed
      ((child_in, here), inside) enough =
    elim (Bool-cases (contains child visited)) [
      | inl seen ↦
          rw (walk, seen)
            (walk_ends m ids fuel ((node, more) ∷ below) visited finished closed (here, inside)
              (omega (arith, enough)))
      | inr fresh ↦
          let less = cost-add m child ids visited child_in fresh in
          rw (walk, fresh)
            (walk_ends m ids fuel ((child, forward m child) ∷ (node, more) ∷ below)
              (add child visited) finished closed (closed child, (here, inside))
              (omega (arith, enough, less)))
    ]

-- Pushing the parents of a vertex moves vertices from the ones to be visited to the pending ones.
push_parents-count :
    (ids parents pending : List String) (visited : OrdSet)
    → AreIn ids parents
    → let (pending', visited') = push_parents parents pending visited in
      length pending' + unvisited ids visited' ≤ length pending + unvisited ids visited
unfolding push_parents
push_parents-count ids [] pending visited inside = omega arith
push_parents-count ids (k ∷ ks) pending visited (k_in, inside) =
    elim (Bool-cases (contains k visited)) [
      | inl seen ↦ rw (push_parents, seen) (push_parents-count ids ks pending visited inside)
      | inr fresh ↦
          let less = unvisited-add k ids visited k_in fresh in
          let more = push_parents-count ids ks (k ∷ pending) (add k visited) inside in
          rw (push_parents, fresh) (omega (arith, less, more))
    ]

-- The second traversal ends: each turn takes a vertex off those that are pending or not visited.
pub collect_ends :
    (m : Contains) (ids : List String) (fuel : ℕ) (pending : List String) (visited : OrdSet)
    (component : List String)
    → ((k : String) → AreIn ids (reverse m k))
    → length pending + unvisited ids visited ≤ fuel
    → (collect fuel m pending visited component).0 ≡ []
unfolding collect
collect_ends m ids fuel [] visited component closed enough = refl
collect_ends m ids zero (node ∷ pending) visited component closed enough =
    absurd (omega (arith, enough))
collect_ends m ids (suc fuel) (node ∷ pending) visited component closed enough =
    let count = push_parents-count ids (reverse m node) pending visited (closed node) in
    collect_ends m ids fuel (push_parents (reverse m node) pending visited).0
      (push_parents (reverse m node) pending visited).1 (component ++ (node ∷ [])) closed
      (omega (arith, enough, count))

-- Both traversals of `containment_cycles` end on the fuel they are given, from every vertex that is not
-- visited yet: nothing is pending any more, whatever the edges are, in cycles too.
pub traversals_end :
    (m : Contains) (start : String) (visited : OrdSet) (finished component : List String)
    → contains start (ids_of m) ≡ true
    → contains start visited ≡ false
    → let fuel = cost m (ids_of m) [] in
      ((walk fuel m ((start, forward m start) ∷ []) (add start visited) finished).0 ≡ [])
      × ((collect fuel m (start ∷ []) (add start visited) component).0 ≡ [])
traversals_end m start visited finished component vertex fresh =
    let ids = ids_of m in
    let all_ = cost-nil m ids visited in
    let start_cost = cost-add m start ids visited vertex fresh in
    let one = unvisited-add start ids visited vertex fresh in
    let few = unvisited-cost m ids visited in
    (
      walk_ends m ids (cost m ids []) ((start, forward m start) ∷ []) (add start visited) finished
          (forward-AreIn m) (forward-AreIn m start, tt) (omega (arith, all_, start_cost)),
      collect_ends m ids (cost m ids []) (start ∷ []) (add start visited) component
          (reverse-AreIn m) (omega (arith, all_, one, few)),
    )
