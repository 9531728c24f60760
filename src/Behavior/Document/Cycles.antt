-- ===== src/Behavior/Document/Cycles.antt =====
-- crates/kr0ki-behavior/src/validation.rs, `containment_cycles`. A vertex is its id, where the source
-- has the index of the id in the sorted list of them.
pub mod Costs
pub mod Vertices
pub mod Ends
use kr0ki.Common.{
  ℕ, zero, suc, ◌+◌, String, ◌==◌, Bool, true, false, ◌||◌, Option, none, some, List, [], ◌∷◌, ◌++◌,
  if◌then◌else◌, unwrap_or, length, any, ltb,
}
use kr0ki.Common.OrdMap
use kr0ki.Common.OrdMap.{OrdMap, OrdSet}

abbrev pub Contains : Type 0
Contains = OrdMap (List String)

unfoldable pub add_all : List String → OrdSet → OrdSet
add_all [] s = s
add_all (k ∷ ks) s = add_all ks (OrdMap.add k s)

-- The ids of both ends, sorted.
unfoldable pub ids_of : Contains → OrdSet
unfolding add_all
ids_of [] = []
ids_of ((from, targets) ∷ rest) = OrdMap.add from (add_all targets (ids_of rest))

unfoldable pub forward : Contains → String → List String
forward contains node = unwrap_or (OrdMap.lookup node contains) []

unfoldable pub times : String → String → List String → List String
times from node [] = []
times from node (to ∷ more) =
    let rest = times from node more in if to == node then from ∷ rest else rest

unfoldable pub reverse : Contains → String → List String
unfolding times
reverse [] node = []
reverse ((from, targets) ∷ rest) node = times from node targets ++ reverse rest node

-- The pending vertices, each with the children that are still to be looked at, the top first; what is
-- visited; and what is finished, the last vertex first. The fuel is one for each turn.
unfoldable pub walk :
    ℕ
    → Contains
    → List (String × List String)
    → OrdSet
    → List String
    → List (String × List String) × OrdSet × List String
unfolding forward
walk fuel contains [] visited finished = ([], visited, finished)
walk zero contains (top ∷ below) visited finished = (top ∷ below, visited, finished)
walk (suc fuel) contains ((node, []) ∷ below) visited finished =
    walk fuel contains below visited (node ∷ finished)
walk (suc fuel) contains ((node, child ∷ more) ∷ below) visited finished =
    elim (OrdMap.contains child visited) [
      | true ↦ walk fuel contains ((node, more) ∷ below) visited finished
      | false ↦
          walk fuel contains ((child, forward contains child) ∷ (node, more) ∷ below)
            (OrdMap.add child visited) finished
    ]

-- The turns that the vertices of a list ask for which are not visited: one for each of their children
-- and one to finish.
unfoldable pub cost : Contains → List String → OrdSet → ℕ
unfolding forward
cost contains [] visited = 0
cost contains (k ∷ ks) visited =
    let own = suc (length (forward contains k)) in
    (if OrdMap.contains k visited then 0 else own) + cost contains ks visited

-- The loop over the starts of the first traversal.
unfoldable pub walk_all : ℕ → Contains → List String → OrdSet → List String → List String
unfolding walk
walk_all fuel contains [] visited finished = finished
walk_all fuel contains (start ∷ more) visited finished = elim (OrdMap.contains start visited) [
  | true ↦ walk_all fuel contains more visited finished
  | false ↦
      let (left, visited', finished') =
        walk fuel contains ((start, forward contains start) ∷ []) (OrdMap.add start visited)
          finished in
      walk_all fuel contains more visited' finished'
]

-- `for &parent in &reverse[node]`
unfoldable pub push_parents : List String → List String → OrdSet → List String × OrdSet
push_parents [] pending visited = (pending, visited)
push_parents (parent ∷ more) pending visited = elim (OrdMap.contains parent visited) [
  | true ↦ push_parents more pending visited
  | false ↦ push_parents more (parent ∷ pending) (OrdMap.add parent visited)
]

-- The component of a start: what is pending, visited and collected.
unfoldable pub collect :
    ℕ → Contains → List String → OrdSet → List String → List String × OrdSet × List String
unfolding push_parents reverse
collect fuel contains [] visited component = ([], visited, component)
collect zero contains (node ∷ pending) visited component = (node ∷ pending, visited, component)
collect (suc fuel) contains (node ∷ pending) visited component =
    let (pending', visited') = push_parents (reverse contains node) pending visited in
    collect fuel contains pending' visited' (component ++ (node ∷ []))

unfoldable pub cyclic : ℕ → Contains → List String → OrdSet → List String
unfolding collect forward
cyclic fuel contains [] visited = []
cyclic fuel contains (start ∷ more) visited = elim (OrdMap.contains start visited) [
  | true ↦ cyclic fuel contains more visited
  | false ↦
      let (left, visited', component) =
        collect fuel contains (start ∷ []) (OrdMap.add start visited) [] in
      let rest = cyclic fuel contains more visited' in
      if ltb 1 (length component) || any (λ k. k == start) (forward contains start)
      then component ++ rest
      else rest
]

-- Each traversal has a turn for every vertex and every edge.
unfoldable pub containment_cycles : Contains → List String
unfolding ids_of cost walk_all cyclic
containment_cycles contains =
    let fuel = cost contains (ids_of contains) [] in
    cyclic fuel contains (walk_all fuel contains (ids_of contains) [] []) []
