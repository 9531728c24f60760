-- ===== src/Behavior/Document/Cycles/Vertices.antt =====
-- crates/kr0ki-behavior/src/validation.rs, `containment_cycles`: the ends of the edges are vertices.
use kr0ki.Common.{
  String, ◌==◌, eq_refl, ◌≡◌, ◌∙◌, refl, true, List, [], ◌∷◌, ◌++◌, arith, All, Bool-cases, inl,
  inr,
}
use kr0ki.Common.OrdMap.{OrdSet, lookup, contains, add, contains-add}
use kr0ki.Behavior.Document.Cycles.{Contains, forward, reverse, add_all, ids_of, times}

-- Every text of a list is one of the vertices.
abbrev pub AreIn : List String → List String → Type 0
AreIn ids ks = All (λ k. contains k ids ≡ true) ks

AreIn-append : (ids xs ys : List String) → AreIn ids xs → AreIn ids ys → AreIn ids (xs ++ ys)
AreIn-append ids [] ys h k = k
AreIn-append ids (x ∷ xs) ys (h, hs) k = (h, AreIn-append ids xs ys hs k)

-- A list of vertices that has all of another's.
abbrev Within : List String → List String → Type 0
Within small large = (k : String) → contains k small ≡ true → contains k large ≡ true

AreIn-Within : (small large ks : List String) → Within small large → AreIn small ks → AreIn large ks
AreIn-Within small large [] within h = tt
AreIn-Within small large (k ∷ ks) within (h, hs) =
    (within k h, AreIn-Within small large ks within hs)

add-Within : (x : String) (s : OrdSet) → Within s (add x s)
add-Within x s k h = contains-add x k s ∙ ground (arith, h)

add_all-Within : (xs : List String) (s : OrdSet) → Within s (add_all xs s)
unfolding add_all
add_all-Within [] s k h = h
add_all-Within (x ∷ xs) s k h = add_all-Within xs (add x s) k (add-Within x s k h)

add_all-AreIn : (xs : List String) (s : OrdSet) → AreIn (add_all xs s) xs
unfolding add_all
add_all-AreIn [] s = tt
add_all-AreIn (x ∷ xs) s = (
  add_all-Within xs (add x s) x (contains-add x x s ∙ rw (eq_refl x) refl),
  add_all-AreIn xs (add x s),
)

times-AreIn :
    (ids : List String) (from node : String) (targets : List String)
    → contains from ids ≡ true
    → AreIn ids (times from node targets)
unfolding times
times-AreIn ids from node [] h = tt
times-AreIn ids from node (to ∷ more) h = elim (Bool-cases (to == node)) [
  | inl here ↦ rw here (h, times-AreIn ids from node more h)
  | inr other_ ↦ rw other_ (times-AreIn ids from node more h)
]

pub forward-AreIn : (m : Contains) (k : String) → AreIn (ids_of m) (forward m k)
unfolding forward ids_of lookup
forward-AreIn [] k = tt
forward-AreIn ((from, targets) ∷ rest) k =
    let ids = add_all targets (ids_of rest) in
    elim (Bool-cases (from == k)) [
      | inl here ↦ rw here (
          AreIn-Within ids (add from ids) targets (add-Within from ids)
            (add_all-AreIn targets (ids_of rest)))
      | inr other_ ↦ rw other_ (
          AreIn-Within (ids_of rest) (add from ids) (forward rest k)
            (λ j h. add-Within from ids j (add_all-Within targets (ids_of rest) j h))
            (forward-AreIn rest k))
    ]

pub reverse-AreIn : (m : Contains) (k : String) → AreIn (ids_of m) (reverse m k)
unfolding reverse ids_of
reverse-AreIn [] k = tt
reverse-AreIn ((from, targets) ∷ rest) k =
    let ids = add_all targets (ids_of rest) in
    AreIn-append (add from ids) (times from k targets) (reverse rest k)
      (times-AreIn (add from ids) from k targets
        (contains-add from from ids ∙ rw (eq_refl from) refl))
      (AreIn-Within (ids_of rest) (add from ids) (reverse rest k)
        (λ j h. add-Within from ids j (add_all-Within targets (ids_of rest) j h))
        (reverse-AreIn rest k))
