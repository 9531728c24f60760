-- ===== src/Behavior/Table/Reach/Loop.antt =====
-- The `while` loop of the search: what its fuel must be, and what it keeps from round to round.
use mathlib.Core.List.{Memᴰ}
use kr0ki.Common.{
  ℕ, ◌+◌, ◌≤◌, String, ◌==◌, eq_iff, ◌≡◌, refl, sym, subst, inl, inr, true, false, ◌||◌, List, [],
  ◌∷◌, arith, if◌then◌else◌, length, Bool-cases,
}
use kr0ki.Common.OrdMap
use kr0ki.Common.OrdMap.{OrdSet, contains-add, contains-nil}
use kr0ki.Behavior.Model.{Transition}
use kr0ki.Behavior.Table.{targets, push_all, reach_loop, transition_count}
use kr0ki.Behavior.Table.Spec.{Reaches, along}

-- The rows out of states that are not yet reached.
pub open_rows : OrdSet → List Transition → ℕ
open_rows reached [] = 0
open_rows reached (t ∷ ts) =
    let rest = open_rows reached ts in if OrdMap.contains t.from reached then rest else ℕ.suc rest

open_rows-add :
    (state : String) (reached : OrdSet) (ts : List Transition)
    → OrdMap.contains state reached ≡ false
    → open_rows (OrdMap.add state reached) ts + length (targets state ts) ≡ open_rows reached ts
unfolding open_rows targets
open_rows-add state reached [] new = omega arith
open_rows-add state reached (t ∷ ts) new = ground (
  arith,
  contains-add state t.from reached,
  eq_iff state t.from,
  eq_iff t.from state,
  open_rows-add state reached ts new,
)

length-push_all :
    (xs pending : List String) → length (push_all xs pending) ≡ length xs + length pending
unfolding push_all
length-push_all [] pending = omega arith
length-push_all (x ∷ xs) pending = omega (arith, length-push_all xs (x ∷ pending))

reach_loop-old :
    (fuel : ℕ) (ts : List Transition) (state : String) (pending : List String) (reached : OrdSet)
    → OrdMap.contains state reached ≡ true
    → reach_loop (ℕ.suc fuel) ts (state ∷ pending) reached ≡ reach_loop fuel ts pending reached
unfolding reach_loop
reach_loop-old fuel ts state pending reached h = ground arith

reach_loop-new :
    (fuel : ℕ) (ts : List Transition) (state : String) (pending : List String) (reached : OrdSet)
    → OrdMap.contains state reached ≡ false
    → reach_loop (ℕ.suc fuel) ts (state ∷ pending) reached
      ≡ reach_loop fuel ts (push_all (targets state ts) pending) (OrdMap.add state reached)
unfolding reach_loop
reach_loop-new fuel ts state pending reached h = ground arith

-- With this fuel nothing is left pending.
pub reach_loop-ends :
    (fuel : ℕ) (ts : List Transition) (pending : List String) (reached : OrdSet)
    → length pending + open_rows reached ts ≤ fuel
    → (reach_loop fuel ts pending reached).1 ≡ []
unfolding reach_loop
reach_loop-ends ℕ.zero ts [] reached h = refl
reach_loop-ends ℕ.zero ts (state ∷ pending) reached h = absurd (omega arith)
reach_loop-ends (ℕ.suc fuel) ts [] reached h = refl
reach_loop-ends (ℕ.suc fuel) ts (state ∷ pending) reached h =
    elim (Bool-cases (OrdMap.contains state reached)) [
      | inl old ↦
          rw (reach_loop-old fuel ts state pending reached old)
            (reach_loop-ends fuel ts pending reached (omega arith))
      | inr new ↦ rw (reach_loop-new fuel ts state pending reached new) (
          reach_loop-ends fuel ts (push_all (targets state ts) pending) (OrdMap.add state reached) (
            omega (
              arith,
              open_rows-add state reached ts new,
              length-push_all (targets state ts) pending,
            )))
    ]

pub open_rows-nothing : (ts : List Transition) → open_rows [] ts ≡ transition_count ts
unfolding open_rows
open_rows-nothing [] = refl
open_rows-nothing (t ∷ ts) = ground (arith, contains-nil t.from, open_rows-nothing ts)

contains-push_all :
    (k : String) (xs pending : List String)
    → OrdMap.contains k (push_all xs pending) ≡ (OrdMap.contains k xs || OrdMap.contains k pending)
unfolding push_all OrdMap.contains
contains-push_all k [] pending = refl
contains-push_all k (x ∷ xs) pending = ground (arith, contains-push_all k xs (x ∷ pending))

-- A target comes from a row, and the rows' targets are all there.
targets-row :
    (k state : String) (ts : List Transition)
    → OrdMap.contains k (targets state ts) ≡ true
    → (t : Transition) × Memᴰ t ts × (t.from ≡ state) × (k ≡ t.to)
unfolding targets OrdMap.contains
targets-row k state [] h = absurd (ground arith)
targets-row k state (t ∷ ts) h = elim (Bool-cases (t.from == state)) [
  | inl out ↦ elim (Bool-cases (t.to == k)) [
    | inl hit ↦
        (t, Memᴰ.head refl, ground (arith, eq_iff t.from state), ground (arith, eq_iff t.to k))
    | inr miss ↦ let (u, m, e, f) = targets-row k state ts (ground arith) in (u, Memᴰ.tail m, e, f)
  ]
  | inr other ↦ let (u, m, e, f) = targets-row k state ts (ground arith) in (u, Memᴰ.tail m, e, f)
]

row-targets :
    (state : String) (ts : List Transition) (t : Transition)
    → Memᴰ t ts
    → t.from ≡ state
    → OrdMap.contains t.to (targets state ts) ≡ true
unfolding targets OrdMap.contains
row-targets state [] t m at = elim m [ ]
row-targets state (u ∷ ts) t (Memᴰ.head e) at =
    ground (arith, e, eq_iff u.from state, eq_iff u.to t.to)
row-targets state (u ∷ ts) t (Memᴰ.tail m) at = ground (arith, row-targets state ts t m at)

module _ (initial : String) (ts : List Transition) where
  abbrev pub AllReached : OrdSet → Type 0
  AllReached s = (k : String) → OrdMap.contains k s ≡ true → Reaches initial ts k

  pub reach_loop_sound :
      (fuel : ℕ) (pending : List String) (reached : OrdSet)
      → AllReached pending
      → AllReached reached
      → AllReached (reach_loop fuel ts pending reached).0
  unfolding reach_loop
  reach_loop_sound ℕ.zero [] reached p r = r
  reach_loop_sound ℕ.zero (state ∷ pending) reached p r = r
  reach_loop_sound (ℕ.suc fuel) [] reached p r = r
  reach_loop_sound (ℕ.suc fuel) (state ∷ pending) reached p r =
      let rest : AllReached pending = λ k h. p k (unfold OrdMap.contains in ground arith) in
      let top : Reaches initial ts state =
        p state (unfold OrdMap.contains in ground (arith, eq_iff state state)) in
      elim (Bool-cases (OrdMap.contains state reached)) [
        | inl old ↦
            rw (reach_loop-old fuel ts state pending reached old)
              (reach_loop_sound fuel pending reached rest r)
        | inr new ↦ rw (reach_loop-new fuel ts state pending reached new) (
            reach_loop_sound fuel (push_all (targets state ts) pending) (OrdMap.add state reached)
              (λ k h. elim (Bool-cases (OrdMap.contains k (targets state ts))) [
                | inl out ↦
                    let (t, m, e, f) = targets-row k state ts out in
                    along t m (subst (Reaches initial ts) (sym e) top) f
                | inr other ↦
                    rest k (ground (arith, contains-push_all k (targets state ts) pending))
              ])
              (λ k h. elim (Bool-cases (state == k)) [
                | inl same ↦ subst (Reaches initial ts) ((eq_iff state k).0 same) top
                | inr other ↦ r k (ground (arith, contains-add state k reached))
              ]))
      ]

  -- Every row out of a reached state leads to one that is reached or pending.
  abbrev pub IsClosed : List String → OrdSet → Type 0
  IsClosed pending reached =
      (t : Transition)
      → Memᴰ t ts
      → OrdMap.contains t.from reached ≡ true
      → (OrdMap.contains t.to reached || OrdMap.contains t.to pending) ≡ true

  pub reach_loop-IsClosed :
      (fuel : ℕ) (pending : List String) (reached : OrdSet)
      → IsClosed pending reached
      → let (reached', left) = reach_loop fuel ts pending reached in IsClosed left reached'
  unfolding reach_loop
  reach_loop-IsClosed ℕ.zero [] reached c = c
  reach_loop-IsClosed ℕ.zero (state ∷ pending) reached c = c
  reach_loop-IsClosed (ℕ.suc fuel) [] reached c = c
  reach_loop-IsClosed (ℕ.suc fuel) (state ∷ pending) reached c =
      elim (Bool-cases (OrdMap.contains state reached)) [
        | inl old ↦ rw (reach_loop-old fuel ts state pending reached old) (
            reach_loop-IsClosed fuel pending reached
              (λ t m h. unfold OrdMap.contains in ground (arith, c t m h, eq_iff state t.to, old)))
        | inr new ↦ rw (reach_loop-new fuel ts state pending reached new) (
            reach_loop-IsClosed fuel (push_all (targets state ts) pending)
              (OrdMap.add state reached)
              (λ t m h. elim (Bool-cases (state == t.from)) [
                | inl out ↦ ground (
                  arith,
                  row-targets state ts t m (sym ((eq_iff state t.from).0 out)),
                  contains-push_all t.to (targets state ts) pending,
                )
                | inr other ↦
                    unfold OrdMap.contains in
                    ground (
                      arith,
                      c t m,
                      contains-add state t.from reached,
                      contains-add state t.to reached,
                      eq_iff state t.to,
                      contains-push_all t.to (targets state ts) pending,
                    )
              ]))
      ]

  pub reach_loop-keeps :
      (fuel : ℕ) (pending : List String) (reached : OrdSet) (k : String)
      → (OrdMap.contains k reached || OrdMap.contains k pending) ≡ true
      → let (reached', left) = reach_loop fuel ts pending reached in
        (OrdMap.contains k reached' || OrdMap.contains k left) ≡ true
  unfolding reach_loop
  reach_loop-keeps ℕ.zero [] reached k h = h
  reach_loop-keeps ℕ.zero (state ∷ pending) reached k h = h
  reach_loop-keeps (ℕ.suc fuel) [] reached k h = h
  reach_loop-keeps (ℕ.suc fuel) (state ∷ pending) reached k h =
      elim (Bool-cases (OrdMap.contains state reached)) [
        | inl old ↦ rw (reach_loop-old fuel ts state pending reached old) (
            reach_loop-keeps fuel pending reached k
              (unfold OrdMap.contains in ground (arith, eq_iff state k)))
        | inr new ↦ rw (reach_loop-new fuel ts state pending reached new) (
            reach_loop-keeps fuel (push_all (targets state ts) pending) (OrdMap.add state reached) k
              (unfold OrdMap.contains in
                ground (
                  arith,
                  eq_iff state k,
                  contains-add state k reached,
                  contains-push_all k (targets state ts) pending,
                )))
      ]
