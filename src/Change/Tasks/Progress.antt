-- ===== src/Change/Tasks/Progress.antt =====
-- change_service.rs, `commit`: how the calls of it come to their ends.
use kr0ki.Common.{
  ℕ, zero, suc, ◌+◌, ◌≤◌, ◌<◌, String, ◌≡◌, ◌⊎◌, ◌∙◌, refl, sym, ap, subst, inl, inr, List, [], ◌∷◌,
  ◌++◌, All, All-append, arith,
}
use mathlib.Core.List.{append_assoc, append-nil}
use kr0ki.Sync.Model.{Json}
use kr0ki.Change.InMemory.{in_memory}
use kr0ki.Change.Tasks.{Task, System, turn, Reached, here, further, key_of}
use kr0ki.Change.Tasks.Moves.{critical, IsKeyed, holds}
use kr0ki.Change.Tasks.Advances.{next}
use kr0ki.Change.Tasks.Exclusion.{
  Reached-holders, holders, holders-append, All-split, IsExclusive, IsFresh, IsFresh-IsExclusive,
  turn-IsExclusive, Reached-IsExclusive,
}
use kr0ki.Change.Tasks.Rank.{rank, IsFinished, rank-IsFinished, rank-advance}

zero-cases : (n : ℕ) → (n ≡ 0) ⊎ (0 < n)
zero-cases zero = inl refl
zero-cases (suc n) = inr (omega arith)

-- A list of calls has none that holds the lock, or one with none beside it.
holder-cases :
    {V : Type 0} (ts : List (Task V))
    → holders ts ≤ 1
    → (holders ts ≡ 0)
      ⊎ ((before : List (Task V)) × (t : Task V) × (after : List (Task V)) × (ts
            ≡ before ++ (t ∷ after))
          × (critical t ≡ 1)
          × (holders before + holders after ≡ 0))
holder-cases [] few = inl refl
holder-cases (t ∷ ts) few = elim (zero-cases (critical t)) [
  | inr live ↦ inr ([], t, ts, refl, omega arith, omega arith)
  | inl idle ↦ elim (holder-cases ts (omega arith)) [
    | inl none_ ↦ inl (omega arith)
    | inr (before, u, after, e, one, alone) ↦
        inr (t ∷ before, u, after, ap (λ l. t ∷ l) e, one, omega arith)
  ]
]

IsFinished-holders : {V : Type 0} (ts : List (Task V)) → All IsFinished ts → holders ts ≡ 0
unfolding critical
IsFinished-holders [] over = refl
IsFinished-holders (t ∷ ts) ((result, e), over) =
    omega (arith, ap critical e, IsFinished-holders ts over)

module _ {V : Type 0} (x : Json V) (show : ℕ → String) (k : String) where
  abbrev Runs : System (in_memory x show) → System (in_memory x show) → Type 0
  Runs = Reached (in_memory x show) (λ s. key_of s ≡ k)

  Runs-trans : {y z u : System (in_memory x show)} → Runs y z → Runs z u → Runs y u
  Runs-trans r here = r
  Runs-trans r (further q step) = further (Runs-trans r q) step

  abbrev turned :
      System (in_memory x show) → List (Task V) → List (Task V) → Task V → System (in_memory x show)
  turned y before after t = record {
    shared = (next x show k t y.shared).0;
    tasks = before ++ ((next x show k t y.shared).1 ∷ after);
  }

  -- One call runs until it has returned, while the others stay where they are.
  call_finishes :
      (fuel : ℕ) (y : System (in_memory x show)) (before after : List (Task V)) (t : Task V)
      → rank t ≤ fuel
      → y.tasks ≡ before ++ (t ∷ after)
      → IsExclusive x show k y
      → (critical t ≡ 0 → holds k y.shared.held ≡ 0)
      → holders before + holders after ≡ 0
      → (z : System (in_memory x show)) × (t' : Task V) × Runs y z
        × (z.tasks ≡ before ++ (t' ∷ after))
        × IsFinished t'
        × (holds k z.shared.held ≡ 0)
  unfolding critical
  call_finishes zero y before after t few e i free alone =
      let (result, over) = rank-IsFinished t (omega arith) in
      (y, t, here, e, (result, over), free (ap critical over))
  call_finishes (suc fuel) y before after t few e i free alone = elim (zero-cases (rank t)) [
    | inl over ↦
        let (result, returned) = rank-IsFinished t over in
        (y, t, here, e, (result, returned), free (ap critical returned))
    | inr live ↦
        let keyed = All-split (IsKeyed k) before (t ∷ after) (subst (All (IsKeyed k)) e i.keyed) in
        let lower = rank-advance x show k t y.shared keyed.1.0 free live in
        let i' = turn-IsExclusive x show k y before after t e i in
        let t' = (next x show k t y.shared).1 in
        let count : holders before + (critical t' + holders after)
            ≡ holds k (next x show k t y.shared).0.held =
          sym (holders-append before (t' ∷ after)) ∙ i'.holding in
        let (z, u, run, e', over, free') =
          call_finishes fuel (turned y before after t) before after t' (omega arith) refl i'
            (λ none_. omega arith) alone in
        (z, u, Runs-trans (further here (turn before after t e)) run, e', over, free')
  ]

  -- Of two lists of calls, the first of which have returned, the second return in turn.
  calls_finish :
      (y : System (in_memory x show)) (before after : List (Task V))
      → y.tasks ≡ before ++ after
      → All IsFinished before
      → IsExclusive x show k y
      → holders after ≡ 0
      → (z : System (in_memory x show)) × Runs y z × All IsFinished z.tasks
  calls_finish y before [] e over i free =
      (y, here, subst (All IsFinished) (sym (e ∙ append-nil before)) over)
  calls_finish y before (t ∷ after) e over i free =
      let idle = IsFinished-holders before over in
      let count : holders before + (critical t + holders after) ≡ holds k y.shared.held =
        sym (holders-append before (t ∷ after)) ∙ sym (ap holders e) ∙ i.holding in
      let (z, t', run, e', over', free') =
        call_finishes (rank t) y before after t (omega arith) e i (λ none_. omega arith)
          (omega arith) in
      let (u, run', all) =
        calls_finish z (before ++ (t' ∷ [])) after (e' ∙ sym (append_assoc before (t' ∷ []) after))
          (All-append IsFinished before (t' ∷ []) over (over', tt))
          (Reached-IsExclusive x show k run i) (omega arith) in
      (u, Runs-trans run run', all)

-- Proposals that all have one lock key, and callers of `commit`, came at any time, and the calls
-- advanced in any order: wherever they stand, some further steps let every call return.
pub Reached-finish :
    {V : Type 0} (x : Json V) (show : ℕ → String) (k : String) (y z : System (in_memory x show))
    → IsFresh x show k y
    → Reached (in_memory x show) (λ s. key_of s ≡ k) y z
    → (u : System (in_memory x show)) × Reached (in_memory x show) (λ s. key_of s ≡ k) z u
      × All IsFinished u.tasks
Reached-finish x show k y z fresh run =
    let i = Reached-IsExclusive x show k run (IsFresh-IsExclusive x show k y fresh) in
    elim (holder-cases z.tasks (Reached-holders x show k y z fresh run).0) [
      | inl none_ ↦ calls_finish x show k z [] z.tasks refl tt i none_
      | inr (before, t, after, e, one, alone) ↦
          let (u, t', run', e', over, free) =
            call_finishes x show k (rank t) z before after t (omega arith) e i
              (λ none_. omega arith) alone in
          let i' = Reached-IsExclusive x show k run' i in
          let (v, run'', all) = calls_finish x show k u [] u.tasks refl tt i' (i'.holding ∙ free) in
          (v, Runs-trans x show k run' run'', all)
    ]
