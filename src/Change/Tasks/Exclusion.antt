-- ===== src/Change/Tasks/Exclusion.antt =====
-- change_service.rs, `commit`: what every run of its callers keeps whose proposals have one lock key.
use kr0ki.Common.{
  ℕ, ◌+◌, ◌≤◌, String, ◌≡◌, ◌∙◌, refl, sym, ap, subst, inl, inr, List, [], ◌∷◌, ◌++◌, All,
  All-append, arith,
}
use kr0ki.Common.OrdMap
use kr0ki.Common.OrdMap.{OrdSet, lookup, lookup-insert}
use kr0ki.Sync.Model.{Json}
use kr0ki.Change.InMemory.{Snapshot, Server, in_memory}
use kr0ki.Change.Tasks.{
  Task, Shared, System, Step, turn, comes, proposes, Reached, here, further, key_of,
}
use kr0ki.Change.Tasks.Moves.{critical, Knows, IsKeyed, AreKeyed, holds, Knows-append, Moves}
use kr0ki.Change.Tasks.Advances.{next, advance-Moves}

pub All-split :
    {A : Type 0} (P : A → Type 0) (xs ys : List A) → All P (xs ++ ys) → All P xs × All P ys
All-split P [] ys h = (tt, h)
All-split P (x ∷ xs) ys h = let (front, back) = All-split P xs ys h.1 in ((h.0, front), back)

module _ {V : Type 0} where
  -- The tasks that hold a lock.
  abbrev pub holders : List (Task V) → ℕ
  holders [] = 0
  holders (t ∷ ts) = critical t + holders ts

  pub holders-append : (ts us : List (Task V)) → holders (ts ++ us) ≡ holders ts + holders us
  holders-append [] us = omega arith
  holders-append (t ∷ ts) us = omega (arith, holders-append ts us)

  All_Knows-append :
      (ts : List (Task V)) (cs : List (Snapshot V)) (sn : Snapshot V)
      → holders ts ≡ 0
      → All (Knows cs) ts
      → All (Knows (cs ++ (sn ∷ []))) ts
  All_Knows-append [] cs sn free h = tt
  All_Knows-append (t ∷ ts) cs sn free h =
      (Knows-append t cs sn (omega arith) h.0, All_Knows-append ts cs sn (omega arith) h.1)

  All_Knows-Moves :
      (k : String) (t t' : Task V) (sh sh' : Shared (Server V) V) (ts : List (Task V))
      → Moves k t sh t' sh'
      → (critical t ≡ 1 → holders ts ≡ 0)
      → All (Knows sh.world.commits) ts
      → All (Knows sh'.world.commits) ts
  All_Knows-Moves k t t' sh sh' ts m alone h = elim m.chain [
    | inl same ↦ subst (λ cs. All (Knows cs) ts) (sym same) h
    | inr (held, (sn, grown)) ↦
        subst (λ cs. All (Knows cs) ts) (sym grown)
          (All_Knows-append ts sh.world.commits sn (alone held) h)
  ]

module _ {V : Type 0} (x : Json V) (show : ℕ → String) (k : String) where
  -- What every run keeps.
  pub record IsExclusive (y : System (in_memory x show)) : Type 0 where
    pub proposals : AreKeyed k y.shared.proposals
    pub keyed : All (IsKeyed k) y.tasks
    pub holding : holders y.tasks ≡ holds k y.shared.held
    pub knows : All (Knows y.shared.world.commits) y.tasks

  holds-bound : (held : OrdSet) → holds k held ≤ 1
  holds-bound held = ground arith

  pub turn-IsExclusive :
      (y : System (in_memory x show)) (before after : List (Task V)) (t : Task V)
      → y.tasks ≡ before ++ (t ∷ after)
      → IsExclusive y
      → IsExclusive (record {
        shared = (next x show k t y.shared).0;
        tasks = before ++ ((next x show k t y.shared).1 ∷ after);
      })
  turn-IsExclusive y before after t e i =
      let (sh', t') = next x show k t y.shared in
      let keyed = All-split (IsKeyed k) before (t ∷ after) (subst (All (IsKeyed k)) e i.keyed) in
      let knows =
        All-split (Knows y.shared.world.commits) before (t ∷ after)
          (subst (All (Knows y.shared.world.commits)) e i.knows) in
      let count : holders before + (critical t + holders after) ≡ holds k y.shared.held =
        sym (holders-append before (t ∷ after)) ∙ sym (ap holders e) ∙ i.holding in
      let bound = holds-bound y.shared.held in
      let m =
        advance-Moves x show k t y.shared i.proposals (λ one. omega arith) knows.1.0 keyed.1.0 in
      let others : (ts : List (Task V))
          → All (Knows y.shared.world.commits) ts
          → holders ts ≤ holders before + holders after
          → All (Knows sh'.world.commits) ts =
        λ ts h few. All_Knows-Moves k t t' y.shared sh' ts m (λ one. omega arith) h in
      record {
        proposals = m.proposals;
        keyed = All-append (IsKeyed k) before (t' ∷ after) keyed.0 (m.keyed, keyed.1.1);
        holding = holders-append before (t' ∷ after) ∙ omega (arith, m.locks);
        knows =
            All-append (Knows sh'.world.commits) before (t' ∷ after)
              (others before knows.0 (omega arith)) (m.knows, others after knows.1.1 (omega arith));
      }

  Step-IsExclusive :
      (y z : System (in_memory x show))
      → Step (in_memory x show) (λ s. key_of s ≡ k) y z
      → IsExclusive y
      → IsExclusive z
  unfolding critical
  Step-IsExclusive y _ (turn before after t e) i = turn-IsExclusive y before after t e i
  Step-IsExclusive y _ (comes id expected) i = record {
    proposals = i.proposals;
    keyed = (tt, i.keyed);
    holding = omega (arith, i.holding);
    knows = (tt, i.knows);
  }
  Step-IsExclusive y _ (proposes s mine) i = record {
    proposals = λ j s' listed. ground (
      arith,
      listed,
      lookup-insert s.proposal.change_id j s y.shared.proposals,
      i.proposals j s',
      mine,
    );
    keyed = i.keyed;
    holding = i.holding;
    knows = i.knows;
  }

  pub Reached-IsExclusive :
      {y z : System (in_memory x show)}
      → Reached (in_memory x show) (λ s. key_of s ≡ k) y z
      → IsExclusive y
      → IsExclusive z
  Reached-IsExclusive here i = i
  Reached-IsExclusive (further {z} {u} run step) i =
      Step-IsExclusive z u step (Reached-IsExclusive run i)

  -- Nobody has called `commit` yet, and every proposal has the lock key.
  pub record IsFresh (y : System (in_memory x show)) : Type 0 where
    pub no_tasks : y.tasks ≡ []
    pub no_locks : y.shared.held ≡ []
    pub proposals : AreKeyed k y.shared.proposals

  pub IsFresh-IsExclusive : (y : System (in_memory x show)) → IsFresh y → IsExclusive y
  unfolding OrdMap.contains
  IsFresh-IsExclusive y f = record {
    proposals = f.proposals;
    keyed = subst (All (IsKeyed k)) (sym f.no_tasks) tt;
    holding = rw (f.no_tasks, f.no_locks) refl;
    knows = subst (All (Knows y.shared.world.commits)) (sym f.no_tasks) tt;
  }

-- Proposals that all have one lock key, and callers of `commit`, come at any time, and the calls
-- advance in any order: at most one call is then between its lock and its guard's drop, and it is
-- one exactly when the lock of the key is held. Proposals of one project have one key if all of them
-- name the same branch, or none of them names one. The default branch named by its id and left
-- unnamed gives two keys, and nothing is stated of calls that mix the two.
pub Reached-holders :
    {V : Type 0} (x : Json V) (show : ℕ → String) (k : String) (y z : System (in_memory x show))
    → IsFresh x show k y
    → Reached (in_memory x show) (λ s. key_of s ≡ k) y z
    → (holders z.tasks ≤ 1) × (holders z.tasks ≡ holds k z.shared.held)
Reached-holders x show k y z fresh run =
    let i = Reached-IsExclusive x show k run (IsFresh-IsExclusive x show k y fresh) in
    (omega (arith, i.holding, holds-bound x show k z.shared.held), i.holding)
