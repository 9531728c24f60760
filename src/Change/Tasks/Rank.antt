-- ===== src/Change/Tasks/Rank.antt =====
-- change_service.rs, `commit`: the steps that a call of it still has.
use kr0ki.Common.{ℕ, ◌<◌, String, ◌≡◌, refl, inl, inr, Option, none, some, arith, Bool-cases}
use kr0ki.Common.Results.{Result, ok, err}
use kr0ki.Common.OrdMap
use kr0ki.Common.OrdMap.{lookup, contains_key}
use kr0ki.Sync.Model.{Json}
use kr0ki.Change.Model.{BackendError, conflict, other, Committed, ChangeError, Stored}
use kr0ki.Change.Service.{same_revision}
use kr0ki.Change.InMemory.{Server, in_memory, post}
use kr0ki.Change.Tasks.{
  Task, starts, waits, locked, checks, posts, rereads, records, finished, Shared, key_of, found,
  checked, answered, reread, advance,
}
use kr0ki.Change.Tasks.Moves.{critical, IsKeyed, holds}
use kr0ki.Change.Tasks.Advances.{next}

module _ {V : Type 0} where
  -- The steps that a call still has at most.
  unfoldable pub rank : Task V → ℕ
  rank (starts id expected) = 6
  rank (waits s id expected) = 5
  rank (locked s id expected) = 4
  rank (checks s id expected) = 3
  rank (posts s id expected) = 2
  rank (rereads s id expected) = 1
  rank (records s id expected commit_id) = 1
  rank (finished result) = 0

  -- The call has returned.
  abbrev pub IsFinished : Task V → Type 0
  IsFinished t = (result : Result Committed ChangeError) × (t ≡ finished result)

  pub rank-IsFinished : (t : Task V) → rank t ≡ 0 → IsFinished t
  unfolding rank
  rank-IsFinished (starts id expected) h = absurd (omega arith)
  rank-IsFinished (waits s id expected) h = absurd (omega arith)
  rank-IsFinished (locked s id expected) h = absurd (omega arith)
  rank-IsFinished (checks s id expected) h = absurd (omega arith)
  rank-IsFinished (posts s id expected) h = absurd (omega arith)
  rank-IsFinished (rereads s id expected) h = absurd (omega arith)
  rank-IsFinished (records s id expected commit_id) h = absurd (omega arith)
  rank-IsFinished (finished result) h = (result, refl)

  rank-found :
      (o : Option (Stored V)) (id : String) (expected : Option String)
      → rank (found o id expected) < 6
  unfolding found rank
  rank-found none id expected = omega arith
  rank-found (some s) id expected = ground arith

  module _ (x : Json V) (show : ℕ → String) (k : String) where
    rank-checked :
        (s : Stored V) (id : String) (expected : Option String) (sh : Shared (Server V) V)
        (a : Server V × Result (Option String) BackendError)
        → rank (checked s id expected sh a).1 < 3
    unfolding checked rank
    rank-checked s id expected sh (w, err e) = omega arith
    rank-checked s id expected sh (w, ok current) =
        elim (Bool-cases (same_revision current expected)) [
          | inl e ↦ rw e (omega arith)
          | inr e ↦ rw e (omega arith)
        ]

    rank-answered :
        (s : Stored V) (id : String) (expected : Option String) (sh : Shared (Server V) V)
        (a : Server V × Result String BackendError)
        → rank (answered s id expected sh a).1 < 2
    unfolding answered rank
    rank-answered s id expected sh (w, ok commit_id) = omega arith
    rank-answered s id expected sh (w, err conflict) = omega arith
    rank-answered s id expected sh (w, err (other m)) = omega arith

    pub rank-advance :
        (t : Task V) (sh : Shared (Server V) V)
        → IsKeyed k t
        → (critical t ≡ 0 → holds k sh.held ≡ 0)
        → 0 < rank t
        → rank (next x show k t sh).1 < rank t
    unfolding advance rank critical reread
    rank-advance (starts id expected) sh mine free live =
        rank-found (lookup id sh.proposals) id expected
    rank-advance (waits s id expected) sh mine free live =
        elim (Bool-cases (OrdMap.contains (key_of s) sh.held)) [
          | inl taken ↦ absurd (ground (arith, taken, mine, free refl))
          | inr open_ ↦ rw open_ (omega arith)
        ]
    rank-advance (locked s id expected) sh mine free live =
        elim (Bool-cases (contains_key id sh.proposals)) [
          | inl e ↦ rw e (omega arith)
          | inr e ↦ rw e (omega arith)
        ]
    rank-advance (checks s id expected) sh mine free live =
        rank-checked s id expected sh
          ((in_memory x show).head s.proposal.project_id s.proposal.branch_id sh.world)
    rank-advance (posts s id expected) sh mine free live =
        rank-answered s id expected sh (post x show expected s.changes sh.world)
    rank-advance (rereads s id expected) sh mine free live = omega arith
    rank-advance (records s id expected commit_id) sh mine free live = omega arith
    rank-advance (finished result) sh mine free live = absurd (omega arith)
