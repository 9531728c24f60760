-- ===== src/Change/Tasks.antt =====
-- change_service.rs, `commit` with other callers between its steps: a task goes from one lock or
-- answer to the next.
pub mod Moves
mod Advances
pub mod Rank
pub mod Exclusion
pub mod Progress
pub mod Alone
use kr0ki.Common.{
  ℕ, zero, suc, String, ◌==◌, ◌≡◌, Bool, true, false, not, Option, none, some, List, [], ◌∷◌, ◌++◌,
  if◌then◌else◌, filter,
}
use kr0ki.Common.Results.{Result, ok, err}
use kr0ki.Common.OrdMap
use kr0ki.Common.OrdMap.{OrdMap, OrdSet, lookup, remove, contains_key}
use kr0ki.Sync.Model.{DataVersion}
use kr0ki.Change.Model.{
  BackendError, conflict, other, ModelBackend, Committed, ChangeError, stale_base,
  proposal_mismatch, unknown_change, backend, Stored, lock_key,
}
use kr0ki.Change.Service.{Proposals, same_revision}

-- Where a call of `commit` stands. `waits` is before `lock.lock().await`; `locked`, `checks`,
-- `posts`, `records` and `rereads` hold the lock of the branch.
pub data Task (V : Type 0) : Type 0 where
  starts : String → Option String → Task V
  waits locked checks posts rereads : Stored V → String → Option String → Task V
  records : Stored V → String → Option String → String → Task V
  finished : Result Committed ChangeError → Task V

-- The state that the tasks share: the server's, the proposals and the keys of the locks that are
-- held.
pub record Shared (W V : Type 0) : Type 0 where
  pub world : W
  pub proposals : Proposals V
  pub held : OrdSet

abbrev pub key_of : {V : Type 0} → Stored V → String
key_of s = lock_key s.proposal.project_id s.proposal.branch_id

unfoldable pub found : {V : Type 0} → Option (Stored V) → String → Option String → Task V
found none id expected = finished (err (unknown_change id))
found (some s) id expected =
    if not (same_revision expected s.proposal.base_revision)
    then finished (err (proposal_mismatch expected s.proposal.base_revision))
    else waits s id expected

module _ {W V : Type 0} where
  -- The guard is dropped.
  unfoldable pub release : Stored V → Shared W V → Shared W V
  release s sh = record sh { held = OrdMap.discard (key_of s) sh.held }

  -- The answer about the head, under the lock.
  unfoldable pub checked :
      Stored V
      → String
      → Option String
      → Shared W V
      → W × Result (Option String) BackendError
      → Shared W V × Task V
  unfolding release
  checked s id expected sh (w, err e) =
      (release s (record sh { world = w }), finished (err (backend e)))
  checked s id expected sh (w, ok current) =
      if same_revision current expected
      then (record sh { world = w }, posts s id expected)
      else (release s (record sh { world = w }), finished (err (stale_base expected current)))

  -- The server's answer to the commit.
  unfoldable pub answered :
      Stored V
      → String
      → Option String
      → Shared W V
      → W × Result String BackendError
      → Shared W V × Task V
  unfolding release
  answered s id expected sh (w, ok commit_id) =
      (record sh { world = w }, records s id expected commit_id)
  answered s id expected sh (w, err conflict) = (record sh { world = w }, rereads s id expected)
  answered s id expected sh (w, err (other m)) =
      (release s (record sh { world = w }), finished (err (backend (other m))))

  -- The answer about the head, behind a conflict.
  unfoldable pub reread :
      Stored V
      → Option String
      → Shared W V
      → W × Result (Option String) BackendError
      → Shared W V × Task V
  unfolding release
  reread s expected sh (w, err e) =
      (release s (record sh { world = w }), finished (err (backend e)))
  reread s expected sh (w, ok current) =
      (release s (record sh { world = w }), finished (err (stale_base expected current)))

module _ {W V : Type 0} (b : ModelBackend W V) where
  -- One step of a task. One that waits for a lock that is held stays where it is.
  unfoldable pub advance : Task V → Shared W V → Shared W V × Task V
  unfolding found checked answered reread release
  advance (starts id expected) sh = (sh, found (lookup id sh.proposals) id expected)
  advance (waits s id expected) sh =
      if OrdMap.contains (key_of s) sh.held
      then (sh, waits s id expected)
      else (record sh { held = OrdMap.add (key_of s) sh.held }, locked s id expected)
  advance (locked s id expected) sh =
      if contains_key id sh.proposals
      then (sh, checks s id expected)
      else (release s sh, finished (err (unknown_change id)))
  advance (checks s id expected) sh =
      checked s id expected sh (b.head s.proposal.project_id s.proposal.branch_id sh.world)
  advance (posts s id expected) sh =
      answered s id expected sh
        (b.commit s.proposal.project_id s.proposal.branch_id expected s.changes sh.world)
  advance (rereads s id expected) sh =
      reread s expected sh (b.head s.proposal.project_id s.proposal.branch_id sh.world)
  advance (records s id expected commit_id) sh = (
    release s (record sh { proposals = remove id sh.proposals }),
    finished (ok (record { change_id = id; base_revision = expected; commit_id = commit_id })),
  )
  advance (finished result) sh = (sh, finished result)

  -- A task with nobody beside it, for a number of steps.
  unfoldable pub run_alone : ℕ → Task V → Shared W V → Shared W V × Task V
  unfolding advance
  run_alone zero t sh = (sh, t)
  run_alone (suc n) t sh = let (sh', t') = advance t sh in run_alone n t' sh'

  -- The tasks that run, and what they share.
  pub record System : Type 0 where
    pub shared : Shared W V
    pub tasks : List (Task V)

  -- A task advances, a caller comes, or a proposal with some property is stored.
  pub data Step (P : Stored V → Type 0) (y : System) : System → Type 0 where
    turn :
        (before after : List (Task V)) (t : Task V)
        → y.tasks ≡ before ++ (t ∷ after)
        → Step P y (record {
          shared = (advance t y.shared).0;
          tasks = before ++ ((advance t y.shared).1 ∷ after);
        })
    comes :
        (id : String) (expected : Option String)
        → Step P y (record y { tasks = starts id expected ∷ y.tasks })
    proposes :
        (s : Stored V)
        → P s
        → Step P y (record y {
          shared = record y.shared {
            proposals = OrdMap.insert s.proposal.change_id s y.shared.proposals;
          };
        })

  pub data Reached (P : Stored V → Type 0) (y : System) : System → Type 0 where
    here : Reached P y y
    further : {z u : System} → Reached P y z → Step P z u → Reached P y u
