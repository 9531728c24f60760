-- ===== src/Sync/Engine.antt =====
-- sync_engine.rs, `resolve_head` and `sync_managed`, over the operations of the HTTP client.
pub mod Counts
use kr0ki.Common.{
  ℕ, zero, suc, String, Bool, true, false, not, ◌&&◌, Option, none, some, List, [], ◌∷◌,
  if◌then◌else◌, filter, is_empty, is_some, option_map, eqb, ◌||◌, ◌==◌, compare_str,
}
use Prim.Native.Nat.{Ordering}
use kr0ki.Common.Results.{Result, ok, err}
use kr0ki.Sync.Model.{Element, DataVersion, Commit}
use kr0ki.Sync.Diff.{DiffError}

pub record SyncConfig : Type 0 where
  pub project_id : String
  pub branch_id : Option String

-- A status that the server answered with, or another failure.
pub data ClientError : Type 0 where
  status : ℕ → String → ClientError
  other : String → ClientError

pub data SyncError : Type 0 where
  client : ClientError → SyncError
  encode : String → SyncError
  diff : DiffError → SyncError
  conflict : ℕ → SyncError

-- The client's operations over the state of the world: the default branch of a project, the head of
-- a branch, a commit, the commits of a project, the elements at a commit, and a new commit on top
-- of another.
pub record Client (W V : Type 0) : Type 0 where
  pub project : String → W → W × Result (Option String) ClientError
  pub branch : String → String → W → W × Result (Option String) ClientError
  pub commit : String → String → W → W × Result Commit ClientError
  pub commits : String → W → W × Result (List Commit) ClientError
  pub all_elements : String → String → W → W × Result (List (Element V)) ClientError
  pub create_commit :
      String
      → Option String
      → Option String
      → List (DataVersion V)
      → W
      → W × Result Commit ClientError

unfoldable pub is_conflict : ClientError → Bool
is_conflict (status code message) = eqb code 409 || eqb code 412
is_conflict (other message) = false

is_missing : ClientError → Bool
is_missing (status code message) = eqb code 404
is_missing (other message) = false

-- `>` on `Option<String>`
created_after : Option String → Option String → Bool
created_after none b = false
created_after (some a) none = true
created_after (some a) (some b) = elim (compare_str a b) [ Ordering.gt ↦ true | _ ↦ false ]

-- The newest commit, the first of those that are as new.
unfoldable pub latest_of : Option Commit → List Commit → Option Commit
unfolding created_after
latest_of latest [] = latest
latest_of none (c ∷ cs) = latest_of (some c) cs
latest_of (some l) (c ∷ cs) =
    latest_of (some (if created_after c.created l.created then c else l)) cs

-- The ids of two heads are the same.
unfoldable pub same_head : Option String → Option String → Bool
same_head none none = true
same_head (some a) (some b) = a == b
same_head _ _ = false

abbrev pub head_id : Option Commit → Option String
head_id c = option_map (λ c. c.at_id) c

module _ {W V : Type 0} (c : Client W V) (cfg : SyncConfig) where
  open c use {project, branch, commit, commits, all_elements, create_commit}

  unfoldable pub by_date :
      W × Result (List Commit) ClientError → W × Result (Option Commit) SyncError
  by_date (w, err e) = (w, err (client e))
  by_date (w, ok cs) = (w, ok (latest_of none cs))

  unfoldable pub at_head : W × Result Commit ClientError → W × Result (Option Commit) SyncError
  at_head (w, err e) = (w, err (client e))
  at_head (w, ok head) = (w, ok (some head))

  -- What follows the answer about a branch.
  unfoldable pub on_branch :
      W × Result (Option String) ClientError → W × Result (Option Commit) SyncError
  unfolding at_head by_date is_missing
  on_branch (w, ok none) = (w, ok none)
  on_branch (w, ok (some head)) = at_head (commit cfg.project_id head w)
  on_branch (w, err e) =
      let listed = by_date (commits cfg.project_id w) in
      if is_missing e && not (is_some cfg.branch_id) then listed else (w, err (client e))

  -- What follows the answer about the default branch.
  unfoldable pub on_default :
      W × Result (Option String) ClientError → W × Result (Option Commit) SyncError
  unfolding on_branch by_date is_missing
  on_default (w, ok (some b)) = on_branch (branch cfg.project_id b w)
  on_default (w, ok none) = by_date (commits cfg.project_id w)
  on_default (w, err e) =
      let listed = by_date (commits cfg.project_id w) in
      if is_missing e then listed else (w, err (client e))

  -- The branch that the caller names, else the project's default branch.
  unfoldable pub head_on : Option String → W → W × Result (Option Commit) SyncError
  unfolding on_branch on_default
  head_on (some b) w = on_branch (branch cfg.project_id b w)
  head_on none w = on_default (project cfg.project_id w)

  unfoldable pub resolve_head : W → W × Result (Option Commit) SyncError
  unfolding head_on
  resolve_head w = head_on cfg.branch_id w

  module _ (is_managed : Element V → Bool)
      (build : List (Element V) → Result (List (DataVersion V)) SyncError) where
    unfoldable pub managed_at : Option Commit → W → W × Result (List (Element V)) ClientError
    managed_at none w = (w, ok [])
    managed_at (some head) w =
        let (w', answer) = all_elements cfg.project_id head.at_id w in
        (w', elim answer [ ok es ↦ ok (filter is_managed es) | err e ↦ err e ])

    -- An attempt ends the loop with a result, or another attempt follows.
    unfoldable pub posted :
        W × Result Commit ClientError → W × Option (Result (Option Commit) SyncError)
    posted (w, ok new) = (w, some (ok (some new)))
    posted (w, err e) = (w, if is_conflict e then none else some (err (client e)))

    -- The head is looked at once more before the changes are posted.
    unfoldable pub post :
        Option Commit
        → List (DataVersion V)
        → W × Result (Option Commit) SyncError
        → W × Option (Result (Option Commit) SyncError)
    unfolding posted
    post head changes (w, err e) = (w, some (err e))
    post head changes (w, ok current) =
        let sent = posted (create_commit cfg.project_id cfg.branch_id (head_id head) changes w) in
        if same_head (head_id current) (head_id head) then sent else (w, none)

    unfoldable pub with_changes :
        Option Commit
        → W
        → Result (List (DataVersion V)) SyncError
        → W × Option (Result (Option Commit) SyncError)
    unfolding post
    with_changes head w (err e) = (w, some (err e))
    with_changes head w (ok []) = (w, some (ok head))
    with_changes head w (ok (change ∷ more)) = post head (change ∷ more) (resolve_head w)

    unfoldable pub reconcile :
        Option Commit
        → W × Result (List (Element V)) ClientError
        → W × Option (Result (Option Commit) SyncError)
    unfolding with_changes
    reconcile head (w, err e) = (w, some (err (client e)))
    reconcile head (w, ok managed) = with_changes head w (build managed)

    unfoldable pub once :
        W × Result (Option Commit) SyncError → W × Option (Result (Option Commit) SyncError)
    unfolding reconcile managed_at
    once (w, err e) = (w, some (err e))
    once (w, ok head) = reconcile head (managed_at head w)

    -- The loop of `sync_managed`, with the attempts that are left.
    unfoldable pub attempts : ℕ → W → W × Result (Option Commit) SyncError
    attempts zero w = (w, err (conflict 3))
    attempts (suc left) w =
        let (w', ended) = once (resolve_head w) in
        elim ended [ some result ↦ (w', result) | none ↦ attempts left w' ]

    unfoldable pub sync_managed : W → W × Result (Option Commit) SyncError
    unfolding attempts
    sync_managed w = attempts 3 w
