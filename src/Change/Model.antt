-- ===== src/Change/Model.antt =====
-- change_service.rs, its types.
use kr0ki.Common.{String, ◌<>◌, Bool, Option, List, unwrap_or}
use kr0ki.Common.Results.{Result}
use kr0ki.Sync.Model.{Element, DataVersion}
use kr0ki.Sync.Diff.{DiffError}

pub data BackendError : Type 0 where
  conflict : BackendError
  other : String → BackendError

-- The operations of a model server, over the state of the world.
pub record ModelBackend (W V : Type 0) : Type 0 where
  pub head : String → Option String → W → W × Result (Option String) BackendError
  pub elements_at : String → String → W → W × Result (List (Element V)) BackendError
  pub commit :
      String
      → Option String
      → Option String
      → List (DataVersion V)
      → W
      → W × Result String BackendError

pub data Operation : Type 0 where
  create update delete : Operation

pub record ChangeSummary : Type 0 where
  pub operation : Operation
  pub identifier : String

pub record ProposedChange : Type 0 where
  pub change_id : String
  pub project_id : String
  pub branch_id : Option String
  pub base_revision : Option String
  pub summary : List ChangeSummary

pub record Validation : Type 0 where
  pub change_id : String
  pub base_revision : Option String
  pub current_revision : Option String
  pub current : Bool

pub record Committed : Type 0 where
  pub change_id : String
  pub base_revision : Option String
  pub commit_id : String

-- A stale base with what was expected and what the head is; a mismatch with what was expected and
-- the proposal's base.
pub data ChangeError : Type 0 where
  stale_base : Option String → Option String → ChangeError
  proposal_mismatch : Option String → Option String → ChangeError
  unknown_change : String → ChangeError
  no_changes : Option String → ChangeError
  sync : DiffError → ChangeError
  backend : BackendError → ChangeError

pub record Stored (V : Type 0) : Type 0 where
  pub proposal : ProposedChange
  pub changes : List (DataVersion V)

-- The key of `lock_for`: the project, a zero character and the branch.
unfoldable pub lock_key : String → Option String → String
lock_key project branch = project <> "\0" <> unwrap_or branch ""
