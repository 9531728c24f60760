-- ===== src/Change/Sysml.antt =====
-- change_service.rs, `SysmlBackend`: a model server behind the HTTP client.
mod Examples
use kr0ki.Common.{String, ◌||◌, Bool, true, false, Option, none, some, List, eqb, if◌then◌else◌}
use kr0ki.Common.Results.{Result, ok, err, map_err}
use kr0ki.Sync.Model.{Element, Commit}
use kr0ki.Sync.Engine.{
  SyncConfig, ClientError, SyncError, Client, head_id, is_conflict, resolve_head,
}
use kr0ki.Change.Model.{BackendError, conflict, other, ModelBackend}

module _ {W V : Type 0} (c : Client W V) (client_text : ClientError → String)
    (sync_text : SyncError → String) where
  -- What is made of the answer about the head.
  unfoldable pub head_answer :
      W × Result (Option Commit) SyncError → W × Result (Option String) BackendError
  head_answer (w, ok head) = (w, ok (head_id head))
  head_answer (w, err e) = (w, err (other (sync_text e)))

  unfoldable pub elements_answer :
      W × Result (List (Element V)) ClientError → W × Result (List (Element V)) BackendError
  elements_answer (w, ok es) = (w, ok es)
  elements_answer (w, err e) = (w, err (other (client_text e)))

  -- What is made of the answer to a new commit.
  unfoldable pub commit_answer : W × Result Commit ClientError → W × Result String BackendError
  unfolding is_conflict
  commit_answer (w, ok new) = (w, ok new.at_id)
  commit_answer (w, err e) = (w, err (if is_conflict e then conflict else other (client_text e)))

  -- The texts of errors are printed by functions that are not modelled.
  abbrev pub sysml_backend : ModelBackend W V
  sysml_backend = record {
    head = λ project branch w.
        head_answer (resolve_head c (record { project_id = project; branch_id = branch }) w);
    elements_at = λ project commit w. elements_answer (c.all_elements project commit w);
    commit = λ project branch previous changes w.
        commit_answer (c.create_commit project branch previous changes w);
  }
