-- ===== src/Change/Sysml/Examples.antt =====
-- A change is committed to a model server that has no commit yet.
use kr0ki.Common.{ℕ, ◌+◌, String, ◌≡◌, refl, ◌⊎◌, Option, none, some, List, [], ◌∷◌}
use kr0ki.Common.Results.{ok}
use kr0ki.Common.OrdMap.{lookup}
use kr0ki.Sync.Examples.{quick}
use kr0ki.Change.Service.{Proposals, commit}
use kr0ki.Change.Sysml.{sysml_backend}

abbrev proposals : Proposals String
proposals =
    (
      "chg-1",
      record {
        proposal = record {
          change_id = "chg-1";
          project_id = "p";
          branch_id = none;
          base_revision = none;
          summary = [];
        };
        changes = record { payload = some []; identity = none } ∷ [];
      },
    )
    ∷ []

committed :
    commit (sysml_backend quick (λ e. "failed") (λ e. "failed")) "chg-1" none proposals 0
    ≡ (1, [], ok (record { change_id = "chg-1"; base_revision = none; commit_id = "c1" }))
unfolding commit lookup kr0ki.Change.Sysml.head_answer kr0ki.Sync.Engine.resolve_head
    kr0ki.Change.Sysml.commit_answer kr0ki.Common.OrdMap.remove
committed = refl
