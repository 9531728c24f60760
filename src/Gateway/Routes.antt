-- ===== src/Gateway/Routes.antt =====
-- gateway.rs: the grant that each route needs, and the operation that a request is recorded as.
use kr0ki.Common.{
  String, ◌<>◌, ◌==◌, ◌&&◌, Option, none, some, List, [], ◌∷◌, find, option_map, unwrap_or,
  and_then,
}

-- `(method, route pattern, required grant)`
pub record Route : Type 0 where
  pub method : String
  pub pattern : String
  pub grant : Option String

abbrev route : String → String → Option String → Route
route method pattern grant = record { method = method; pattern = pattern; grant = grant }

-- `GRANTS`
abbrev pub grants : List String
grants =
    "render" ∷ "model.read" ∷ "model.commit" ∷ "assurance.read" ∷ "assurance.propose"
    ∷ "assurance.verify" ∷ "audit.read" ∷ "ui.steer" ∷ "admin" ∷ []

-- `ROUTES`
abbrev pub routes : List Route
routes =
    route "GET" "/" none
    ∷ route "GET" "/welcome" none
    ∷ route "GET" "/formats" none
    ∷ route "GET" "/mcp/tools" none
    ∷ route "GET" "/mcp/resources" none
    ∷ route "GET" "/mcp/prompts" none
    ∷ route "GET" "/capabilities" none
    ∷ route "GET" "/api/examples" none
    ∷ route "GET" "/playbook/api/examples.json" none
    ∷ route "GET" "/api/catalog" none
    ∷ route "GET" "/brand" none
    ∷ route "GET" "/playbook" none
    ∷ route "GET" "/playbook/" none
    ∷ route "GET" "/playbook/*path" none
    ∷ route "GET" "/docs" none
    ∷ route "GET" "/docs/examples/kr0ki-render-flow.svg" none
    ∷ route "GET" "/docs/api.json" none
    ∷ route "GET" "/docs/api.tomllm" none
    ∷ route "GET" "/docs/api.rustdoc" none
    ∷ route "POST" "/api/catalog/suggest" (some "render")
    ∷ route "POST" "/render/:format" (some "render")
    ∷ route "POST" "/render/requirements-view" (some "render")
    ∷ route "POST" "/render/kubediagram" (some "render")
    ∷ route "POST" "/render/k8s-topology" (some "render")
    ∷ route "POST" "/render/rust-source" (some "render")
    ∷ route "POST" "/render/rust-behavior" (some "render")
    ∷ route "POST" "/render/sysmlv2/projects/:project_id/commits/:commit_id" (some "render")
    ∷ route "GET" "/cache/:key" (some "render")
    ∷ route "GET" "/ui/:session/events" (some "render")
    ∷ route "POST" "/sparql" (some "model.read")
    ∷ route "POST" "/sparql/shapes" (some "model.read")
    ∷ route "POST" "/sparql/rollup" (some "model.read")
    ∷ route "POST" "/sysml/validate" (some "model.read")
    ∷ route "POST" "/sysml/parse" (some "model.read")
    ∷ route "POST" "/sysml/symbols" (some "model.read")
    ∷ route "POST" "/sysml/summary" (some "model.read")
    ∷ route "POST" "/sysmd/solve" (some "model.read")
    ∷ route "POST" "/requirements/import" (some "model.read")
    ∷ route "POST" "/requirements/import/url" (some "model.read")
    ∷ route "POST" "/requirements/export" (some "model.read")
    ∷ route "POST" "/requirements/views" (some "model.read")
    ∷ route "GET" "/model/projects" (some "model.read")
    ∷ route "GET" "/model/projects/:project_id/commits" (some "model.read")
    ∷ route "GET" "/model/projects/:project_id/commits/:commit_id/snapshot" (some "model.read")
    ∷ route "GET" "/model/projects/:project_id/commits/:commit_id/elements" (some "model.read")
    ∷ route "GET" "/model/projects/:project_id/commits/:commit_id/roots" (some "model.read")
    ∷ route "GET"
        "/model/projects/:project_id/commits/:commit_id/elements/:element_id/relationships"
        (some "model.read")
    ∷ route "POST" "/model/projects/:project_id/recompute" (some "model.read")
    ∷ route "GET" "/model/graph/query" (some "model.read")
    ∷ route "GET" "/b00t-graph/:tag" (some "model.read")
    ∷ route "POST" "/model/projects/:project_id/sync" (some "model.commit")
    ∷ route "POST" "/model/projects/:project_id/requirements" (some "model.commit")
    ∷ route "POST" "/ui/:session/navigate" (some "ui.steer")
    ∷ route "GET" "/assurance/requirements" (some "assurance.read")
    ∷ route "GET" "/assurance/requirements/:id" (some "assurance.read")
    ∷ route "GET" "/assurance/requirements/:id/trace" (some "assurance.read")
    ∷ route "GET" "/assurance/view" (some "assurance.read")
    ∷ route "GET" "/assurance/evidence" (some "assurance.read")
    ∷ route "POST" "/assurance/changes" (some "assurance.propose")
    ∷ route "GET" "/assurance/changes/:change_id" (some "assurance.read")
    ∷ route "POST" "/assurance/changes/:change_id/commit" (some "model.commit")
    ∷ route "POST" "/assurance/verify/:case_id" (some "assurance.verify")
    ∷ route "GET" "/assurance/audit" (some "audit.read")
    ∷ route "GET" "/assurance/skills/:name" (some "assurance.read")
    ∷ []

-- `PUBLIC_UI_PATTERNS`
abbrev pub public_ui_patterns : List String
public_ui_patterns =
    "/playbook" ∷ "/playbook/" ∷ "/playbook/*path" ∷ "/playbook/api/examples.json" ∷ []

unfoldable pub grant_in : List Route → String → String → Option String
grant_in rows method pattern =
    unwrap_or
      (option_map (λ r. r.grant) (find (λ r. r.method == method && r.pattern == pattern) rows))
      (some "admin")

-- What is not in the table needs `admin`.
unfoldable pub required_grant : String → Option String → Option String
required_grant method none = some "admin"
required_grant method (some pattern) = grant_in routes method pattern

pub record Operation : Type 0 where
  pub name : String
  pub grant : Option String

-- `tools` maps a method and a pattern to the name of a tool.
pub record ToolName : Type 0 where
  pub method : String
  pub pattern : String
  pub name : String

tool_at : List ToolName → String → String → Option String
tool_at tools method pattern =
    option_map (λ t. t.name) (find (λ t. t.method == method && t.pattern == pattern) tools)

-- `Gateway::operation`
unfoldable pub operation : List ToolName → String → Option String → Operation
unfolding tool_at
operation tools method pattern = record {
  name =
      unwrap_or (and_then pattern (tool_at tools method))
        (method <> " " <> unwrap_or pattern "(no route)");
  grant = required_grant method pattern;
}
