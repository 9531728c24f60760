-- ===== src/Gateway/Middleware.antt =====
-- gateway.rs, `gateway_middleware`: the decision, its record, and only then the handler.
pub mod Guards
pub mod Audited
pub mod Denial
use kr0ki.Common.{
  ℕ, String, ◌<>◌, ◌==◌, starts_with, Bool, true, false, not, ◌&&◌, ◌||◌, Option, none, some, List,
  [], ◌∷◌, any, if◌then◌else◌, option_map, and_then, unwrap_or, is_some_and, eqb,
}
use kr0ki.Common.Results.{Result, ok, err}
use kr0ki.Common.Text.{split, split_once, take_chars}
use kr0ki.Audit.File.{LogFile, WriteAnswer}
use kr0ki.Audit.{Crates, Tail, Phase, Decision, permit, deny, AuditDraft, same_decision, append}
use kr0ki.Gateway.Digest.{Digest}
use kr0ki.Gateway.Routes.{public_ui_patterns, ToolName, Operation, operation}
use kr0ki.Gateway.Identities.{Identity, permits, AuthMode, Authn, caller, failed, authenticate}

-- `revision` is what the service answers for the current model revision.
pub record Gateway : Type 0 where
  pub mode : AuthMode
  pub tools : List ToolName
  pub revision : Option String
  pub public_ui : Bool

-- `request_id` and `pattern` are what the layers outside leave with a request; `transport` and
-- `authorization` are headers that are text.
pub record Request (B : Type 0) : Type 0 where
  pub method : String
  pub path : String
  pub query : Option String
  pub request_id : Option String
  pub pattern : Option String
  pub transport : Option String
  pub authorization : Option String
  pub body : B

-- The body of a response: that of `deny_response`, or another.
pub data Body (B : Type 0) : Type 0 where
  denied : String → String → String → Body B
  other : B → Body B

pub record Response (B : Type 0) : Type 0 where
  pub status : ℕ
  pub body : Body B

unfoldable pub deny_response : {B : Type 0} → ℕ → String → String → String → Response B
deny_response status code detail request_id = record {
  status = status;
  body = denied code detail request_id;
}

abbrev pub cap : String → String
cap s = take_chars 128 s

-- A commit id that stands behind the segment `commits`.
unfoldable pub commit_in : List String → Option String
commit_in [] = none
commit_in (s ∷ []) = none
commit_in (s ∷ id ∷ rest) =
    let skipped = commit_in rest in
    let onward = commit_in (id ∷ rest) in
    if s == "commits" then (if id == "" then skipped else some (cap id)) else onward

unfoldable pub revision_in : List String → Option String
revision_in [] = none
revision_in (pair ∷ rest) =
    let later = revision_in rest in
    elim (split_once b'=' pair) [
      | none ↦ later
      | some (k, v) ↦
          if (k == "expected_revision" || k == "revision") && not (v == "")
          then some (cap v)
          else later
    ]

-- `Gateway::revision_for`
unfoldable pub revision_for : Gateway → String → Option String → Option String → Option String
unfolding commit_in revision_in
revision_for g path query pattern = elim (commit_in (split b'/' path)) [
  | some id ↦ some id
  | none ↦ elim (revision_in (split b'&' (unwrap_or query ""))) [
    | some v ↦ some v
    | none ↦ if is_some_and pattern (λ p. starts_with p "/assurance") then g.revision else none
  ]
]

-- Who calls, what is decided and why, and the status of a denial.
pub record Decided : Type 0 where
  pub name : String
  pub decision : Decision
  pub reason : Option String
  pub deny_status : ℕ

unfoldable pub decide : Authn → Operation → Decided
decide failed op = record {
  name = "unauthenticated";
  decision = deny;
  reason = some "missing or invalid bearer token";
  deny_status = 401;
}
decide (caller i) op =
    let allowed : Decided = record {
      name = i.id;
      decision = permit;
      reason = none;
      deny_status = 200;
    } in
    elim op.grant [
      | none ↦ allowed
      | some grant ↦
          if not (permits i grant)
          then record {
            name = i.id;
            decision = deny;
            reason = some (
                "identity `" <> i.id <> "` has no `" <> grant <> "` grant for `" <> op.name <> "`");
            deny_status = 403;
          }
          else allowed
    ]

-- The log: the state that `AuditLog` keeps, and its file.
pub record Log : Type 0 where
  pub tail : Tail
  pub file : LogFile

-- The times of the two records, and how writing each ends.
pub record Moments : Type 0 where
  pub decided_at : String
  pub decided_write : WriteAnswer
  pub ended_at : String
  pub ended_write : WriteAnswer

abbrev pub transport_of : Option String → String
transport_of h = if is_some_and h (λ t. t == "mcp") then "mcp" else "http"

module _ {B : Type 0} where
  unfoldable pub is_exempt : Gateway → Request B → Bool
  is_exempt g req =
      (req.method == "GET" && req.path == "/health")
      || (g.public_ui
          && req.method == "GET"
          && is_some_and req.pattern (λ p. any (λ q. q == p) public_ui_patterns))

  abbrev pub id_of : Request B → String
  id_of req = unwrap_or (option_map cap req.request_id) ""

  unfoldable pub draft_of :
      Gateway → Request B → Operation → Decided → Phase → Option ℕ → AuditDraft
  unfolding revision_for
  draft_of g req op d phase status = record {
    correlation_id = id_of req;
    phase = phase;
    caller = d.name;
    operation = op.name;
    method = req.method;
    path = req.path;
    decision = d.decision;
    reason = d.reason;
    model_revision = revision_for g req.path req.query req.pattern;
    transport = transport_of req.transport;
    status = status;
  }

-- `audit.append`, if there is a log: the log, and whether the record was written.
unfoldable pub audit : Crates → AuditDraft → String → WriteAnswer → Option Log → Option Log × Bool
audit c draft at answer none = (none, true)
audit c draft at answer (some log) =
    let (tail, file, result) = append c draft at answer log.tail log.file in
    (some (record { tail = tail; file = file }), elim result [ ok r ↦ true | err e ↦ false ])

module _ {B W : Type 0} (c : Crates) (sha256_hex : String → Digest)
    (next : Request B → W → W × Response B) where
  -- The end of the middleware: the outcome is recorded, and the response returned in any case.
  unfoldable pub answer :
      (Option ℕ → AuditDraft) → Moments → W × Response B → Option Log → Option Log × W × Response B
  unfolding audit
  answer draft t (w, response) log =
      ((audit c (draft (some response.status)) t.ended_at t.ended_write log).0, w, response)

  -- What follows the record of the decision.
  unfoldable pub act :
      Gateway
      → Moments
      → Request B
      → Operation
      → Decided
      → W
      → Option Log × Bool
      → Option Log × W × Response B
  unfolding answer draft_of deny_response
  act g t req op d w (log, false) = (
    log,
    w,
    deny_response 503 "audit_unavailable"
        "the audit log cannot be written, so this operation was not performed" (id_of req),
  )
  act g t req op d w (log, true) =
      let refusal =
        deny_response d.deny_status (if eqb d.deny_status 401 then "unauthorized" else "forbidden")
          (unwrap_or d.reason "denied") (id_of req) in
      answer (draft_of g req op d Phase.outcome) t
        (if same_decision d.decision deny then (w, refusal) else next req w) log

  unfoldable pub gateway_middleware :
      Gateway → Moments → Request B → Option Log → W → Option Log × W × Response B
  gateway_middleware g t req log w =
      let op = operation g.tools req.method req.pattern in
      let d = decide (authenticate sha256_hex g.mode req.authorization) op in
      let recorded =
        audit c (draft_of g req op d Phase.decision none) t.decided_at t.decided_write log in
      let (w', response) = next req w in
      if is_exempt g req then (log, w', response) else act g t req op d w recorded
