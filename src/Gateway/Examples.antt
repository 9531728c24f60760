-- ===== src/Gateway/Examples.antt =====
-- A gateway with two identities, over a toy hash and a toy codec.
use mathlib.Core.List.{Memᴰ}
use kr0ki.Common.{
  ℕ, zero, suc, ◌+◌, ◌-◌, ◌<◌, String, ◌<>◌, ◌==◌, ◌≡◌, eq_iff, ◌↔◌, ◌⊎◌, inl, inr, refl, Bool,
  true, false, Option, none, some, List, [], ◌∷◌, ◌++◌, arith, if◌then◌else◌, eqb,
}
use kr0ki.Common.Results.{Result, ok}
use kr0ki.Common.OrdMap
use kr0ki.Audit.File.{Line, LogFile, done, lines_of, read_lines}
use kr0ki.Audit.{
  Crates, AuditDraft, AuditRecord, Tail, Phase, permit, genesis_hash, record_of, verify,
}
use kr0ki.Audit.Append.{IsSynced, Serializes}
use kr0ki.Gateway.Digest.{Digest, constant_time_eq}
use kr0ki.Gateway.Routes.{routes, grant_in, required_grant, operation}
use kr0ki.Gateway.Identities.{
  Identity, IdentityDoc, identities, caller, authenticate, permits, parse_identities,
}
use kr0ki.Gateway.Identities.Roster.{IsRoster, parse_identities-IsRoster}
use kr0ki.Gateway.Identities.Callers.{Shows, authenticate_iff}
use kr0ki.Gateway.Identities.Denial.{Reachable}
use kr0ki.Gateway.Middleware.{
  draft_of, decide, Gateway, Request, Response, other, Log, Moments, gateway_middleware, is_exempt,
}
use kr0ki.Gateway.Middleware.Denial.{gateway_middleware-denies}
use kr0ki.Gateway.Middleware.Audited.{lines, line_of, behind, draft, gateway_middleware-audited}

abbrev left : Digest
left = 97 ∷ 48 ∷ []

abbrev right : Digest
right = 97 ∷ 49 ∷ []

copies : ℕ → ℕ → Digest
copies zero b = []
copies (suc n) b = b ∷ copies n b

-- A digest of 64 times the same digit.
abbrev sha256_hex : String → Digest
sha256_hex s = copies 64 (if s == "reader-token" then 97 else 98)

abbrev reader : Identity
reader = record { id = "reader"; grants = "model.read" ∷ []; token_sha256 = copies 64 97 }

abbrev boss : Identity
boss = record { id = "boss"; grants = "admin" ∷ []; token_sha256 = copies 64 98 }

abbrev two : List Identity
two = reader ∷ boss ∷ []

abbrev doc_of : Identity → IdentityDoc
doc_of i = record { id = i.id; token_sha256 = i.token_sha256; grants = i.grants }

abbrev from_toml : String → Result (List IdentityDoc) String
from_toml text = ok (doc_of reader ∷ doc_of boss ∷ [])

two_parse : parse_identities from_toml "file" ≡ ok two
unfolding parse_identities copies OrdMap.add
two_parse = refl

parse_identities-IsRoster_example : IsRoster two
parse_identities-IsRoster_example = parse_identities-IsRoster from_toml "file" two two_parse

authenticate_iff_example :
    (authenticate sha256_hex (identities two) (some "Bearer reader-token") ≡ caller reader)
    ↔ (Memᴰ reader two × Shows sha256_hex (some "Bearer reader-token") reader)
authenticate_iff_example =
    authenticate_iff sha256_hex two (some "Bearer reader-token") reader
      (parse_identities-IsRoster from_toml "file" two two_parse)

sparql_needs : required_grant "POST" (some "/sparql") ≡ some "model.read"
unfolding required_grant grant_in
sparql_needs = refl

abbrev gateway : Gateway
gateway = record { mode = identities two; tools = []; revision = none; public_ui = false }

abbrev request : Request String
request = record {
  method = "POST";
  path = "/sparql";
  query = none;
  request_id = some "c1";
  pattern = some "/sparql";
  transport = none;
  authorization = some "Bearer reader-token";
  body = "q";
}

-- The handler counts its calls.
abbrev handler : Request String → ℕ → ℕ × Response String
handler req n = (n + 1, record { status = 200; body = other "r" })

abbrev moments : Moments
moments = record { decided_at = "t0"; decided_write = done; ended_at = "t1"; ended_write = done }

abbrev entry : Phase → Option ℕ → String → ℕ → String → AuditRecord
entry phase status at n prev =
    record_of
      (record {
        correlation_id = "c1";
        phase = phase;
        caller = "reader";
        operation = "POST /sparql";
        method = "POST";
        path = "/sparql";
        decision = permit;
        reason = none;
        model_revision = none;
        transport = "http";
        status = status;
      })
      at (record { next_seq = n; last_hash = prev; healthy = true })

abbrev crates : Crates
crates = record {
  sha256_hex = λ l. "h0";
  to_string = λ r. (r.seq + 48) ∷ 125 ∷ [];
  from_str = λ l. ok (
      if starts_at_zero l
      then entry Phase.decision none "t0" 0 genesis_hash
      else entry Phase.outcome (some 200) "t1" 1 "h0");
}
  where
    starts_at_zero : Line → Bool
    starts_at_zero [] = false
    starts_at_zero (x ∷ l) = eqb x 48

abbrev empty_log : Log
empty_log = record {
  tail = record { next_seq = 0; last_hash = genesis_hash; healthy = true };
  file = record { content = none; failing = none };
}

empty_log-IsSynced : IsSynced crates empty_log.tail empty_log.file
unfolding verify lines_of read_lines
empty_log-IsSynced = record {
  readable = refl;
  ended = tt;
  verifies = refl;
  hashed = refl;
  healthy = refl;
  fits = omega arith;
}

guarded : is_exempt gateway request ≡ false
unfolding is_exempt
guarded = refl

request_known :
    authenticate sha256_hex (identities two) (some "Bearer reader-token") ≡ caller reader
unfolding authenticate copies kr0ki.Common.Text.strip_prefix kr0ki.Common.Text.split_once
    constant_time_eq
request_known = refl

gateway_middleware-denies_example :
    let (log', w', response) =
      gateway_middleware crates sha256_hex handler gateway moments request (some empty_log) 7 in
    ((p : String) × (some "/sparql" ≡ some p) × Reachable reader "POST" p routes)
    ⊎ ((w' ≡ 7) × ((response.status ≡ 503) ⊎ (response.status ≡ 403)))
unfolding OrdMap.contains
gateway_middleware-denies_example =
    gateway_middleware-denies crates sha256_hex handler gateway moments request (some empty_log) 7
      reader guarded request_known refl

abbrev reply : Response String
reply = (gateway_middleware crates sha256_hex handler gateway moments request (some empty_log) 7).2

abbrev first_draft : AuditDraft
first_draft = draft crates sha256_hex handler gateway request Phase.decision none

abbrev last_draft : AuditDraft
last_draft = draft crates sha256_hex handler gateway request Phase.outcome (some reply.status)

first_Serializes : Serializes crates (record_of first_draft "t0" empty_log.tail)
unfolding record_of draft_of operation decide authenticate permits required_grant grant_in copies
    OrdMap.contains kr0ki.Common.Text.take_chars kr0ki.Common.Text.strip_prefix
    kr0ki.Common.Text.split constant_time_eq kr0ki.Common.Text.split_once
first_Serializes = record {
  reads_back = refl;
  one_line = record { unbroken = refl; closed = refl };
}

last_Serializes :
    Serializes crates (record_of last_draft "t1" (behind crates first_draft "t0" empty_log).tail)
unfolding record_of draft_of operation decide authenticate permits required_grant grant_in copies
    OrdMap.contains kr0ki.Common.Text.take_chars kr0ki.Common.Text.strip_prefix
    kr0ki.Common.Text.split constant_time_eq kr0ki.Common.Text.split_once kr0ki.Audit.append
    kr0ki.Audit.File.write_line gateway_middleware is_exempt kr0ki.Gateway.Middleware.act
    kr0ki.Audit.same_decision
last_Serializes = record { reads_back = refl; one_line = record { unbroken = refl; closed = refl } }

gateway_middleware-audited_example :
    let (log', w', response) =
      gateway_middleware crates sha256_hex handler gateway moments request (some empty_log) 7 in
    (after : Log) × (log' ≡ some after)
    × IsSynced crates after.tail after.file
    × (lines crates after
        ≡ lines crates empty_log
          ++ (line_of crates first_draft "t0" empty_log
              ∷ line_of crates last_draft "t1" (behind crates first_draft "t0" empty_log)
              ∷ []))
gateway_middleware-audited_example =
    gateway_middleware-audited crates sha256_hex handler gateway moments request empty_log 7 guarded
      refl refl empty_log-IsSynced (omega arith) first_Serializes last_Serializes
