-- ===== src/Runner/Model.antt =====
-- verification_runner.rs: what a runner is given, what a run makes, and what both keep.
use kr0ki.Common.{ℕ, String, Option, List, Ordering}
use kr0ki.Common.Chars.{Text}
use kr0ki.Common.Results.{Result}
use kr0ki.Evidence.{Crates, Store, EvidenceStoreError}
use kr0ki.Runner.Verdicts.{VerificationResult, ExecResult}
use kr0ki.Runner.Cases.{RevisionProbe, CaseCrates}

pub data RunnerError : Type 0 where
  unknown_case : String → RunnerError
  not_allowlisted : String → List String → RunnerError
  no_requirement : String → RunnerError
  probe_failed : String → RunnerError
  store_failed : EvidenceStoreError → RunnerError

pub record RevisionSet : Type 0 where
  pub model_revision : String
  pub implementation_revision : String
  pub configuration_digest : String

-- The fields that a record is made with.
pub record EvidenceRecord : Type 0 where
  pub requirement_id : String
  pub verification_id : String
  pub model_revision : String
  pub implementation_revision : String
  pub configuration_digest : String
  pub result : VerificationResult
  pub artifact_uri : String
  pub artifact_digest : String

pub record ExecRequest : Type 0 where
  pub argv : List String
  pub cwd : String
  pub timeout : ℕ
  pub env : List (String × String)

pub record RunnerConfig : Type 0 where
  pub repo_root : String
  pub timeout : ℕ
  pub model_revision : String

pub record RunReport : Type 0 where
  pub case_id : String
  pub result : VerificationResult
  pub detail : Text
  pub revisions : RevisionSet
  pub records : List EvidenceRecord

-- What the records' crate does: their JSON form, its reading, and their validation and order.
pub record RecordCrates (B : Type 0) : Type 0 where
  pub sha256_hex : B → String
  pub to_vec_pretty : EvidenceRecord → B
  pub from_slice : B → Result EvidenceRecord String
  pub validate : EvidenceRecord → Option String
  pub before : EvidenceRecord → EvidenceRecord → Ordering

-- The store's view of the records.
abbrev pub of_records : {B : Type 0} → RecordCrates B → Crates EvidenceRecord B
of_records c = record {
  sha256_hex = c.sha256_hex;
  to_vec_pretty = c.to_vec_pretty;
  from_slice = c.from_slice;
  validate = c.validate;
  requirement_id = λ r. r.requirement_id;
  verification_id = λ r. r.verification_id;
  artifact_uri = λ r. r.artifact_uri;
  artifact_digest = λ r. r.artifact_digest;
  before = c.before;
}

-- What a runner is given: the crates, the executor, which changes the surroundings, the environment that it passes on, the probe, and
-- of the standard library the lossy reading and the writing of UTF-8 and the debugging form of texts.
pub record VerificationRunner (B W : Type 0) : Type 0 where
  pub records : RecordCrates B
  pub cases : CaseCrates
  pub executor : ExecRequest → W → W × ExecResult B
  pub minimal_env : List (String × String)
  pub probe : RevisionProbe W
  pub config : RunnerConfig
  pub store_root : String
  pub from_utf8_lossy : B → Text
  pub into_bytes : Text → B
  pub extend_from_slice : B → B → B
  pub debug_argv : List String → Text

-- The evidence store, the surroundings that the probe reads and the executor changes, and the
-- requests that the executor was sent, the last one first.
pub record World (B W : Type 0) : Type 0 where
  pub store : Store B
  pub surroundings : W
  pub sent : List ExecRequest
