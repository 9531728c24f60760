-- ===== src/Runner/Examples.antt =====
-- A case that verifies one requirement is run.
mod Records
mod Verdicts
use kr0ki.Common.{
  ℕ, String, ◌<>◌, ◌≡◌, ◌≤◌, ◌<◌, ◌^◌, ◌↔◌, refl, Bool, true, false, Option, none, some, List, [],
  ◌∷◌, ◌++◌, All, map, any, ap, Bool-cases, inl, inr, eq_iff, ◌==◌, arith, if◌then◌else◌,
}
use text.Mathlib.TextLemmas.{append_cancel_left, append_cancel_right}
use kr0ki.Common.Results.{Result, ok, err}
use kr0ki.Common.OrdMap.{OrdMap, lookup, insert, remove}
use kr0ki.Common.Text.{all_chars}
use kr0ki.Common.Chars.{Text, chars}
use kr0ki.Evidence.{
  put_artifact, put, ensure_file, write_atomic, or_error, Store, Answer, done, list, check_artifact,
  intact,
}
use kr0ki.Evidence.Listed.{Lists}
use kr0ki.Evidence.Checked.{artifact_path}
use kr0ki.Runner.Summary.{parse_test_summary}
use kr0ki.Runner.Summary.Numbers.{decimal}
use kr0ki.Runner.Verdicts.{judge, ExecResult, VerificationResult, pass, classify}
use kr0ki.Runner.Cases.{configuration_digest, VerificationCase, CaseCrates, RevisionProbe}
use kr0ki.Runner.Model.{EvidenceRecord, of_records, VerificationRunner, World, RunReport}
use kr0ki.Runner.{
  accepted, store_result, put_each, record_for, log_of, run_case, request_of, cargo_test_target,
  is_ident,
}
use kr0ki.Runner.Bound.{IsBound, run_case-IsBound}
use kr0ki.Runner.Allowed.{IsAllowed, run_case-IsAllowed}
use kr0ki.Runner.Returns.{run_case-returns}
use kr0ki.Runner.Examples.Records.{
  records, validate, validate-sha256, to_text, of_text, of_text-to_text,
}

abbrev case_crates : CaseCrates
case_crates = record {
  node_kind_attr = "kind";
  verification_case = "verification_case";
  from_str = λ s. none;
  to_string = λ s. s.case_id;
  sha256_hex = λ s. s;
}

-- The surroundings are the commits that were made, the last one first. The executor's one test passes,
-- and makes a commit; the artifact is a fixed text.
abbrev runner : VerificationRunner String (List String)
runner = record {
  records = records;
  cases = case_crates;
  executor = λ r w. (
    "def" ∷ w,
    record { exit_code = some 0; timed_out = false; output = "1 passed"; spawn_error = none },
  );
  minimal_env = ("CARGO_TERM_COLOR", "never") ∷ [];
  probe = record {
    implementation_revision = λ w. elim w [ [] ↦ err "no commit" | c ∷ cs ↦ ok c ];
    toolchain = λ w. "rustc 1";
  };
  config = record { repo_root = "/repo"; timeout = 600; model_revision = "model 1" };
  store_root = "/evidence";
  from_utf8_lossy = λ b. chars "test result: ok. 1 passed; 0 failed; 0 ignored\n";
  into_bytes = λ t. "log";
  extend_from_slice = λ a b. a;
  debug_argv = λ a. [];
}

abbrev checked_case : VerificationCase
checked_case = record {
  id = "VC-1";
  argv = "cargo" ∷ "test" ∷ "-p" ∷ "kr0ki-core" ∷ "--test" ∷ "evidence" ∷ [];
  acceptance = "passes";
  requirements = ("REQ-1", "stores evidence", "listed") ∷ [];
}

abbrev fresh : World String (List String)
fresh = record {
  store = record {
    records = record { files = []; leftovers = [] };
    artifacts = record { files = []; leftovers = [] };
  };
  surroundings = "abc" ∷ [];
  sent = [];
}

run_case-IsAllowed_example :
    All (IsAllowed runner) (run_case runner checked_case (λ i. done) fresh).0.sent
run_case-IsAllowed_example = run_case-IsAllowed runner checked_case (λ i. done) fresh tt

run_case-returns_example :
    (w' : World String (List String)) × (report : RunReport) × (run_case runner checked_case
        (λ i. done)
        fresh
      ≡ (w', ok report))
unfolding cargo_test_target is_ident all_chars
run_case-returns_example =
    run_case-returns runner checked_case (λ i. done) fresh "abc" refl refl refl (λ i. refl)
      (λ r q log there requirement verification model implementation digest result uri hash.
        validate-sha256 r log hash)

-- The files of the artifacts, by their paths.
read_of : {B : Type 0} → String → OrdMap B → String → Option B
read_of root [] path = none
read_of root ((stem, b) ∷ files) path =
    let later = read_of root files path in if artifact_path root stem == path then some b else later

artifact_path-same : (root j k : String) → artifact_path root j ≡ artifact_path root k → j ≡ k
artifact_path-same root j k h =
    append_cancel_right j k ".log"
      (append_cancel_left "/artifacts/" _ _ (append_cancel_left root _ _ h))

read_of-lookup :
    {B : Type 0} (root : String) (files : OrdMap B) (stem : String)
    → read_of root files (artifact_path root stem) ≡ lookup stem files
unfolding read_of lookup
read_of-lookup root [] stem = refl
read_of-lookup root ((j, b) ∷ files) stem = elim (Bool-cases (j == stem)) [
  | inl same_ ↦
      let e : j ≡ stem = (eq_iff j stem).0 same_ in
      let path : (artifact_path root j == artifact_path root stem) ≡ true =
        (eq_iff _ _).1 (ap (artifact_path root) e) in
      rw (path, same_) refl
  | inr other_ ↦ elim (Bool-cases (artifact_path root j == artifact_path root stem)) [
    | inl clash ↦
        let e = artifact_path-same root j stem ((eq_iff _ _).0 clash) in
        absurd (ground (arith, (eq_iff j stem).1 e, other_))
    | inr apart ↦ rw (apart, other_) (read_of-lookup root files stem)
  ]
]

abbrev evidence : EvidenceRecord
evidence = record {
  requirement_id = "REQ-1";
  verification_id = "VC-1";
  model_revision = "model 1";
  implementation_revision = "abc";
  configuration_digest = "sha256:VC-1";
  result = pass;
  artifact_uri = "file:///evidence/artifacts/log.log";
  artifact_digest = "sha256:log";
}

abbrev report : RunReport
report = record {
  case_id = "VC-1";
  result = pass;
  detail = chars "1 tests passed";
  revisions = record {
    model_revision = "model 1";
    implementation_revision = "abc";
    configuration_digest = "sha256:VC-1";
  };
  records = evidence ∷ [];
}

abbrev later : World String (List String)
later = record {
  store = record {
    records = record { files = (to_text evidence, to_text evidence) ∷ []; leftovers = [] };
    artifacts = record { files = ("log", "log") ∷ []; leftovers = [] };
  };
  surroundings = "def" ∷ "abc" ∷ [];
  sent = request_of runner checked_case ∷ [];
}

ran : run_case runner checked_case (λ i. done) fresh ≡ (later, ok report)
unfolding run_case accepted store_result request_of classify judge parse_test_summary put_artifact
    put put_each ensure_file write_atomic or_error record_for configuration_digest log_of
    cargo_test_target is_ident all_chars insert remove lookup decimal validate
ran = refl

run_case-IsBound_example :
    (later.sent ≡ request_of runner checked_case ∷ [])
    × (map (λ r. r.requirement_id) report.records ≡ "REQ-1" ∷ [])
    × (later.surroundings ≡ "def" ∷ "abc" ∷ [])
    × All (IsBound runner checked_case ("abc" ∷ []) report) report.records
    × (ls : List EvidenceRecord) × (list (of_records records) (λ stem. none) later.store ≡ ok ls)
    × All
        (λ r.
          Lists ls r
          × (check_artifact
                (of_records records)
                "/evidence"
                (read_of "/evidence" later.store.artifacts.files)
                r
              ≡ intact))
        report.records
run_case-IsBound_example =
    run_case-IsBound runner checked_case (λ i. done) fresh later report (λ stem. none)
      (read_of "/evidence" later.store.artifacts.files) of_text-to_text (λ a b e. e) (λ stem. refl)
      (read_of-lookup "/evidence" later.store.artifacts.files) tt tt ran
