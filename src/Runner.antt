-- ===== src/Runner.antt =====
-- crates/kr0ki-core/src/verification_runner.rs: a case is run, and its verdict is bound to the
-- revisions that it ran against.
pub mod Summary
pub mod Model
pub mod Verdicts
pub mod Cases
pub mod Revision
pub mod Bound
pub mod Allowed
pub mod Returns
mod Examples
use Prim.Native.Nat.{Ordering}
use kr0ki.Runner.Model.{
  RunnerError, RevisionSet, EvidenceRecord, ExecRequest, RunnerConfig, RunReport, RecordCrates,
  of_records, VerificationRunner, World, unknown_case, not_allowlisted, no_requirement,
  probe_failed, store_failed,
}
use kr0ki.Common.{
  ℕ, suc, String, ◌==◌, Bool, true, false, not, ◌&&◌, ◌||◌, Option, none, some, List, [], ◌∷◌, ◌++◌,
  map, if◌then◌else◌, is_some, is_empty, leb, eqb,
}
use kr0ki.Common.Text.{is_digit, all_chars}
use kr0ki.Common.Chars.{Text, chars}
use kr0ki.Common.Results.{Result, ok, err}
use kr0ki.Evidence.{Crates, Store, EvidenceStoreError, Answer, put, put_artifact}
use kr0ki.Runner.Verdicts.{VerificationResult, pass, fail, error, ExecResult, classify}
use kr0ki.Runner.Summary.Numbers.{decimal}
use kr0ki.Runner.Cases.{Verified, VerificationCase, RevisionProbe, CaseCrates, configuration_digest}

unfoldable pub is_ident : String → Bool
unfolding all_chars
is_ident s =
    not (s == "")
    && all_chars
        (λ c.
          is_digit c
          || (leb b'A' c && leb c b'Z')
          || (leb b'a' c && leb c b'z')
          || eqb c b'_'
          || eqb c b'-')
        s

unfoldable pub cargo_test_target : List String → Option (String × String)
unfolding is_ident
cargo_test_target (cargo ∷ sub ∷ p ∷ member ∷ flag ∷ target ∷ []) =
    if cargo == "cargo"
      && sub == "test"
      && p == "-p"
      && flag == "--test"
      && is_ident member
      && is_ident target
    then some (member, target)
    else none
cargo_test_target _ = none

abbrev verdict_name : VerificationResult → Text
verdict_name pass = chars "Pass"
verdict_name fail = chars "Fail"
verdict_name error = chars "Error"

debug_code : Option ℕ → Text
debug_code none = chars "None"
debug_code (some n) = chars "Some(" ++ (decimal n ++ chars ")")

module _ {B W : Type 0} (x : VerificationRunner B W) where
  -- The artifact of a run.
  unfoldable pub log_of :
      VerificationCase → RevisionSet → VerificationResult → Text → ExecResult B → B
  unfolding debug_code chars
  log_of v revisions verdict detail result =
      let head =
        (chars "case: "
          ++ chars v.id
          ++ chars "\nargv: "
          ++ x.debug_argv v.argv
          ++ chars "\nmodel_revision: "
          ++ chars revisions.model_revision
          ++ chars "\nimplementation_revision: "
          ++ chars revisions.implementation_revision
          ++ chars "\nconfiguration_digest: "
          ++ chars revisions.configuration_digest
          ++ chars "\nverdict: "
          ++ verdict_name verdict
          ++ chars " ("
          ++ detail
          ++ chars ")\nexit_code: "
          ++ debug_code result.exit_code
          ++ chars "\ntimed_out: "
          ++ (if result.timed_out then chars "true" else chars "false")
          ++ chars "\n--- output ---\n") in
      x.extend_from_slice (x.into_bytes head) result.output

  unfoldable pub record_for :
      VerificationCase
      → RevisionSet
      → VerificationResult
      → String × String
      → Verified
      → EvidenceRecord
  record_for v revisions verdict (uri, digest) (requirement_id, statement, acceptance) = record {
    requirement_id = requirement_id;
    verification_id = v.id;
    model_revision = revisions.model_revision;
    implementation_revision = revisions.implementation_revision;
    configuration_digest = revisions.configuration_digest;
    result = verdict;
    artifact_uri = uri;
    artifact_digest = digest;
  }

  -- The loop that puts a record for every requirement. The file system answers each put in turn.
  unfoldable pub put_each :
      (Verified → EvidenceRecord)
      → List Verified
      → (ℕ → Answer B)
      → Store B
      → Store B × Result (List EvidenceRecord) EvidenceStoreError
  unfolding put
  put_each record_of [] answers s = (s, ok [])
  put_each record_of (q ∷ qs) answers s =
      let (s', stored) = put (of_records x.records) (record_of q) (answers 0) s in
      elim stored [
        | err e ↦ (s', err e)
        | ok stem ↦
            let (s'', later) = put_each record_of qs (λ i. answers (suc i)) s' in
            elim later [ err e ↦ (s'', err e) | ok rs ↦ (s'', ok (record_of q ∷ rs)) ]
      ]

  -- `run_case` from the answer of the executor on.
  unfoldable pub store_result :
      VerificationCase
      → RevisionSet
      → ExecResult B
      → (ℕ → Answer B)
      → Store B
      → Store B × Result RunReport RunnerError
  unfolding classify log_of put_artifact put_each record_for
  store_result v revisions result answers s =
      let (verdict, detail) = classify x.from_utf8_lossy result in
      let log = log_of v revisions verdict detail result in
      let (s', artifact) = put_artifact (of_records x.records) x.store_root log (answers 0) s in
      elim artifact [
        | err e ↦ (s', err (store_failed e))
        | ok at ↦
            let (s'', records) =
              put_each (record_for v revisions verdict at) v.requirements (λ i. answers (suc i))
                s' in
            elim records [
              | err e ↦ (s'', err (store_failed e))
              | ok rs ↦ (
                s'',
                ok (record {
                  case_id = v.id;
                  result = verdict;
                  detail = detail;
                  revisions = revisions;
                  records = rs;
                }),
              )
            ]
      ]

  unfoldable pub request_of : VerificationCase → ExecRequest
  request_of v = record {
    argv = v.argv;
    cwd = x.config.repo_root;
    timeout = x.config.timeout;
    env = x.minimal_env;
  }

  -- What `run_case` checks and reads before the run: the case may run, and the revisions.
  unfoldable pub accepted : VerificationCase → W → Result RevisionSet RunnerError
  unfolding cargo_test_target configuration_digest
  accepted v surroundings =
      if not (is_some (cargo_test_target v.argv))
      then err (not_allowlisted v.id v.argv)
      else if is_empty v.requirements
      then err (no_requirement v.id)
      else elim (x.probe.implementation_revision surroundings) [
        | err m ↦ err (probe_failed m)
        | ok implementation ↦ ok (record {
          model_revision = x.config.model_revision;
          implementation_revision = implementation;
          configuration_digest = configuration_digest x.cases v (x.probe.toolchain surroundings);
        })
      ]

  unfoldable pub run_case :
      VerificationCase → (ℕ → Answer B) → World B W → World B W × Result RunReport RunnerError
  unfolding accepted request_of store_result
  run_case v answers w = elim (accepted v w.surroundings) [
    | err e ↦ (w, err e)
    | ok revisions ↦
        let request = request_of v in
        let (surroundings, result) = x.executor request w.surroundings in
        let (s, report) = store_result v revisions result answers w.store in
        (record { store = s; surroundings = surroundings; sent = request ∷ w.sent }, report)
  ]
