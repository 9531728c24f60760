-- ===== src/Runner/Bound/Reports.antt =====
-- verification_runner.rs, `run_case`: what is left from the answer of the executor on.
use kr0ki.Common.{ℕ, suc, String, ◌<>◌, ◌≡◌, refl, sym, true, map, is_some, All, subst, inl, inr}
use kr0ki.Common.Results.{Result, ok, Result-cases, ok_path}
use kr0ki.Common.OrdMap.{lookup}
use kr0ki.Evidence.{Store, Answer, put_artifact}
use kr0ki.Evidence.Kept.{AreFiles}
use kr0ki.Evidence.Checked.{IsNamed, artifact_path, put_artifact-Filed}
use kr0ki.Runner.Verdicts.{ExecResult, classify}
use kr0ki.Runner.Cases.{VerificationCase}
use kr0ki.Runner.Model.{of_records, VerificationRunner, RunReport, RunnerError, RevisionSet}
use kr0ki.Runner.{log_of, record_for, put_each, store_result}
use kr0ki.Runner.Bound.Records.{IsKept, put_each-Each}

module _ {B W : Type 0} (x : VerificationRunner B W) where
  -- What holds of a report: its records are those of the requirements, each of them is in the store,
  -- and so is the artifact that they name.
  pub record Reported (v : VerificationCase) (revisions : RevisionSet) (result : ExecResult B)
      (s : Store B) (report : RunReport) : Type 0 where
    pub uri : String
    pub digest : String
    pub log : B
    pub located : uri ≡ "file://" <> artifact_path x.store_root (x.records.sha256_hex log)
    pub digested : digest ≡ "sha256:" <> x.records.sha256_hex log
    pub there : is_some (lookup (x.records.sha256_hex log) s.artifacts.files) ≡ true
    pub verdict : report.result ≡ (classify x.from_utf8_lossy result).0
    pub records :
        report.records
        ≡ map
            (record_for x v revisions (classify x.from_utf8_lossy result).0 (uri, digest))
            v.requirements
    pub kept : All (IsKept x s) report.records

  -- What is left by `run_case` from the executor's answer on.
  pub record Left (v : VerificationCase) (revisions : RevisionSet) (result : ExecResult B)
      (u : Store B × Result RunReport RunnerError) : Type 0 where
    pub files : AreFiles (of_records x.records) u.0.records.files
    pub artifacts : All (IsNamed (of_records x.records)) u.0.artifacts.files
    pub reports :
        (report : RunReport)
        → u.1 ≡ ok report
        → (report.revisions ≡ revisions) × Reported v revisions result u.0 report

  pub store_result-Left :
      (v : VerificationCase) (revisions : RevisionSet) (result : ExecResult B)
      (answers : ℕ → Answer B) (s : Store B)
      → AreFiles (of_records x.records) s.records.files
      → All (IsNamed (of_records x.records)) s.artifacts.files
      → Left v revisions result (store_result x v revisions result answers s)
  unfolding store_result
  store_result-Left v revisions result answers s files named =
      let c = of_records x.records in
      let (verdict, detail) = classify x.from_utf8_lossy result in
      let log = log_of x v revisions verdict detail result in
      let filed = put_artifact-Filed c x.store_root log (answers 0) s named in
      let s' = (put_artifact c x.store_root log (answers 0) s).0 in
      let still : AreFiles c s'.records.files =
        subst (λ d. AreFiles c d.files) (sym filed.records) files in
      elim (Result-cases (put_artifact c x.store_root log (answers 0) s).1) [
        | inr (e, h) ↦
            rw (store_result, h)
              (record {
                files = still;
                artifacts = filed.artifacts;
                reports = λ report h. absurd (cc);
              })
        | inl ((uri, digest), h) ↦
            let each =
              put_each-Each x (record_for x v revisions verdict (uri, digest)) v.requirements
                (λ i. answers (suc i)) s' still in
            let s'' =
              (put_each x (record_for x v revisions verdict (uri, digest)) v.requirements
                (λ i. answers (suc i)) s').0 in
            let later =
              (put_each x (record_for x v revisions verdict (uri, digest)) v.requirements
                (λ i. answers (suc i)) s').1 in
            let all_named : All (IsNamed c) s''.artifacts.files =
              subst (λ d. All (IsNamed c) d.files) (sym each.artifacts) filed.artifacts in
            let (located, digested, there) = filed.there uri digest h in
            elim (Result-cases later) [
              | inr (e, g) ↦
                  rw (store_result, h)
                    (rw g (record {
                      files = each.files;
                      artifacts = all_named;
                      reports = λ report h. absurd (cc);
                    }))
              | inl (rs, g) ↦
                  rw (store_result, h)
                    (rw g (record {
                      files = each.files;
                      artifacts = all_named;
                      reports = λ report returned.
                          let e = ok_path returned in
                          subst (λ t. (t.revisions ≡ revisions) × Reported v revisions result s'' t)
                            e
                            (
                              refl,
                              record {
                                uri = uri;
                                digest = digest;
                                log = log;
                                located = located;
                                digested = digested;
                                there =
                                    subst
                                      (λ d.
                                        is_some (lookup (x.records.sha256_hex log) d.files) ≡ true)
                                      (sym each.artifacts) there;
                                verdict = refl;
                                records = (each.kept rs g).0;
                                kept = (each.kept rs g).1;
                              },
                            );
                    }))
            ]
      ]
