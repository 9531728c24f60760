-- ===== src/Runner/Bound/Runs.antt =====
-- verification_runner.rs, `run_case`: that a run that returns a report went through every step.
use kr0ki.Common.{
  ℕ, ◌≡◌, ◌∙◌, refl, sym, ap, ◌∷◌, arith, is_some, is_empty, All, Bool-cases, subst, inl, inr,
}
use kr0ki.Common.Results.{ok, err, Result-cases, ok_path, ok_err}
use kr0ki.Evidence.{Answer}
use kr0ki.Evidence.Kept.{AreFiles}
use kr0ki.Evidence.Checked.{IsNamed}
use kr0ki.Runner.Cases.{VerificationCase, configuration_digest}
use kr0ki.Runner.Model.{of_records, VerificationRunner, RunReport, RevisionSet, World}
use kr0ki.Runner.{cargo_test_target, store_result, request_of, accepted, run_case}
use kr0ki.Runner.Bound.Reports.{Reported, store_result-Left}

module _ {B W : Type 0} (x : VerificationRunner B W) where
  -- The revisions of a run that is accepted, by what the probe read before it.
  pub record Revised (v : VerificationCase) (before : W) (revisions : RevisionSet) : Type 0 where
    pub model : revisions.model_revision ≡ x.config.model_revision
    pub implementation :
        ok revisions.implementation_revision ≡ x.probe.implementation_revision before
    pub configuration :
        revisions.configuration_digest ≡ configuration_digest x.cases v (x.probe.toolchain before)

  accepted-Revised :
      (v : VerificationCase) (before : W) (revisions : RevisionSet)
      → accepted x v before ≡ ok revisions
      → Revised v before revisions
  unfolding accepted
  accepted-Revised v before revisions h = elim (Bool-cases (is_some (cargo_test_target v.argv))) [
    | inr not_allowed ↦ absurd (ground (arith, h, not_allowed))
    | inl allowed ↦ elim (Bool-cases (is_empty v.requirements)) [
      | inl none_ ↦ absurd (ground (arith, h, allowed, none_))
      | inr some_ ↦ elim (Result-cases (x.probe.implementation_revision before)) [
        | inr (m, e) ↦ absurd (ground (arith, h, allowed, some_, e))
        | inl (implementation, e) ↦
            let revised : RevisionSet = record {
              model_revision = x.config.model_revision;
              implementation_revision = implementation;
              configuration_digest = configuration_digest x.cases v (x.probe.toolchain before);
            } in
            let same_ : accepted x v before ≡ ok revised =
              rw (accepted, allowed) (rw some_ (rw e refl)) in
            subst (Revised v before) (ok_path (sym same_ ∙ h))
              (record { model = refl; implementation = sym e; configuration = refl })
      ]
    ]
  ]

  -- A run that returns a report went through every step.
  pub record Ran (v : VerificationCase) (w w' : World B W) (report : RunReport) : Type 0 where
    pub sent : w'.sent ≡ request_of x v ∷ w.sent
    pub surroundings : w'.surroundings ≡ (x.executor (request_of x v) w.surroundings).0
    pub revised : Revised v w.surroundings report.revisions
    pub files : AreFiles (of_records x.records) w'.store.records.files
    pub artifacts : All (IsNamed (of_records x.records)) w'.store.artifacts.files
    pub reported :
        Reported x v report.revisions (x.executor (request_of x v) w.surroundings).1 w'.store report

  pub run_case-Ran :
      (v : VerificationCase) (answers : ℕ → Answer B) (w w' : World B W) (report : RunReport)
      → AreFiles (of_records x.records) w.store.records.files
      → All (IsNamed (of_records x.records)) w.store.artifacts.files
      → run_case x v answers w ≡ (w', ok report)
      → Ran v w w' report
  unfolding run_case
  run_case-Ran v answers w w' report files named h =
      elim (Result-cases (accepted x v w.surroundings)) [
        | inr (e, refused) ↦
            let stopped : run_case x v answers w ≡ (w, err e) = rw (run_case, refused) refl in
            absurd (ok_err (ap (λ u. u.1) (sym h ∙ stopped)))
        | inl (revisions, fine) ↦
            let request = request_of x v in
            let (surroundings, exec) = x.executor request w.surroundings in
            let (s, result) = store_result x v revisions exec answers w.store in
            let left = store_result-Left x v revisions exec answers w.store files named in
            let ended : World B W = record {
              store = s;
              surroundings = surroundings;
              sent = request ∷ w.sent;
            } in
            let went : run_case x v answers w ≡ (ended, result) = rw (run_case, fine) refl in
            let (same_, reported) = left.reports report (ap (λ u. u.1) (sym went ∙ h)) in
            subst (λ t. Ran v w t report) (ap (λ u. u.0) (sym went ∙ h))
              (record {
                sent = refl;
                surroundings = refl;
                revised =
                    subst (Revised v w.surroundings) (sym same_)
                      (accepted-Revised v w.surroundings revisions fine);
                files = left.files;
                artifacts = left.artifacts;
                reported = subst (λ r. Reported x v r exec s report) (sym same_) reported;
              })
      ]
