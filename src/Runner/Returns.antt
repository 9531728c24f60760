-- ===== src/Runner/Returns.antt =====
-- verification_runner.rs, `run_case`: when a run returns a report.
use mathlib.Core.List.{Memᴰ}
use kr0ki.Common.{
  ℕ, suc, String, ◌<>◌, ◌≡◌, refl, true, false, none, List, [], ◌∷◌, Bool-cases, inl, inr, is_some,
  is_empty,
}
use kr0ki.Common.Results.{ok}
use kr0ki.Common.OrdMap.{contains_key}
use kr0ki.Evidence.{
  Crates, Store, Answer, done, put, put_artifact, ensure_file, write_atomic, or_error, Dir,
}
use kr0ki.Runner.Verdicts.{ExecResult, classify}
use kr0ki.Runner.Cases.{Verified, VerificationCase, configuration_digest}
use kr0ki.Runner.Model.{
  VerificationRunner, EvidenceRecord, of_records, RevisionSet, RunReport, World,
}
use kr0ki.Runner.{
  cargo_test_target, put_each, record_for, store_result, log_of, request_of, accepted, run_case,
}

ensure_file-done :
    {R B : Type 0} (c : Crates R B) (stem : String) (bytes : B) (answer : Answer B) (d : Dir B)
    → answer ≡ done
    → (ensure_file c stem bytes answer d).1 ≡ none
unfolding ensure_file write_atomic
ensure_file-done c stem bytes answer d is_done = elim (Bool-cases (contains_key stem d.files)) [
  | inl there ↦ rw is_done (rw there refl)
  | inr free ↦ rw is_done (rw free refl)
]

put-done :
    {R B : Type 0} (c : Crates R B) (r : R) (answer : Answer B) (s : Store B)
    → answer ≡ done
    → c.validate r ≡ none
    → (stem : String) × ((put c r answer s).1 ≡ ok stem)
unfolding put or_error
put-done c r answer s is_done valid =
    let stem = c.sha256_hex (c.to_vec_pretty r) in
    (
      stem,
      rw (put, valid)
          (rw (ensure_file-done c stem (c.to_vec_pretty r) answer s.records is_done) refl),
    )

-- The URI and the digest of an artifact.
abbrev at_digest : String → String → String × String
at_digest root digest =
    ("file://" <> root <> "/artifacts/" <> digest <> ".log", "sha256:" <> digest)

put_artifact-done :
    {R B : Type 0} (c : Crates R B) (root : String) (bytes : B) (answer : Answer B) (s : Store B)
    → answer ≡ done
    → (put_artifact c root bytes answer s).1 ≡ ok (at_digest root (c.sha256_hex bytes))
unfolding put_artifact or_error
put_artifact-done c root bytes answer s is_done =
    rw (ensure_file-done c (c.sha256_hex bytes) bytes answer s.artifacts is_done) refl

module _ {B W : Type 0} (x : VerificationRunner B W) where
  abbrev located : B → String × String
  located log = at_digest x.store_root (x.records.sha256_hex log)

  -- The file system does whatever it is asked to.
  abbrev AllDone : (ℕ → Answer B) → Type 0
  AllDone answers = (i : ℕ) → answers i ≡ done

  put_each-done :
      (record_of : Verified → EvidenceRecord) (qs : List Verified) (answers : ℕ → Answer B)
      (s : Store B)
      → AllDone answers
      → ((q : Verified) → Memᴰ q qs → x.records.validate (record_of q) ≡ none)
      → (rs : List EvidenceRecord) × ((put_each x record_of qs answers s).1 ≡ ok rs)
  unfolding put_each
  put_each-done record_of [] answers s done_ valid = ([], refl)
  put_each-done record_of (q ∷ qs) answers s done_ valid =
      let (stem, e) =
        put-done (of_records x.records) (record_of q) (answers 0) s (done_ 0)
          (valid q (Memᴰ.head refl)) in
      let s' = (put (of_records x.records) (record_of q) (answers 0) s).0 in
      let (rs, g) =
        put_each-done record_of qs (λ i. answers (suc i)) s' (λ i. done_ (suc i))
          (λ p there. valid p (Memᴰ.tail there)) in
      (record_of q ∷ rs, rw (put_each, e) (rw g refl))

  store_result-done :
      (v : VerificationCase) (revisions : RevisionSet) (result : ExecResult B)
      (answers : ℕ → Answer B) (s : Store B)
      → AllDone answers
      → ((q : Verified) (log : B)
          → Memᴰ q v.requirements
          → x.records.validate
              (record_for x v revisions (classify x.from_utf8_lossy result).0 (located log) q)
            ≡ none)
      → (report : RunReport) × ((store_result x v revisions result answers s).1 ≡ ok report)
  unfolding store_result record_for
  store_result-done v revisions result answers s done_ valid =
      let c = of_records x.records in
      let (verdict, detail) = classify x.from_utf8_lossy result in
      let log = log_of x v revisions verdict detail result in
      let at = located log in
      let e = put_artifact-done c x.store_root log (answers 0) s (done_ 0) in
      let s' = (put_artifact c x.store_root log (answers 0) s).0 in
      let (rs, g) =
        put_each-done (record_for x v revisions verdict at) v.requirements (λ i. answers (suc i)) s'
          (λ i. done_ (suc i)) (λ q there. valid q log there) in
      let report : RunReport = record {
        case_id = v.id;
        result = verdict;
        detail = detail;
        revisions = revisions;
        records = rs;
      } in
      (report, rw (store_result, e) (rw g refl))

  abbrev revisions_at : VerificationCase → W → String → RevisionSet
  revisions_at v before implementation = record {
    model_revision = x.config.model_revision;
    implementation_revision = implementation;
    configuration_digest = configuration_digest x.cases v (x.probe.toolchain before);
  }

  accepted-ok :
      (v : VerificationCase) (before : W) (implementation : String)
      → is_some (cargo_test_target v.argv) ≡ true
      → is_empty v.requirements ≡ false
      → x.probe.implementation_revision before ≡ ok implementation
      → accepted x v before ≡ ok (revisions_at v before implementation)
  unfolding accepted
  accepted-ok v before implementation allowed some_ e =
      rw (accepted, allowed) (rw some_ (rw e refl))

-- The run of a case that may run, that verifies a requirement and whose revisions can be read returns
-- a report, whatever the executor's answer is, when the file system does what it is asked to and the
-- records validate that carry the case's id, one of its requirements, the revisions that the probe
-- reads before the run, the verdict of the executor's answer, and the place and digest of an artifact.
pub run_case-returns :
    {B W : Type 0} (x : VerificationRunner B W) (v : VerificationCase) (answers : ℕ → Answer B)
    (w : World B W) (implementation : String)
    → is_some (cargo_test_target v.argv) ≡ true
    → is_empty v.requirements ≡ false
    → x.probe.implementation_revision w.surroundings ≡ ok implementation
    → ((i : ℕ) → answers i ≡ done)
    → ((r : EvidenceRecord) (q : Verified) (log : B)
        → Memᴰ q v.requirements
        → r.requirement_id ≡ q.0
        → r.verification_id ≡ v.id
        → r.model_revision ≡ x.config.model_revision
        → r.implementation_revision ≡ implementation
        → r.configuration_digest ≡ configuration_digest x.cases v (x.probe.toolchain w.surroundings)
        → r.result ≡ (classify x.from_utf8_lossy (x.executor (request_of x v) w.surroundings).1).0
        → r.artifact_uri
          ≡ "file://" <> x.store_root <> "/artifacts/" <> x.records.sha256_hex log <> ".log"
        → r.artifact_digest ≡ "sha256:" <> x.records.sha256_hex log
        → x.records.validate r ≡ none)
    → (w' : World B W) × (report : RunReport) × (run_case x v answers w ≡ (w', ok report))
unfolding run_case record_for
run_case-returns {B = B} {W = W} x v answers w implementation allowed some_ probed done_ valid =
    let revisions = revisions_at x v w.surroundings implementation in
    let e = accepted-ok x v w.surroundings implementation allowed some_ probed in
    let request = request_of x v in
    let (surroundings, result) = x.executor request w.surroundings in
    let (report, g) =
      store_result-done x v revisions result answers w.store done_
        (λ q log there. valid _ q log there refl refl refl refl refl refl refl refl) in
    let w' : World B W = record {
      store = (store_result x v revisions result answers w.store).0;
      surroundings = surroundings;
      sent = request ∷ w.sent;
    } in
    (w', report, rw (run_case, e) (rw g refl))
