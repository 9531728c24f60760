-- ===== src/Runner/Bound.antt =====
-- verification_runner.rs, `run_case`: what a run leaves in the evidence store.
pub mod Records
pub mod Reports
pub mod Runs
use kr0ki.Common.{
  ℕ, suc, String, ◌<>◌, ◌≡◌, ◌∙◌, refl, sym, ap, Bool, true, false, not, Option, none, some, List,
  [], ◌∷◌, map, arith, any, is_some, is_empty, All, Bool-cases, Option-cases, subst, inl, inr,
}
use kr0ki.Common.Chars.{Text}
use kr0ki.Common.Results.{Result, ok, err, Result-cases}
use kr0ki.Common.OrdMap.{lookup}
use kr0ki.Evidence.{
  Crates, Store, EvidenceStoreError, Answer, put_artifact, list, check_artifact, intact,
  ArtifactCheck,
}
use kr0ki.Evidence.Kept.{AreFiles}
use kr0ki.Evidence.Checked.{IsNamed, artifact_path, put_artifact-Filed, check_artifact-intact}
use kr0ki.Evidence.Listed.{Lists, list-Listing}
use kr0ki.Runner.Verdicts.{VerificationResult, ExecResult, classify}
use kr0ki.Runner.Cases.{Verified, VerificationCase, configuration_digest}
use kr0ki.Runner.Model.{
  EvidenceRecord, of_records, VerificationRunner, RunReport, RunnerError, RevisionSet, World,
  no_requirement, store_failed,
}
use kr0ki.Runner.{
  cargo_test_target, log_of, record_for, put_each, store_result, request_of, accepted, run_case,
}
use kr0ki.Runner.Bound.Records.{IsKept}
use kr0ki.Runner.Bound.Runs.{Revised, Ran, run_case-Ran}
use kr0ki.Runner.Bound.Reports.{Reported, Left, store_result-Left}

module _ {B W : Type 0} (x : VerificationRunner B W) where
  -- The record of one requirement is the report's: it carries the revisions that the probe reads in
  -- the surroundings before the run, and the verdict of the run in them.
  pub record IsBound (v : VerificationCase) (before : W) (report : RunReport) (r : EvidenceRecord)
      : Type 0 where
    pub verification : r.verification_id ≡ v.id
    pub model : r.model_revision ≡ x.config.model_revision
    pub implementation : ok r.implementation_revision ≡ x.probe.implementation_revision before
    pub configuration :
        r.configuration_digest ≡ configuration_digest x.cases v (x.probe.toolchain before)
    pub verdict : r.result ≡ (classify x.from_utf8_lossy (x.executor (request_of x v) before).1).0
    pub reported : r.result ≡ report.result

  map-All :
      (v : VerificationCase) (revisions : RevisionSet) (verdict : VerificationResult)
      (at : String × String) (P : EvidenceRecord → Type 0) (qs : List Verified)
      → ((q : Verified) → P (record_for x v revisions verdict at q))
      → All P (map (record_for x v revisions verdict at) qs)
  map-All v revisions verdict at P [] h = tt
  map-All v revisions verdict at P (q ∷ qs) h = (h q, map-All v revisions verdict at P qs h)

  All-map₂ :
      (P Q R : EvidenceRecord → Type 0) (rs : List EvidenceRecord)
      → ((r : EvidenceRecord) → P r → Q r → R r)
      → All P rs
      → All Q rs
      → All R rs
  All-map₂ P Q R [] f p q = tt
  All-map₂ P Q R (r ∷ rs) f (p, ps) (q, qs) = (f r p q, All-map₂ P Q R rs f ps qs)

  -- A record of a report names an artifact of the log, in the store.
  record Names (s : Store B) (r : EvidenceRecord) : Type 0 where
    log : B
    located : r.artifact_uri ≡ "file://" <> artifact_path x.store_root (x.records.sha256_hex log)
    digested : r.artifact_digest ≡ "sha256:" <> x.records.sha256_hex log
    there : is_some (lookup (x.records.sha256_hex log) s.artifacts.files) ≡ true

  -- What each record is, by how it was made.
  Ran-IsBound :
      (v : VerificationCase) (w w' : World B W) (report : RunReport)
      → Ran x v w w' report
      → All (IsBound v w.surroundings report) report.records × All (Names w'.store) report.records
  unfolding record_for
  Ran-IsBound v w w' report ran =
      let k = ran.reported in
      let at : String × String = (k.uri, k.digest) in
      let verdict = (classify x.from_utf8_lossy (x.executor (request_of x v) w.surroundings).1).0 in
      (
        subst (All (IsBound v w.surroundings report)) (sym k.records) (
            map-All v report.revisions verdict at (IsBound v w.surroundings report) v.requirements
              λ q. record {
                verification = refl;
                model = ran.revised.model;
                implementation = ran.revised.implementation;
                configuration = ran.revised.configuration;
                verdict = refl;
                reported = sym k.verdict;
              }),
        subst (All (Names w'.store)) (sym k.records) (
            map-All v report.revisions verdict at (Names w'.store) v.requirements λ q. record {
              log = k.log;
              located = k.located;
              digested = k.digested;
              there = k.there;
            }),
      )

  same_ids :
      (v : VerificationCase) (revisions : RevisionSet) (verdict : VerificationResult)
      (at : String × String) (qs : List Verified)
      → map (λ r. r.requirement_id) (map (record_for x v revisions verdict at) qs)
        ≡ map (λ q. q.0) qs
  unfolding record_for
  same_ids v revisions verdict at [] = refl
  same_ids v revisions verdict at (q ∷ qs) = ap (λ l. q.0 ∷ l) (same_ids v revisions verdict at qs)

-- A run that returns a report sent the executor one request, that of the case, which alone changed
-- the surroundings. There is one record for each requirement of the case, in their order. Each is
-- listed by the store, is bound to the revisions that the probe reads in the surroundings as they
-- were before the run and to the verdict of the run, and names an artifact that the store finds
-- intact. The directories hold records and artifacts under their digests before, every
-- file can be read, the JSON form of a record is read back, and no two contents share a digest.
pub run_case-IsBound :
    {B W : Type 0} (x : VerificationRunner B W) (v : VerificationCase) (answers : ℕ → Answer B)
    (w w' : World B W) (report : RunReport) (unreadable : String → Option String)
    (read : String → Option B)
    → ((r : EvidenceRecord) → x.records.from_slice (x.records.to_vec_pretty r) ≡ ok r)
    → ((a b : B) → x.records.sha256_hex a ≡ x.records.sha256_hex b → a ≡ b)
    → ((stem : String) → unreadable stem ≡ none)
    → ((stem : String)
        → read (artifact_path x.store_root stem) ≡ lookup stem w'.store.artifacts.files)
    → AreFiles (of_records x.records) w.store.records.files
    → All (IsNamed (of_records x.records)) w.store.artifacts.files
    → run_case x v answers w ≡ (w', ok report)
    → (w'.sent ≡ request_of x v ∷ w.sent)
      × (map (λ r. r.requirement_id) report.records ≡ map (λ q. q.0) v.requirements)
      × (w'.surroundings ≡ (x.executor (request_of x v) w.surroundings).0)
      × All (IsBound x v w.surroundings report) report.records
      × (ls : List EvidenceRecord) × (list (of_records x.records) unreadable w'.store ≡ ok ls)
      × All
          (λ r. Lists ls r × (check_artifact (of_records x.records) x.store_root read r ≡ intact))
          report.records
run_case-IsBound x v answers w w' report unreadable read reads distinct readable at files named h =
    let c = of_records x.records in
    let ran = run_case-Ran x v answers w w' report files named h in
    let k = ran.reported in
    let (bound, names) = Ran-IsBound x v w w' report ran in
    let l = list-Listing c reads distinct unreadable readable w'.store ran.files in
    (
      ran.sent,
      ap (map (λ r. r.requirement_id)) k.records
          ∙ same_ids x v report.revisions _ (k.uri, k.digest) v.requirements,
      ran.surroundings,
      bound,
      l.listed,
      l.returned,
      All-map₂ x (IsKept x w'.store) (Names x w'.store)
          (λ r. Lists l.listed r × (check_artifact c x.store_root read r ≡ intact)) report.records
          (λ r kept n. (
            l.holds r kept,
            check_artifact-intact c x.store_root n.log r w'.store read ran.artifacts n.there at
                n.located n.digested,
          ))
          k.kept names,
    )
