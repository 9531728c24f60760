-- ===== src/Runner/Bound/Records.antt =====
-- verification_runner.rs, `run_case`: the loop that puts a record for every requirement.
use kr0ki.Common.{
  ℕ, suc, ◌≡◌, ◌∙◌, refl, ap, true, List, [], ◌∷◌, map, arith, is_some, Option-cases, All, subst,
  inl, inr,
}
use kr0ki.Common.Results.{Result, ok, Result-cases}
use kr0ki.Common.OrdMap.{lookup}
use kr0ki.Evidence.{Store, EvidenceStoreError, Answer, put}
use kr0ki.Evidence.Kept.{AreFiles, Keeps, put-Kept, put-artifacts}
use kr0ki.Runner.Cases.{Verified}
use kr0ki.Runner.Model.{EvidenceRecord, of_records, VerificationRunner}
use kr0ki.Runner.{put_each}

module _ {B W : Type 0} (x : VerificationRunner B W) where
  -- A record has its file.
  abbrev pub IsKept : Store B → EvidenceRecord → Type 0
  IsKept s r =
      is_some (lookup (x.records.sha256_hex (x.records.to_vec_pretty r)) s.records.files) ≡ true

  -- What the loop leaves, whether it gets through or not.
  pub record Each (record_of : Verified → EvidenceRecord) (qs : List Verified) (s : Store B)
      (u : Store B × Result (List EvidenceRecord) EvidenceStoreError) : Type 0 where
    pub files : AreFiles (of_records x.records) u.0.records.files
    pub keeps : Keeps (of_records x.records) s.records.files u.0.records.files
    pub artifacts : u.0.artifacts ≡ s.artifacts
    pub kept :
        (rs : List EvidenceRecord) → u.1 ≡ ok rs → (rs ≡ map record_of qs) × All (IsKept u.0) rs

  IsKept-Keeps :
      (s s' : Store B) (r : EvidenceRecord)
      → Keeps (of_records x.records) s.records.files s'.records.files
      → IsKept s r
      → IsKept s' r
  IsKept-Keeps s s' r keeps there =
      let stem = x.records.sha256_hex (x.records.to_vec_pretty r) in
      elim (Option-cases (lookup stem s.records.files)) [
        | inl e ↦ absurd (ground (arith, e, there))
        | inr (b, e) ↦ rw (keeps stem b e) refl
      ]

  pub put_each-Each :
      (record_of : Verified → EvidenceRecord) (qs : List Verified) (answers : ℕ → Answer B)
      (s : Store B)
      → AreFiles (of_records x.records) s.records.files
      → Each record_of qs s (put_each x record_of qs answers s)
  unfolding put_each
  put_each-Each record_of [] answers s files = record {
    files = files;
    keeps = λ stem b at. at;
    artifacts = refl;
    kept = λ rs h. let e : [] ≡ rs = cc in subst (λ ts. (ts ≡ []) × All (IsKept s) ts) e (refl, tt);
  }
  put_each-Each record_of (q ∷ qs) answers s files =
      let c = of_records x.records in
      let r = record_of q in
      let k = put-Kept c r (answers 0) s (c.validate r) refl files in
      let s' = (put c r (answers 0) s).0 in
      elim (Result-cases (put c r (answers 0) s).1) [
        | inr (e, h) ↦
            rw (put_each, h)
              (record {
                files = k.files;
                keeps = k.keeps;
                artifacts = put-artifacts c r (answers 0) s;
                kept = λ rs h. absurd (cc);
              })
        | inl (stem, h) ↦
            let more = put_each-Each record_of qs (λ i. answers (suc i)) s' k.files in
            let u = put_each x record_of qs (λ i. answers (suc i)) s' in
            let named = (k.there stem h).0 in
            let there : IsKept s' r =
              subst (λ j. is_some (lookup j s'.records.files) ≡ true) named (k.there stem h).1 in
            elim (Result-cases u.1) [
              | inr (e, g) ↦
                  rw (put_each, h)
                    (rw g (record {
                      files = more.files;
                      keeps = λ j b at. more.keeps j b (k.keeps j b at);
                      artifacts = more.artifacts ∙ put-artifacts c r (answers 0) s;
                      kept = λ rs g. absurd (cc);
                    }))
              | inl (ts, g) ↦
                  rw (put_each, h)
                    (rw g (record {
                      files = more.files;
                      keeps = λ j b at. more.keeps j b (k.keeps j b at);
                      artifacts = more.artifacts ∙ put-artifacts c r (answers 0) s;
                      kept = λ rs returned.
                          let e : r ∷ ts ≡ rs = cc in
                          let (all_, kept) = more.kept ts g in
                          subst (λ l. (l ≡ r ∷ map record_of qs) × All (IsKept u.0) l) e
                            (ap (λ l. r ∷ l) all_, (IsKept-Keeps s' u.0 r more.keeps there, kept));
                    }))
            ]
      ]
