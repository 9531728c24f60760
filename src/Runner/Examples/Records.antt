-- ===== src/Runner/Examples/Records.antt =====
-- Texts that hold records, for the tests: every field behind its length.
use Prim.Native.Char.{char, code}
use text.Mathlib.TextPositions.{starts_with-append}
use kr0ki.Common.{
  ℕ, zero, suc, ◌+◌, arith, String, ◌≡◌, ◌∙◌, refl, ap, Option, none, some, ◌<>◌, starts_with, List,
  [], ◌∷◌, eqb, if◌then◌else◌, compare_str, length,
}
use kr0ki.Common.Results.{Result, ok, err}
use kr0ki.Runner.Verdicts.{VerificationResult, pass, fail, error}
use kr0ki.Runner.Model.{EvidenceRecord, RecordCrates}

join : String → String → String
join String.[] t = t
join (String.◌∷◌ c s) t = String.◌∷◌ c (join s t)

count : String → ℕ
count String.[] = 0
count (String.◌∷◌ c s) = suc (count s)

marks : ℕ → String → String
marks zero t = String.◌∷◌ (char 46 tt) t
marks (suc n) t = String.◌∷◌ (char 124 tt) (marks n t)

-- The text and what follows it.
cut : ℕ → String → String × String
cut zero t = (String.[], t)
cut (suc n) String.[] = (String.[], String.[])
cut (suc n) (String.◌∷◌ c t) = let (s, rest) = cut n t in (String.◌∷◌ c s, rest)

get_from : ℕ → String → String × String
unfolding cut
get_from n String.[] = (String.[], String.[])
get_from n (String.◌∷◌ c t) =
    let later = get_from (suc n) t in
    let here = cut n t in if eqb (code c) b'|' then later else here

put_texts : List String → String
unfolding join count marks
put_texts [] = String.[]
put_texts (s ∷ ss) = marks (count s) (join s (put_texts ss))

get_texts : ℕ → String → List String
unfolding get_from
get_texts zero t = []
get_texts (suc n) t = let (s, rest) = get_from 0 t in s ∷ get_texts n rest

cut-join : (s t : String) → cut (count s) (join s t) ≡ (s, t)
unfolding cut count join
cut-join String.[] t = refl
cut-join (String.◌∷◌ c s) t = ap (λ (a, b). (String.◌∷◌ c a, b)) (cut-join s t)

get_from-marks : (n m : ℕ) (t : String) → get_from n (marks m t) ≡ cut (m + n) t
unfolding get_from marks
get_from-marks n zero t = ap (λ k. cut k t) (omega arith)
get_from-marks n (suc m) t = get_from-marks (suc n) m t ∙ ap (λ k. cut k t) (omega arith)

get_texts-put_texts : (ss : List String) → get_texts (length ss) (put_texts ss) ≡ ss
unfolding get_texts put_texts
get_texts-put_texts [] = refl
get_texts-put_texts (s ∷ ss) =
    let t = join s (put_texts ss) in
    let e : get_from 0 (marks (count s) t) ≡ (s, put_texts ss) =
      get_from-marks 0 (count s) t ∙ ap (λ k. cut k t) (omega arith) ∙ cut-join s (put_texts ss) in
    rw e (ap (λ l. s ∷ l) (get_texts-put_texts ss))

verdict_text : VerificationResult → String
verdict_text pass = "pass"
verdict_text fail = "fail"
verdict_text error = String.[]

verdict_of : String → VerificationResult
verdict_of String.[] = error
verdict_of (String.◌∷◌ c s) = if eqb (code c) b'p' then pass else fail

fields : EvidenceRecord → List String
unfolding verdict_text
fields r =
    verdict_text r.result
    ∷ r.requirement_id
    ∷ r.verification_id
    ∷ r.model_revision
    ∷ r.implementation_revision
    ∷ r.configuration_digest
    ∷ r.artifact_uri
    ∷ r.artifact_digest
    ∷ []

of_fields : List String → Result EvidenceRecord String
unfolding verdict_of
of_fields (v ∷ requirement ∷ verification ∷ model ∷ implementation ∷ digest ∷ uri ∷ artifact ∷ []) =
    ok (record {
      requirement_id = requirement;
      verification_id = verification;
      model_revision = model;
      implementation_revision = implementation;
      configuration_digest = digest;
      result = verdict_of v;
      artifact_uri = uri;
      artifact_digest = artifact;
    })
of_fields _ = err "other fields"

unfoldable pub to_text : EvidenceRecord → String
unfolding put_texts fields
to_text r = put_texts (fields r)

unfoldable pub of_text : String → Result EvidenceRecord String
unfolding get_texts of_fields
of_text b = of_fields (get_texts 8 b)

-- The digest of an artifact is marked as one of SHA-256.
unfoldable pub validate : EvidenceRecord → Option String
validate r = if starts_with r.artifact_digest "sha256:" then none else some "not a digest"

pub validate-sha256 :
    (r : EvidenceRecord) (digest : String)
    → r.artifact_digest ≡ "sha256:" <> digest
    → validate r ≡ none
unfolding validate
validate-sha256 r digest e = rw (validate, e, starts_with-append "sha256:" digest) refl

abbrev pub records : RecordCrates String
records = record {
  sha256_hex = λ b. b;
  to_vec_pretty = to_text;
  from_slice = of_text;
  validate = validate;
  before = λ r q. compare_str r.requirement_id q.requirement_id;
}

verdict_of-verdict_text : (v : VerificationResult) → verdict_of (verdict_text v) ≡ v
unfolding verdict_of verdict_text
verdict_of-verdict_text pass = refl
verdict_of-verdict_text fail = refl
verdict_of-verdict_text error = refl

pub of_text-to_text : (r : EvidenceRecord) → of_text (to_text r) ≡ ok r
unfolding of_text to_text fields of_fields
of_text-to_text r =
    ap of_fields (get_texts-put_texts (fields r)) ∙ rw (verdict_of-verdict_text r.result) refl
