-- ===== src/Runner/Verdicts/Decided.antt =====
-- verification_runner.rs, `classify`: when a run is evidence for or against its case.
use kr0ki.Common.{
  ℕ, ◌^◌, ◌≤◌, ◌<◌, ◌≡◌, ◌∙◌, refl, ap, false, Option, none, some, List, arith, All, ◌↔◌,
}
use kr0ki.Common.Chars.{Text}
use kr0ki.Runner.Summary.{parse_test_summary}
use kr0ki.Runner.Summary.Counts.{IsLine}
use kr0ki.Runner.Summary.Sums.{
  print_lines, passed_of, failed_of, total, parse_test_summary-print_lines,
}
use kr0ki.Runner.Summary.Printed.{Line}
use kr0ki.Runner.Verdicts.{pass, fail, ExecResult, judge, classify}

judge-pass :
    (code : Option ℕ) (p f : ℕ)
    → ((judge code p f).0 ≡ pass) ↔ ((code ≡ some 0) × (1 ≤ p) × (f ≡ 0))
unfolding judge
judge-pass none p f = (λ h. ground (arith, h), λ (e, le, z). absurd (cc))
judge-pass (some c) p f = (
  λ h.
      let zero_status : c ≡ 0 = ground (arith, h) in
      let ran : 1 ≤ p = ground (arith, h) in
      let clean : f ≡ 0 = ground (arith, h) in (ap some zero_status, ran, clean),
  λ (e, le, z). let zero_status : c ≡ 0 = cc in ground (arith, zero_status, le, z),
)

judge-fail : (code : Option ℕ) (p f : ℕ) → ((judge code p f).0 ≡ fail) ↔ (1 ≤ f)
unfolding judge
judge-fail none p f = (λ h. ground (arith, h), λ h. ground (arith, h))
judge-fail (some c) p f = (λ h. ground (arith, h), λ h. ground (arith, h))

classify-judge :
    {B : Type 0} (lossy : B → Text) (r : ExecResult B) (p f : ℕ)
    → r.spawn_error ≡ none
    → r.timed_out ≡ false
    → parse_test_summary (lossy r.output) ≡ (p, f)
    → classify lossy r ≡ judge r.exit_code p f
unfolding classify
classify-judge lossy r p f started in_time summed =
    rw (classify, started) (rw in_time (rw summed refl))

-- A process that was started and ended in time, with the lines of its test binaries as output, passes
-- exactly if its status is zero, some test passed and none failed, and fails exactly if some test
-- failed. The counts fit in a `usize`.
pub classify-print_lines :
    {B : Type 0} (lossy : B → Text) (r : ExecResult B) (ls : List Line)
    → r.spawn_error ≡ none
    → r.timed_out ≡ false
    → lossy r.output ≡ print_lines ls
    → All IsLine ls
    → total passed_of ls < 2 ^ 64
    → total failed_of ls < 2 ^ 64
    → (((classify lossy r).0 ≡ pass)
        ↔ ((r.exit_code ≡ some 0) × (1 ≤ total passed_of ls) × (total failed_of ls ≡ 0)))
      × (((classify lossy r).0 ≡ fail) ↔ (1 ≤ total failed_of ls))
classify-print_lines lossy r ls started in_time printed lines fit_p fit_f =
    let p = total passed_of ls in
    let f = total failed_of ls in
    let summed : parse_test_summary (lossy r.output) ≡ (p, f) =
      ap parse_test_summary printed ∙ parse_test_summary-print_lines ls lines fit_p fit_f in
    let e = classify-judge lossy r p f started in_time summed in
    rw e (judge-pass r.exit_code p f, judge-fail r.exit_code p f)
