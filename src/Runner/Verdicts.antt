-- ===== src/Runner/Verdicts.antt =====
-- verification_runner.rs, `classify`: the verdict of one execution.
pub mod Decided
use kr0ki.Common.{
  ℕ, String, Bool, true, false, ◌&&◌, Option, none, some, List, ◌++◌, ltb, leb, eqb, if◌then◌else◌,
  is_some_and,
}
use kr0ki.Common.Chars.{Text, chars}
use kr0ki.Runner.Summary.{parse_test_summary}
use kr0ki.Runner.Summary.Numbers.{decimal}

-- The verdicts that a run can have.
pub data VerificationResult : Type 0 where
  pass : VerificationResult
  fail : VerificationResult
  error : VerificationResult

-- What an execution leaves; a status is the one that a Unix process ends with, if no signal ended it.
pub record ExecResult (B : Type 0) : Type 0 where
  pub exit_code : Option ℕ
  pub timed_out : Bool
  pub output : B
  pub spawn_error : Option String

-- The last `match` of `classify`, on the status and the counts of passed and failed tests.
unfoldable pub judge : Option ℕ → ℕ → ℕ → VerificationResult × Text
unfolding decimal chars
judge code passed failed =
    let zero_status = is_some_and code (λ c. eqb c 0) in
    if zero_status && eqb failed 0 && leb 1 passed
    then (pass, decimal passed ++ chars " tests passed")
    else if zero_status && eqb passed 0 && eqb failed 0
    then (error, chars "no tests ran: a run that exercised nothing is not evidence")
    else if ltb 0 failed
    then (fail, decimal failed ++ (chars " tests failed, " ++ (decimal passed ++ chars " passed")))
    else elim code [
      | some c ↦ (
        error,
        chars "exit status " ++ (decimal c ++ chars " with no test verdict (build failure?)"),
      )
      | none ↦ (error, chars "terminated by a signal")
    ]

-- `from_utf8_lossy` is the standard library's.
unfoldable pub classify : {B : Type 0} → (B → Text) → ExecResult B → VerificationResult × Text
unfolding judge parse_test_summary chars
classify from_utf8_lossy r = elim r.spawn_error [
  | some e ↦ (error, chars "could not run: " ++ chars e)
  | none ↦
      let (passed, failed) = parse_test_summary (from_utf8_lossy r.output) in
      let judged = judge r.exit_code passed failed in
      if r.timed_out then (error, chars "timed out") else judged
]
