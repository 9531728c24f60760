-- ===== src/Runner/Allowed.antt =====
-- verification_runner.rs, `run_case`: what may be run.
use kr0ki.Common.{
  ℕ, String, eq_iff, ◌≡◌, refl, true, some, List, [], ◌∷◌, arith, All, Option-cases, inl, inr,
}
use kr0ki.Common.Results.{Result-cases}
use kr0ki.Evidence.{Answer}
use kr0ki.Runner.Cases.{VerificationCase}
use kr0ki.Runner.Model.{VerificationRunner, ExecRequest, World}
use kr0ki.Runner.{is_ident, cargo_test_target, request_of, accepted, run_case}

-- `cargo test -p <package> --test <name>`, with two names that a shell and cargo take as they are.
abbrev pub IsCargoTest : List String → Type 0
IsCargoTest argv =
    (member : String) × (target : String) × (argv
      ≡ "cargo" ∷ "test" ∷ "-p" ∷ member ∷ "--test" ∷ target ∷ [])
    × (is_ident member ≡ true)
    × (is_ident target ≡ true)

cargo_test_target-shape :
    (argv : List String) (member target : String)
    → cargo_test_target argv ≡ some (member, target)
    → IsCargoTest argv
unfolding cargo_test_target
cargo_test_target-shape (a ∷ b ∷ c ∷ m ∷ d ∷ t ∷ []) member target h =
    let ea : a ≡ "cargo" = (eq_iff a "cargo").0 (ground (arith, h)) in
    let eb : b ≡ "test" = (eq_iff b "test").0 (ground (arith, h)) in
    let ec : c ≡ "-p" = (eq_iff c "-p").0 (ground (arith, h)) in
    let ed : d ≡ "--test" = (eq_iff d "--test").0 (ground (arith, h)) in
    (m, t, rw (ea, eb, ec, ed) refl, ground (arith, h), ground (arith, h))
cargo_test_target-shape _ member target h = absurd (cc)

-- The requests that were sent are those of tests, with the runner's directory, time limit and
-- environment.
module _ {B W : Type 0} (x : VerificationRunner B W) where
  abbrev pub IsAllowed : ExecRequest → Type 0
  IsAllowed r =
      IsCargoTest r.argv
      × (r.env ≡ x.minimal_env)
      × (r.cwd ≡ x.config.repo_root)
      × (r.timeout ≡ x.config.timeout)

-- Whatever the case and the answers of the file system, a run sends the executor nothing but cargo's
-- run of one test target of one package, with the runner's environment, directory and time limit.
pub run_case-IsAllowed :
    {B W : Type 0} (x : VerificationRunner B W) (v : VerificationCase) (answers : ℕ → Answer B)
    (w : World B W)
    → All (IsAllowed x) w.sent
    → All (IsAllowed x) (run_case x v answers w).0.sent
unfolding run_case request_of accepted
run_case-IsAllowed x v answers w before = elim (Result-cases (accepted x v w.surroundings)) [
  | inr (e, refused) ↦ rw (run_case, refused) before
  | inl (revisions, fine) ↦ elim (Option-cases (cargo_test_target v.argv)) [
    | inl none_ ↦ absurd (ground (arith, fine, none_))
    | inr ((member, target), e) ↦
        rw (run_case, fine)
          ((cargo_test_target-shape v.argv member target e, refl, refl, refl), before)
  ]
]
