-- ===== src/Runner/Examples/Verdicts.antt =====
-- The output of two test binaries, a graph with one case, and a tree with a change.
use mathlib.Core.List.{Memᴰ}
use kr0ki.Common.{
  ℕ, String, ◌==◌, ◌≡◌, ◌≤◌, ◌↔◌, refl, true, false, none, some, List, [], ◌∷◌, arith,
  if◌then◌else◌,
}
use kr0ki.Common.Chars.{chars, trim_both}
use kr0ki.Common.Text.{is_whitespace}
use kr0ki.Common.Results.{Result, ok, err}
use kr0ki.Runner.Summary.{is_result_line}
use kr0ki.Runner.Summary.Printed.{Line, result, other}
use kr0ki.Runner.Summary.Sums.{print_lines, total, passed_of, failed_of}
use kr0ki.Runner.Verdicts.{ExecResult, pass, fail, classify}
use kr0ki.Runner.Verdicts.Decided.{classify-print_lines}
use kr0ki.Runner.Cases.{Requirement, Relation, RequirementGraph, CaseCrates, case_of}
use kr0ki.Runner.Cases.Verified.{Verifies, case_of-verified}
use kr0ki.Runner.Revision.{Tree, implementation_revision, implementation_revision-clean_iff}

abbrev two_binaries : List Line
unfolding chars
two_binaries =
    other (chars "running 4 tests")
    ∷ result true 3 0 (chars " 0 ignored")
    ∷ result false 2 1 (chars " 0 ignored")
    ∷ []

abbrev exited : ExecResult (List ℕ)
exited = record {
  exit_code = some 101;
  timed_out = false;
  output = print_lines two_binaries;
  spawn_error = none;
}

classify-print_lines_example :
    (((classify (λ b. b) exited).0 ≡ pass) ↔ (
      (exited.exit_code ≡ some 0)
      × (1 ≤ total passed_of two_binaries)
      × (total failed_of two_binaries ≡ 0)))
    × (((classify (λ b. b) exited).0 ≡ fail) ↔ (1 ≤ total failed_of two_binaries))
unfolding chars is_result_line
classify-print_lines_example =
    classify-print_lines (λ b. b) exited two_binaries refl refl refl
      ((refl, refl), ((omega arith, omega arith, refl), ((omega arith, omega arith, refl), tt)))
      (omega arith) (omega arith)

abbrev graph : RequirementGraph
graph = record {
  requirements =
      record { id = "VC-1"; text = "passes"; attributes = ("kind", "verification_case") ∷ [] }
      ∷ record { id = "REQ-1"; text = "stores"; attributes = ("acceptance", "listed") ∷ [] }
      ∷ [];
  relations =
      record { source = "VC-1"; target = "REQ-1"; is_asserted = true; is_verifies = true }
      ∷ record { source = "VC-1"; target = "REQ-2"; is_asserted = false; is_verifies = true }
      ∷ [];
}

abbrev crates : CaseCrates
crates = record {
  node_kind_attr = "kind";
  verification_case = "verification_case";
  from_str = λ s. none;
  to_string = λ s. s.case_id;
  sha256_hex = λ s. s;
}

abbrev case_node : Requirement
case_node = record { id = "VC-1"; text = "passes"; attributes = ("kind", "verification_case") ∷ [] }

case_of-verified_example :
    Memᴰ ("REQ-1", "stores", "listed") (case_of crates graph case_node).requirements ↔ (
      (r : Relation) × Memᴰ r graph.relations
      × Verifies graph "VC-1" ("REQ-1", "stores", "listed") r)
case_of-verified_example = case_of-verified crates graph case_node ("REQ-1", "stores", "listed")

-- A tree with one untracked file; the digest of every content is the same.
answer_of : List String → Result (List ℕ) String
unfolding chars
answer_of (c ∷ []) = err "no command"
answer_of (c ∷ d ∷ []) = if c == "diff" then ok [] else ok (chars "abc\n")
answer_of (c ∷ d ∷ e ∷ []) = ok (chars "?? a.rs\n")
answer_of _ = err "no command"

abbrev changed : Tree
unfolding answer_of
changed = record {
  git = answer_of;
  read = λ path. some (chars "x");
  from_utf8_lossy = λ b. b;
  as_bytes = λ t. t;
  sha256_hex = λ b. chars "0123456789abcdef";
}

implementation_revision-clean_iff_example :
    (chars "abc+dirty.0123456789ab" ≡ trim_both is_whitespace (chars "abc\n"))
    ↔ (chars "?? a.rs\n" ≡ [])
unfolding chars answer_of implementation_revision trim_both is_whitespace
implementation_revision-clean_iff_example =
    implementation_revision-clean_iff changed (chars "abc\n") (chars "?? a.rs\n")
      (chars "abc+dirty.0123456789ab") refl refl refl
