-- ===== src/Ingest/Examples.antt =====
-- A run that is accepted at once, over a world that is the number of calls made so far.
use kr0ki.Common.{
  ℕ, ◌+◌, ◌*◌, ◌-◌, ◌≤◌, ◌≡◌, refl, Bool, true, false, none, some, [], ◌∷◌, leb, length, last?,
}
use kr0ki.Common.Results.{Result, ok, err}
use kr0ki.Common.OrdMap
use kr0ki.Ingest.Types
use kr0ki.Ingest.Types.{
  DiagramKind, ExhaustReason, labels_and_judge, Outcome, Description, Verdict, LoopConfig,
  AttemptRecord, LoopResult,
}
use kr0ki.Ingest.Calls.{Externals, call, describe, ask_judge, render, is_consistent_match}
use kr0ki.Ingest.CallCounts.{CountsCalls}
use kr0ki.Ingest.State.{default}
use kr0ki.Ingest.Run.{run_loop, attempt}
use kr0ki.Ingest.Run.Attempts.{Accepts}
use kr0ki.Ingest.Run.Numbering.{Numbered}
use kr0ki.Ingest.Run.Results.{run_loop-Numbered, run_loop-Accepts}
use kr0ki.Ingest.Run.Caps.{run_loop-calls}

abbrev read : Description ℕ
read = record {
  diagram_kind = DiagramKind.flowchart;
  labels = "A" ∷ [];
  nodes = [];
  edges = [];
  confidence = none;
}

abbrev verdict : Bool → Verdict ℕ
verdict matches = record {
  matches = matches;
  score = 90;
  label_recall = none;
  label_precision = none;
  missing_nodes = [];
  extra_nodes = [];
  wrong_edges = [];
  label_errors = [];
  layout_notes = [];
  confidence = none;
}

-- Scores are percentages; every reply is understood, and every render has the one label.
abbrev externals : Bool → Externals ℕ ℕ
externals matches = record {
  elapsed = λ w. (w, 0);
  complete = λ role limit request w. (
    w + 1,
    some (
        ok (record {
          text = "a -> b";
          usage = record { prompt_tokens = 1; completion_tokens = 1 };
        })),
  );
  render = λ limit format source w. (w, some (ok (record { png = []; labels = some ("A" ∷ []) })));
  parse_description = λ text. ok read;
  parse_verdict = λ text. ok (verdict matches);
  extract_source = λ text most. ok text;
  normalize_label = λ l. l;
  label_scores = λ wanted found. record { recall = 100; precision = 100; missing = [] };
  sha256_hex = λ s. s;
  error_to_string = λ e. "error";
  reason_debug = λ r. "reason";
  seconds = λ n. "0";
  f_zero = 0;
  f_min = 0;
  f_max = λ a b. a + b - a;
  f_ge = λ a b. leb b a;
  f_lt = λ a b. leb (a + 1) b;
  f_average = λ a b. a;
}

abbrev config : LoopConfig ℕ
config = record {
  format = "d2";
  max_iterations = 6;
  max_wall = 300000;
  call_timeout = 90000;
  max_tokens = 200000;
  label_recall_threshold = 90;
  min_match_score = 70;
  stall_window = 2;
  max_consecutive_model_errors = 3;
  max_source_chars = 20000;
}

-- What a run returns, where it returns a result.
result_or : {E F : Type 0} → LoopResult F → Result (LoopResult F) E → LoopResult F
result_or d (ok r) = r
result_or d (err e) = d

abbrev nothing : LoopResult ℕ
nothing = record {
  outcome = Outcome.not_a_diagram;
  description = read;
  attempts = [];
  usage = record { prompt_tokens = 0; completion_tokens = 0 };
}

abbrev good : LoopResult ℕ
good = result_or nothing (run_loop (externals true) config 0).1

abbrev poor : LoopResult ℕ
poor = result_or nothing (run_loop (externals false) config 0).1

good_returned : (run_loop (externals true) config 0).1 ≡ ok good
unfolding run_loop result_or describe call Types.total
good_returned = refl

good_accepted : good.outcome ≡ Outcome.accepted 1 labels_and_judge
unfolding run_loop result_or describe call Types.total Types.add attempt OrdMap.contains default
    render ask_judge is_consistent_match
good_accepted = refl

poor_returned : (run_loop (externals false) config 0).1 ≡ ok poor
unfolding run_loop result_or describe call Types.total
poor_returned = refl

-- The second attempt repeats the source of the first.
poor_exhausted : poor.outcome ≡ Outcome.exhausted ExhaustReason.stalled (some 1)
unfolding run_loop result_or describe call Types.total Types.add attempt OrdMap.contains default
    render ask_judge is_consistent_match OrdMap.add
poor_exhausted = refl

run_loop-Numbered_example : Numbered 1 good.attempts × (length good.attempts ≤ 6)
run_loop-Numbered_example = run_loop-Numbered (externals true) config 0 good good_returned

run_loop-Accepts_example :
    (r : AttemptRecord ℕ) × (last? good.attempts ≡ some r)
    × (r.n ≡ 1)
    × Accepts (externals true) config r labels_and_judge
run_loop-Accepts_example =
    run_loop-Accepts (externals true) config 0 good 1 labels_and_judge good_returned good_accepted

calls_counted : CountsCalls (externals true)
calls_counted = record {
  calls = λ w. w;
  calls-elapsed = λ w. refl;
  calls-complete = λ role limit request w. refl;
  calls-render = λ limit format source w. refl;
}

run_loop-calls_example :
    calls_counted.calls (run_loop (externals true) config 0).0 ≤ calls_counted.calls 0 + 2 + 5 * 6
run_loop-calls_example = run_loop-calls (externals true) config calls_counted 0
