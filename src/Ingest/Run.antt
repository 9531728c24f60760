-- ===== src/Ingest/Run.antt =====
-- run.rs, `attempt` and `run_loop`. A stage of an attempt is a function of its own; each returns the
-- clock, the state and the step.
pub mod Attempts
pub mod Stages
pub mod Numbering
pub mod Iteration
pub mod Results
pub mod Caps
use kr0ki.Common.{
  ℕ, zero, suc, ◌+◌, String, ◌<>◌, ◌==◌, Bool, true, false, not, ◌&&◌, ◌||◌, Option, none, some,
  List, [], ◌∷◌, ◌++◌, leb, if◌then◌else◌, any, is_empty, is_some, option_map, unwrap_or, and_then,
  find, eqb,
}
use kr0ki.Common.Results.{Result, ok, err}
use kr0ki.Common.OrdMap
use kr0ki.Ingest.Types.{
  Purpose, Usage, Bytes, Rendered, DiagramKind, ExhaustReason, wall_clock, AcceptedVia,
  labels_and_judge, judge_confirmed, Outcome, accepted, not_a_diagram, Confirmation, Stop,
  RenderFail, LoopError, JudgeFail, Step, next, done, Description, Verdict, LabelScore, LoopConfig,
  AttemptRecord, Feedback, propose_request, Confirmed, LoopResult,
}
use kr0ki.Ingest.Calls.{
  Role, Externals, is_consistent_match, Clock, wall_exhausted, exhausted, call, render, describe,
  ask_judge, confirm,
}
use kr0ki.Ingest.State.{
  State, default, feedback_on, usage_since, push, outcome, stop, consider_best, stalled,
  best_so_far, failed, composite_score, record_unjudged,
}
use kr0ki.Ingest.Judging.{
  Staged, usable_target_labels, labels_of, decide_with, decide, below_threshold, remember,
  step_after, conclude, complete_verdict, judged, judge_stage,
}

abbrev render_timeouts_before_unavailable : ℕ
render_timeouts_before_unavailable = 2

abbrev pub is_none_kind : DiagramKind → Bool
is_none_kind DiagramKind.not_a_diagram = true
is_none_kind _ = false

module _ {W F : Type 0} (x : Externals W F) (cfg : LoopConfig F) where
  open x use {
    extract_source, normalize_label, label_scores, sha256_hex, error_to_string, reason_debug,
    seconds, f_ge, f_lt,
  }

  -- A render that ran out of its time, the wall clock having been looked at.
  unfoldable pub timed_out_stage : ℕ → Usage → String → ℕ → Bool → Clock W → State F → Staged W F
  timed_out_stage n before source limit true c st =
      let st' =
        push x
          (failed x n source (some "render cut short: WallClock reached") none
            (usage_since c.usage before))
          st in
      (c, st', stop x st' wall_clock)
  timed_out_stage n before source limit false c st =
      let message = "rendering timed out after " <> seconds limit <> "s" in
      let st' =
        push x (failed x n source (some message) none (usage_since c.usage before)) (record st {
          render_timeouts = st.render_timeouts + 1;
          feedback = some (
              feedback_on source (some (message <> "; the diagram may be too complex, simplify it"))
                false);
        }) in
      (
        c,
        st',
        if leb render_timeouts_before_unavailable st'.render_timeouts
            then stop x st' ExhaustReason.renderer_unavailable
            else next,
      )

  -- What follows the renderer's answer.
  unfoldable pub answered :
      ℕ
      → Description F
      → Usage
      → String
      → State F
      → Clock W
      → Result Rendered RenderFail
      → Staged W F
  unfolding judge_stage timed_out_stage
  answered n d before source st c (ok r) =
      judge_stage x cfg n d before source r c (record st { render_timeouts = 0 })
  answered n d before source st c (err (RenderFail.unavailable message)) =
      let st' = push x (failed x n source (some message) none (usage_since c.usage before)) st in
      (c, st', stop x st' ExhaustReason.renderer_unavailable)
  answered n d before source st c (err (RenderFail.timed_out limit)) =
      let (c', over) = wall_exhausted x cfg c in timed_out_stage n before source limit over c' st
  answered n d before source st c (err (RenderFail.rejected message)) = (
    c,
    push x (failed x n source (some message) none (usage_since c.usage before)) (record st {
      render_timeouts = 0;
      feedback = some (feedback_on source (some message) false);
    }),
    next,
  )

  -- The render of a source that is new, or issued again to be checked.
  unfoldable pub render_stage : ℕ → Description F → Usage → String → Clock W → State F → Staged W F
  unfolding answered
  render_stage n d before source c st =
      let (c', answer) = render x cfg source c in answered n d before source st c' answer

  -- The state once a source that may be rendered has been taken.
  unfoldable pub reproposed : String → State F → State F
  reproposed source st =
      let hash = sha256_hex source in
      record st {
        propose_errors = 0;
        seen = OrdMap.add hash st.seen;
        unjudged =
            if OrdMap.contains hash st.seen then OrdMap.discard hash st.unjudged else st.unjudged;
      }

  unfoldable pub repeated : ℕ → Usage → String → Clock W → State F → Staged W F
  repeated n before source c st =
      let st' =
        push x
          (failed x n source none (some "repeated an earlier source") (usage_since c.usage before))
          st in
      (c, st', stop x st' ExhaustReason.stalled)

  -- Whether the source was issued before and need not be checked again.
  unfoldable pub is_repeat : String → State F → Bool
  is_repeat source st =
      let hash = sha256_hex source in
      OrdMap.contains hash st.seen && not (OrdMap.contains hash st.unjudged)

  unfoldable pub source_stage : ℕ → Description F → Usage → String → Clock W → State F → Staged W F
  unfolding render_stage reproposed repeated is_repeat
  source_stage n d before source c st =
      if is_repeat source st
      then repeated n before source c (reproposed source st)
      else render_stage n d before source c (reproposed source st)

  unfoldable pub no_source : ℕ → Usage → String → Clock W → State F → Staged W F
  no_source n before message c st =
      let st' =
        push x (failed x n "" none (some message) (usage_since c.usage before))
          (record st { propose_errors = st.propose_errors + 1 }) in
      (
        c,
        st',
        if leb cfg.max_consecutive_model_errors st'.propose_errors
            then stop x st' ExhaustReason.model_errors
            else next,
      )

  -- What follows the proposal: its source, if the reply holds one.
  unfoldable pub extracted :
      ℕ → Description F → Usage → State F → Clock W → Result String String → Staged W F
  unfolding source_stage no_source
  extracted n d before st c (ok source) = source_stage n d before source c st
  extracted n d before st c (err e) = no_source n before e c st

  unfoldable pub proposed :
      ℕ → Description F → Usage → State F → Clock W → Result String Stop → Staged W F
  unfolding extracted no_source
  proposed n d before st c (ok text) =
      extracted n d before st c (extract_source text cfg.max_source_chars)
  proposed n d before st c (err (Stop.budget reason)) = (c, st, stop x st reason)
  proposed n d before st c (err (Stop.model e)) = no_source n before (error_to_string e) c st

  unfoldable pub attempt : ℕ → Description F → Clock W → State F → Staged W F
  unfolding proposed
  attempt n d c st =
      let (c', reply) =
        call x cfg Role.proposer (propose_request (best_so_far x st) st.feedback) c in
      proposed n d c.usage st c' reply

  -- The loop over `n..=max_iterations`, with the iterations that are left.
  unfoldable pub iterate :
      ℕ → ℕ → Description F → Clock W → State F → Clock W × State F × Option Outcome
  iterate zero n d c st = (c, st, none)
  iterate (suc left) n d c st =
      let (c₁, over) = exhausted x cfg c in
      let (c₂, st', step) = attempt n d c₁ st in
      elim over [
        | some reason ↦ (c₁, st, some (outcome x st reason))
        | none ↦ elim step [ done o ↦ (c₂, st', some o) | next ↦ iterate left (n + 1) d c₂ st' ]
      ]

  -- The run behind the description, given whether the image is no diagram.
  unfoldable pub loop_on : Description F → Clock W → Bool → W × LoopResult F
  unfolding iterate
  loop_on d c true =
      (c.world, record { outcome = not_a_diagram; description = d; attempts = []; usage = c.usage })
  loop_on d c false =
      let (c', st, ended) = iterate cfg.max_iterations 1 d c default in
      (
        c'.world,
        record {
          outcome = unwrap_or ended (outcome x st ExhaustReason.max_iterations);
          description = d;
          attempts = st.attempts;
          usage = c'.usage;
        },
      )

  unfoldable pub described :
      Clock W → Result (Description F) LoopError → W × Result (LoopResult F) LoopError
  unfolding loop_on
  described c (err e) = (c.world, err e)
  described c (ok d) = let (w, res) = loop_on d c (is_none_kind d.diagram_kind) in (w, ok res)

  unfoldable pub run_loop : W → W × Result (LoopResult F) LoopError
  unfolding described
  run_loop w =
      let (c, answer) =
        describe x cfg
          (record { world = w; usage = record { prompt_tokens = 0; completion_tokens = 0 } }) in
      described c answer

-- `LoopResult::is_cacheable`
unfoldable pub is_cacheable : {F : Type 0} → LoopResult F → Bool
is_cacheable res = elim res.outcome [
  | Outcome.accepted n via ↦ true
  | Outcome.exhausted reason best ↦ false
  | Outcome.not_a_diagram ↦ true
]

-- `LoopResult::best_source`
unfoldable pub best_source : {F : Type 0} → LoopResult F → Option String
best_source res =
    and_then
      (elim res.outcome [
        | Outcome.accepted n via ↦ some n
        | Outcome.exhausted reason best ↦ best
        | Outcome.not_a_diagram ↦ none
      ])
      (λ n. option_map (λ r. r.source) (find (λ a. eqb a.n n) res.attempts))
