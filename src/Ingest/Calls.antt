-- ===== src/Ingest/Calls.antt =====
-- run.rs, `Clock`: every call of a model and of the renderer, under the budgets; the describe and
-- judge steps with their re-attempts.
use Prim.Native.Nat.{min}
use Prim.Native.String.{String}
use kr0ki.Common.{
  ℕ, zero, suc, ◌-◌, ◌<>◌, Bool, true, false, ◌&&◌, Option, none, some, List, leb, if◌then◌else◌,
  is_empty, unwrap_or,
}
use kr0ki.Common.Results.{Result, ok, err}
use kr0ki.Ingest.Types.{
  Purpose, Usage, total, add, ModelError, timeout, is_retryable, RenderError, Bytes, Rendered,
  ExhaustReason, wall_clock, token_budget, Stop, RenderFail, LoopError, JudgeFail, Description,
  Verdict, LabelScore, LoopConfig, VisionRequest, describe_request, judge_request, VisionResponse,
  Confirmed,
}

pub data Role : Type 0 where
  proposer judge : Role

-- What the run does not do itself: the wall clock, the two models and the renderer, over the state
-- of the world, where no answer within the limit is `none`; the parsers of the models' replies;
-- hashing, printing and the label scores; the operations on floats.
pub record Externals (W F : Type 0) : Type 0 where
  pub elapsed : W → W × ℕ
  pub complete : Role → ℕ → VisionRequest F → W → W × Option (Result (VisionResponse F) ModelError)
  pub render : ℕ → String → String → W → W × Option (Result Rendered RenderError)
  pub parse_description : String → Result (Description F) String
  pub parse_verdict : String → Result (Verdict F) String
  pub extract_source : String → ℕ → Result String String
  pub normalize_label : String → String
  pub label_scores : List String → List String → LabelScore F
  pub sha256_hex : String → String
  pub error_to_string : ModelError → String
  pub reason_debug : ExhaustReason → String
  pub seconds : ℕ → String
  pub f_zero : F
  pub f_min : F
  pub f_max : F → F → F
  pub f_ge : F → F → Bool
  pub f_lt : F → F → Bool
  pub f_average : F → F → F

-- `matches`, a score of at least `min_score`, and no difference listed.
unfoldable pub is_consistent_match : {F : Type 0} → (F → F → Bool) → Verdict F → F → Bool
is_consistent_match ge v min_score =
    v.matches
    && ge v.score min_score
    && is_empty v.missing_nodes
    && is_empty v.extra_nodes
    && is_empty v.wrong_edges
    && is_empty v.label_errors

pub record Clock (W : Type 0) : Type 0 where
  pub world : W
  pub usage : Usage

module _ {W F : Type 0} (x : Externals W F) (cfg : LoopConfig F) where
  open x use {
    elapsed, complete, render as run_render, parse_description, parse_verdict, error_to_string,
    reason_debug, f_ge,
  }

  unfoldable pub wall_exhausted : Clock W → Clock W × Bool
  wall_exhausted c = let (w, t) = elapsed c.world in (record c { world = w }, leb cfg.max_wall t)

  unfoldable pub exhausted : Clock W → Clock W × Option ExhaustReason
  unfolding wall_exhausted
  exhausted c =
      let (c', over) = wall_exhausted c in
      (
        c',
        if over
            then some wall_clock
            else if leb cfg.max_tokens (total c.usage)
            then some token_budget
            else none,
      )

  -- The per-call timeout, clipped to the time left; `saturating_sub` is `-`.
  unfoldable pub call_limit : Clock W → Clock W × ℕ
  call_limit c =
      let (w, t) = elapsed c.world in
      (record c { world = w }, min cfg.call_timeout (cfg.max_wall - t))

  -- What a call returns, its answer counted in the usage.
  unfoldable pub reply_of :
      Clock W → Option (Result (VisionResponse F) ModelError) → Clock W × Result String Stop
  reply_of c none = (c, err (Stop.model timeout))
  reply_of c (some (err e)) = (c, err (Stop.model e))
  reply_of c (some (ok resp)) = (record c { usage = add c.usage resp.usage }, ok resp.text)

  unfoldable pub call : Role → VisionRequest F → Clock W → Clock W × Result String Stop
  unfolding exhausted call_limit reply_of
  call role request c =
      let (c₁, stop) = exhausted c in
      let (c₂, limit) = call_limit c₁ in
      let (w, answer) = complete role limit request c₂.world in
      let made = reply_of (record c₂ { world = w }) answer in
      elim stop [ some reason ↦ (c₁, err (Stop.budget reason)) | none ↦ made ]

  rendered : ℕ → Option (Result Rendered RenderError) → Result Rendered RenderFail
  rendered limit none = err (RenderFail.timed_out limit)
  rendered limit (some (ok r)) = ok r
  rendered limit (some (err (RenderError.rejected m))) = err (RenderFail.rejected m)
  rendered limit (some (err (RenderError.unavailable m))) = err (RenderFail.unavailable m)

  unfoldable pub render : String → Clock W → Clock W × Result Rendered RenderFail
  unfolding call_limit rendered
  render source c =
      let (c₁, limit) = call_limit c in
      let (w, answer) = run_render limit cfg.format source c₁.world in
      (record c₁ { world = w }, rendered limit answer)

  zero_budget : LoopError
  zero_budget = LoopError.describe (ModelError.rejected "budget is zero")

  no_attempt : LoopError
  no_attempt = LoopError.describe (ModelError.rejected "describe made no attempt")

  -- The loop of `describe`, with the rounds that are left.
  unfoldable pub describe_rounds :
      ℕ → Bool → Option LoopError → Clock W → Clock W × Result (Description F) LoopError
  unfolding zero_budget no_attempt
  describe_rounds zero strict last c = (c, err (unwrap_or last no_attempt))
  describe_rounds (suc rounds) strict last c =
      let (c', reply) = call Role.proposer (describe_request strict) c in
      elim reply [
        | ok text ↦ elim (parse_description text) [
          | ok d ↦ (c', ok d)
          | err e ↦ describe_rounds rounds true (some (LoopError.description e)) c'
        ]
        | err (Stop.budget reason) ↦ (c', err (unwrap_or last zero_budget))
        | err (Stop.model e) ↦ elim (is_retryable e) [
          | true ↦ describe_rounds rounds strict (some (LoopError.describe e)) c'
          | false ↦ (c', err (LoopError.describe e))
        ]
      ]

  unfoldable pub describe : Clock W → Clock W × Result (Description F) LoopError
  unfolding describe_rounds
  describe c = describe_rounds 2 false none c

  -- The loop of `ask_judge`, with the rounds that are left.
  unfoldable pub judge_rounds :
      ℕ → Purpose → Bytes → Bool → Option String → Clock W → Clock W × Result (Verdict F) JudgeFail
  judge_rounds zero why png strict last c =
      (c, err (JudgeFail.failed (unwrap_or last "judge failed")))
  judge_rounds (suc rounds) why png strict last c =
      let (c', reply) = call Role.judge (judge_request why png strict) c in
      elim reply [
        | ok text ↦ elim (parse_verdict text) [
          | ok v ↦ (c', ok v)
          | err e ↦ judge_rounds rounds why png true (some e) c'
        ]
        | err (Stop.budget reason) ↦ (c', err (JudgeFail.budget reason last))
        | err (Stop.model e) ↦ elim (is_retryable e) [
          | true ↦ judge_rounds rounds why png strict (some (error_to_string e)) c'
          | false ↦ (c', err (JudgeFail.failed (error_to_string e)))
        ]
      ]

  unfoldable pub ask_judge : Purpose → Bytes → Clock W → Clock W × Result (Verdict F) JudgeFail
  unfolding judge_rounds
  ask_judge why png c = judge_rounds 2 why png false none c

  confirmed : Result (Verdict F) JudgeFail → Confirmed F
  unfolding is_consistent_match
  confirmed (ok v) =
      if is_consistent_match f_ge v cfg.min_match_score
      then Confirmed.agreed
      else Confirmed.disagreed v
  confirmed (err (JudgeFail.failed e)) = Confirmed.failed e
  confirmed (err (JudgeFail.budget reason after)) =
      Confirmed.failed (reason_debug reason <> " reached")

  unfoldable pub confirm : Bytes → Clock W → Clock W × Confirmed F
  unfolding confirmed
  confirm png c = let (c', answer) = ask_judge Purpose.confirm png c in (c', confirmed answer)
