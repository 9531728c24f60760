-- ===== src/Ingest/Types.antt =====
-- model.rs, types.rs and the types of run.rs. A 64-bit float is a type parameter `F`: the loop only
-- compares scores and averages them, by operations that it is given.
use Prim.Native.Nat.{min}
use kr0ki.Common.{ℕ, ◌+◌, String, Bool, true, false, Option, List}

pub data Purpose : Type 0 where
  describe propose judge confirm : Purpose

pub record Usage : Type 0 where
  pub prompt_tokens : ℕ
  pub completion_tokens : ℕ

abbrev pub u64_max : ℕ
u64_max = 18446744073709551615

-- `u64::saturating_add`
abbrev pub saturating_add : ℕ → ℕ → ℕ
saturating_add a b = min (a + b) u64_max

unfoldable pub total : Usage → ℕ
total u = saturating_add u.prompt_tokens u.completion_tokens

unfoldable pub add : Usage → Usage → Usage
add u v = record {
  prompt_tokens = saturating_add u.prompt_tokens v.prompt_tokens;
  completion_tokens = saturating_add u.completion_tokens v.completion_tokens;
}

pub data ModelError : Type 0 where
  transport : String → ModelError
  timeout : ModelError
  rejected : String → ModelError

unfoldable pub is_retryable : ModelError → Bool
is_retryable (transport m) = true
is_retryable _ = false

pub data RenderError : Type 0 where
  rejected : String → RenderError
  unavailable : String → RenderError

-- Bytes of an image, by their numbers.
abbrev pub Bytes : Type 0
Bytes = List ℕ

pub record Rendered : Type 0 where
  pub png : Bytes
  pub labels : Option (List String)

pub data DiagramKind : Type 0 where
  not_a_diagram flowchart sequence class er state architecture network other : DiagramKind

pub record DescribedEdge : Type 0 where
  pub from : String
  pub to : String

pub data EdgeIssue : Type 0 where
  missing extra reversed : EdgeIssue

pub record EdgeDiff : Type 0 where
  pub from : String
  pub to : String
  pub issue : EdgeIssue

pub record LabelDiff : Type 0 where
  pub expected : String
  pub got : String

pub data ExhaustReason : Type 0 where
  max_iterations wall_clock token_budget stalled model_errors renderer_unavailable : ExhaustReason

pub data AcceptedVia : Type 0 where
  labels_and_judge judge_confirmed : AcceptedVia

pub data Outcome : Type 0 where
  accepted : ℕ → AcceptedVia → Outcome
  exhausted : ExhaustReason → Option ℕ → Outcome
  not_a_diagram : Outcome

pub data Confirmation : Type 0 where
  agreed disagreed : Confirmation
  failed : String → Confirmation

-- A budget that ran out before a call, or the call's failure.
pub data Stop : Type 0 where
  budget : ExhaustReason → Stop
  model : ModelError → Stop

pub data RenderFail : Type 0 where
  rejected : String → RenderFail
  unavailable : String → RenderFail
  timed_out : ℕ → RenderFail

pub data LoopError : Type 0 where
  describe : ModelError → LoopError
  description : String → LoopError

pub data JudgeFail : Type 0 where
  budget : ExhaustReason → Option String → JudgeFail
  failed : String → JudgeFail

pub data Step : Type 0 where
  next : Step
  done : Outcome → Step

module _ (F : Type 0) where
  pub record Description : Type 0 where
    pub diagram_kind : DiagramKind
    pub labels : List String
    pub nodes : List String
    pub edges : List DescribedEdge
    pub confidence : Option F

  pub record Verdict : Type 0 where
    pub matches : Bool
    pub score : F
    pub label_recall : Option F
    pub label_precision : Option F
    pub missing_nodes : List String
    pub extra_nodes : List String
    pub wrong_edges : List EdgeDiff
    pub label_errors : List LabelDiff
    pub layout_notes : List String
    pub confidence : Option F

  pub record LabelScore : Type 0 where
    pub recall : F
    pub precision : F
    pub missing : List String

  -- Durations are in milliseconds.
  pub record LoopConfig : Type 0 where
    pub format : String
    pub max_iterations : ℕ
    pub max_wall : ℕ
    pub call_timeout : ℕ
    pub max_tokens : ℕ
    pub label_recall_threshold : F
    pub min_match_score : F
    pub stall_window : ℕ
    pub max_consecutive_model_errors : ℕ
    pub max_source_chars : ℕ

  pub record AttemptRecord : Type 0 where
    pub n : ℕ
    pub source : String
    pub source_sha256 : String
    pub render_error : Option String
    pub model_error : Option String
    pub verdict : Option Verdict
    pub confirmation : Option Confirmation
    pub score : F
    pub usage : Usage

  pub record Feedback : Type 0 where
    pub source : String
    pub render_error : Option String
    pub verdict : Option Verdict
    pub label_recall : Option F
    pub missing_labels : List String
    pub unjudged : Bool

  -- What the prompts of a call are built from, with the image, the description and the format.
  pub data VisionRequest : Type 0 where
    describe_request : Bool → VisionRequest
    propose_request : Option (String × F) → Option Feedback → VisionRequest
    judge_request : Purpose → Bytes → Bool → VisionRequest

  pub record VisionResponse : Type 0 where
    pub text : String
    pub usage : Usage

  pub data Confirmed : Type 0 where
    agreed : Confirmed
    disagreed : Verdict → Confirmed
    failed : String → Confirmed

  pub record LoopResult : Type 0 where
    pub outcome : Outcome
    pub description : Description
    pub attempts : List AttemptRecord
    pub usage : Usage
