-- ===== src/Ingest/Judging.antt =====
-- run.rs, the judging of a render in `attempt`: the two tiers of evidence, the confirming call, and
-- the record and feedback that a verdict leaves.
use kr0ki.Common.{
  ℕ, ◌+◌, String, ◌<>◌, ◌==◌, Bool, true, false, not, ◌&&◌, Option, none, some, List, [], ◌∷◌, ◌++◌,
  leb, if◌then◌else◌, any, is_empty, option_map,
}
use kr0ki.Common.Results.{Result, ok, err}
use kr0ki.Common.OrdMap
use kr0ki.Ingest.Types.{
  Purpose, Usage, Bytes, Rendered, ExhaustReason, AcceptedVia, labels_and_judge, judge_confirmed,
  accepted, Confirmation, JudgeFail, Step, next, done, Description, Verdict, LabelScore, LoopConfig,
  AttemptRecord, Confirmed,
}
use kr0ki.Ingest.Calls.{Externals, is_consistent_match, Clock, ask_judge, confirm}
use kr0ki.Ingest.State.{
  State, feedback_on, usage_since, stop, consider_best, stalled, composite_score, record_unjudged,
}

-- What `attempt` decides about a verdict: whether the attempt is accepted, what the confirming call
-- said, the verdict to feed back, and whether the source may be issued again.
pub record Decided (F : Type 0) : Type 0 where
  pub accepted : Option AcceptedVia
  pub confirmation : Option Confirmation
  pub feedback_verdict : Verdict F
  pub unchecked : Bool

abbrev pub Staged : Type 0 → Type 0 → Type 0
Staged W F = Clock W × State F × Step

module _ {W F : Type 0} (x : Externals W F) (cfg : LoopConfig F) where
  open x use {
    extract_source, normalize_label, label_scores, sha256_hex, error_to_string, reason_debug,
    seconds, f_ge, f_lt,
  }

  unfoldable pub usable_target_labels : Description F → Bool
  usable_target_labels d = any (λ l. not (normalize_label l == "")) d.labels

  unfoldable pub labels_of : Description F → Rendered → Option (LabelScore F)
  unfolding usable_target_labels
  labels_of d r = elim r.labels [
    | none ↦ none
    | some found ↦ if usable_target_labels d then some (label_scores d.labels found) else none
  ]

  by_confirmation : Verdict F → Confirmed F → Decided F
  by_confirmation v Confirmed.agreed = record {
    accepted = some judge_confirmed;
    confirmation = some Confirmation.agreed;
    feedback_verdict = v;
    unchecked = false;
  }
  by_confirmation v (Confirmed.disagreed w) = record {
    accepted = none;
    confirmation = some Confirmation.disagreed;
    feedback_verdict = w;
    unchecked = false;
  }
  by_confirmation v (Confirmed.failed e) = record {
    accepted = none;
    confirmation = some (Confirmation.failed e);
    feedback_verdict = v;
    unchecked = true;
  }

  without_confirmation : Verdict F → Option AcceptedVia → Decided F
  without_confirmation v via = record {
    accepted = via;
    confirmation = none;
    feedback_verdict = v;
    unchecked = false;
  }

  -- The decision, given whether the verdict is a match that nothing in it contradicts, and what
  -- the confirming call answers if it is made.
  unfoldable pub decide_with :
      Bool
      → Option (LabelScore F)
      → Verdict F
      → Clock W
      → Clock W × Confirmed F
      → Clock W × Decided F
  unfolding by_confirmation without_confirmation
  decide_with false labels v c asked = (c, without_confirmation v none)
  decide_with true none v c (c', answer) = (c', by_confirmation v answer)
  decide_with true (some l) v c asked = (
    c,
    without_confirmation v
        (if f_ge l.recall cfg.label_recall_threshold then some labels_and_judge else none),
  )

  unfoldable pub decide : Verdict F → Option (LabelScore F) → Bytes → Clock W → Clock W × Decided F
  unfolding decide_with
  decide v labels png c =
      decide_with (is_consistent_match f_ge v cfg.min_match_score) labels v c (confirm x cfg png c)

  -- The labels to ask for, where the recall is below the threshold.
  unfoldable pub below_threshold : Option (LabelScore F) → Option (LabelScore F)
  below_threshold none = none
  below_threshold (some l) =
      if not (is_empty l.missing) && f_lt l.recall cfg.label_recall_threshold then some l else none

  missing_of : Option (LabelScore F) → List String
  missing_of none = []
  missing_of (some l) = l.missing

  unfoldable pub judged_record :
      ℕ → String → Verdict F → Option (LabelScore F) → Usage → Decided F → AttemptRecord F
  unfolding composite_score
  judged_record n source v labels used d = record {
    n = n;
    source = source;
    source_sha256 = sha256_hex source;
    render_error = none;
    model_error = none;
    verdict = some v;
    confirmation = d.confirmation;
    score = composite_score x true (some v) labels;
    usage = used;
  }

  -- The state with the record and its feedback, before the best is looked for.
  unfoldable pub remember : AttemptRecord F → Option (LabelScore F) → Decided F → State F → State F
  unfolding below_threshold missing_of
  remember r labels d st =
      let low = below_threshold labels in
      record st {
        unjudged =
            if d.unchecked then OrdMap.add (sha256_hex r.source) st.unjudged else st.unjudged;
        feedback = some (record {
          source = r.source;
          render_error = none;
          verdict = some d.feedback_verdict;
          label_recall = option_map (λ l. l.recall) low;
          missing_labels = missing_of low;
          unjudged = d.unchecked;
        });
        attempts = st.attempts ++ (r ∷ []);
        judged_scores = st.judged_scores ++ (r.score ∷ []);
      }

  unfoldable pub step_after : ℕ → Option AcceptedVia → State F → Step
  unfolding stalled stop
  step_after n (some via) st = done (accepted n via)
  step_after n none st =
      if stalled x st cfg.stall_window then stop x st ExhaustReason.stalled else next

  -- The end of `attempt`, once a verdict has been decided.
  unfoldable pub conclude :
      ℕ → String → Verdict F → Option (LabelScore F) → Usage → Decided F → State F → State F × Step
  unfolding judged_record remember step_after consider_best
  conclude n source v labels used d st =
      let st' = consider_best x (remember (judged_record n source v labels used d) labels d st) in
      (st', step_after n d.accepted st')

  unfoldable pub complete_verdict : Verdict F → Option (LabelScore F) → Verdict F
  complete_verdict v labels = record v {
    label_recall = option_map (λ l. l.recall) labels;
    label_precision = option_map (λ l. l.precision) labels;
  }

  budget_message : ExhaustReason → Option String → String
  budget_message reason none = reason_debug reason <> " reached before judging"
  budget_message reason (some e) = e <> "; then " <> reason_debug reason <> " reached"

  -- What follows the judge's answer.
  unfoldable pub judged :
      ℕ
      → Usage
      → String
      → Rendered
      → Option (LabelScore F)
      → State F
      → Clock W
      → Result (Verdict F) JudgeFail
      → Staged W F
  unfolding complete_verdict budget_message decide conclude
  judged n before source r labels st c (ok v) =
      let v' = complete_verdict v labels in
      let (c', decided) = decide v' labels r.png c in
      let (st', step) =
        conclude n source v' labels (usage_since c'.usage before) decided
          (record st { judge_errors = 0 }) in
      (c', st', step)
  judged n before source r labels st c (err (JudgeFail.budget reason after)) =
      let st' =
        record_unjudged x n source (budget_message reason after) labels (usage_since c.usage before)
          st in
      (c, st', stop x st' reason)
  judged n before source r labels st c (err (JudgeFail.failed message)) =
      let st' = record_unjudged x n source message labels (usage_since c.usage before) (record st {
        judge_errors = st.judge_errors + 1;
        unjudged = OrdMap.add (sha256_hex source) st.unjudged;
        feedback = some (feedback_on source none true);
      }) in
      (
        c,
        st',
        if leb cfg.max_consecutive_model_errors st'.judge_errors
            then stop x st' ExhaustReason.model_errors
            else next,
      )

  -- The judging of a render.
  unfoldable pub judge_stage :
      ℕ → Description F → Usage → String → Rendered → Clock W → State F → Staged W F
  unfolding labels_of judged
  judge_stage n d before source r c st =
      let (c', answer) = ask_judge x cfg Purpose.judge r.png c in
      judged n before source r (labels_of d r) st c' answer
