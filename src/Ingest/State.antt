-- ===== src/Ingest/State.antt =====
-- run.rs, `State`: what the loop remembers between attempts.
use kr0ki.Common.{
  ℕ, ◌-◌, String, ◌==◌, Bool, true, false, ◌||◌, Option, none, some, List, [], ◌∷◌, ◌++◌, leb, eqb,
  if◌then◌else◌, length, get_elem?, take, drop, option_map, and_then, is_some, not,
}
use kr0ki.Common.OrdMap.{OrdSet}
use kr0ki.Ingest.Types.{
  Usage, ExhaustReason, Outcome, exhausted, Step, done, Verdict, LabelScore, AttemptRecord,
  Feedback,
}
use kr0ki.Ingest.Calls.{Externals}

-- A hash set is a list of its elements; `judged_scores` are those of judged attempts alone, and
-- `best` is the place of the best rendered attempt.
pub record State (F : Type 0) : Type 0 where
  pub attempts : List (AttemptRecord F)
  pub judged_scores : List F
  pub seen : OrdSet
  pub unjudged : OrdSet
  pub best : Option ℕ
  pub feedback : Option (Feedback F)
  pub propose_errors : ℕ
  pub judge_errors : ℕ
  pub render_timeouts : ℕ

unfoldable pub default : {F : Type 0} → State F
default = record {
  attempts = [];
  judged_scores = [];
  seen = [];
  unjudged = [];
  best = none;
  feedback = none;
  propose_errors = 0;
  judge_errors = 0;
  render_timeouts = 0;
}

abbrev pub feedback_on : {F : Type 0} → String → Option String → Bool → Feedback F
feedback_on source error unjudged = record {
  source = source;
  render_error = error;
  verdict = none;
  label_recall = none;
  missing_labels = [];
  unjudged = unjudged;
}

-- `usage_since`; `saturating_sub` is `-`.
unfoldable pub usage_since : Usage → Usage → Usage
usage_since now before = record {
  prompt_tokens = now.prompt_tokens - before.prompt_tokens;
  completion_tokens = now.completion_tokens - before.completion_tokens;
}

module _ {W F : Type 0} (x : Externals W F) where
  open x use {f_zero, f_min, f_max, f_ge, f_average, sha256_hex}

  abbrev pub push : AttemptRecord F → State F → State F
  push r st = record st { attempts = st.attempts ++ (r ∷ []) }

  unfoldable pub outcome : State F → ExhaustReason → Outcome
  outcome st reason =
      exhausted reason (and_then st.best (λ i. option_map (λ r. r.n) (get_elem? st.attempts i)))

  unfoldable pub stop : State F → ExhaustReason → Step
  unfolding outcome
  stop st reason = done (outcome st reason)

  -- The attempt at a place, if there is one, scores at least as much as another.
  scores_at_least : Option (AttemptRecord F) → Option (AttemptRecord F) → Bool
  scores_at_least (some a) (some b) = f_ge a.score b.score
  scores_at_least _ _ = false

  -- `consider_best`, when an attempt has been pushed: strictly better scores win.
  unfoldable pub consider_best : State F → State F
  unfolding scores_at_least
  consider_best st =
      let last = length st.attempts - 1 in
      let fresh = record st { best = some last } in
      elim st.best [
        | none ↦ fresh
        | some b ↦
            if scores_at_least (get_elem? st.attempts b) (get_elem? st.attempts last)
            then st
            else fresh
      ]

  fold_max : F → List F → F
  fold_max acc [] = acc
  fold_max acc (s ∷ ss) = fold_max (f_max acc s) ss

  -- The best score has not improved over the last `window` judged attempts.
  unfoldable pub stalled : State F → ℕ → Bool
  unfolding fold_max
  stalled st window =
      let split = length st.judged_scores - window in
      let recent = fold_max f_min (drop split st.judged_scores) in
      let earlier = fold_max f_min (take split st.judged_scores) in
      if not (is_some st.best) || eqb window 0 || leb (length st.judged_scores) window
      then false
      else f_ge earlier recent

  unfoldable pub best_so_far : State F → Option (String × F)
  best_so_far st =
      and_then st.best (λ i. option_map (λ r. (r.source, r.score)) (get_elem? st.attempts i))

  unfoldable pub failed : ℕ → String → Option String → Option String → Usage → AttemptRecord F
  failed n source render_error model_error usage = record {
    n = n;
    source = source;
    source_sha256 = if source == "" then "" else sha256_hex source;
    render_error = render_error;
    model_error = model_error;
    verdict = none;
    confirmation = none;
    score = f_zero;
    usage = usage;
  }

  judge_score : Option (Verdict F) → F
  judge_score none = f_zero
  judge_score (some v) = v.score

  -- scoring.rs
  unfoldable pub composite_score : Bool → Option (Verdict F) → Option (LabelScore F) → F
  unfolding judge_score
  composite_score false verdict labels = f_zero
  composite_score true verdict none = judge_score verdict
  composite_score true verdict (some l) = f_average (judge_score verdict) l.recall

  unfoldable pub record_unjudged :
      ℕ → String → String → Option (LabelScore F) → Usage → State F → State F
  unfolding failed composite_score consider_best
  record_unjudged n source message labels usage st = consider_best (
      push
        (record (failed n source none (some message) usage) {
          score = composite_score true none labels;
        })
        st)
