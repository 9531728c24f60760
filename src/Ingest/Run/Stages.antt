-- ===== src/Ingest/Run/Stages.antt =====
-- Each stage of an attempt pushes one record, or the attempt ends on a budget before it proposes.
use kr0ki.Common.{ℕ, ◌≡◌, refl, inl, Bool, true, false, Option, String, if◌then◌else◌}
use kr0ki.Common.Results.{Result, ok, err}
use kr0ki.Ingest.Types.{
  Usage, Rendered, ExhaustReason, Step, next, done, Description, Verdict, LabelScore, LoopConfig,
  AttemptRecord, Stop, JudgeFail, RenderFail, Purpose, propose_request,
}
use kr0ki.Ingest.Calls.{Externals, Role, Clock, call, render, ask_judge, wall_exhausted}
use kr0ki.Ingest.State.{State, outcome, stop, failed, best_so_far}
use kr0ki.Ingest.Judging.{complete_verdict, labels_of, judged, judge_stage, Staged}
use kr0ki.Ingest.Run.{
  timed_out_stage, answered, render_stage, reproposed, repeated, source_stage, no_source, extracted,
  proposed, attempt,
}
use kr0ki.Ingest.Run.Attempts.{
  Ends, goes_on, stops, Pushes, decide-Rests, conclude-Pushes, record_unjudged-attempts,
}

module _ {W F : Type 0} (x : Externals W F) (cfg : LoopConfig F) where
  open x use {sha256_hex, extract_source}

  -- An attempt that pushes a record, or one that a budget stops before the model is asked.
  pub data Moves (n : ℕ) (st st' : State F) (step : Step) : Type 0 where
    idles :
        (reason : ExhaustReason)
        → st' ≡ st
        → step ≡ done (outcome x st' reason)
        → Moves n st st' step
    pushes : Pushes x cfg n st.attempts st.best st' step → Moves n st st' step

  abbrev Pushed : ℕ → State F → Staged W F → Type 0
  Pushed n st (c, st', step) = Pushes x cfg n st.attempts st.best st' step

  -- A step that stops the run under a test, and goes on otherwise.
  Ends-if :
      (n : ℕ) (r : AttemptRecord F) (st : State F) (test : Bool) (reason : ExhaustReason)
      → Ends x cfg n r st (if test then stop x st reason else next)
  unfolding stop
  Ends-if n r st true reason = stops reason refl
  Ends-if n r st false reason = goes_on refl

  Ends-stop :
      (n : ℕ) (r : AttemptRecord F) (st : State F) (reason : ExhaustReason)
      → Ends x cfg n r st (stop x st reason)
  unfolding stop
  Ends-stop n r st reason = stops reason refl

  judged-Pushes :
      (n : ℕ) (before : Usage) (source : String) (r : Rendered) (labels : Option (LabelScore F))
      (st : State F) (c : Clock W) (answer : Result (Verdict F) JudgeFail)
      → Pushed n st (judged x cfg n before source r labels st c answer)
  unfolding judged
  judged-Pushes n before source r labels st c (ok v) =
      conclude-Pushes x cfg n source v labels _ _ (record st { judge_errors = 0 })
        (decide-Rests x cfg (complete_verdict x cfg v labels) labels r.png c)
  judged-Pushes n before source r labels st c (err (JudgeFail.budget reason after)) =
      let (entry, pushed, numbered, place) =
        record_unjudged-attempts x cfg n source _ labels _ st in
      record {
        entry = entry;
        pushed = pushed;
        numbered = numbered;
        best_place = place;
        ends = Ends-stop n entry _ reason;
      }
  judged-Pushes n before source r labels st c (err (JudgeFail.failed message)) =
      let (entry, pushed, numbered, place) =
        record_unjudged-attempts x cfg n source message labels _ _ in
      record {
        entry = entry;
        pushed = pushed;
        numbered = numbered;
        best_place = place;
        ends = Ends-if n entry _ _ ExhaustReason.model_errors;
      }

  timed_out_stage-Pushes :
      (n : ℕ) (before : Usage) (source : String) (limit : ℕ) (over : Bool) (c : Clock W)
      (st : State F)
      → Pushed n st (timed_out_stage x cfg n before source limit over c st)
  unfolding timed_out_stage failed
  timed_out_stage-Pushes n before source limit true c st = record {
    entry = _;
    pushed = refl;
    numbered = refl;
    best_place = inl refl;
    ends = Ends-stop n _ _ ExhaustReason.wall_clock;
  }
  timed_out_stage-Pushes n before source limit false c st = record {
    entry = _;
    pushed = refl;
    numbered = refl;
    best_place = inl refl;
    ends = Ends-if n _ _ _ ExhaustReason.renderer_unavailable;
  }

  answered-Pushes :
      (n : ℕ) (d : Description F) (before : Usage) (source : String) (st : State F) (c : Clock W)
      (answer : Result Rendered RenderFail)
      → Pushed n st (answered x cfg n d before source st c answer)
  unfolding answered judge_stage failed
  answered-Pushes n d before source st c (ok r) =
      let (c', answer) = ask_judge x cfg Purpose.judge r.png c in
      judged-Pushes n before source r (labels_of x cfg d r) (record st { render_timeouts = 0 }) c'
        answer
  answered-Pushes n d before source st c (err (RenderFail.unavailable message)) = record {
    entry = _;
    pushed = refl;
    numbered = refl;
    best_place = inl refl;
    ends = Ends-stop n _ _ ExhaustReason.renderer_unavailable;
  }
  answered-Pushes n d before source st c (err (RenderFail.timed_out limit)) =
      let (c', over) = wall_exhausted x cfg c in
      timed_out_stage-Pushes n before source limit over c' st
  answered-Pushes n d before source st c (err (RenderFail.rejected message)) = record {
    entry = _;
    pushed = refl;
    numbered = refl;
    best_place = inl refl;
    ends = goes_on refl;
  }

  Pushed-if :
      (n : ℕ) (st : State F) (test : Bool) (s t : Staged W F)
      → Pushed n st s
      → Pushed n st t
      → Pushed n st (if test then s else t)
  Pushed-if n st true s t hs ht = hs
  Pushed-if n st false s t hs ht = ht

  source_stage-Pushes :
      (n : ℕ) (d : Description F) (before : Usage) (source : String) (c : Clock W) (st : State F)
      → Pushed n st (source_stage x cfg n d before source c st)
  unfolding source_stage render_stage reproposed repeated failed
  source_stage-Pushes n d before source c st =
      Pushed-if n st _ _ _
        (record {
          entry = _;
          pushed = refl;
          numbered = refl;
          best_place = inl refl;
          ends = Ends-stop n _ _ ExhaustReason.stalled;
        })
        (let (c', answer) = render x cfg source c in answered-Pushes n d before source _ c' answer)

  no_source-Pushes :
      (n : ℕ) (before : Usage) (message : String) (c : Clock W) (st : State F)
      → Pushed n st (no_source x cfg n before message c st)
  unfolding no_source failed
  no_source-Pushes n before message c st = record {
    entry = _;
    pushed = refl;
    numbered = refl;
    best_place = inl refl;
    ends = Ends-if n _ _ _ ExhaustReason.model_errors;
  }

  extracted-Pushes :
      (n : ℕ) (d : Description F) (before : Usage) (st : State F) (c : Clock W)
      (source : Result String String)
      → Pushed n st (extracted x cfg n d before st c source)
  unfolding extracted
  extracted-Pushes n d before st c (ok source) = source_stage-Pushes n d before source c st
  extracted-Pushes n d before st c (err e) = no_source-Pushes n before e c st

  abbrev Moved : ℕ → State F → Staged W F → Type 0
  Moved n st (c, st', step) = Moves n st st' step

  proposed-Moves :
      (n : ℕ) (d : Description F) (before : Usage) (st : State F) (c : Clock W)
      (reply : Result String Stop)
      → Moved n st (proposed x cfg n d before st c reply)
  unfolding proposed stop
  proposed-Moves n d before st c (ok text) =
      pushes (extracted-Pushes n d before st c (extract_source text cfg.max_source_chars))
  proposed-Moves n d before st c (err (Stop.budget reason)) = idles reason refl refl
  proposed-Moves n d before st c (err (Stop.model e)) = pushes (no_source-Pushes n before _ c st)

  pub attempt-Moves :
      (n : ℕ) (d : Description F) (c : Clock W) (st : State F) → Moved n st (attempt x cfg n d c st)
  unfolding attempt
  attempt-Moves n d c st =
      let (c', reply) =
        call x cfg Role.proposer (propose_request (best_so_far x st) st.feedback) c in
      proposed-Moves n d c.usage st c' reply
