-- ===== src/Ingest/Run/Caps.antt =====
-- How often a run calls a model.
use kr0ki.Common.{
  ℕ, zero, suc, ◌+◌, ◌*◌, ◌≤◌, ◌≡◌, refl, ap, Bool, true, false, Option, none, some, String, arith,
  Option-cases, if◌then◌else◌, inl, inr,
}
use kr0ki.Common.Results.{Result, ok, err}
use kr0ki.Ingest.Types.{
  Usage, Purpose, Rendered, RenderFail, Stop, JudgeFail, LoopError, Confirmed, Description, Verdict,
  LabelScore, LoopConfig, propose_request,
}
use kr0ki.Ingest.Calls.{
  Role, Externals, Clock, wall_exhausted, exhausted, call, render, describe_rounds, describe,
  judge_rounds, ask_judge,
}
use kr0ki.Ingest.State.{State, default, best_so_far}
use kr0ki.Ingest.Judging.{decide_with, decide, judged, judge_stage, labels_of, Staged}
use kr0ki.Ingest.Run.{
  timed_out_stage, answered, render_stage, reproposed, repeated, is_repeat, source_stage, extracted,
  proposed, no_source, is_none_kind, attempt, iterate, loop_on, described, run_loop,
}
use kr0ki.Ingest.CallCounts.{
  CountsCalls, made-wall_exhausted, made-exhausted, made-render, made-call, made-describe_rounds,
  made-judge_rounds, made-confirm,
}
use kr0ki.Ingest.Run.Iteration.{iterate-over, iterate-done, iterate-next, Step-cases}

module _ {W F : Type 0} (x : Externals W F) (cfg : LoopConfig F) (count : CountsCalls x) where
  open count use {calls}

  abbrev made : Clock W → ℕ
  made c = calls c.world

  made-decide_with :
      (fits : Bool) (labels : Option (LabelScore F)) (v : Verdict F) (c : Clock W)
      (answer : Clock W × Confirmed F)
      → made answer.0 ≤ made c + 2
      → made (decide_with x cfg fits labels v c answer).0 ≤ made c + 2
  unfolding decide_with
  made-decide_with false labels v c answer h = omega arith
  made-decide_with true none v c answer h = h
  made-decide_with true (some l) v c answer h = omega arith

  made-judged :
      (n : ℕ) (before : Usage) (source : String) (r : Rendered) (labels : Option (LabelScore F))
      (st : State F) (c : Clock W) (answer : Result (Verdict F) JudgeFail)
      → made (judged x cfg n before source r labels st c answer).0 ≤ made c + 2
  unfolding judged decide
  made-judged n before source r labels st c (ok v) =
      made-decide_with _ labels _ c _ (made-confirm x cfg count r.png c)
  made-judged n before source r labels st c (err (JudgeFail.budget reason after)) = omega arith
  made-judged n before source r labels st c (err (JudgeFail.failed message)) = omega arith

  made-judge_stage :
      (n : ℕ) (d : Description F) (before : Usage) (source : String) (r : Rendered) (c : Clock W)
      (st : State F)
      → made (judge_stage x cfg n d before source r c st).0 ≤ made c + 4
  unfolding judge_stage ask_judge
  made-judge_stage n d before source r c st =
      let (c', answer) = judge_rounds x cfg 2 Purpose.judge r.png false none c in
      omega (
        arith,
        made-judged n before source r (labels_of x cfg d r) st c' answer,
        made-judge_rounds x cfg count 2 Purpose.judge r.png false none c,
      )

  made-timed_out_stage :
      (n : ℕ) (before : Usage) (source : String) (limit : ℕ) (over : Bool) (c : Clock W)
      (st : State F)
      → made (timed_out_stage x cfg n before source limit over c st).0 ≡ made c
  unfolding timed_out_stage
  made-timed_out_stage n before source limit true c st = refl
  made-timed_out_stage n before source limit false c st = refl

  made-answered :
      (n : ℕ) (d : Description F) (before : Usage) (source : String) (st : State F) (c : Clock W)
      (answer : Result Rendered RenderFail)
      → made (answered x cfg n d before source st c answer).0 ≤ made c + 4
  unfolding answered
  made-answered n d before source st c (ok r) =
      made-judge_stage n d before source r c (record st { render_timeouts = 0 })
  made-answered n d before source st c (err (RenderFail.unavailable message)) = omega arith
  made-answered n d before source st c (err (RenderFail.rejected message)) = omega arith
  made-answered n d before source st c (err (RenderFail.timed_out limit)) =
      let (c', over) = wall_exhausted x cfg c in
      omega (
        arith,
        made-timed_out_stage n before source limit over c' st,
        made-wall_exhausted x cfg count c,
      )

  made-render_stage :
      (n : ℕ) (d : Description F) (before : Usage) (source : String) (c : Clock W) (st : State F)
      → made (render_stage x cfg n d before source c st).0 ≤ made c + 4
  unfolding render_stage
  made-render_stage n d before source c st =
      let (c', answer) = render x cfg source c in
      omega (arith, made-answered n d before source st c' answer, made-render x cfg count source c)

  made-if :
      (test : Bool) (s t : Staged W F) (c : Clock W)
      → s.0 ≡ c
      → made t.0 ≤ made c + 4
      → made (if test then s else t).0 ≤ made c + 4
  made-if true s t c hs ht = omega (arith, ap made hs)
  made-if false s t c hs ht = ht

  made-source_stage :
      (n : ℕ) (d : Description F) (before : Usage) (source : String) (c : Clock W) (st : State F)
      → made (source_stage x cfg n d before source c st).0 ≤ made c + 4
  unfolding source_stage
  made-source_stage n d before source c st =
      made-if (is_repeat x cfg source st)
        (repeated x cfg n before source c (reproposed x cfg source st))
        (render_stage x cfg n d before source c (reproposed x cfg source st)) c
        (unfold repeated in refl)
        (made-render_stage n d before source c (reproposed x cfg source st))

  made-extracted :
      (n : ℕ) (d : Description F) (before : Usage) (st : State F) (c : Clock W)
      (source : Result String String)
      → made (extracted x cfg n d before st c source).0 ≤ made c + 4
  unfolding extracted no_source
  made-extracted n d before st c (ok source) = made-source_stage n d before source c st
  made-extracted n d before st c (err e) = omega arith

  made-proposed :
      (n : ℕ) (d : Description F) (before : Usage) (st : State F) (c : Clock W)
      (reply : Result String Stop)
      → made (proposed x cfg n d before st c reply).0 ≤ made c + 4
  unfolding proposed no_source
  made-proposed n d before st c (ok text) = made-extracted n d before st c _
  made-proposed n d before st c (err (Stop.budget reason)) = omega arith
  made-proposed n d before st c (err (Stop.model e)) = omega arith

  made-attempt :
      (n : ℕ) (d : Description F) (c : Clock W) (st : State F)
      → made (attempt x cfg n d c st).0 ≤ made c + 5
  unfolding attempt
  made-attempt n d c st =
      let request = propose_request (best_so_far x st) st.feedback in
      let (c', reply) = call x cfg Role.proposer request c in
      omega (
        arith,
        made-proposed n d c.usage st c' reply,
        made-call x cfg count Role.proposer request c,
      )

  made-iterate :
      (left n : ℕ) (d : Description F) (c : Clock W) (st : State F)
      → made (iterate x cfg left n d c st).0 ≤ made c + 5 * left
  made-iterate zero n d c st = unfold iterate in omega arith
  made-iterate (suc left) n d c st =
      let fresh = made-exhausted x cfg count c in
      let c₁ = (exhausted x cfg c).0 in
      let once = made-attempt n d c₁ st in
      elim (Option-cases (exhausted x cfg c).1) [
        | inr (reason, over) ↦ rw (iterate-over x cfg left n d c st over) (omega (arith, fresh))
        | inl time ↦ elim (Step-cases (attempt x cfg n d c₁ st).2) [
          | inr (o, ends) ↦
              rw (iterate-done x cfg left n d c st time ends) (omega (arith, fresh, once))
          | inl goes ↦
              let (c₂, st', step) = attempt x cfg n d c₁ st in
              rw (iterate-next x cfg left n d c st time goes)
                (omega (arith, fresh, once, made-iterate left (n + 1) d c₂ st'))
        ]
      ]

  made-loop_on :
      (d : Description F) (c : Clock W) (none_kind : Bool)
      → calls (loop_on x cfg d c none_kind).0 ≤ made c + 5 * cfg.max_iterations
  unfolding loop_on
  made-loop_on d c true = omega arith
  made-loop_on d c false = made-iterate cfg.max_iterations 1 d c default

  made-described :
      (c : Clock W) (answer : Result (Description F) LoopError)
      → calls (described x cfg c answer).0 ≤ made c + 5 * cfg.max_iterations
  unfolding described
  made-described c (ok d) = made-loop_on d c (is_none_kind d.diagram_kind)
  made-described c (err e) = omega arith

  -- Whatever the models and the renderer answer, a run calls the models at most twice to describe
  -- the image and at most five times for each of the `max_iterations` attempts: once to propose,
  -- twice to judge and twice to confirm.
  pub run_loop-calls : (w : W) → calls (run_loop x cfg w).0 ≤ calls w + 2 + 5 * cfg.max_iterations
  unfolding run_loop describe
  run_loop-calls w =
      let c : Clock W = record {
        world = w;
        usage = record { prompt_tokens = 0; completion_tokens = 0 };
      } in
      let (c', answer) = describe_rounds x cfg 2 false none c in
      omega (arith, made-described c' answer, made-describe_rounds x cfg count 2 false none c)
