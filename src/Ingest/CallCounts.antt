-- ===== src/Ingest/CallCounts.antt =====
-- How often the calls of the clock, and the steps that describe and judge, ask a model.
use kr0ki.Common.{
  ℕ, zero, suc, ◌+◌, ◌≤◌, ◌≡◌, ◌∙◌, ◌⊎◌, refl, ap, Bool, true, false, Option, none, some, String,
  arith, Option-cases, inl, inr,
}
use kr0ki.Common.Results.{Result, ok, err, Result-cases}
use kr0ki.Ingest.Types.{
  Purpose, Bytes, ModelError, Stop, LoopError, LoopConfig, VisionRequest, VisionResponse,
  judge_request, describe_request,
}
use kr0ki.Ingest.Calls.{
  Role, Externals, Clock, wall_exhausted, exhausted, call_limit, reply_of, call, render,
  describe_rounds, judge_rounds, ask_judge, confirm,
}

-- A count of the model calls that the world has seen.
pub record CountsCalls {W F : Type 0} (x : Externals W F) : Type 0 where
  pub calls : W → ℕ
  pub calls-elapsed : (w : W) → calls (x.elapsed w).0 ≡ calls w
  pub calls-complete :
      (role : Role) (limit : ℕ) (request : VisionRequest F) (w : W)
      → calls (x.complete role limit request w).0 ≡ calls w + 1
  pub calls-render :
      (limit : ℕ) (format source : String) (w : W)
      → calls (x.render limit format source w).0 ≡ calls w

module _ {W F : Type 0} (x : Externals W F) (cfg : LoopConfig F) (count : CountsCalls x) where
  open count use {calls, calls-elapsed, calls-complete, calls-render}

  abbrev made : Clock W → ℕ
  made c = calls c.world

  pub made-wall_exhausted : (c : Clock W) → made (wall_exhausted x cfg c).0 ≡ made c
  unfolding wall_exhausted
  made-wall_exhausted c = calls-elapsed c.world

  pub made-exhausted : (c : Clock W) → made (exhausted x cfg c).0 ≡ made c
  unfolding exhausted
  made-exhausted c = calls-elapsed c.world

  made-call_limit : (c : Clock W) → made (call_limit x cfg c).0 ≡ made c
  unfolding call_limit
  made-call_limit c = calls-elapsed c.world

  pub made-render : (source : String) (c : Clock W) → made (render x cfg source c).0 ≡ made c
  unfolding render
  made-render source c = calls-render _ cfg.format source _ ∙ calls-elapsed c.world

  made-reply_of :
      (c : Clock W) (answer : Option (Result (VisionResponse F) ModelError))
      → made (reply_of x cfg c answer).0 ≡ made c
  unfolding reply_of
  made-reply_of c none = refl
  made-reply_of c (some (ok r)) = refl
  made-reply_of c (some (err e)) = refl

  asked : Role → VisionRequest F → Clock W → Clock W × Result String Stop
  asked role request c =
      let (c', limit) = call_limit x cfg (exhausted x cfg c).0 in
      let (w, answer) = x.complete role limit request c'.world in
      reply_of x cfg (record c' { world = w }) answer

  made-asked :
      (role : Role) (request : VisionRequest F) (c : Clock W)
      → made (asked role request c).0 ≡ made c + 1
  unfolding asked
  made-asked role request c =
      made-reply_of _ _
      ∙ calls-complete role _ request _
      ∙ ap (λ n. n + 1) (made-call_limit (exhausted x cfg c).0 ∙ made-exhausted c)

  call-eq :
      (role : Role) (request : VisionRequest F) (c : Clock W)
      → (call x cfg role request c ≡ asked role request c)
        ⊎ ((call x cfg role request c).0 ≡ (exhausted x cfg c).0)
  unfolding call asked
  call-eq role request c = elim (Option-cases (exhausted x cfg c).1) [
    | inl time ↦ inl (ground arith)
    | inr (reason, over) ↦ inr (ground arith)
  ]

  -- A call is made once, or not at all.
  pub made-call :
      (role : Role) (request : VisionRequest F) (c : Clock W)
      → made (call x cfg role request c).0 ≤ made c + 1
  made-call role request c = elim (call-eq role request c) [
    | inl e ↦ omega (arith, ap (λ p. made p.0) e, made-asked role request c)
    | inr e ↦ omega (arith, ap made e, made-exhausted c)
  ]

  pub made-describe_rounds :
      (rounds : ℕ) (strict : Bool) (last : Option LoopError) (c : Clock W)
      → made (describe_rounds x cfg rounds strict last c).0 ≤ made c + rounds
  unfolding describe_rounds
  made-describe_rounds zero strict last c = omega arith
  made-describe_rounds (suc rounds) strict last c =
      let once = made-call Role.proposer (describe_request strict) c in
      let c' = (call x cfg Role.proposer (describe_request strict) c).0 in
      elim (Result-cases (call x cfg Role.proposer (describe_request strict) c).1) [
        | inl (text, e) ↦ elim (Result-cases (x.parse_description text)) [
          | inl (d, f) ↦ ground (arith, e, f, once)
          | inr (m, f) ↦ ground (
            arith,
            e,
            f,
            once,
            made-describe_rounds rounds true (some (LoopError.description m)) c',
          )
        ]
        | inr (Stop.budget reason, e) ↦ ground (arith, e, once)
        | inr (Stop.model m, e) ↦
            ground
              (arith, e, once, made-describe_rounds rounds strict (some (LoopError.describe m)) c')
      ]

  pub made-judge_rounds :
      (rounds : ℕ) (why : Purpose) (png : Bytes) (strict : Bool) (last : Option String)
      (c : Clock W)
      → made (judge_rounds x cfg rounds why png strict last c).0 ≤ made c + rounds
  unfolding judge_rounds
  made-judge_rounds zero why png strict last c = omega arith
  made-judge_rounds (suc rounds) why png strict last c =
      let once = made-call Role.judge (judge_request why png strict) c in
      let c' = (call x cfg Role.judge (judge_request why png strict) c).0 in
      elim (Result-cases (call x cfg Role.judge (judge_request why png strict) c).1) [
        | inl (text, e) ↦ elim (Result-cases (x.parse_verdict text)) [
          | inl (v, f) ↦ ground (arith, e, f, once)
          | inr (m, f) ↦
              ground (arith, e, f, once, made-judge_rounds rounds why png true (some m) c')
        ]
        | inr (Stop.budget reason, e) ↦ ground (arith, e, once)
        | inr (Stop.model m, e) ↦ ground (
          arith,
          e,
          once,
          made-judge_rounds rounds why png strict (some (x.error_to_string m)) c',
        )
      ]

  pub made-confirm : (png : Bytes) (c : Clock W) → made (confirm x cfg png c).0 ≤ made c + 2
  unfolding confirm ask_judge
  made-confirm png c = made-judge_rounds 2 Purpose.confirm png false none c
