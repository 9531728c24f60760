-- ===== src/Ingest/Run/Results.antt =====
-- What a run returns: its attempts, its outcome and its best source.
use kr0ki.Common.{
  ℕ, ◌+◌, ◌-◌, ◌≤◌, ◌≡◌, ◌∙◌, refl, sym, ap, subst, Bool, true, false, Option, none, some, List, [],
  arith, eqb, length, last?, get_elem?, find, option_map, and_then, unwrap_or,
}
use kr0ki.Common.Results.{Result, ok, err}
use kr0ki.Ingest.Types.{
  ExhaustReason, AcceptedVia, Outcome, accepted, exhausted, not_a_diagram, Description, LoopConfig,
  AttemptRecord, LoopResult, LoopError,
}
use kr0ki.Ingest.Calls.{Externals, Clock, describe}
use kr0ki.Ingest.State.{State, default, outcome}
use kr0ki.Ingest.Run.{iterate, loop_on, described, run_loop, is_none_kind, best_source}
use kr0ki.Ingest.Run.Attempts.{Accepts}
use kr0ki.Ingest.Run.Numbering.{Numbered, IsPlace, find-Numbered, add_one_sub_one}
use kr0ki.Ingest.Run.Iteration.{IsKept, EndsLoop, ran_out, stopped, took, IsFinal, iterate-IsFinal}

module _ {W F : Type 0} (x : Externals W F) (cfg : LoopConfig F) where
  start-IsKept : IsKept x cfg 1 default
  unfolding default
  start-IsKept = record { numbered = tt; count = refl; place = tt }

  -- What a run that returns a result found: no diagram, or the end of the loop.
  data Returns (res : LoopResult F) : Type 0 where
    no_diagram : res.outcome ≡ not_a_diagram → res.attempts ≡ [] → Returns res
    looped :
        (st : State F) (ended : Option Outcome)
        → res.attempts ≡ st.attempts
        → res.outcome ≡ unwrap_or ended (outcome x st ExhaustReason.max_iterations)
        → IsFinal x cfg cfg.max_iterations st ended
        → Returns res

  loop_on-Returns :
      (d : Description F) (c : Clock W) (none_kind : Bool) → Returns (loop_on x cfg d c none_kind).1
  unfolding loop_on
  loop_on-Returns d c true = no_diagram refl refl
  loop_on-Returns d c false =
      let (c', st, ended) = iterate x cfg cfg.max_iterations 1 d c default in
      looped st ended refl refl (
        iterate-IsFinal x cfg cfg.max_iterations cfg.max_iterations 1 d c default (omega arith)
          start-IsKept)

  described-Returns :
      (c : Clock W) (answer : Result (Description F) LoopError) (res : LoopResult F)
      → (described x cfg c answer).1 ≡ ok res
      → Returns res
  unfolding described
  described-Returns c (err e) res h = absurd (cc)
  described-Returns c (ok d) res h =
      subst Returns (cc) (loop_on-Returns d c (is_none_kind d.diagram_kind))

  run_loop-Returns : (w : W) (res : LoopResult F) → (run_loop x cfg w).1 ≡ ok res → Returns res
  unfolding run_loop
  run_loop-Returns w res h =
      let (c, answer) =
        describe x cfg
          (record { world = w; usage = record { prompt_tokens = 0; completion_tokens = 0 } }) in
      described-Returns c answer res h

  Numbered-of :
      (res : LoopResult F)
      → Returns res
      → Numbered 1 res.attempts × (length res.attempts ≤ cfg.max_iterations)
  Numbered-of res (no_diagram e none_made) =
      (subst (Numbered 1) (sym none_made) tt, omega (arith, ap length none_made))
  Numbered-of res (looped st ended same e f) =
      (subst (Numbered 1) (sym same) f.numbered, omega (arith, ap length same, f.bounded))

  -- A run that returns a result has made at most `max_iterations` attempts, and its records carry
  -- the numbers 1, 2, 3 and so on, each once and in order.
  pub run_loop-Numbered :
      (w : W) (res : LoopResult F)
      → (run_loop x cfg w).1 ≡ ok res
      → Numbered 1 res.attempts × (length res.attempts ≤ cfg.max_iterations)
  run_loop-Numbered w res h = Numbered-of res (run_loop-Returns w res h)

  taken_of :
      (k : ℕ) (via : AcceptedVia) (st : State F) (ended : Option Outcome)
      → EndsLoop x cfg st ended
      → accepted k via ≡ unwrap_or ended (outcome x st ExhaustReason.max_iterations)
      → (r : AttemptRecord F) × (last? st.attempts ≡ some r) × (r.n ≡ k) × Accepts x cfg r via
  unfolding outcome
  taken_of k via st none ran_out e = absurd (cc)
  taken_of k via st (some o) (stopped reason) e = absurd (cc)
  taken_of k via st (some o) (took j by r last number a) e =
      (r, last, ground arith, subst (Accepts x cfg r) (ground arith) a)

  accepted_of :
      (res : LoopResult F) (k : ℕ) (via : AcceptedVia)
      → Returns res
      → res.outcome ≡ accepted k via
      → (r : AttemptRecord F) × (last? res.attempts ≡ some r) × (r.n ≡ k) × Accepts x cfg r via
  accepted_of res k via (no_diagram e none_made) h = absurd (cc)
  accepted_of res k via (looped st ended same e f) h =
      let (r, last, number, a) = taken_of k via st ended f.ending (sym h ∙ e) in
      (r, ap last? same ∙ last, number, a)

  -- A run that is accepted is accepted for its last attempt. That attempt was rendered, and its
  -- verdict is a match with a score of at least `min_match_score` and no difference listed; and
  -- either the label recall reached the threshold, or there were no labels to compare and the
  -- confirming judge call agreed.
  pub run_loop-Accepts :
      (w : W) (res : LoopResult F) (k : ℕ) (via : AcceptedVia)
      → (run_loop x cfg w).1 ≡ ok res
      → res.outcome ≡ accepted k via
      → (r : AttemptRecord F) × (last? res.attempts ≡ some r) × (r.n ≡ k) × Accepts x cfg r via
  run_loop-Accepts w res k via h e = accepted_of res k via (run_loop-Returns w res h) e

  named_place :
      (k : ℕ) (reason : ExhaustReason) (st : State F) (ended : Option Outcome)
      → EndsLoop x cfg st ended
      → exhausted reason (some k) ≡ unwrap_or ended (outcome x st ExhaustReason.max_iterations)
      → and_then st.best (λ i. option_map (λ r. r.n) (get_elem? st.attempts i)) ≡ some k
  unfolding outcome
  named_place k reason st none ran_out e = ground arith
  named_place k reason st (some o) (stopped why) e = ground arith
  named_place k reason st (some o) (took j by r last number a) e = absurd (cc)

  best_of :
      (k : ℕ) (best : Option ℕ) (rs : List (AttemptRecord F))
      → Numbered 1 rs
      → IsPlace best rs
      → and_then best (λ i. option_map (λ r. r.n) (get_elem? rs i)) ≡ some k
      → (r : AttemptRecord F) × (get_elem? rs (k - 1) ≡ some r)
        × (find (λ a. eqb a.n k) rs ≡ some r)
  best_of k none rs h p e = absurd (cc)
  best_of k (some i) rs h p e =
      let (r, at, number, found) = find-Numbered 1 i rs h p in
      let k_eq : k ≡ 1 + i = ground (arith, at, number) in
      (r, rw (k_eq, add_one_sub_one i) at, rw k_eq found)

  shown_of :
      (res : LoopResult F) (k : ℕ) (reason : ExhaustReason)
      → Returns res
      → res.outcome ≡ exhausted reason (some k)
      → (r : AttemptRecord F) × (get_elem? res.attempts (k - 1) ≡ some r)
        × (find (λ a. eqb a.n k) res.attempts ≡ some r)
  shown_of res k reason (no_diagram e none_made) h = absurd (cc)
  shown_of res k reason (looped st ended same e f) h =
      let (r, at, found) =
        best_of k st.best st.attempts f.numbered f.place
          (named_place k reason st ended f.ending (sym h ∙ e)) in
      (r, rw same at, rw same found)

  -- A run that is exhausted and names its best attempt can show it: the attempt of that number is
  -- among the records, in its place, and `best_source` returns its source.
  pub best_source-exhausted :
      (w : W) (res : LoopResult F) (k : ℕ) (reason : ExhaustReason)
      → (run_loop x cfg w).1 ≡ ok res
      → res.outcome ≡ exhausted reason (some k)
      → (r : AttemptRecord F) × (get_elem? res.attempts (k - 1) ≡ some r)
        × (best_source res ≡ some r.source)
  unfolding best_source
  best_source-exhausted w res k reason h e =
      let (r, at, found) = shown_of res k reason (run_loop-Returns w res h) e in
      (r, at, ground (arith, found, e))
