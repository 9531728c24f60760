-- ===== src/Ingest/Run/Attempts.antt =====
-- What an attempt does to the records of the run, and how it ends.
use kr0ki.Common.{
  ℕ, ◌-◌, ◌≡◌, ◌∙◌, refl, ap, ◌⊎◌, inl, inr, Bool, true, false, Option, none, some, List, [], ◌∷◌,
  ◌++◌, arith, length, length-append, Bool-cases, String,
}
use kr0ki.Ingest.Types.{
  Usage, Bytes, ExhaustReason, AcceptedVia, labels_and_judge, judge_confirmed, accepted,
  Confirmation, Step, next, done, Verdict, LabelScore, LoopConfig, AttemptRecord, Confirmed,
}
use kr0ki.Ingest.Calls.{Externals, is_consistent_match, Clock, confirm}
use kr0ki.Ingest.State.{State, outcome, stop, consider_best, stalled, record_unjudged}
use kr0ki.Ingest.Judging.{
  Decided, decide_with, decide, judged_record, remember, step_after, conclude, complete_verdict,
}

module _ {W F : Type 0} (x : Externals W F) (cfg : LoopConfig F) where
  open x use {f_ge}

  -- What accepting an attempt rests on: the judge's verdict is a match that nothing in it
  -- contradicts, and either the labels were read and enough of them were found, or there were none
  -- to compare and the second judge call agreed.
  pub record Accepts (r : AttemptRecord F) (via : AcceptedVia) : Type 0 where
    pub verdict : Verdict F
    pub judged : r.verdict ≡ some verdict
    pub consistent : is_consistent_match f_ge verdict cfg.min_match_score ≡ true
    pub was_rendered : r.render_error ≡ none
    pub vouched :
        ((via ≡ labels_and_judge)
          × ((recall : F) × (verdict.label_recall ≡ some recall)
              × (f_ge recall cfg.label_recall_threshold ≡ true)))
        ⊎ ((via ≡ judge_confirmed)
            × (verdict.label_recall ≡ none)
            × (r.confirmation ≡ some Confirmation.agreed))

  -- How an attempt ends that pushed a record.
  pub data Ends (n : ℕ) (r : AttemptRecord F) (st : State F) (step : Step) : Type 0 where
    goes_on : step ≡ next → Ends n r st step
    stops : (reason : ExhaustReason) → step ≡ done (outcome x st reason) → Ends n r st step
    accepts : (via : AcceptedVia) → step ≡ done (accepted n via) → Accepts r via → Ends n r st step

  -- An attempt pushes one record with its number behind those that there were; the best place is
  -- the one that there was, or that of the new record.
  pub record Pushes (n : ℕ) (before : List (AttemptRecord F)) (best : Option ℕ) (st' : State F)
      (step : Step) : Type 0 where
    pub entry : AttemptRecord F
    pub pushed : st'.attempts ≡ before ++ (entry ∷ [])
    pub numbered : entry.n ≡ n
    pub best_place : (st'.best ≡ best) ⊎ (st'.best ≡ some (length before))
    pub ends : Ends n entry st' step

  consider_best-attempts : (st : State F) → (consider_best x st).attempts ≡ st.attempts
  unfolding consider_best
  consider_best-attempts st = ground arith

  best-consider_best :
      (st : State F)
      → ((consider_best x st).best ≡ st.best)
        ⊎ ((consider_best x st).best ≡ some (length st.attempts - 1))
  unfolding consider_best
  best-consider_best st = ground arith

  length-snoc :
      (rs : List (AttemptRecord F)) (r : AttemptRecord F) → length (rs ++ (r ∷ [])) - 1 ≡ length rs
  length-snoc rs r = omega (arith, length-append rs (r ∷ []))

  -- Pushing a record and looking whether it is the best.
  best-pushed :
      (r : AttemptRecord F) (st st' : State F)
      → st'.attempts ≡ st.attempts ++ (r ∷ [])
      → st'.best ≡ st.best
      → ((consider_best x st').best ≡ st.best)
        ⊎ ((consider_best x st').best ≡ some (length st.attempts))
  best-pushed r st st' e b = elim (best-consider_best st') [
    | inl same ↦ inl (same ∙ b)
    | inr new ↦ inr (new ∙ ap some (ap (λ rs. length rs - 1) e ∙ length-snoc st.attempts r))
  ]

  -- What a decision rests on.
  abbrev pub Rests : Verdict F → Option (LabelScore F) → Decided F → Type 0
  Rests v labels d =
      (via : AcceptedVia)
      → d.accepted ≡ some via
      → (is_consistent_match f_ge v cfg.min_match_score ≡ true)
        × (((via ≡ labels_and_judge)
              × ((l : LabelScore F) × (labels ≡ some l)
                  × (f_ge l.recall cfg.label_recall_threshold ≡ true)))
            ⊎ ((via ≡ judge_confirmed)
                × (labels ≡ none)
                × (d.confirmation ≡ some Confirmation.agreed)))

  decide_with-Rests :
      (v : Verdict F) (labels : Option (LabelScore F)) (fits : Bool) (c : Clock W)
      (asked : Clock W × Confirmed F)
      → is_consistent_match f_ge v cfg.min_match_score ≡ fits
      → Rests v labels (decide_with x cfg fits labels v c asked).1
  unfolding decide_with
  decide_with-Rests v labels false c asked e via h = absurd (cc)
  decide_with-Rests v none true c (c', Confirmed.agreed) e via h = (e, inr (cc, refl, refl))
  decide_with-Rests v none true c (c', Confirmed.disagreed w) e via h = absurd (cc)
  decide_with-Rests v none true c (c', Confirmed.failed m) e via h = absurd (cc)
  decide_with-Rests v (some l) true c asked e via h =
      (e, inl (ground arith, (l, refl, ground arith)))

  pub decide-Rests :
      (v : Verdict F) (labels : Option (LabelScore F)) (png : Bytes) (c : Clock W)
      → Rests v labels (decide x cfg v labels png c).1
  unfolding decide
  decide-Rests v labels png c =
      decide_with-Rests v labels (is_consistent_match f_ge v cfg.min_match_score) c
        (confirm x cfg png c) refl

  judged_record-Accepts :
      (n : ℕ) (source : String) (v : Verdict F) (labels : Option (LabelScore F)) (used : Usage)
      (d : Decided F)
      → Rests (complete_verdict x cfg v labels) labels d
      → (via : AcceptedVia) → d.accepted ≡ some via
      → Accepts (judged_record x cfg n source (complete_verdict x cfg v labels) labels used d) via
  unfolding judged_record complete_verdict
  judged_record-Accepts n source v labels used d rests via h =
      let (fits, vouched) = rests via h in
      record {
        verdict = _;
        judged = refl;
        consistent = fits;
        was_rendered = refl;
        vouched = elim vouched [
          | inl (e, (l, some_l, enough)) ↦ inl (e, (l.recall, rw some_l, enough))
          | inr (e, none_l, agreed) ↦ inr (e, rw none_l, agreed)
        ];
      }

  step_after-Ends :
      (n : ℕ) (r : AttemptRecord F) (decided : Option AcceptedVia) (st : State F)
      → ((via : AcceptedVia) → decided ≡ some via → Accepts r via)
      → Ends n r st (step_after x cfg n decided st)
  unfolding step_after stop
  step_after-Ends n r (some via) st h = accepts via refl (h via refl)
  step_after-Ends n r none st h = elim (Bool-cases (stalled x st cfg.stall_window)) [
    | inl flat ↦ stops ExhaustReason.stalled (rw flat)
    | inr better ↦ goes_on (rw better)
  ]

  pub conclude-Pushes :
      (n : ℕ) (source : String) (v : Verdict F) (labels : Option (LabelScore F)) (used : Usage)
      (d : Decided F) (st : State F)
      → Rests (complete_verdict x cfg v labels) labels d
      → let (st', step) =
          conclude x cfg n source (complete_verdict x cfg v labels) labels used d st in
        Pushes n st.attempts st.best st' step
  unfolding conclude remember
  conclude-Pushes n source v labels used d st rests =
      let v' = complete_verdict x cfg v labels in
      let r = judged_record x cfg n source v' labels used d in
      record {
        entry = r;
        pushed = consider_best-attempts (remember x cfg r labels d st);
        numbered = unfold judged_record in refl;
        best_place = best-pushed r st (remember x cfg r labels d st) refl refl;
        ends =
            step_after-Ends n r d.accepted _ (judged_record-Accepts n source v labels used d rests);
      }

  pub record_unjudged-attempts :
      (n : ℕ) (source message : String) (labels : Option (LabelScore F)) (used : Usage)
      (st : State F)
      → (r : AttemptRecord F) × ((record_unjudged x n source message labels used st).attempts
          ≡ st.attempts ++ (r ∷ []))
        × (r.n ≡ n)
        × (((record_unjudged x n source message labels used st).best ≡ st.best)
            ⊎ ((record_unjudged x n source message labels used st).best
                ≡ some (length st.attempts)))
  unfolding record_unjudged
  record_unjudged-attempts n source message labels used st =
      (_, consider_best-attempts _, refl, best-pushed _ st _ refl refl)
