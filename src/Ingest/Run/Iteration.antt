-- ===== src/Ingest/Run/Iteration.antt =====
-- The loop over the attempts: its invariant, and how it ends.
use kr0ki.Common.{
  ℕ, zero, suc, ◌+◌, ◌≤◌, ◌≡◌, ◌∙◌, refl, sym, ap, subst, ◌⊎◌, inl, inr, Option, none, some, [],
  ◌∷◌, arith, length, length-append, last?, last?-snoc, Option-cases,
}
use kr0ki.Ingest.Types.{
  ExhaustReason, AcceptedVia, Outcome, accepted, Step, next, done, Description, LoopConfig,
  AttemptRecord,
}
use kr0ki.Ingest.Calls.{Externals, Clock, describe}
use kr0ki.Ingest.Calls
use kr0ki.Ingest.State.{State, outcome}
use kr0ki.Ingest.Run.{attempt, iterate}
use kr0ki.Ingest.Run.Attempts.{Accepts, Ends, goes_on, stops, accepts, Pushes}
use kr0ki.Ingest.Run.Stages.{Moves, idles, pushes, attempt-Moves}
use kr0ki.Ingest.Run.Numbering.{Numbered, Numbered-snoc, IsPlace, IsPlace-snoc}

pub Step-cases : (step : Step) → (step ≡ next) ⊎ ((o : Outcome) × (step ≡ done o))
Step-cases next = inl refl
Step-cases (done o) = inr (o, refl)

module _ {W F : Type 0} (x : Externals W F) (cfg : LoopConfig F) where
  pub record IsKept (n : ℕ) (st : State F) : Type 0 where
    pub numbered : Numbered 1 st.attempts
    pub count : length st.attempts + 1 ≡ n
    pub place : IsPlace st.best st.attempts

  -- How the loop ends.
  pub data EndsLoop (st : State F) : Option Outcome → Type 0 where
    ran_out : EndsLoop st none
    stopped : (reason : ExhaustReason) → EndsLoop st (some (outcome x st reason))
    took :
        (k : ℕ) (via : AcceptedVia) (r : AttemptRecord F)
        → last? st.attempts ≡ some r
        → r.n ≡ k
        → Accepts x cfg r via
        → EndsLoop st (some (accepted k via))

  pub record IsFinal (most : ℕ) (st : State F) (ended : Option Outcome) : Type 0 where
    pub numbered : Numbered 1 st.attempts
    pub bounded : length st.attempts ≤ most
    pub place : IsPlace st.best st.attempts
    pub ending : EndsLoop st ended

  IsKept-pushed :
      (n : ℕ) (st st' : State F) (step : Step)
      → IsKept n st
      → Pushes x cfg n st.attempts st.best st' step
      → IsKept (n + 1) st'
  IsKept-pushed n st st' step k p = record {
    numbered =
        subst (Numbered 1) (sym p.pushed)
          (Numbered-snoc 1 st.attempts p.entry k.numbered (p.numbered ∙ omega (arith, k.count)));
    count =
        ap (λ rs. length rs + 1) p.pushed
        ∙ omega (arith, k.count, length-append st.attempts (p.entry ∷ []));
    place =
        subst (IsPlace st'.best) (sym p.pushed)
          (IsPlace-snoc st.best st'.best st.attempts p.entry k.place p.best_place);
  }

  IsFinal-of :
      (most n : ℕ) (st : State F) {ended : Option Outcome}
      → n ≤ most + 1
      → IsKept n st
      → EndsLoop st ended
      → IsFinal most st ended
  IsFinal-of most n st h k e = record {
    numbered = k.numbered;
    bounded = omega (arith, k.count);
    place = k.place;
    ending = e;
  }

  ends_loop :
      (n : ℕ) (st st' : State F) (o : Outcome)
      → Pushes x cfg n st.attempts st.best st' (done o)
      → EndsLoop st' (some o)
  ends_loop n st st' o p = go p.ends
    where
      same : (q : Outcome) → done o ≡ done q → EndsLoop st' (some q) → EndsLoop st' (some o)
      same q e h = subst (λ s. EndsLoop st' (some s)) (cc) h

      go : Ends x cfg n p.entry st' (done o) → EndsLoop st' (some o)
      go (goes_on e) = absurd (cc)
      go (stops reason e) = same _ e (stopped reason)
      go (accepts via e a) =
          same _ e
            (took n via p.entry (ap last? p.pushed ∙ last?-snoc st.attempts p.entry) p.numbered a)

  IsKept-moved :
      (n : ℕ) (st st' : State F) (step : Step)
      → IsKept n st
      → step ≡ next
      → Moves x cfg n st st' step
      → IsKept (n + 1) st'
  IsKept-moved n st st' step k e (idles reason same stop) = absurd (cc)
  IsKept-moved n st st' step k e (pushes p) = IsKept-pushed n st st' step k p

  IsFinal-moved :
      (most n : ℕ) (st st' : State F) (step : Step) (o : Outcome)
      → n ≤ most
      → IsKept n st
      → step ≡ done o
      → Moves x cfg n st st' step
      → IsFinal most st' (some o)
  IsFinal-moved most n st st' step o h k e (idles reason same stop) =
      let kept : IsKept n st' = subst (IsKept n) (sym same) k in
      subst (λ q. IsFinal most st' (some q)) (cc)
        (IsFinal-of most n st' (omega arith) kept (stopped reason))
  IsFinal-moved most n st st' step o h k e (pushes p) =
      IsFinal-of most (n + 1) st' (omega arith) (IsKept-pushed n st st' step k p)
        (ends_loop n st st' o (subst (λ s. Pushes x cfg n st.attempts st.best st' s) e p))

  pub iterate-over :
      (left n : ℕ) (d : Description F) (c : Clock W) (st : State F) {reason : ExhaustReason}
      → (Calls.exhausted x cfg c).1 ≡ some reason
      → iterate x cfg (suc left) n d c st
        ≡ ((Calls.exhausted x cfg c).0, st, some (outcome x st reason))
  unfolding iterate
  iterate-over left n d c st h = ground arith

  pub iterate-done :
      (left n : ℕ) (d : Description F) (c : Clock W) (st : State F) {o : Outcome}
      → (Calls.exhausted x cfg c).1 ≡ none
      → (attempt x cfg n d (Calls.exhausted x cfg c).0 st).2 ≡ done o
      → iterate x cfg (suc left) n d c st ≡ (
          let (c', st', step) = attempt x cfg n d (Calls.exhausted x cfg c).0 st in
          (c', st', some o))
  unfolding iterate
  iterate-done left n d c st h e = ground arith

  pub iterate-next :
      (left n : ℕ) (d : Description F) (c : Clock W) (st : State F)
      → (Calls.exhausted x cfg c).1 ≡ none
      → (attempt x cfg n d (Calls.exhausted x cfg c).0 st).2 ≡ next
      → iterate x cfg (suc left) n d c st ≡ (
          let (c', st', step) = attempt x cfg n d (Calls.exhausted x cfg c).0 st in
          iterate x cfg left (n + 1) d c' st')
  unfolding iterate
  iterate-next left n d c st h e = ground arith

  pub iterate-IsFinal :
      (most left n : ℕ) (d : Description F) (c : Clock W) (st : State F)
      → n + left ≡ most + 1
      → IsKept n st
      → let (c', st', ended) = iterate x cfg left n d c st in IsFinal most st' ended
  iterate-IsFinal most zero n d c st h k =
      unfold iterate in IsFinal-of most n st (omega arith) k ran_out
  iterate-IsFinal most (suc left) n d c st h k = elim (Option-cases (Calls.exhausted x cfg c).1) [
    | inr (reason, over) ↦
        rw (iterate-over left n d c st over) (IsFinal-of most n st (omega arith) k (stopped reason))
    | inl time ↦
        let (c', st', step) = attempt x cfg n d (Calls.exhausted x cfg c).0 st in
        elim (Step-cases step) [
          | inl goes ↦ rw (iterate-next left n d c st time goes) (
              iterate-IsFinal most left (n + 1) d c' st' (omega arith) (
                IsKept-moved n st st' step k goes
                  (attempt-Moves x cfg n d (Calls.exhausted x cfg c).0 st)))
          | inr (o, ends) ↦ rw (iterate-done left n d c st time ends) (
              IsFinal-moved most n st st' step o (omega arith) k ends
                (attempt-Moves x cfg n d (Calls.exhausted x cfg c).0 st))
        ]
  ]
