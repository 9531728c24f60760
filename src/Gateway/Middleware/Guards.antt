-- ===== src/Gateway/Middleware/Guards.antt =====
-- When the handler of a request runs, and what is answered if it does not.
use kr0ki.Common.{
  ℕ, List, [], ◌∷◌, ◌++◌, ◌⊎◌, String, ◌≡◌, refl, ap, ◌∙◌, inl, inr, Bool, true, false, Option,
  none, some, arith, Bool-cases, Option-cases,
}
use kr0ki.Audit.File.{IoError, WriteAnswer, text_of, done, failed as failed_write, write_line}
use kr0ki.Audit.{Crates, Phase, AuditDraft, same_decision, append, record_of}
use kr0ki.Gateway.Digest.{Digest}
use kr0ki.Gateway.Routes.{Operation, operation, required_grant}
use kr0ki.Gateway.Identities.{Identity, permits, Authn, caller, failed, authenticate}
use kr0ki.Gateway.Middleware.{
  Gateway, Request, Response, Log, Moments, decide, is_exempt, draft_of, audit, act, answer,
  deny_response, gateway_middleware,
}

module _ {B W : Type 0} (c : Crates) (sha256_hex : String → Digest)
    (next : Request B → W → W × Response B) where
  -- The text of the log behind `append`, and that text with the line of a record behind it.
  abbrev text_behind : AuditDraft → String → WriteAnswer → Log → Option (List ℕ)
  text_behind draft at write l = (append c draft at write l.tail l.file).1.content

  abbrev with_line : AuditDraft → String → Log → List ℕ
  with_line draft at l =
      text_of l.file.content ++ (c.to_string (record_of draft at l.tail) ++ (10 ∷ []))

  -- The decision is recorded: no log is kept, or the line of the record stands at its end.
  pub data IsRecorded (draft : AuditDraft) (at : String) (write : WriteAnswer) (log : Option Log)
      : Type 0 where
    not_kept : log ≡ none → IsRecorded draft at write log
    kept :
        (l : Log)
        → log ≡ some l
        → write ≡ done
        → text_behind draft at write l ≡ some (with_line draft at l)
        → IsRecorded draft at write log

  -- A log is kept, and the record could not be written to it: an earlier write has failed, or this one fails.
  pub record IsUnrecorded (write : WriteAnswer) (log : Option Log) : Type 0 where
    pub kept_in : Log
    pub is_kept : log ≡ some kept_in
    pub not_written :
        (kept_in.tail.healthy ≡ false)
        ⊎ ((part : List ℕ) × (io_error : IoError) × (write ≡ failed_write part io_error))

  -- The four ways in which a request ends that is not exempt, by whether the decision was recorded,
  -- who the caller is and what the route needs.
  pub data Ends (recorded unrecorded_ : Type 0) (authn : Authn) (needed : Option String)
      (req : Request B) (w w' : W) (response : Response B) : Type 0 where
    unrecorded :
        unrecorded_
        → w' ≡ w
        → response.status ≡ 503
        → Ends recorded unrecorded_ authn needed req w w' response
    unknown_caller :
        recorded
        → authn ≡ failed
        → w' ≡ w
        → response.status ≡ 401
        → Ends recorded unrecorded_ authn needed req w w' response
    not_granted :
        (i : Identity) (grant : String)
        → recorded
        → authn ≡ caller i
        → needed ≡ some grant
        → permits i grant ≡ false
        → w' ≡ w
        → response.status ≡ 403
        → Ends recorded unrecorded_ authn needed req w w' response
    served :
        (i : Identity)
        → recorded
        → authn ≡ caller i
        → ((grant : String) → needed ≡ some grant → permits i grant ≡ true)
        → w' ≡ (next req w).0
        → response ≡ (next req w).1
        → Ends recorded unrecorded_ authn needed req w w' response

  abbrev acted :
      Gateway
      → Moments
      → Request B
      → Authn
      → Operation
      → W
      → Option Log × Bool
      → Option Log × W × Response B
  acted g t req authn op w recorded = act c sha256_hex next g t req op (decide authn op) w recorded

  -- What the flag of `audit` says of the log.
  data Audited (recorded unrecorded_ : Type 0) (flag : Bool) : Type 0 where
    written : recorded → flag ≡ true → Audited recorded unrecorded_ flag
    unwritten : unrecorded_ → flag ≡ false → Audited recorded unrecorded_ flag

  audit-Audited :
      (draft : AuditDraft) (at : String) (write : WriteAnswer) (log : Option Log)
      → Audited
          (IsRecorded draft at write log)
          (IsUnrecorded write log)
          (audit c draft at write log).1
  unfolding audit append write_line
  audit-Audited draft at write none = written (not_kept refl) refl
  audit-Audited draft at done (some l) = elim (Bool-cases l.tail.healthy) [
    | inl healthy ↦ written (kept l refl refl (rw healthy refl)) (rw healthy refl)
    | inr poisoned ↦
        unwritten (record { kept_in = l; is_kept = refl; not_written = inl poisoned })
          (rw poisoned refl)
  ]
  audit-Audited draft at (failed_write part e) (some l) =
      unwritten (record { kept_in = l; is_kept = refl; not_written = inr (part, e, refl) })
        (elim (Bool-cases l.tail.healthy) [ inl h ↦ rw h refl | inr h ↦ rw h refl ])

  act-Ends :
      (recorded unrecorded_ : Type 0) (g : Gateway) (t : Moments) (req : Request B) (authn : Authn)
      (op : Operation) (w : W) (log : Option Log) (flag : Bool)
      → Audited recorded unrecorded_ flag
      → let (log', w', response) = acted g t req authn op w (log, flag) in
        Ends recorded unrecorded_ authn op.grant req w w' response
  unfolding act answer decide deny_response same_decision
  act-Ends rec unrec g t req authn op w log flag (unwritten h e) =
      unrecorded h (rw e refl) (rw e refl)
  act-Ends rec unrec g t req failed op w log flag (written h e) =
      unknown_caller h refl (rw e refl) (rw e refl)
  act-Ends rec unrec g t req (caller i) op w log flag (written h e) = elim (Option-cases op.grant) [
    | inl any_caller ↦
        served i h refl (λ grant e. absurd (cc)) (rw (e, any_caller) refl) (rw (e, any_caller) refl)
    | inr (grant, needed) ↦ elim (Bool-cases (permits i grant)) [
      | inl may ↦
          served i h refl (λ g' e. ap (permits i) (ground (arith, e, needed)) ∙ may)
            (rw (e, needed, may) refl) (rw (e, needed, may) refl)
      | inr may_not ↦
          not_granted i grant h refl needed may_not (rw (e, needed, may_not) refl)
            (rw (e, needed, may_not) refl)
    ]
  ]

  -- The record of the decision about a request.
  abbrev pub decision_draft : Gateway → Request B → AuditDraft
  decision_draft g req =
      let op = operation g.tools req.method req.pattern in
      draft_of g req op (decide (authenticate sha256_hex g.mode req.authorization) op)
        Phase.decision none

  -- The log behind the record of the decision, and whether it was written.
  abbrev pub decision_recorded : Gateway → Moments → Request B → Option Log → Option Log × Bool
  decision_recorded g t req log = audit c (decision_draft g req) t.decided_at t.decided_write log

  pub guarded_middleware :
      (g : Gateway) (t : Moments) (req : Request B) (log : Option Log) (w : W)
      → is_exempt g req ≡ false
      → gateway_middleware c sha256_hex next g t req log w
        ≡ acted g t req
            (authenticate sha256_hex g.mode req.authorization)
            (operation g.tools req.method req.pattern)
            w
            (decision_recorded g t req log)
  unfolding gateway_middleware
  guarded_middleware g t req log w guarded = rw guarded refl

  pub gateway_middleware-Ends :
      (g : Gateway) (t : Moments) (req : Request B) (log : Option Log) (w : W)
      → is_exempt g req ≡ false
      → let (log', w', response) = gateway_middleware c sha256_hex next g t req log w in
        let draft = decision_draft g req in
        Ends
          (IsRecorded draft t.decided_at t.decided_write log)
          (IsUnrecorded t.decided_write log)
          (authenticate sha256_hex g.mode req.authorization)
          (required_grant req.method req.pattern)
          req
          w
          w'
          response
  gateway_middleware-Ends g t req log w guarded =
      let (log', flag) = decision_recorded g t req log in
      let authn = authenticate sha256_hex g.mode req.authorization in
      let draft = decision_draft g req in
      rw (guarded_middleware g t req log w guarded) (
        unfold operation in
        act-Ends (IsRecorded draft t.decided_at t.decided_write log)
          (IsUnrecorded t.decided_write log) g t req authn
          (operation g.tools req.method req.pattern) w log' flag
          (audit-Audited draft t.decided_at t.decided_write log))
