-- ===== src/Gateway/Middleware/Audited.antt =====
-- What a request leaves in the audit log.
use kr0ki.Common.{
  ℕ, String, ◌≡◌, ◌∙◌, refl, sym, ap, subst, ◌+◌, ◌<◌, true, false, Option, none, some, List, [],
  ◌∷◌, ◌++◌, arith,
}
use mathlib.Core.List.{append_assoc}
use kr0ki.Audit.File.{Line, done, lines_of, text_of}
use kr0ki.Audit.{Crates, Phase, AuditDraft, record_of, append}
use kr0ki.Audit.Append.{IsSynced, Serializes, append-IsSynced, max_seq}
use kr0ki.Gateway.Digest.{Digest}
use kr0ki.Gateway.Routes.{Operation, operation}
use kr0ki.Gateway.Identities.{authenticate}
use kr0ki.Gateway.Middleware.{
  Gateway, Request, Response, Log, Moments, Decided, decide, is_exempt, draft_of, audit, act,
  answer, gateway_middleware,
}
use kr0ki.Gateway.Middleware.Guards.{guarded_middleware, decision_recorded}

module _ (c : Crates) where
  abbrev pub lines : Log → List Line
  lines log = lines_of (text_of log.file.content)

  -- The line of the next record.
  abbrev pub line_of : AuditDraft → String → Log → Line
  line_of d at log = c.to_string (record_of d at log.tail)

  -- The log behind a record that was written.
  abbrev pub behind : AuditDraft → String → Log → Log
  behind d at log =
      let (tail, file, result) = append c d at done log.tail log.file in
      record { tail = tail; file = file }

  pub record Grown (d : AuditDraft) (at : String) (log : Log) : Type 0 where
    pub written : audit c d at done (some log) ≡ (some (behind d at log), true)
    pub synced : IsSynced c (behind d at log).tail (behind d at log).file
    pub counted : (behind d at log).tail.next_seq ≡ log.tail.next_seq + 1
    pub line : lines (behind d at log) ≡ lines log ++ (line_of d at log ∷ [])

  audit-Grown :
      (d : AuditDraft) (at : String) (log : Log)
      → IsSynced c log.tail log.file
      → Serializes c (record_of d at log.tail)
      → log.tail.next_seq + 1 < max_seq
      → Grown d at log
  unfolding audit
  audit-Grown d at log v s room =
      let (synced, counted, line, result) = append-IsSynced c d at log.tail log.file v s room in
      record { written = rw result refl; synced = synced; counted = counted; line = line }

module _ {B W : Type 0} (c : Crates) (sha256_hex : String → Digest)
    (next : Request B → W → W × Response B) where
  act-records :
      (g : Gateway) (t : Moments) (req : Request B) (op : Operation) (d : Decided) (w : W)
      (log : Option Log)
      → let (log', w', response) = act c sha256_hex next g t req op d w (log, true) in
        log'
        ≡ (audit c
            (draft_of g req op d Phase.outcome (some response.status))
            t.ended_at
            t.ended_write
            log).0
  unfolding act answer
  act-records g t req op d w log = refl

  -- The draft of a record about a request, as the middleware fills it in.
  abbrev pub draft : Gateway → Request B → Phase → Option ℕ → AuditDraft
  draft g req phase status =
      let op = operation g.tools req.method req.pattern in
      draft_of g req op (decide (authenticate sha256_hex g.mode req.authorization) op) phase status

  -- A request that is not exempt leaves two lines in a log that is in step with its file, if both
  -- writes succeed and the records serialize: the decision, and then the outcome with the status of
  -- the response. The log is in step with its file again.
  pub gateway_middleware-audited :
      (g : Gateway) (t : Moments) (req : Request B) (log : Log) (w : W)
      → is_exempt g req ≡ false
      → t.decided_write ≡ done
      → t.ended_write ≡ done
      → IsSynced c log.tail log.file
      → log.tail.next_seq + 2 < max_seq
      → let (log', w', response) = gateway_middleware c sha256_hex next g t req (some log) w in
        let decision = draft g req Phase.decision none in
        let outcome = draft g req Phase.outcome (some response.status) in
        let between = behind c decision t.decided_at log in
        Serializes c (record_of decision t.decided_at log.tail)
        → Serializes c (record_of outcome t.ended_at between.tail)
        → (after : Log) × (log' ≡ some after)
          × IsSynced c after.tail after.file
          × (lines c after
              ≡ lines c log
                ++ (line_of c decision t.decided_at log
                    ∷ line_of c outcome t.ended_at between
                    ∷ []))
  gateway_middleware-audited g t req log w guarded first second v room s₁ s₂ =
      let op = operation g.tools req.method req.pattern in
      let d = decide (authenticate sha256_hex g.mode req.authorization) op in
      let decision = draft g req Phase.decision none in
      let between = behind c decision t.decided_at log in
      let res = gateway_middleware c sha256_hex next g t req (some log) w in
      let outcome = draft g req Phase.outcome (some res.2.status) in
      let g₁ = audit-Grown c decision t.decided_at log v s₁ (omega arith) in
      let g₂ =
        audit-Grown c outcome t.ended_at between g₁.synced s₂ (omega (arith, g₁.counted, room)) in
      let recorded : decision_recorded c sha256_hex next g t req (some log) ≡ (some between, true) =
        ap (λ a. audit c decision t.decided_at a (some log)) first ∙ g₁.written in
      let ran : res ≡ act c sha256_hex next g t req op d w (some between, true) =
        guarded_middleware c sha256_hex next g t req (some log) w guarded
        ∙ ap (act c sha256_hex next g t req op d w) recorded in
      let last : res.0
          ≡ (audit c (draft g req Phase.outcome (some res.2.status)) t.ended_at t.ended_write
              (some between)).0 =
        subst
          (λ r.
            r.0
            ≡ (audit c (draft g req Phase.outcome (some r.2.status)) t.ended_at t.ended_write
                (some between)).0)
          (sym ran) (act-records g t req op d w (some between)) in
      (
        behind c outcome t.ended_at between,
        last
            ∙ ap (λ a. (audit c outcome t.ended_at a (some between)).0) second
            ∙ ap (λ r. r.0) g₂.written,
        g₂.synced,
        g₂.line ∙ rw g₁.line (append_assoc (lines c log) _ _),
      )
