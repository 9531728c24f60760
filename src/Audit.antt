-- ===== src/Audit.antt =====
-- crates/kr0ki-core/src/audit_log.rs: the append-only log of tool invocations and its hash chain.
-- The file is its characters, each given by its number; the file system answers each open and each
-- write, and a write that fails may have written a part of the line.
pub mod Stamp
pub mod File
pub mod Chain
pub mod Append
pub mod Tamper
mod Examples
use kr0ki.Common.{
  ℕ, ◌+◌, ◌%◌, String, ◌<>◌, ◌==◌, Bool, true, false, not, Option, none, some, List, [], ◌∷◌, ◌++◌,
  if◌then◌else◌, eqb, filter, is_none_or, length,
}
use kr0ki.Common.Results.{Result, ok, err, map_err, ◌>>=◌}
use kr0ki.Audit.File.{Line, LogFile, IoError, WriteAnswer, read_lines, write_line}

abbrev pub genesis_hash : String
genesis_hash = "0000000000000000000000000000000000000000000000000000000000000000"

pub data Phase : Type 0 where
  decision outcome : Phase

pub data Decision : Type 0 where
  permit deny : Decision

pub record AuditDraft : Type 0 where
  pub correlation_id : String
  pub phase : Phase
  pub caller : String
  pub operation : String
  pub method : String
  pub path : String
  pub decision : Decision
  pub reason : Option String
  pub model_revision : Option String
  pub transport : String
  pub status : Option ℕ

pub record AuditRecord : Type 0 where
  pub seq : ℕ
  pub at : String
  pub correlation_id : String
  pub phase : Phase
  pub caller : String
  pub operation : String
  pub method : String
  pub path : String
  pub decision : Decision
  pub reason : Option String
  pub model_revision : Option String
  pub transport : String
  pub status : Option ℕ
  pub prev_hash : String

pub data AuditError : Type 0 where
  io : IoError → AuditError
  malformed : ℕ → String → AuditError
  poisoned : AuditError

-- Where the chain stops being valid, and why.
pub data Reason : Type 0 where
  not_a_record : String → Reason
  wrong_seq : ℕ → ℕ → Reason
  wrong_prev_hash : Reason

pub record ChainBreak : Type 0 where
  pub line : ℕ
  pub seq : Option ℕ
  pub reason : Reason

pub record Tail : Type 0 where
  pub next_seq : ℕ
  pub last_hash : String
  pub healthy : Bool

pub record AuditQuery : Type 0 where
  pub caller : Option String
  pub operation : Option String
  pub decision : Option Decision
  pub correlation_id : Option String
  pub phase : Option Phase

-- What the log calls: `sha256_hex` over the `sha2` crate, and `serde_json` at an `AuditRecord`.
pub record Crates : Type 0 where
  pub sha256_hex : Line → String
  pub to_string : AuditRecord → Line
  pub from_str : Line → Result AuditRecord String

-- `u64` arithmetic
abbrev pub u64 : ℕ → ℕ
u64 n = n % 18446744073709551616

unfoldable pub same_phase : Phase → Phase → Bool
same_phase decision decision = true
same_phase outcome outcome = true
same_phase _ _ = false

unfoldable pub same_decision : Decision → Decision → Bool
same_decision permit permit = true
same_decision deny deny = true
same_decision _ _ = false

abbrev last_line : Line → List Line → Line
last_line l [] = l
last_line l (k ∷ ks) = last_line k ks

-- The record that `append` writes.
unfoldable pub record_of : AuditDraft → String → Tail → AuditRecord
record_of d at tail = record {
  seq = tail.next_seq;
  at = at;
  correlation_id = d.correlation_id;
  phase = d.phase;
  caller = d.caller;
  operation = d.operation;
  method = d.method;
  path = d.path;
  decision = d.decision;
  reason = d.reason;
  model_revision = d.model_revision;
  transport = d.transport;
  status = d.status;
  prev_hash = tail.last_hash;
}

module _ (c : Crates) where
  open c use {sha256_hex, to_string, from_str}

  -- The tail that `open` resumes from the lines of the file.
  unfoldable pub resume : List Line → Result Tail AuditError
  resume [] = ok (record { next_seq = 0; last_hash = genesis_hash; healthy = true })
  resume (l ∷ ls) =
      let last = last_line l ls in
      map_err (malformed (length (l ∷ ls))) (from_str last) >>= λ r.
      ok (record { next_seq = u64 (r.seq + 1); last_hash = sha256_hex last; healthy = true })

  -- `AuditLog::open`, its directory made
  unfoldable pub open_log : LogFile → Result Tail AuditError
  unfolding resume
  open_log file = map_err io (read_lines file) >>= resume

  -- `AuditLog::append`: the new tail, the new file, and the record or the error.
  unfoldable pub append :
      AuditDraft
      → String
      → WriteAnswer
      → Tail
      → LogFile
      → Tail × LogFile × Result AuditRecord AuditError
  unfolding record_of
  append draft at answer tail file =
      let r = record_of draft at tail in
      let line = to_string r in
      if not tail.healthy
      then (tail, file, err poisoned)
      else let (file', written) = write_line line answer file in
        elim written [
          | err e ↦ (record tail { healthy = false }, file', err (io e))
          | ok _ ↦ (
            record {
              next_seq = u64 (tail.next_seq + 1);
              last_hash = sha256_hex line;
              healthy = tail.healthy;
            },
            file',
            ok r,
          )
        ]

  -- `read_all`, on the lines from the `i`-th on
  unfoldable pub parse_lines : ℕ → List Line → Result (List AuditRecord) AuditError
  parse_lines i [] = ok []
  parse_lines i (l ∷ ls) =
      let rest = parse_lines (i + 1) ls in
      map_err (malformed (i + 1)) (from_str l) >>= λ r. rest >>= λ rs. ok (r ∷ rs)

  unfoldable pub read_all : LogFile → Result (List AuditRecord) AuditError
  unfolding parse_lines
  read_all file = map_err io (read_lines file) >>= parse_lines 0

  unfoldable pub query : AuditQuery → LogFile → Result (List AuditRecord) AuditError
  unfolding same_phase same_decision read_all
  query q file = read_all file >>= λ rs. ok (
      filter (λ r. is_none_or q.phase (same_phase r.phase))
        (filter (λ r. is_none_or q.correlation_id (λ s. r.correlation_id == s))
          (filter (λ r. is_none_or q.decision (same_decision r.decision))
            (filter (λ r. is_none_or q.operation (λ s. r.operation == s))
              (filter (λ r. is_none_or q.caller (λ s. r.caller == s)) rs)))))

  -- The loop of `verify`, from the `i`-th line on.
  unfoldable pub verify_lines : ℕ → String → List Line → Result ℕ ChainBreak
  verify_lines i expected [] = ok i
  verify_lines i expected (l ∷ ls) =
      let rest = verify_lines (i + 1) (sha256_hex l) ls in
      elim (from_str l) [
        | err e ↦ err (record { line = i + 1; seq = none; reason = not_a_record e })
        | ok r ↦
            if not (eqb r.seq (u64 i))
            then err (record { line = i + 1; seq = some r.seq; reason = wrong_seq r.seq i })
            else if not (r.prev_hash == expected)
            then err (record { line = i + 1; seq = some r.seq; reason = wrong_prev_hash })
            else rest
      ]

  unfoldable pub verify : LogFile → Result (Result ℕ ChainBreak) AuditError
  unfolding verify_lines
  verify file = map_err io (read_lines file) >>= λ ls. ok (verify_lines 0 genesis_hash ls)
