-- ===== src/Audit/Examples.antt =====
-- Two records, the second behind the first, over a toy codec.
use mathlib.Core.List.{Memᴰ}
use kr0ki.Common.{
  ℕ, ◌+◌, ◌-◌, String, ◌≡◌, eq_iff, refl, sym, true, none, List, [], ◌∷◌, ◌++◌, arith,
  if◌then◌else◌, eqb,
}
use kr0ki.Common.Results.{ok}
use kr0ki.Audit.File.{Line, LogFile, done, lines_of, text_of, read_lines}
use kr0ki.Audit.{
  Crates, AuditDraft, AuditRecord, Tail, Phase, permit, genesis_hash, record_of, append, open_log,
  verify, verify_lines,
}
use kr0ki.Audit.Append.{IsSynced, Serializes, append-IsSynced, open_log-IsSynced}
use kr0ki.Audit.Stamp.{rfc3339}
use kr0ki.Audit.Stamp.Calendar.{IsInstant, instant, instant-rfc3339}
use kr0ki.Audit.Tamper.{NoCollision, verify_lines-determines}

abbrev draft : AuditDraft
draft = record {
  correlation_id = "c1";
  phase = Phase.decision;
  caller = "agent";
  operation = "commit_change";
  method = "POST";
  path = "/x";
  decision = permit;
  reason = none;
  model_revision = none;
  transport = "mcp";
  status = none;
}

abbrev entry : ℕ → String → AuditRecord
entry n prev = record_of draft "now" (record { next_seq = n; last_hash = prev; healthy = true })

-- A line is the record's number and a closing brace.
abbrev crates : Crates
crates = record {
  sha256_hex = λ l. if eqb (first l) 48 then "h0" else "h1";
  to_string = λ r. (r.seq + 48) ∷ 125 ∷ [];
  from_str = λ l. ok (entry (first l - 48) (if eqb (first l) 48 then genesis_hash else "h0"));
}
  where
    first : Line → ℕ
    first [] = 0
    first (x ∷ l) = x

abbrev empty_tail : Tail
empty_tail = record { next_seq = 0; last_hash = genesis_hash; healthy = true }

abbrev no_file : LogFile
no_file = record { content = none; failing = none }

no_file-IsSynced : IsSynced crates empty_tail no_file
unfolding verify lines_of read_lines
no_file-IsSynced = record {
  readable = refl;
  ended = tt;
  verifies = refl;
  hashed = refl;
  healthy = refl;
  fits = omega arith;
}

first_Serializes : Serializes crates (record_of draft "now" empty_tail)
unfolding record_of
first_Serializes = record {
  reads_back = refl;
  one_line = record { unbroken = refl; closed = refl };
}

append-IsSynced_example :
    let (tail', f', result) = append crates draft "now" done empty_tail no_file in
    IsSynced crates tail' f'
    × (tail'.next_seq ≡ 1)
    × (lines_of (text_of f'.content) ≡ lines_of [] ++ ((48 ∷ 125 ∷ []) ∷ []))
    × (result ≡ ok (record_of draft "now" empty_tail))
unfolding record_of
append-IsSynced_example =
    append-IsSynced crates draft "now" empty_tail no_file no_file-IsSynced first_Serializes
      (omega arith)

open_log-IsSynced_example : open_log crates no_file ≡ ok empty_tail
open_log-IsSynced_example = open_log-IsSynced crates empty_tail no_file no_file-IsSynced

abbrev two_lines : List Line
two_lines = (48 ∷ 125 ∷ []) ∷ (49 ∷ 125 ∷ []) ∷ []

two_lines_verify : verify_lines crates 0 genesis_hash two_lines ≡ ok 2
unfolding verify_lines record_of
two_lines_verify = refl

hashes_differ : ¬ (◌≡◌ {A = String} "h0" "h1")
hashes_differ h = ground (arith, eq_iff "h0" "h1")

two_lines_apart : NoCollision crates two_lines two_lines
two_lines_apart l k (Memᴰ.head e) (Memᴰ.head f) h = cc
two_lines_apart l k (Memᴰ.head e) (Memᴰ.tail (Memᴰ.head f)) h =
    absurd (hashes_differ (rw (e, f) at h))
two_lines_apart l k (Memᴰ.tail (Memᴰ.head e)) (Memᴰ.head f) h =
    absurd (hashes_differ (sym (rw (e, f) at h)))
two_lines_apart l k (Memᴰ.tail (Memᴰ.head e)) (Memᴰ.tail (Memᴰ.head f)) h = cc
two_lines_apart l k (Memᴰ.head e) (Memᴰ.tail (Memᴰ.tail m)) h = elim m [ ]
two_lines_apart l k (Memᴰ.tail (Memᴰ.head e)) (Memᴰ.tail (Memᴰ.tail m)) h = elim m [ ]
two_lines_apart l k (Memᴰ.tail (Memᴰ.tail m)) n h = elim m [ ]

verify_lines-determines_example : two_lines ≡ two_lines
verify_lines-determines_example =
    verify_lines-determines crates two_lines two_lines 2 two_lines_apart two_lines_verify
      two_lines_verify refl

leap_day :
    rfc3339 951782400 ≡ record { y = 2000; m = 2; d = 29; hours = 0; minutes = 0; seconds = 0 }
unfolding rfc3339
leap_day = refl

instant-rfc3339_example : IsInstant (rfc3339 951782400) × (instant (rfc3339 951782400) ≡ 951782400)
instant-rfc3339_example = instant-rfc3339 951782400
