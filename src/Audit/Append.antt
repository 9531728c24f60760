-- ===== src/Audit/Append.antt =====
-- `append` and `open` keep the chain: what is in memory is what the file says.
use kr0ki.Common.{
  ℕ, ◌+◌, ◌<◌, String, ◌≡◌, refl, sym, List, [], ◌∷◌, ◌++◌, arith, length, true, none, some,
}
use kr0ki.Common.Results.{ok, err}
use kr0ki.Audit.File.{
  Line, LogFile, IoError, WriteAnswer, done, failed, lines_of, text_of, read_lines, write_line,
  IsOneLine, IsEnded, lines_of-line, IsEnded-line,
}
use kr0ki.Audit.{
  Crates, AuditDraft, AuditRecord, poisoned, Tail, u64, genesis_hash, record_of, resume, open_log,
  append, verify_lines, verify,
}
use kr0ki.Audit.Chain.{
  Continues, chain_hash, verify_lines-snoc, verify_lines-length, chain_hash-snoc, chain_hash-last,
  last_line-reads,
}

abbrev pub max_seq : ℕ
max_seq = 18446744073709551615

lines-nil : lines_of [] ≡ []
unfolding lines_of
lines-nil = refl

read_lines-text :
    (f : LogFile) → f.failing ≡ none → read_lines f ≡ ok (lines_of (text_of f.content))
unfolding read_lines
read_lines-text f h = ground (arith, lines-nil)

module _ (c : Crates) where
  open c use {sha256_hex, to_string, from_str}

  -- The file verifies, and the tail in memory is its tail.
  pub record IsSynced (tail : Tail) (f : LogFile) : Type 0 where
    pub readable : f.failing ≡ none
    pub ended : IsEnded (text_of f.content)
    pub verifies : verify c f ≡ ok (ok tail.next_seq)
    pub hashed : tail.last_hash ≡ chain_hash c genesis_hash (lines_of (text_of f.content))
    pub healthy : tail.healthy ≡ true
    pub fits : tail.next_seq < max_seq

  -- What serializing the next record guarantees.
  pub record Serializes (r : AuditRecord) : Type 0 where
    pub reads_back : from_str (to_string r) ≡ ok r
    pub one_line : IsOneLine (to_string r)

  verify-lines :
      (f : LogFile) (n : ℕ)
      → f.failing ≡ none
      → verify_lines c 0 genesis_hash (lines_of (text_of f.content)) ≡ ok n
      → verify c f ≡ ok (ok n)
  unfolding verify
  verify-lines f n h e = rw (read_lines-text f h, e)

  lines-verify :
      (f : LogFile) (n : ℕ)
      → f.failing ≡ none
      → verify c f ≡ ok (ok n)
      → verify_lines c 0 genesis_hash (lines_of (text_of f.content)) ≡ ok n
  unfolding verify
  lines-verify f n h e = ground (arith, read_lines-text f h)

  -- The line of a file that a write has ended.
  append-written :
      (d : AuditDraft) (at : String) (tail : Tail) (f : LogFile)
      → tail.healthy ≡ true
      → append c d at done tail f ≡ (
        record {
          next_seq = u64 (tail.next_seq + 1);
          last_hash = sha256_hex (to_string (record_of d at tail));
          healthy = true;
        },
        record f {
          content = some (text_of f.content ++ (to_string (record_of d at tail) ++ (10 ∷ [])));
        },
        ok (record_of d at tail),
      )
  unfolding append write_line
  append-written d at tail f h = rw h

  next_line :
      (d : AuditDraft) (at : String) (tail : Tail) (h : String)
      → Serializes (record_of d at tail)
      → tail.last_hash ≡ h
      → tail.next_seq < max_seq
      → Continues c tail.next_seq h (to_string (record_of d at tail))
  unfolding record_of
  next_line d at tail h s e fits = record {
    entry = record_of d at tail;
    reads = s.reads_back;
    numbered = omega arith;
    linked = e;
  }

  -- A write that succeeds on a log in step with its file returns the record, and leaves the log in
  -- step: the file verifies with one record more.
  pub append-IsSynced :
      (d : AuditDraft) (at : String) (tail : Tail) (f : LogFile)
      → IsSynced tail f
      → Serializes (record_of d at tail)
      → tail.next_seq + 1 < max_seq
      → let (tail', f', result) = append c d at done tail f in
        IsSynced tail' f'
        × (tail'.next_seq ≡ tail.next_seq + 1)
        × (lines_of (text_of f'.content)
            ≡ lines_of (text_of f.content) ++ (to_string (record_of d at tail) ∷ []))
        × (result ≡ ok (record_of d at tail))
  append-IsSynced d at tail f v s room = rw (append-written d at tail f v.healthy) (
      let grown =
        lines_of-line (text_of f.content) (to_string (record_of d at tail)) v.ended s.one_line in
      let next : u64 (tail.next_seq + 1) ≡ tail.next_seq + 1 = omega arith in
      (
        record {
          readable = v.readable;
          ended = IsEnded-line (text_of f.content) (to_string (record_of d at tail));
          verifies = verify-lines _ _ v.readable (
              rw (grown, next)
                (verify_lines-snoc c 0 genesis_hash (lines_of (text_of f.content))
                  (to_string (record_of d at tail))
                  (lines-verify f tail.next_seq v.readable v.verifies)
                  (next_line d at tail _ s v.hashed v.fits)));
          hashed = rw grown (
              sym (
                chain_hash-snoc c genesis_hash (lines_of (text_of f.content))
                  (to_string (record_of d at tail))));
          healthy = refl;
          fits = omega arith;
        },
        next,
        grown,
        refl,
      ))

  resume-verified :
      (ls : List Line) (n : ℕ)
      → verify_lines c 0 genesis_hash ls ≡ ok n
      → n < max_seq
      → resume c ls
        ≡ ok (record { next_seq = n; last_hash = chain_hash c genesis_hash ls; healthy = true })
  resume-verified [] n fine fits = unfold resume verify_lines in ground arith
  resume-verified (l ∷ ls) n fine fits =
      let (r, reads, numbered) = last_line-reads c 0 genesis_hash l ls fine in
      let total : n ≡ length ls + 1 =
        omega (arith, verify_lines-length c 0 genesis_hash (l ∷ ls) fine) in
      let next : u64 (r.seq + 1) ≡ n = omega arith in
      unfold resume in rw (reads, next, chain_hash-last c genesis_hash l ls)

  -- Opening a file that verifies resumes the chain: the tail is the one that the writer had.
  pub open_log-IsSynced : (tail : Tail) (f : LogFile) → IsSynced tail f → open_log c f ≡ ok tail
  unfolding open_log
  open_log-IsSynced tail f v =
      rw
        (
          read_lines-text f v.readable,
          resume-verified (lines_of (text_of f.content)) tail.next_seq
              (lines-verify f tail.next_seq v.readable v.verifies) v.fits,
        )
        (ground (arith, v.hashed, v.healthy))

  -- After a write that fails, whatever part of the line it wrote, the log is shut: no later append
  -- writes to the file, and each returns the error.
  pub append-poisoned :
      (d e : AuditDraft) (at later : String) (part : List ℕ) (x : IoError) (answer : WriteAnswer)
      (tail : Tail) (f : LogFile)
      → let (tail', f', result) = append c d at (failed part x) tail f in
        append c e later answer tail' f' ≡ (tail', f', err poisoned)
  unfolding append write_line
  append-poisoned d e at later part x answer tail f = ground arith
