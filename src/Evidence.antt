-- ===== src/Evidence.antt =====
-- crates/kr0ki-core/src/evidence_store.rs: evidence records and artifacts in files that are named by
-- the digests of what they hold.
pub mod Kept
pub mod Listed
pub mod Checked
mod Examples
use kr0ki.Common.{
  String, ◌<>◌, ◌==◌, starts_with, Bool, true, false, Option, none, some, List, [], ◌∷◌, map,
  filter, if◌then◌else◌, is_some,
}
use Prim.Native.Nat.{Ordering}
use kr0ki.Common.Results.{Result, ok, err, map_err}
use kr0ki.Common.Text.{strip_prefix}
use kr0ki.Common.Sort.{sort_by}
use kr0ki.Common.OrdMap.{OrdMap, lookup, insert, remove, contains_key}

-- What is called of the crates: SHA-256, the JSON form of a record and its reading, the record's own
-- validation, the parts of it that are read, and the order of `list`.
pub record Crates (R B : Type 0) : Type 0 where
  pub sha256_hex : B → String
  pub to_vec_pretty : R → B
  pub from_slice : B → Result R String
  pub validate : R → Option String
  pub requirement_id : R → String
  pub verification_id : R → String
  pub artifact_uri : R → String
  pub artifact_digest : R → String
  pub before : R → R → Ordering

-- A directory: its files by their stems, and what writes that failed left in it. The files of the
-- records end in `.json`, those of the artifacts in `.log`. One that is not there is empty.
pub record Dir (B : Type 0) : Type 0 where
  pub files : OrdMap B
  pub leftovers : OrdMap B

pub record Store (B : Type 0) : Type 0 where
  pub records : Dir B
  pub artifacts : Dir B

pub data EvidenceStoreError : Type 0 where
  io : String → EvidenceStoreError
  invalid : String → EvidenceStoreError
  malformed : String → String → EvidenceStoreError

-- What `verify` finds for one record.
pub data ArtifactCheck : Type 0 where
  intact : ArtifactCheck
  missing : ArtifactCheck
  digest_mismatch : String → ArtifactCheck
  external : ArtifactCheck

-- How the file system answers `create_dir_all` and the two calls of `write_atomic`; a write that
-- fails may leave something.
pub data Answer (B : Type 0) : Type 0 where
  done : Answer B
  not_created : String → Answer B
  not_written : Option B → String → Answer B
  not_renamed : String → Answer B

module _ {R B : Type 0} (c : Crates R B) where
  open c use {sha256_hex, to_vec_pretty, from_slice, validate}

  -- `write_atomic`: the file appears whole or not at all.
  unfoldable pub write_atomic : String → B → Answer B → Dir B → Dir B × Option EvidenceStoreError
  write_atomic stem bytes done d =
      (record { files = insert stem bytes d.files; leftovers = remove stem d.leftovers }, none)
  write_atomic stem bytes (not_created m) d = (d, some (io m))
  write_atomic stem bytes (not_written none m) d = (d, some (io m))
  write_atomic stem bytes (not_written (some part) m) d =
      (record d { leftovers = insert stem part d.leftovers }, some (io m))
  write_atomic stem bytes (not_renamed m) d =
      (record d { leftovers = insert stem bytes d.leftovers }, some (io m))

  -- The directory is there or is created, and the file is there or is written.
  unfoldable pub ensure_file : String → B → Answer B → Dir B → Dir B × Option EvidenceStoreError
  unfolding write_atomic
  ensure_file stem bytes (not_created m) d = (d, some (io m))
  ensure_file stem bytes answer d =
      let sent = write_atomic stem bytes answer d in
      if contains_key stem d.files then (d, none) else sent

  unfoldable pub or_error :
      {A : Type 0} → A → Option EvidenceStoreError → Result A EvidenceStoreError
  or_error a none = ok a
  or_error a (some e) = err e

  unfoldable pub put_artifact :
      String → B → Answer B → Store B → Store B × Result (String × String) EvidenceStoreError
  unfolding ensure_file or_error
  put_artifact root bytes answer s =
      let digest = sha256_hex bytes in
      let (dir, failed) = ensure_file digest bytes answer s.artifacts in
      (
        record s { artifacts = dir },
        or_error ("file://" <> root <> "/artifacts/" <> digest <> ".log", "sha256:" <> digest)
            failed,
      )

  unfoldable pub put : R → Answer B → Store B → Store B × Result String EvidenceStoreError
  unfolding ensure_file or_error
  put r answer s = elim (validate r) [
    | some e ↦ (s, err (invalid e))
    | none ↦
        let bytes = to_vec_pretty r in
        let stem = sha256_hex bytes in
        let (dir, failed) = ensure_file stem bytes answer s.records in
        (record s { records = dir }, or_error stem failed)
  ]

  -- The record of a file; a read that fails does so with a message.
  unfoldable pub read_record : (String → Option String) → String × B → Result R EvidenceStoreError
  read_record unreadable (stem, bytes) = elim (unreadable stem) [
    | some m ↦ err (io m)
    | none ↦ elim (from_slice bytes) [
      | err m ↦ err (malformed stem m)
      | ok r ↦ elim (validate r) [ some e ↦ err (malformed stem e) | none ↦ ok r ]
    ]
  ]

  unfoldable pub read_records :
      (String → Option String) → OrdMap B → Result (List R) EvidenceStoreError
  unfolding read_record
  read_records unreadable [] = ok []
  read_records unreadable (file ∷ more) = elim (read_record unreadable file) [
    | err e ↦ err e
    | ok r ↦ elim (read_records unreadable more) [ err e ↦ err e | ok rs ↦ ok (r ∷ rs) ]
  ]

  -- The files are read in the order of their stems, where `read_dir` may give any.
  unfoldable pub list : (String → Option String) → Store B → Result (List R) EvidenceStoreError
  unfolding read_records sort_by
  list unreadable s = elim (read_records unreadable s.records.files) [
    | err e ↦ err e
    | ok rs ↦ ok (sort_by c.before rs)
  ]

  -- The check of one record, in a store at `root`; `read` is `fs::read`, with no message of a failure.
  unfoldable pub check_artifact : String → (String → Option B) → R → ArtifactCheck
  check_artifact root read r =
      let own_prefix = "file://" <> root <> "/artifacts" in
      let checked : ArtifactCheck = elim (strip_prefix "file://" (c.artifact_uri r)) [
        | none ↦ external
        | some path ↦ elim (read path) [
          | none ↦ missing
          | some bytes ↦
              let actual = "sha256:" <> sha256_hex bytes in
              if actual == c.artifact_digest r then intact else digest_mismatch actual
        ]
      ] in
      if starts_with (c.artifact_uri r) own_prefix then checked else external

  unfoldable pub verify :
      String
      → (String → Option B)
      → (String → Option String)
      → Store B
      → Result (List (R × ArtifactCheck)) EvidenceStoreError
  unfolding list check_artifact
  verify root read unreadable s = elim (list unreadable s) [
    | err e ↦ err e
    | ok rs ↦ ok (map (λ r. (r, check_artifact root read r)) rs)
  ]

  unfoldable pub for_requirement :
      (String → Option String) → String → Store B → Result (List R) EvidenceStoreError
  unfolding list
  for_requirement unreadable id s = elim (list unreadable s) [
    | err e ↦ err e
    | ok rs ↦ ok (filter (λ r. c.requirement_id r == id) rs)
  ]

  unfoldable pub for_case :
      (String → Option String) → String → Store B → Result (List R) EvidenceStoreError
  unfolding list
  for_case unreadable id s = elim (list unreadable s) [
    | err e ↦ err e
    | ok rs ↦ ok (filter (λ r. c.verification_id r == id) rs)
  ]
