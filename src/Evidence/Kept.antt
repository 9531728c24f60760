-- ===== src/Evidence/Kept.antt =====
-- evidence_store.rs, `put`: what becomes of the files.
use Prim.Native.Nat.{Ordering}
use Prim.Native.String.{compare}
use kr0ki.Common.{
  String, eq_iff, eq_refl, ◌≡◌, ◌∙◌, refl, sym, ap, true, false, Option, none, some, [], ◌∷◌, arith,
  if◌then◌else◌, is_some, All, Bool-cases, Option-cases, inl, inr, subst,
}
use kr0ki.Common.Results.{Result, ok}
use kr0ki.Common.OrdMap.{OrdMap, lookup, insert, contains_key, lookup-insert}
use kr0ki.Evidence.{
  Crates, Dir, Store, EvidenceStoreError, Answer, done, not_created, not_written, not_renamed,
  write_atomic, ensure_file, or_error, put,
}

module _ {R B : Type 0} (c : Crates R B) where
  -- A file holds a valid record and is named by its digest.
  abbrev pub IsFile : String × B → Type 0
  IsFile (stem, bytes) =
      (r : R) × (bytes ≡ c.to_vec_pretty r) × (stem ≡ c.sha256_hex bytes) × (c.validate r ≡ none)

  abbrev pub AreFiles : OrdMap B → Type 0
  AreFiles files = All IsFile files

  -- Every file of one directory is in another, as it was.
  abbrev pub Keeps : OrdMap B → OrdMap B → Type 0
  Keeps old new = (stem : String) (b : B) → lookup stem old ≡ some b → lookup stem new ≡ some b

  insert_at-All :
      (P : String × B → Type 0) (o : Ordering) (stem : String) (bytes : B) (j : String) (b : B)
      (files : OrdMap B)
      → P (stem, bytes)
      → P (j, b)
      → All P files
      → All P (insert stem bytes files)
      → All P (elim o [
        | Ordering.lt ↦ (j, b) ∷ insert stem bytes files
        | Ordering.eq ↦ (stem, bytes) ∷ files
        | Ordering.gt ↦ (stem, bytes) ∷ (j, b) ∷ files
      ])
  insert_at-All P Ordering.lt stem bytes j b files new old rest more = (old, more)
  insert_at-All P Ordering.eq stem bytes j b files new old rest more = (new, rest)
  insert_at-All P Ordering.gt stem bytes j b files new old rest more = (new, (old, rest))

  insert-All :
      (P : String × B → Type 0) (stem : String) (bytes : B) (files : OrdMap B)
      → P (stem, bytes)
      → All P files
      → All P (insert stem bytes files)
  unfolding insert
  insert-All P stem bytes [] new rest = (new, tt)
  insert-All P stem bytes ((j, b) ∷ files) new (old, rest) =
      insert_at-All P (compare j stem) stem bytes j b files new old rest
        (insert-All P stem bytes files new rest)

  -- What a directory may become.
  pub record Ensured (stem : String) (bytes : B) (old new : OrdMap B)
      (failed : Option EvidenceStoreError) : Type 1 where
    pub keeps : Keeps old new
    pub there : failed ≡ none → is_some (lookup stem new) ≡ true
    pub files : (P : String × B → Type 0) → P (stem, bytes) → All P old → All P new

  insert-Keeps :
      (stem : String) (bytes : B) (files : OrdMap B)
      → contains_key stem files ≡ false
      → Keeps files (insert stem bytes files)
  insert-Keeps stem bytes files free j b at =
      lookup-insert stem j bytes files ∙ ground (arith, eq_iff stem j, free, at)

  stays :
      (stem : String) (bytes : B) (files : OrdMap B) (e : EvidenceStoreError)
      → Ensured stem bytes files files (some e)
  stays stem bytes files e = record {
    keeps = λ s b at. at;
    there = λ h. absurd (cc);
    files = λ P f h. h;
  }

  write_atomic-Ensured :
      (stem : String) (bytes : B) (answer : Answer B) (d : Dir B)
      → contains_key stem d.files ≡ false
      → Ensured stem bytes d.files
          (write_atomic c stem bytes answer d).0.files
          (write_atomic c stem bytes answer d).1
  unfolding write_atomic
  write_atomic-Ensured stem bytes done d free = record {
    keeps = insert-Keeps stem bytes d.files free;
    there = λ h. ap is_some (lookup-insert stem stem bytes d.files) ∙ rw (eq_refl stem) refl;
    files = λ P f h. insert-All P stem bytes d.files f h;
  }
  write_atomic-Ensured stem bytes (not_created m) d free = stays stem bytes d.files _
  write_atomic-Ensured stem bytes (not_written none m) d free = stays stem bytes d.files _
  write_atomic-Ensured stem bytes (not_written (some part) m) d free = stays stem bytes d.files _
  write_atomic-Ensured stem bytes (not_renamed m) d free = stays stem bytes d.files _

  chosen-Ensured :
      (stem : String) (bytes : B) (d : Dir B) (sent : Dir B × Option EvidenceStoreError)
      → (contains_key stem d.files ≡ false → Ensured stem bytes d.files sent.0.files sent.1)
      → let (d', failed) = (if contains_key stem d.files then (d, none) else sent) in
        Ensured stem bytes d.files d'.files failed
  chosen-Ensured stem bytes d sent h = elim (Bool-cases (contains_key stem d.files)) [
    | inl there ↦ rw there (record { keeps = λ s b at. at; there = λ e. there; files = λ P f g. g })
    | inr free ↦ rw free (h free)
  ]

  pub ensure_file-Ensured :
      (stem : String) (bytes : B) (answer : Answer B) (d : Dir B)
      → Ensured stem bytes d.files
          (ensure_file c stem bytes answer d).0.files
          (ensure_file c stem bytes answer d).1
  unfolding ensure_file
  ensure_file-Ensured stem bytes (not_created m) d = stays stem bytes d.files _
  ensure_file-Ensured stem bytes done d =
      chosen-Ensured stem bytes d _ (write_atomic-Ensured stem bytes done d)
  ensure_file-Ensured stem bytes (not_written part m) d =
      chosen-Ensured stem bytes d _ (write_atomic-Ensured stem bytes (not_written part m) d)
  ensure_file-Ensured stem bytes (not_renamed m) d =
      chosen-Ensured stem bytes d _ (write_atomic-Ensured stem bytes (not_renamed m) d)

  -- What a put leaves behind.
  pub record Kept (r : R) (old : OrdMap B) (u : Store B × Result String EvidenceStoreError)
      : Type 0 where
    pub files : AreFiles u.0.records.files
    pub keeps : Keeps old u.0.records.files
    pub there :
        (stem : String)
        → u.1 ≡ ok stem
        → (stem ≡ c.sha256_hex (c.to_vec_pretty r))
          × (is_some (lookup stem u.0.records.files) ≡ true)

  pub or_error-ok :
      {A : Type 0} (stem a : A) (o : Option EvidenceStoreError)
      → or_error c stem o ≡ ok a
      → (a ≡ stem) × (o ≡ none)
  unfolding or_error
  or_error-ok stem a none h = (cc, refl)
  or_error-ok stem a (some e) h = absurd (cc)

  pub put-Kept :
      (r : R) (answer : Answer B) (s : Store B) (o : Option String)
      → c.validate r ≡ o
      → AreFiles s.records.files
      → Kept r s.records.files (put c r answer s)
  unfolding put
  put-Kept r answer s (some e) refused files =
      rw (put, refused)
        (record { files = files; keeps = λ s b at. at; there = λ stem h. absurd (cc) })
  put-Kept r answer s none valid files =
      let bytes = c.to_vec_pretty r in
      let stem = c.sha256_hex bytes in
      let e = ensure_file-Ensured stem bytes answer s.records in
      rw (put, valid)
        (record {
          files = e.files IsFile (r, refl, refl, valid) files;
          keeps = e.keeps;
          there = λ a h.
              let (same_, fine) =
                or_error-ok stem a (ensure_file c stem bytes answer s.records).1 h in
              (
                same_,
                subst
                    (λ k.
                      is_some (lookup k (ensure_file c stem bytes answer s.records).0.files) ≡ true)
                    (sym same_) (e.there fine),
              );
        })

pub put-artifacts :
    {R B : Type 0} (c : Crates R B) (r : R) (answer : Answer B) (s : Store B)
    → (put c r answer s).0.artifacts ≡ s.artifacts
unfolding put
put-artifacts c r answer s = elim (Option-cases (c.validate r)) [
  | inl valid ↦ rw (put, valid) refl
  | inr (e, refused) ↦ rw (put, refused) refl
]

-- Whatever the file system answers, a put keeps every record file that is there as it was, and a
-- directory whose files each hold a valid record under the digest of its content stays one.
pub put-Keeps :
    {R B : Type 0} (c : Crates R B) (r : R) (answer : Answer B) (s : Store B)
    → AreFiles c s.records.files
    → let (s', result) = put c r answer s in
      AreFiles c s'.records.files × Keeps c s.records.files s'.records.files
put-Keeps c r answer s files =
    let k = put-Kept c r answer s (c.validate r) refl files in (k.files, k.keeps)
