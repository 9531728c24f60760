-- ===== src/Evidence/Listed.antt =====
-- evidence_store.rs, `list` behind a `put`.

use kr0ki.Common.{
  String, ◌==◌, eq_iff, ◌≡◌, ◌∙◌, refl, sym, ap, Bool, true, Option, none, List, [], ◌∷◌, arith,
  any, is_some, Bool-cases, inl, inr, subst,
}
use kr0ki.Common.Results.{ok}
use kr0ki.Common.Sort.{sort_by, any-sort_by}
use kr0ki.Common.OrdMap.{OrdMap, lookup}
use kr0ki.Evidence.{Crates, Store, Answer, put, read_record, read_records, list}
use kr0ki.Evidence.Kept.{AreFiles, put-Kept}

-- Whatever is true of a record is true of one that is listed.
abbrev pub Lists : {R : Type 0} → List R → R → Type 0
Lists {R} rs r = (p : R → Bool) → p r ≡ true → any p rs ≡ true

module _ {R B : Type 0} (c : Crates R B) where
  module _ (reads : (r : R) → c.from_slice (c.to_vec_pretty r) ≡ ok r)
      (distinct : (a b : B) → c.sha256_hex a ≡ c.sha256_hex b → a ≡ b)
      (unreadable : String → Option String)
      (readable : (stem : String) → unreadable stem ≡ none) where
    -- The records that are read are those of the files.
    record Complete (files : OrdMap B) : Type 0 where
      records : List R
      all_read : read_records c unreadable files ≡ ok records
      has :
          (stem : String) (r : R)
          → is_some (lookup stem files) ≡ true
          → stem ≡ c.sha256_hex (c.to_vec_pretty r)
          → (p : R → Bool) → p r ≡ true
          → any p records ≡ true

    read_record-ok :
        (stem : String) (b : B) (r : R)
        → b ≡ c.to_vec_pretty r
        → c.validate r ≡ none
        → read_record c unreadable (stem, b) ≡ ok r
    unfolding read_record
    read_record-ok stem b r holds valid =
        rw (read_record, readable stem) (rw holds (rw (reads r) (rw valid refl)))

    read_records-Complete : (files : OrdMap B) → AreFiles c files → Complete files
    unfolding read_records lookup
    read_records-Complete [] h = record {
      records = [];
      all_read = refl;
      has = λ stem r there e p yes. absurd (cc);
    }
    read_records-Complete ((j, b) ∷ files) ((q, holds, named, valid), rest) =
        let more = read_records-Complete files rest in
        record {
          records = q ∷ more.records;
          all_read = rw (read_records, read_record-ok j b q holds valid) (rw more.all_read refl);
          has = λ stem r there e p yes. elim (Bool-cases (j == stem)) [
            | inr other_ ↦
                let later : is_some (lookup stem files) ≡ true = ground (arith, there, other_) in
                let found = more.has stem r later e p yes in ground (arith, found)
            | inl same_ ↦
                let j_stem : j ≡ stem = (eq_iff j stem).0 same_ in
                let b_r : b ≡ c.to_vec_pretty r =
                  distinct b (c.to_vec_pretty r) (sym named ∙ j_stem ∙ e) in
                let q_r : c.to_vec_pretty q ≡ c.to_vec_pretty r = sym holds ∙ b_r in
                let read_ : c.from_slice (c.to_vec_pretty q) ≡ c.from_slice (c.to_vec_pretty r) =
                  ap c.from_slice q_r in
                let both : ok q ≡ ok r = sym (reads q) ∙ read_ ∙ reads r in
                let one : q ≡ r = cc in
                let first_ : p q ≡ true = ap p one ∙ yes in ground (arith, first_)
          ];
        }

    -- A store whose files can all be read lists the record of every file.
    pub record Listing (s : Store B) : Type 0 where
      pub listed : List R
      pub returned : list c unreadable s ≡ ok listed
      pub holds :
          (r : R)
          → is_some (lookup (c.sha256_hex (c.to_vec_pretty r)) s.records.files) ≡ true
          → Lists listed r

    pub list-Listing : (s : Store B) → AreFiles c s.records.files → Listing s
    unfolding list
    list-Listing s files =
        let all_ = read_records-Complete s.records.files files in
        record {
          listed = sort_by c.before all_.records;
          returned = rw (list, all_.all_read) refl;
          holds = λ r there p holds_.
              any-sort_by c.before p all_.records ∙ all_.has _ r there refl p holds_;
        }

-- A record whose put returned a name is listed, whether it was written now or was there before: in
-- a directory whose record files each hold a record that validates, in its JSON form and under the
-- digest of it, when every file can be read, the list is returned, and whatever holds of the record
-- holds of one of those listed. The JSON form of a record is read back, and no two contents share a
-- digest.
pub put-listed :
    {R B : Type 0} (c : Crates R B) (r : R) (answer : Answer B) (s s' : Store B) (stem : String)
    (unreadable : String → Option String)
    → ((r : R) → c.from_slice (c.to_vec_pretty r) ≡ ok r)
    → ((a b : B) → c.sha256_hex a ≡ c.sha256_hex b → a ≡ b)
    → ((stem : String) → unreadable stem ≡ none)
    → AreFiles c s.records.files
    → put c r answer s ≡ (s', ok stem)
    → (rs : List R) × (list c unreadable s' ≡ ok rs)
      × ((p : R → Bool) → p r ≡ true → any p rs ≡ true)
put-listed c r answer s s' stem unreadable reads distinct readable files returned =
    let k = put-Kept c r answer s (c.validate r) refl files in
    let (named, there) = k.there stem (ap (λ u. u.1) returned) in
    let now : (put c r answer s).0 ≡ s' = ap (λ u. u.0) returned in
    let l = list-Listing c reads distinct unreadable readable (put c r answer s).0 k.files in
    (
      l.listed,
      ap (λ s. list c unreadable s) (sym now) ∙ l.returned,
      l.holds r
          (subst (λ k. is_some (lookup k (put c r answer s).0.records.files) ≡ true) named there),
    )
