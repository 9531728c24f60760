-- ===== src/Evidence/Examples.antt =====
-- A store that gets its second record.
use kr0ki.Common.{String, ◌≡◌, refl, Bool, true, none, some, List, [], ◌∷◌, any, compare_str}
use kr0ki.Common.Results.{ok}
use kr0ki.Common.OrdMap.{lookup, insert, remove}
use kr0ki.Evidence.{Crates, Store, done, not_written, put, list}
use kr0ki.Evidence.Kept.{AreFiles, Keeps, put-Keeps}
use kr0ki.Evidence.Listed.{put-listed}

-- A record is a text, and a text its own digest.
abbrev texts : Crates String String
texts = record {
  sha256_hex = λ b. b;
  to_vec_pretty = λ r. r;
  from_slice = λ b. ok b;
  validate = λ r. none;
  requirement_id = λ r. r;
  verification_id = λ r. r;
  artifact_uri = λ r. r;
  artifact_digest = λ r. r;
  before = compare_str;
}

abbrev one : Store String
one = record {
  records = record { files = ("a", "a") ∷ []; leftovers = [] };
  artifacts = record { files = []; leftovers = [] };
}

abbrev two : Store String
two = record one { records = record { files = ("a", "a") ∷ ("b", "b") ∷ []; leftovers = [] } }

one-AreFiles : AreFiles texts one.records.files
one-AreFiles = (("a", refl, refl, refl), tt)

put-Keeps_example :
    let (s', result) = put texts "b" (not_written (some "half") "disk full") one in
    AreFiles texts s'.records.files × Keeps texts one.records.files s'.records.files
put-Keeps_example = put-Keeps texts "b" (not_written (some "half") "disk full") one one-AreFiles

put_b : put texts "b" done one ≡ (two, ok "b")
unfolding put lookup insert remove
put_b = refl

put-listed_example :
    (rs : List String) × (list texts (λ stem. none) two ≡ ok rs)
    × ((p : String → Bool) → p "b" ≡ true → any p rs ≡ true)
put-listed_example =
    put-listed texts "b" done one two "b" (λ stem. none) (λ r. refl) (λ a b e. e) (λ stem. refl)
      one-AreFiles put_b
