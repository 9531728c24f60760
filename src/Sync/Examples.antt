-- ===== src/Sync/Examples.antt =====
-- A sync with a server that has no commit yet.
use kr0ki.Common.{
  ℕ, ◌+◌, String, ◌≡◌, refl, ◌⊎◌, true, none, some, List, [], ◌∷◌, eqb, if◌then◌else◌, inr, arith,
  false,
}
use kr0ki.Common.Results.{Result, ok, err}
use kr0ki.Sync.Model.{Element, DataVersion, Commit}
use kr0ki.Sync.Engine.{
  SyncConfig, ClientError, other, SyncError, client, Client, is_conflict, sync_managed,
}
use kr0ki.Sync.Engine.Counts.{CountsCommits, sync_managed-commits}

abbrev first : Commit
first = record { at_id = "c1"; created = none }

-- The world is the number of its commits.
abbrev pub quick : Client ℕ String
quick = record {
  project = λ p w. (w, ok (some "main"));
  branch = λ p b w. (w, ok (if eqb w 0 then none else some "c1"));
  commit = λ p i w. (w, ok first);
  commits = λ p w. (w, ok []);
  all_elements = λ p i w. (w, ok []);
  create_commit = λ p b previous changes w. (w + 1, ok first);
}

slow_no_conflict :
    (e : ClientError)
    → (let late : Result Commit ClientError = err (other "timed out") in late ≡ err e)
    → is_conflict e ≡ true
    → ⊥
unfolding is_conflict
slow_no_conflict e h refused =
    let same : e ≡ other "timed out" = cc in
    let plain : is_conflict e ≡ false = rw same refl in ground (arith, plain, refused)

-- The server makes a commit, and its answer comes too late.
abbrev slow : Client ℕ String
slow = record quick { create_commit = λ p b previous changes w. (w + 1, err (other "timed out")) }

counts : CountsCommits slow
counts = record {
  count = λ w. w;
  count-project = λ p w. refl;
  count-branch = λ p b w. refl;
  count-commit = λ p i w. refl;
  count-commits = λ p w. refl;
  count-all_elements = λ p i w. refl;
  count-accepted = λ p b previous changes w new h. absurd (cc);
  count-conflict = λ p b previous changes w e h refused. absurd (slow_no_conflict e h refused);
  count-failed = λ p b previous changes w e h. inr refl;
}

abbrev config : SyncConfig
config = record { project_id = "p"; branch_id = none }

abbrev one_change : List (Element String) → Result (List (DataVersion String)) SyncError
one_change managed = ok (record { payload = some []; identity = none } ∷ [])

sync_managed-commits_example :
    let (w', result) = sync_managed slow config (λ e. true) one_change 0 in
    (counts.count w' ≡ counts.count 0)
    ⊎ ((new : Commit) × (result ≡ ok (some new)) × (counts.count w' ≡ counts.count 0 + 1))
    ⊎ ((e : ClientError) × (result ≡ err (client e))
        × (is_conflict e ≡ false)
        × (counts.count w' ≡ counts.count 0 + 1))
sync_managed-commits_example = sync_managed-commits slow config counts (λ e. true) one_change 0

sync_run : sync_managed quick config (λ e. true) one_change 0 ≡ (1, ok (some first))
unfolding sync_managed kr0ki.Sync.Engine.once kr0ki.Sync.Engine.resolve_head
    kr0ki.Sync.Engine.same_head
sync_run = refl
