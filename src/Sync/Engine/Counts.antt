-- ===== src/Sync/Engine/Counts.antt =====
-- How many commits a run of `sync_managed` leaves behind.
use kr0ki.Common.{
  ℕ, zero, suc, ◌+◌, String, ◌≡◌, ◌∙◌, refl, ◌⊎◌, inl, inr, Bool, true, false, Option, none, some,
  List, [], ◌∷◌, arith, if◌then◌else◌, Option-cases, Bool-cases, subst,
}
use kr0ki.Common.Results.{Result, ok, err, Result-cases}
use kr0ki.Sync.Model.{Element, DataVersion, Commit}
use kr0ki.Sync.Engine.{
  SyncConfig, ClientError, SyncError, client, Client, is_conflict, same_head, by_date, at_head,
  on_branch, on_default, head_on, head_id, resolve_head, managed_at, posted, post, with_changes,
  reconcile, once, attempts, sync_managed,
}

-- A count of the commits that a world has got, which only the posting of a commit changes. An answer
-- with the new commit means one commit more, and an answer with a status of a conflict none. Behind
-- any other failure, such as an answer that is late or cannot be read, there may be one commit or
-- none.
pub record CountsCommits {W V : Type 0} (c : Client W V) : Type 0 where
  pub count : W → ℕ
  pub count-project : (p : String) (w : W) → count (c.project p w).0 ≡ count w
  pub count-branch : (p b : String) (w : W) → count (c.branch p b w).0 ≡ count w
  pub count-commit : (p i : String) (w : W) → count (c.commit p i w).0 ≡ count w
  pub count-commits : (p : String) (w : W) → count (c.commits p w).0 ≡ count w
  pub count-all_elements : (p i : String) (w : W) → count (c.all_elements p i w).0 ≡ count w
  pub count-accepted :
      (p : String) (b previous : Option String) (changes : List (DataVersion V)) (w : W)
      (new : Commit)
      → (c.create_commit p b previous changes w).1 ≡ ok new
      → count (c.create_commit p b previous changes w).0 ≡ count w + 1
  pub count-conflict :
      (p : String) (b previous : Option String) (changes : List (DataVersion V)) (w : W)
      (e : ClientError)
      → (c.create_commit p b previous changes w).1 ≡ err e
      → is_conflict e ≡ true
      → count (c.create_commit p b previous changes w).0 ≡ count w
  pub count-failed :
      (p : String) (b previous : Option String) (changes : List (DataVersion V)) (w : W)
      (e : ClientError)
      → (c.create_commit p b previous changes w).1 ≡ err e
      → let after = count (c.create_commit p b previous changes w).0 in
        (after ≡ count w) ⊎ (after ≡ count w + 1)

some_path : {A : Type 0} {a b : A} → some a ≡ some b → a ≡ b
some_path h = cc

module _ {W V : Type 0} (c : Client W V) (cfg : SyncConfig) (k : CountsCommits c) where
  open k use {
    count, count-project, count-branch, count-commit, count-commits, count-all_elements,
    count-accepted, count-conflict, count-failed,
  }

  count-by_date : (a : W × Result (List Commit) ClientError) → count (by_date c cfg a).0 ≡ count a.0
  unfolding by_date
  count-by_date (w, ok cs) = refl
  count-by_date (w, err e) = refl

  count-at_head : (a : W × Result Commit ClientError) → count (at_head c cfg a).0 ≡ count a.0
  unfolding at_head
  count-at_head (w, ok head) = refl
  count-at_head (w, err e) = refl

  listed : (w : W) → count (by_date c cfg (c.commits cfg.project_id w)).0 ≡ count w
  listed w = count-by_date (c.commits cfg.project_id w) ∙ count-commits cfg.project_id w

  count-if :
      {A : Type 0} (test : Bool) (a b : W × A) (w : W)
      → count a.0 ≡ count w
      → count b.0 ≡ count w
      → count (if test then a else b).0 ≡ count w
  count-if true a b w ha hb = ha
  count-if false a b w ha hb = hb

  count-on_branch :
      (a : W × Result (Option String) ClientError) → count (on_branch c cfg a).0 ≡ count a.0
  unfolding on_branch
  count-on_branch (w, ok none) = refl
  count-on_branch (w, ok (some head)) =
      count-at_head (c.commit cfg.project_id head w) ∙ count-commit cfg.project_id head w
  count-on_branch (w, err e) = count-if _ _ _ w (listed w) refl

  count-on_default :
      (a : W × Result (Option String) ClientError) → count (on_default c cfg a).0 ≡ count a.0
  unfolding on_default
  count-on_default (w, ok none) = listed w
  count-on_default (w, ok (some b)) =
      count-on_branch (c.branch cfg.project_id b w) ∙ count-branch cfg.project_id b w
  count-on_default (w, err e) = count-if _ _ _ w (listed w) refl

  count-head_on : (b : Option String) (w : W) → count (head_on c cfg b w).0 ≡ count w
  unfolding head_on
  count-head_on none w =
      count-on_default (c.project cfg.project_id w) ∙ count-project cfg.project_id w
  count-head_on (some b) w =
      count-on_branch (c.branch cfg.project_id b w) ∙ count-branch cfg.project_id b w

  pub count-resolve_head : (w : W) → count (resolve_head c cfg w).0 ≡ count w
  unfolding resolve_head
  count-resolve_head w = count-head_on cfg.branch_id w

  -- What may be left behind by what returns `result`: no commit, the one that is the result, or one
  -- that an error of the client hides, which is the result then.
  data Leaves (w w' : W) (result : Option (Result (Option Commit) SyncError)) : Type 0 where
    nothing : count w' ≡ count w → Leaves w w' result
    made :
        (new : Commit) → result ≡ some (ok (some new)) → count w' ≡ count w + 1 → Leaves w w' result
    hidden :
        (e : ClientError)
        → result ≡ some (err (client e))
        → is_conflict e ≡ false
        → count w' ≡ count w + 1
        → Leaves w w' result

  Leaves-if :
      (test : Bool) (w : W) (a b : W × Option (Result (Option Commit) SyncError))
      → Leaves w a.0 a.1
      → Leaves w b.0 b.1
      → let u = if test then a else b in Leaves w u.0 u.1
  Leaves-if true w a b ha hb = ha
  Leaves-if false w a b ha hb = hb

  Leaves-from :
      (v w : W) (a : W × Option (Result (Option Commit) SyncError))
      → count v ≡ count w
      → Leaves v a.0 a.1
      → Leaves w a.0 a.1
  Leaves-from v w a e (nothing same) = nothing (same ∙ e)
  Leaves-from v w a e (made new result more) = made new result (omega (arith, e, more))
  Leaves-from v w a e (hidden m result plain more) = hidden m result plain (omega (arith, e, more))

  module _ (is_managed : Element V → Bool)
      (build : List (Element V) → Result (List (DataVersion V)) SyncError) where
    posted-Leaves :
        (b previous : Option String) (changes : List (DataVersion V)) (w : W)
        → let u =
            posted c cfg is_managed build (c.create_commit cfg.project_id b previous changes w) in
          Leaves w u.0 u.1
    unfolding posted
    posted-Leaves b previous changes w =
        let answer = c.create_commit cfg.project_id b previous changes w in
        elim (Result-cases answer.1) [
          | inl (new, accepted) ↦
              made new (rw accepted refl)
                (rw accepted (count-accepted cfg.project_id b previous changes w new accepted))
          | inr (e, failed) ↦ elim (Bool-cases (is_conflict e)) [
            | inl refused ↦
                nothing
                  (rw failed (count-conflict cfg.project_id b previous changes w e failed refused))
            | inr plain ↦ elim (count-failed cfg.project_id b previous changes w e failed) [
              | inl same ↦ nothing (rw failed same)
              | inr more ↦ hidden e (rw (failed, plain) refl) plain (rw failed more)
            ]
          ]
        ]

    post-Leaves :
        (head : Option Commit) (changes : List (DataVersion V))
        (a : W × Result (Option Commit) SyncError)
        → let u = post c cfg is_managed build head changes a in Leaves a.0 u.0 u.1
    unfolding post
    post-Leaves head changes (w, err e) = nothing refl
    post-Leaves head changes (w, ok current) =
        Leaves-if (same_head (head_id current) (head_id head)) w
          (posted c cfg is_managed build
            (c.create_commit cfg.project_id cfg.branch_id (head_id head) changes w))
          (w, none) (posted-Leaves cfg.branch_id (head_id head) changes w) (nothing refl)

    count-managed_at :
        (head : Option Commit) (w : W)
        → count (managed_at c cfg is_managed build head w).0 ≡ count w
    unfolding managed_at
    count-managed_at none w = refl
    count-managed_at (some head) w = count-all_elements cfg.project_id head.at_id w

    with_changes-Leaves :
        (head : Option Commit) (w : W) (built : Result (List (DataVersion V)) SyncError)
        → let u = with_changes c cfg is_managed build head w built in Leaves w u.0 u.1
    unfolding with_changes
    with_changes-Leaves head w (err e) = nothing refl
    with_changes-Leaves head w (ok []) = nothing refl
    with_changes-Leaves head w (ok (change ∷ more)) =
        Leaves-from (resolve_head c cfg w).0 w
          (post c cfg is_managed build head (change ∷ more) (resolve_head c cfg w))
          (count-resolve_head w) (post-Leaves head (change ∷ more) (resolve_head c cfg w))

    reconcile-Leaves :
        (head : Option Commit) (a : W × Result (List (Element V)) ClientError)
        → let u = reconcile c cfg is_managed build head a in Leaves a.0 u.0 u.1
    unfolding reconcile
    reconcile-Leaves head (w, err e) = nothing refl
    reconcile-Leaves head (w, ok managed) = with_changes-Leaves head w (build managed)

    once-Leaves :
        (a : W × Result (Option Commit) SyncError)
        → let u = once c cfg is_managed build a in Leaves a.0 u.0 u.1
    unfolding once
    once-Leaves (w, err e) = nothing refl
    once-Leaves (w, ok head) =
        let managed = managed_at c cfg is_managed build head w in
        Leaves-from managed.0 w (reconcile c cfg is_managed build head managed)
          (count-managed_at head w) (reconcile-Leaves head managed)

    attempts-Leaves :
        (left : ℕ) (w : W)
        → let u = attempts c cfg is_managed build left w in Leaves w u.0 (some u.1)
    unfolding attempts
    attempts-Leaves zero w = nothing refl
    attempts-Leaves (suc left) w =
        let started = resolve_head c cfg w in
        let (w', ended) = once c cfg is_managed build started in
        let left_behind =
          Leaves-from started.0 w (once c cfg is_managed build started) (count-resolve_head w)
            (once-Leaves started) in
        elim (Option-cases ended) [
          | inr (r, over) ↦ rw (over, attempts) (subst (λ e. Leaves w w' e) over left_behind)
          | inl again ↦ elim left_behind [
            | made new result more ↦ absurd (ground (arith, again, result))
            | hidden e result plain more ↦ absurd (ground (arith, again, result))
            | nothing same ↦
                let (v, result) = attempts c cfg is_managed build left w' in
                rw (again, attempts)
                  (Leaves-from w' w (v, some result) same (attempts-Leaves left w'))
          ]
        ]

    -- A sync leaves at most one commit behind, whatever it returns: none, or the one that it returns,
    -- or one that the server made before the client failed with an error that is no conflict, which
    -- the sync then returns. So nothing was committed if it returns a conflict, an error of the
    -- changes or of their encoding, or no commit. A conflict of the server means that it made no
    -- commit, and only the posting of a commit makes one.
    pub sync_managed-commits :
        (w : W)
        → let (w', result) = sync_managed c cfg is_managed build w in
          (count w' ≡ count w)
          ⊎ ((new : Commit) × (result ≡ ok (some new)) × (count w' ≡ count w + 1))
          ⊎ ((e : ClientError) × (result ≡ err (client e))
              × (is_conflict e ≡ false)
              × (count w' ≡ count w + 1))
    unfolding sync_managed
    sync_managed-commits w = elim (attempts-Leaves 3 w) [
      | nothing same ↦ inl same
      | made new result more ↦ inr (inl (new, some_path result, more))
      | hidden e result plain more ↦ inr (inr (e, some_path result, plain, more))
    ]
