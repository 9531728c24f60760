-- ===== src/Change/Acceptance.antt =====
-- change_service.rs, `propose` and `commit` over `in_memory`.
use kr0ki.Common.{
  ℕ, String, eq_refl, ◌≡◌, ap₂, ◌∙◌, refl, sym, ap, false, Option, none, some, List, [], ◌∷◌, ◌++◌,
  arith, if◌then◌else◌,
}
use kr0ki.Common.Results.{Result, ok, err, map_err}
use kr0ki.Common.OrdMap.{lookup, insert, remove, lookup-insert}
use kr0ki.Sync.Model.{Json, Element, DesiredElement, DataVersion}
use kr0ki.Change.Model.{BackendError, ProposedChange, ChangeError, sync, Stored}
use kr0ki.Change.Service.{
  Proposals, same_revision_refl, keep, stored_of, propose_on, propose_at, propose, existing_at,
  posted, at_head, commit,
}
use kr0ki.Change.InMemory.{Snapshot, Server, head_id, grown, post, in_memory}
use kr0ki.Sync.Diff.{diff_managed}

module _ {V : Type 0} (x : Json V) (show : ℕ → String)
    (digest : String → Option String → Option String → List (DataVersion V) → String) where
  -- A proposal is stored, on a head.
  record IsKept (proposals : Proposals V) (head : Option String) (p : ProposedChange) : Type 0 where
    stored : Stored V
    listed : lookup p.change_id proposals ≡ some stored
    based : stored.proposal.base_revision ≡ head
    named : p.base_revision ≡ head

  keep-IsKept :
      (project : String) (branch head : Option String) (existing : List (Element V))
      (proposals proposals' : Proposals V) (p : ProposedChange)
      (r : Result (List (DataVersion V)) ChangeError)
      → keep x (in_memory x show) digest project branch head existing proposals r
        ≡ (proposals', ok p)
      → IsKept proposals' head p
  unfolding keep
  keep-IsKept project branch head existing proposals proposals' p (err e) h = absurd (cc)
  keep-IsKept project branch head existing proposals proposals' p (ok []) h = absurd (cc)
  keep-IsKept project branch head existing proposals proposals' p (ok (change ∷ more)) h =
      let s = stored_of x (in_memory x show) digest project branch head existing (change ∷ more) in
      let same : s.proposal ≡ p = cc in
      let kept : insert s.proposal.change_id s proposals ≡ proposals' = ap (λ u. u.0) h in
      let there : lookup s.proposal.change_id (insert s.proposal.change_id s proposals) ≡ some s =
        lookup-insert s.proposal.change_id s.proposal.change_id s proposals
        ∙ ap (λ t. if t then some s else lookup s.proposal.change_id proposals)
            (eq_refl s.proposal.change_id) in
      let based : s.proposal.base_revision ≡ head = refl in
      record {
        stored = s;
        listed = ap₂ (λ q m. lookup q.change_id m) (sym same) (sym kept) ∙ there;
        based = based;
        named = ap (λ q. q.base_revision) (sym same) ∙ based;
      }

  propose_on-IsKept :
      (project : String) (branch head : Option String) (desired : List (DesiredElement V))
      (proposals proposals' : Proposals V) (p : ProposedChange) (sv sv' : Server V)
      (r : Result (List (Element V)) BackendError)
      → propose_on x (in_memory x show) digest project branch desired proposals head (sv, r)
        ≡ (sv', proposals', ok p)
      → IsKept proposals' head p × (sv' ≡ sv)
  unfolding propose_on
  propose_on-IsKept project branch head desired proposals proposals' p sv sv' (err e) h =
      absurd (cc)
  propose_on-IsKept project branch head desired proposals proposals' p sv sv' (ok existing) h = (
    keep-IsKept project branch head existing proposals proposals' p
        (map_err sync (diff_managed x existing desired)) (ap (λ u. (u.1, u.2)) h),
    sym (ap (λ u. u.0) h),
  )

  propose-IsKept :
      (project : String) (branch : Option String) (prefix : String)
      (desired : List (DesiredElement V)) (proposals proposals' : Proposals V) (p : ProposedChange)
      (sv sv' : Server V) (head : Option String)
      → head_id sv ≡ head
      → propose x (in_memory x show) digest project branch prefix desired proposals sv
        ≡ (sv', proposals', ok p)
      → IsKept proposals' head p × (sv' ≡ sv)
  unfolding propose propose_at existing_at
  propose-IsKept project branch prefix desired proposals proposals' p sv sv' none at h =
      propose_on-IsKept project branch none desired proposals proposals' p sv sv' (ok []) (
        sym (
          ap
            (λ o.
              propose_at x (in_memory x show) digest project branch prefix desired proposals
                (sv, ok o))
            at)
        ∙ h)
  propose-IsKept project branch prefix desired proposals proposals' p sv sv' (some c) at h =
      propose_on-IsKept project branch (some c) desired proposals proposals' p sv sv'
        (existing_at x (in_memory x show) digest project prefix (some c) sv).1
        (sym (
            ap
              (λ o.
                propose_at x (in_memory x show) digest project branch prefix desired proposals
                  (sv, ok o))
              at)
          ∙ h)

  -- The server once it has made a commit.
  abbrev grown_server : List (DataVersion V) → Server V → Server V
  grown_server changes sv =
      let (n, new) = grown x show changes sv in
      record sv { commits = sv.commits ++ (new ∷ []); next_element = n }

  post-grows :
      (changes : List (DataVersion V)) (sv : Server V)
      → sv.conflict_once ≡ false
      → post x show (head_id sv) changes sv
        ≡ (grown_server changes sv, ok (grown x show changes sv).1.id)
  unfolding post
  post-grows changes sv calm = ground (arith, calm, same_revision_refl (head_id sv))

  commit_kept :
      (s : Stored V) (id : String) (expected : Option String) (proposals : Proposals V)
      (sv : Server V)
      → lookup id proposals ≡ some s
      → s.proposal.base_revision ≡ head_id sv
      → expected ≡ head_id sv
      → sv.conflict_once ≡ false
      → commit (in_memory x show) id expected proposals sv ≡ (
        grown_server s.changes sv,
        remove id proposals,
        ok (record {
          change_id = id;
          base_revision = expected;
          commit_id = (grown x show s.changes sv).1.id;
        }),
      )
  unfolding commit at_head posted
  commit_kept s id expected proposals sv listed based at calm =
      rw (commit, listed, based, at, same_revision_refl (head_id sv), post-grows s.changes sv calm)
        refl

-- Over the in-memory server, a change that was proposed and then committed on its own base, with
-- nothing in between and no conflict that the server makes up, is accepted: its proposal is taken
-- away, and the server's chain has one commit more, the one that is returned.
pub propose-commit :
    {V : Type 0} (x : Json V) (show : ℕ → String)
    (digest : String → Option String → Option String → List (DataVersion V) → String)
    (project : String) (branch : Option String) (prefix : String)
    (desired : List (DesiredElement V)) (proposals proposals' : Proposals V) (p : ProposedChange)
    (sv sv' : Server V)
    → sv.conflict_once ≡ false
    → propose x (in_memory x show) digest project branch prefix desired proposals sv
      ≡ (sv', proposals', ok p)
    → (new : Snapshot V) × (after : Server V) × (commit
          (in_memory x show)
          p.change_id
          p.base_revision
          proposals'
          sv'
        ≡ (
          after,
          remove p.change_id proposals',
          ok (record {
            change_id = p.change_id;
            base_revision = p.base_revision;
            commit_id = new.id;
          }),
        ))
      × (after.commits ≡ sv.commits ++ (new ∷ []))
propose-commit x show digest project branch prefix desired proposals proposals' p sv sv' calm h =
    let (k, same) =
      propose-IsKept x show digest project branch prefix desired proposals proposals' p sv sv'
        (head_id sv) refl h in
    let s = k.stored in
    (
      (grown x show s.changes sv).1,
      grown_server x show digest s.changes sv,
      ap (λ u. commit (in_memory x show) p.change_id p.base_revision proposals' u) same
          ∙ commit_kept x show digest s p.change_id p.base_revision proposals' sv k.listed k.based
              k.named calm,
      refl,
    )
