-- ===== src/Change/Tasks/Alone.antt =====
-- change_service.rs, `commit`: the steps of a call with no other caller, and the function.
use kr0ki.Common.{
  is_some, ℕ, zero, suc, String, eq_refl, ◌≡◌, ◌∙◌, refl, ap, inl, inr, true, not, Option, none,
  some, [], ◌∷◌, Bool-cases,
}
use kr0ki.Common.Results.{Result, ok, err}
use kr0ki.Common.OrdMap
use kr0ki.Common.OrdMap.{lookup, contains_key}
use kr0ki.Change.Model.{
  BackendError, conflict, other, ModelBackend, backend, stale_base, Committed, ChangeError, Stored,
}
use kr0ki.Change.Service.{Proposals, same_revision, conflicted, posted, at_head, commit}
use kr0ki.Change.Tasks.{
  Task, starts, finished, Shared, key_of, release, found, checked, answered, reread, advance,
  run_alone,
}

module _ {W V : Type 0} (b : ModelBackend W V) where
  -- What a call leaves behind that ran alone.
  abbrev pub left : W × Proposals V × Result Committed ChangeError → Shared W V × Task V
  left (w, proposals, result) =
      (record { world = w; proposals = proposals; held = [] }, finished result)

  abbrev under : Stored V → Proposals V → W → Shared W V
  under s proposals w = record { world = w; proposals = proposals; held = key_of s ∷ [] }

  run_alone-finished :
      (n : ℕ) (result : Result Committed ChangeError) (sh : Shared W V)
      → run_alone b n (finished result) sh ≡ (sh, finished result)
  unfolding run_alone advance
  run_alone-finished zero result sh = refl
  run_alone-finished (suc n) result sh = run_alone-finished n result sh

  discard_own : (k : String) → OrdMap.discard k (k ∷ []) ≡ []
  unfolding OrdMap.discard
  discard_own k = rw (eq_refl k) refl

  -- A guard is dropped and the call returns.
  released :
      (n : ℕ) (s : Stored V) (proposals : Proposals V) (w : W)
      (result : Result Committed ChangeError)
      → run_alone b n (finished result) (release s (under s proposals w))
        ≡ left (w, proposals, result)
  unfolding release
  released n s proposals w result =
      run_alone-finished n result (release s (under s proposals w))
      ∙ ap (λ held. (record { world = w; proposals = proposals; held = held }, finished result))
          (discard_own (key_of s))

  reread_alone :
      (n : ℕ) (s : Stored V) (id : String) (expected : Option String) (proposals : Proposals V)
      (w₀ : W) (a : W × Result (Option String) BackendError)
      → let (sh, t) = reread s expected (under s proposals w₀) a in
        run_alone b n t sh ≡ left (conflicted b expected proposals a)
  unfolding reread conflicted
  reread_alone n s id expected proposals w₀ (w, err e) = released n s proposals w (err (backend e))
  reread_alone n s id expected proposals w₀ (w, ok current) =
      released n s proposals w (err (stale_base expected current))

  answered_alone :
      (s : Stored V) (id : String) (expected : Option String) (proposals : Proposals V) (w₀ : W)
      (a : W × Result String BackendError)
      → let (sh, t) = answered s id expected (under s proposals w₀) a in
        run_alone b 1 t sh ≡ left (posted b s id expected proposals a)
  unfolding answered posted run_alone advance
  answered_alone s id expected proposals w₀ (w, ok commit_id) =
      released 0 s (OrdMap.remove id proposals) w
        (ok (record { change_id = id; base_revision = expected; commit_id = commit_id }))
  answered_alone s id expected proposals w₀ (w, err conflict) =
      reread_alone 0 s id expected proposals w (b.head s.proposal.project_id s.proposal.branch_id w)
  answered_alone s id expected proposals w₀ (w, err (other m)) =
      released 1 s proposals w (err (backend (other m)))

  checked_alone :
      (s : Stored V) (id : String) (expected : Option String) (proposals : Proposals V) (w₀ : W)
      (a : W × Result (Option String) BackendError)
      → let (sh, t) = checked s id expected (under s proposals w₀) a in
        run_alone b 2 t sh ≡ left (at_head b s id expected proposals a)
  unfolding checked at_head run_alone advance
  checked_alone s id expected proposals w₀ (w, err e) = released 2 s proposals w (err (backend e))
  checked_alone s id expected proposals w₀ (w, ok current) =
      elim (Bool-cases (same_revision current expected)) [
        | inl same ↦ rw same (
            answered_alone s id expected proposals w
              (b.commit s.proposal.project_id s.proposal.branch_id expected s.changes w))
        | inr moved ↦ rw moved (released 2 s proposals w (err (stale_base expected current)))
      ]

  found_alone :
      (o : Option (Stored V)) (id : String) (expected : Option String) (proposals : Proposals V)
      (w : W)
      → lookup id proposals ≡ o
      → run_alone b 5 (found o id expected) (record { world = w; proposals = proposals; held = [] })
        ≡ left (commit b id expected proposals w)
  unfolding found commit run_alone advance OrdMap.contains OrdMap.add
  found_alone none id expected proposals w e = rw (commit, e) refl
  found_alone (some s) id expected proposals w e =
      elim (Bool-cases (not (same_revision expected s.proposal.base_revision))) [
        | inl differs ↦ rw (commit, e, differs) refl
        | inr same ↦
            let there : contains_key id proposals ≡ true = ap is_some e in
            rw (commit, e, same, there)
              (checked_alone s id expected proposals w
                (b.head s.proposal.project_id s.proposal.branch_id w))
      ]

-- A call of `commit` that nobody else interrupts, with no lock held, does in six steps between its
-- suspensions what `commit` does as one function: the state of the server, the proposals and the
-- result are the same, and the lock is free again.
pub run_alone-commit :
    {W V : Type 0} (b : ModelBackend W V) (id : String) (expected : Option String)
    (proposals : Proposals V) (w : W)
    → run_alone b 6 (starts id expected) (record { world = w; proposals = proposals; held = [] })
      ≡ left b (commit b id expected proposals w)
unfolding run_alone advance
run_alone-commit b id expected proposals w =
    found_alone b (lookup id proposals) id expected proposals w refl
