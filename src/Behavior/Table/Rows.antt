-- ===== src/Behavior/Table/Rows.antt =====
-- The loop over the transitions, against the table as a whole.
use kr0ki.Common.{
  eq_iff, ◌≡◌, refl, Bool, true, not, ◌&&◌, List, [], ◌∷◌, arith, if◌then◌else◌, any, all,
  is_some_and,
}
use kr0ki.Common.OrdMap
use kr0ki.Common.OrdMap.{OrdMap, contains-add, contains-nil}
use kr0ki.Behavior.Model.{State, Transition}
use kr0ki.Behavior.Table.{
  nonempty, check_transition, check_transitions, Seen, has_pair, is_terminal_in, is_unguarded,
}
use kr0ki.Behavior.Table.Spec.{has_transition, distinct_transitions, answers_always, unambiguous}
use kr0ki.Behavior.Table.Findings.{flawed, flawed-nil, flawed-append, flawed-error}

abbrev pub row_in : OrdMap State → Transition → Bool
row_in states t =
    OrdMap.contains_key t.from states
    && OrdMap.contains_key t.to states
    && not (is_terminal_in states t.from)
    && nonempty t.event
    && not (is_some_and t.guard (λ s. not (nonempty s)))
    && not (is_some_and t.effect (λ s. not (nonempty s)))

abbrev pub new_pair : Seen → Transition → Bool
new_pair seen t = not (is_unguarded t.guard && has_pair t.from t.event seen.unguarded)

abbrev seen_after : Seen → Transition → Seen
seen_after seen t = record {
  ids = if nonempty t.id then OrdMap.add t.id seen.ids else seen.ids;
  unguarded = if is_unguarded t.guard then (t.from, t.event) ∷ seen.unguarded else seen.unguarded;
}

check_transition-seen :
    (states : OrdMap State) (seen : Seen) (t : Transition)
    → (check_transition states seen t).0 ≡ seen_after seen t
unfolding check_transition
check_transition-seen states seen t = refl

check_transition-flawed :
    (states : OrdMap State) (seen : Seen) (t : Transition)
    → flawed (check_transition states seen t).1
      ≡ not (
          (nonempty t.id && not (OrdMap.contains t.id seen.ids))
          && new_pair seen t
          && row_in states t)
unfolding check_transition
check_transition-flawed states seen t = simp (flawed-append, flawed-error) (ground arith)

abbrev pub new_ids : Seen → List Transition → Bool
new_ids seen ts = all (λ t. not (OrdMap.contains t.id seen.ids)) ts

abbrev pub new_pairs : Seen → List Transition → Bool
new_pairs seen ts = all (new_pair seen) ts

new_ids-after :
    (seen : Seen) (t : Transition) (ts : List Transition)
    → nonempty t.id ≡ true
    → new_ids (seen_after seen t) ts ≡ (new_ids seen ts && not (has_transition ts t.id))
new_ids-after seen t [] h = refl
new_ids-after seen t (u ∷ ts) h = ground (
  arith,
  contains-add t.id u.id seen.ids,
  eq_iff t.id u.id,
  eq_iff u.id t.id,
  new_ids-after seen t ts,
)

new_pairs-after :
    (seen : Seen) (t : Transition) (ts : List Transition)
    → new_pairs (seen_after seen t) ts
      ≡ (new_pairs seen ts && not (is_unguarded t.guard && any (answers_always t.from t.event) ts))
unfolding has_pair
new_pairs-after seen t [] = ground arith
new_pairs-after seen t (u ∷ ts) = ground (
  arith,
  eq_iff t.from u.from,
  eq_iff u.from t.from,
  eq_iff t.event u.event,
  eq_iff u.event t.event,
  new_pairs-after seen t ts,
)

-- The loop finds an error unless the ids are new, not blank and distinct, no row answers an event
-- that another answers always, and every row is good.
pub check_transitions_lem :
    (states : OrdMap State) (seen : Seen) (ts : List Transition)
    → flawed (check_transitions states seen ts)
      ≡ not (
          (new_ids seen ts && distinct_transitions ts)
          && (new_pairs seen ts && unambiguous ts)
          && all (row_in states) ts)
unfolding check_transitions
check_transitions_lem states seen [] = flawed-nil
check_transitions_lem states seen (t ∷ ts) =
    rw (flawed-append, check_transition-flawed, check_transition-seen)
      (ground (
        arith,
        check_transitions_lem states (seen_after seen t) ts,
        new_ids-after seen t ts,
        new_pairs-after seen t ts,
      ))
