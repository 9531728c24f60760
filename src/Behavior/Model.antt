-- ===== src/Behavior/Model.antt =====
-- crates/kr0ki-behavior/src/lib.rs: the parts of the IR that a state machine is made of, and the
-- derived order of diagnostics.
use Prim.Native.Nat.{compare}
use Prim.Native.String.{then}
use kr0ki.Common.{ℕ, Ordering, String, compare_str, Bool, true, false, Option, none, some, List}

pub record Anchor : Type 0 where
  pub file : String
  pub symbol : String
  pub start : ℕ
  pub end : ℕ

pub data Severity : Type 0 where
  error warning info : Severity

pub record Diagnostic : Type 0 where
  pub code : String
  pub severity : Severity
  pub message : String
  pub anchor : Option Anchor

pub record State : Type 0 where
  pub id : String
  pub terminal : Bool
  pub anchor : Option Anchor

pub record Transition : Type 0 where
  pub id : String
  pub from : String
  pub to : String
  pub event : String
  pub guard : Option String
  pub effect : Option String
  pub anchor : Option Anchor

pub record StateMachine : Type 0 where
  pub id : String
  pub name : String
  pub initial : String
  pub states : List State
  pub transitions : List Transition

unfoldable pub compare_anchor : Anchor → Anchor → Ordering
compare_anchor a b =
    then (compare_str a.file b.file)
      (then (compare_str a.symbol b.symbol) (then (compare a.start b.start) (compare a.end b.end)))

unfoldable pub compare_anchor? : Option Anchor → Option Anchor → Ordering
unfolding compare_anchor
compare_anchor? none none = Ordering.eq
compare_anchor? none (some b) = Ordering.lt
compare_anchor? (some a) none = Ordering.gt
compare_anchor? (some a) (some b) = compare_anchor a b

abbrev pub rank : Severity → ℕ
rank error = 0
rank warning = 1
rank info = 2

unfoldable pub compare_diagnostic : Diagnostic → Diagnostic → Ordering
unfolding compare_anchor?
compare_diagnostic a b = then (compare_str a.code b.code) (
    then (compare (rank a.severity) (rank b.severity))
      (then (compare_str a.message b.message) (compare_anchor? a.anchor b.anchor)))

abbrev pub is_error : Diagnostic → Bool
is_error d = elim d.severity [ error ↦ true | _ ↦ false ]
