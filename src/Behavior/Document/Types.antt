-- ===== src/Behavior/Document/Types.antt =====
-- crates/kr0ki-behavior/src/lib.rs: the document of the behavior IR.
use kr0ki.Common.{ℕ, String, Bool, true, false, Option, List}
use kr0ki.Common.OrdMap.{OrdMap}
use kr0ki.Behavior.Model.{Anchor, Diagnostic, StateMachine}

pub record Provenance : Type 0 where
  pub revision : String
  pub tree_digest : String
  pub toolchain : String
  pub extractor : String
  pub config : OrdMap String

pub record SourceFile : Type 0 where
  pub path : String
  pub sha256 : String
  pub content : String

pub record SourceAnnotation : Type 0 where
  pub path : String
  pub text : String
  pub anchor : Anchor

pub data NodeKind : Type 0 where
  module_ type_ field_ associated_type trait_ function_ : NodeKind
  action decision merge loop_ exit_ dispatch state_ external_ : NodeKind

pub record Node : Type 0 where
  pub id : String
  pub name : String
  pub kind : NodeKind
  pub anchor : Option Anchor
  pub annotations : List SourceAnnotation

pub data EdgeKind : Type 0 where
  contains_ satisfies requires governed_by calls : EdgeKind
  flow branch back exits transition : EdgeKind

pub data Resolution : Type 0 where
  resolved inferred unresolved : Resolution

pub record Edge : Type 0 where
  pub id : String
  pub from : String
  pub to : String
  pub kind : EdgeKind
  pub guard : Option String
  pub resolution : Resolution
  pub anchor : Anchor

pub record RustBehaviorIr : Type 0 where
  pub schema_version : ℕ
  pub provenance : Provenance
  pub sources : List SourceFile
  pub nodes : List Node
  pub edges : List Edge
  pub diagnostics : List Diagnostic
  pub machines : List StateMachine

-- The comparisons of kinds that the validation makes.
abbrev pub is_state : NodeKind → Bool
is_state state_ = true
is_state _ = false

abbrev pub is_type : NodeKind → Bool
is_type type_ = true
is_type _ = false

abbrev pub is_trait : NodeKind → Bool
is_trait trait_ = true
is_trait _ = false

abbrev pub is_loop : NodeKind → Bool
is_loop loop_ = true
is_loop _ = false

abbrev pub is_dispatch : NodeKind → Bool
is_dispatch dispatch = true
is_dispatch _ = false

abbrev pub is_external : NodeKind → Bool
is_external external_ = true
is_external _ = false

abbrev pub is_callable : NodeKind → Bool
is_callable function_ = true
is_callable dispatch = true
is_callable external_ = true
is_callable _ = false

abbrev pub is_branching : NodeKind → Bool
is_branching decision = true
is_branching dispatch = true
is_branching _ = false

abbrev pub is_exit_edge : EdgeKind → Bool
is_exit_edge exits = true
is_exit_edge _ = false

abbrev pub is_calls_edge : EdgeKind → Bool
is_calls_edge calls = true
is_calls_edge _ = false
