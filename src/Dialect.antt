-- ===== src/Dialect.antt =====
-- Dialects (crates/cbcl-core/src/dialect.rs). What the role and the state layers add to a dialect
-- is one field of a type `X` that the definitions do not look into.
pub mod Checks
pub mod Recursion
pub mod Registry
pub mod Signable
pub mod Tests
use cbcl_rs.Prelude.{
  Bool, List, Option, String, [], any, contains, if◌then◌else◌, map, none, some, ℕ, ◌==◌, ◌∷◌,
}
use cbcl_rs.Shape.{ShapeConstraint}
use cbcl_rs.Sexpr.{SExpr}
use cbcl_rs.Protocol.{CausalProtocol}
use cbcl_rs.Resources.{ResourceBounds}

pub record RoleAnnotation : Type 0 where
  pub sender : String
  pub receivers : List String

pub record PerformativeDef : Type 0 where
  pub performative : String
  pub params : List SExpr
  pub template : SExpr
  pub role : Option RoleAnnotation

pub record Dialect (X : Type 0) : Type 0 where
  pub name : String
  pub extends : List String
  pub author : Option String
  pub performatives : List PerformativeDef
  pub resources : ResourceBounds
  pub examples : List SExpr
  pub signature : Option (List ℕ)
  pub hash : Option String
  pub protocol : Option String
  pub causal_protocol : Option CausalProtocol
  pub shapes : List ShapeConstraint
  pub layers : X

abbrev pub performative_names : List PerformativeDef → List String
performative_names = map (λ p. p.performative)

unfoldable pub find_performative : String → List PerformativeDef → Option PerformativeDef
find_performative perf [] = none
find_performative perf (p ∷ ps) =
    let rest = find_performative perf ps in if p.performative == perf then some p else rest

unfoldable pub defines_performative : String → List PerformativeDef → Bool
defines_performative perf ps = any (λ p. p.performative == perf) ps

abbrev pub base_name : String
base_name = "cbcl-base"

-- The names of crates/cbcl-core/src/message.rs that no dialect but the base may define.
abbrev pub core_performative_names : List String
core_performative_names =
    "tell" ∷ "ask" ∷ "reply" ∷ "error" ∷ "ok" ∷ "cancel" ∷ "hello" ∷ "bye" ∷ []

unfoldable pub is_core_performative_name : String → Bool
is_core_performative_name s = contains core_performative_names s
