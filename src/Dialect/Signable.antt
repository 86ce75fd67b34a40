-- ===== src/Dialect/Signable.antt =====
-- The expression over which a dialect is signed (`to_signable_sexpr` of
-- crates/cbcl-core/src/canonical.rs).
mod Options
mod Forms
pub mod State
mod Counters
mod Clauses
mod Segments
pub mod Parts
pub mod Binding
use cbcl_rs.Prelude.{List, Map, Option, String, [], map, none, some, ℕ, ◌∷◌}
use cbcl_rs.Dialect.Signable.State.{StateClause, StateBounds, state_to_sexpr, state_bounds_to_sexpr}
use cbcl_rs.Dialect.Signable.Forms.{form, from_option, number, option_map, segment, text}
use cbcl_rs.Sexpr.{SExpr, atom, symbol}
use cbcl_rs.Canonical.{canonical_encode}
use cbcl_rs.Protocol.{CausalProtocol, NodeRef, StepDecl, single, any_of, all_of}
use cbcl_rs.Resources.{ResourceBounds}
use cbcl_rs.Shape.{
  Rules, ShapeConstraint, ShapeRule, TypeConstraint, max_depth, more_rules, no_rules, optional,
  require, type_name,
}
use cbcl_rs.Dialect.{Dialect, PerformativeDef, RoleAnnotation}

pub data RoleCardinality : Type 0 where
  singleton indexed : RoleCardinality

pub record RoleDecl : Type 0 where
  pub role_name : String
  pub cardinality : RoleCardinality

pub data CausalLocality : Type 0 where
  reject : CausalLocality
  derive : Map (List String) → CausalLocality

-- What the role and the state layers add to a dialect.
pub record RoleLayer : Type 0 where
  pub roles : List RoleDecl
  pub causal_locality : CausalLocality
  pub state : Option StateClause
  pub state_bounds : Option StateBounds

unfoldable pub node_ref_to_sexpr : NodeRef → SExpr
node_ref_to_sexpr (single s) = form "single" (text s ∷ [])
node_ref_to_sexpr (any_of names) = form "any" (map text names)
node_ref_to_sexpr (all_of names) = form "all" (map text names)

unfoldable pub step_to_sexpr : StepDecl → SExpr
unfolding node_ref_to_sexpr
step_to_sexpr s = form "step" (
    text s.performative
    ∷ form "predecessors" (map node_ref_to_sexpr s.predecessors)
    ∷ form "successors" (map node_ref_to_sexpr s.successors)
    ∷ [])

abbrev pub values : {V : Type 0} → Map V → List V
values m = map (λ e. e.1) m

unfoldable pub protocol_to_sexpr : CausalProtocol → SExpr
protocol_to_sexpr p = form "causal-protocol" (map step_to_sexpr (values p.steps))

unfoldable pub type_constraint_to_sexpr : Option TypeConstraint → SExpr
unfolding type_name
type_constraint_to_sexpr none = form "type" []
type_constraint_to_sexpr (some tc) = form "type" (atom (symbol (type_name tc)) ∷ [])

unfoldable pub default_to_sexpr : Option SExpr → SExpr
default_to_sexpr d = form "default" (from_option d)

unfoldable mutual
  pub shape_rule_to_sexpr : ShapeRule → SExpr
  shape_rule_to_sexpr (require key tc children) =
      form "require" (text key ∷ type_constraint_to_sexpr tc ∷ rules_to_sexprs children)
  shape_rule_to_sexpr (optional key tc default children) =
      form "optional" (
        text key
        ∷ type_constraint_to_sexpr tc
        ∷ default_to_sexpr default
        ∷ rules_to_sexprs children)
  shape_rule_to_sexpr (max_depth n) = form "max-depth" (number n ∷ [])

  pub rules_to_sexprs : Rules → List SExpr
  rules_to_sexprs no_rules = []
  rules_to_sexprs (more_rules rule rules) = shape_rule_to_sexpr rule ∷ rules_to_sexprs rules

unfoldable pub shape_to_sexpr : ShapeConstraint → SExpr
shape_to_sexpr s = form "shape" (text s.performative ∷ rules_to_sexprs s.rules)

unfoldable pub shapes_to_sexpr : List ShapeConstraint → SExpr
shapes_to_sexpr shapes = form "shapes" (map shape_to_sexpr shapes)

unfoldable pub cardinality_name : RoleCardinality → String
cardinality_name singleton = "singleton"
cardinality_name indexed = "indexed"

unfoldable pub role_decl_to_sexpr : RoleDecl → SExpr
role_decl_to_sexpr r =
    form "role-decl" (text r.role_name ∷ atom (symbol (cardinality_name r.cardinality)) ∷ [])

unfoldable pub roles_to_sexpr : List RoleDecl → SExpr
roles_to_sexpr roles = form "roles" (map role_decl_to_sexpr roles)

unfoldable pub role_annotation_to_sexpr : RoleAnnotation → SExpr
role_annotation_to_sexpr ann =
    form "role" (form "from" (text ann.sender ∷ []) ∷ form "to" (map text ann.receivers) ∷ [])

unfoldable pub perf_to_sexpr : PerformativeDef → SExpr
unfolding role_annotation_to_sexpr
perf_to_sexpr p = form "perf" (
    text p.performative
    ∷ form "params" p.params
    ∷ p.template
    ∷ from_option (option_map role_annotation_to_sexpr p.role))

unfoldable pub resources_to_sexpr : ResourceBounds → SExpr
resources_to_sexpr r =
    form "resources"
      (number r.max_depth ∷ number r.max_expansion_size ∷ number r.verification_time_ms ∷ [])

abbrev pub unless_empty : {A : Type 0} → (List A → SExpr) → List A → Option SExpr
unless_empty write [] = none
unless_empty write (x ∷ xs) = some (write (x ∷ xs))

-- Only the mode is signed; the routes are derived.
abbrev pub locality_segment : CausalLocality → Option SExpr
locality_segment reject = none
locality_segment (derive routes) = some (form "causal-locality" (atom (symbol "derive") ∷ []))

abbrev pub state_segments : RoleLayer → List SExpr
state_segments l =
    segment (option_map state_to_sexpr l.state)
      (segment (option_map state_bounds_to_sexpr l.state_bounds) [])

unfoldable pub to_signable_sexpr : Dialect RoleLayer → SExpr
unfolding perf_to_sexpr resources_to_sexpr state_to_sexpr state_bounds_to_sexpr
to_signable_sexpr d = form "dialect" (
    text d.name
    ∷ form "extends" (map text d.extends)
    ∷ form "author" (from_option (option_map text d.author))
    ∷ form "performatives" (map perf_to_sexpr d.performatives)
    ∷ resources_to_sexpr d.resources
    ∷ form "examples" d.examples
    ∷ segment (option_map protocol_to_sexpr d.causal_protocol) (
        segment (unless_empty shapes_to_sexpr d.shapes) (
          segment (unless_empty roles_to_sexpr d.layers.roles)
            (segment (locality_segment d.layers.causal_locality) (state_segments d.layers)))))

unfoldable pub dialect_canonical_bytes : Dialect RoleLayer → List ℕ
dialect_canonical_bytes d = canonical_encode (to_signable_sexpr d)
