-- ===== src/Dialect/Checks.antt =====
-- The checks of an installation on core performatives (R3) and on protocol and shapes (R5)
-- (crates/cbcl-core/src/r3.rs and r5.rs). The graph searches of R5 take fuel.
use cbcl_rs.Prelude.{
  Bool, List, Option, String, [], any, if◌then◌else◌, ltb, map, none, not, retain, some, true, ℕ,
  ◌++◌, ◌==◌, ◌∷◌,
}
use cbcl_rs.Protocol.Checks.{ProtocolViolation, verify_r5_protocol}
use cbcl_rs.Shape.{ShapeConstraint, max_depths, no_duplicate_keywords, empty_keywords}
use cbcl_rs.Dialect.{
  Dialect, PerformativeDef, base_name, defines_performative, is_core_performative_name,
  performative_names,
}

pub data R5Violation : Type 0 where
  protocol_violation : ProtocolViolation → R5Violation
  unknown_performative : String → R5Violation
  empty_keyword : R5Violation
  depth_exceeded : String → ℕ → R5Violation
  duplicate_keyword : String → String × ℕ → R5Violation

unfoldable pub verify_r3 : {X : Type 0} → Dialect X → Bool
unfolding is_core_performative_name
verify_r3 d =
    if d.name == base_name
    then true
    else not (any (λ p. is_core_performative_name p.performative) d.performatives)

unfoldable pub r3_violations : {X : Type 0} → Dialect X → List String
unfolding is_core_performative_name
r3_violations d =
    if d.name == base_name
    then []
    else performative_names (retain (λ p. is_core_performative_name p.performative) d.performatives)

unfoldable pub depths_over : ℕ → String → List ℕ → List R5Violation
depths_over bound perf [] = []
depths_over bound perf (d ∷ ds) =
    let rest = depths_over bound perf ds in
    if ltb bound d then depth_exceeded perf d ∷ rest else rest

unfoldable pub repeat_empty : ℕ → List R5Violation → List R5Violation
repeat_empty ℕ.zero rest = rest
repeat_empty (ℕ.suc n) rest = empty_keyword ∷ repeat_empty n rest

abbrev duplicate_of : String → Option (String × ℕ) → List R5Violation
duplicate_of perf none = []
duplicate_of perf (some d) = duplicate_keyword perf d ∷ []

unfoldable pub shape_violations : ℕ → List PerformativeDef → ShapeConstraint → List R5Violation
unfolding depths_over repeat_empty defines_performative
shape_violations bound ps shape =
    (if defines_performative shape.performative ps
      then []
      else unknown_performative shape.performative ∷ [])
    ++ (repeat_empty (empty_keywords shape.rules) []
        ++ (depths_over bound shape.performative (max_depths shape)
            ++ duplicate_of shape.performative (no_duplicate_keywords shape)))

unfoldable pub all_shape_violations :
    ℕ → List PerformativeDef → List ShapeConstraint → List R5Violation
all_shape_violations bound ps [] = []
all_shape_violations bound ps (shape ∷ shapes) =
    shape_violations bound ps shape ++ all_shape_violations bound ps shapes

abbrev names_of : {X : Type 0} → List (Dialect X) → List String
names_of [] = []
names_of (a ∷ ancestors) = performative_names a.performatives ++ names_of ancestors

abbrev protocol_violations :
    {X : Type 0} → ℕ → Dialect X → List (Dialect X) → Option (List ProtocolViolation)
protocol_violations fuel d ancestors = elim d.causal_protocol [
  | none ↦ some []
  | some protocol ↦ verify_r5_protocol fuel (names_of (d ∷ ancestors)) protocol
]

unfoldable pub r5_violations_with_ancestors :
    {X : Type 0} → ℕ → Dialect X → List (Dialect X) → Option (List R5Violation)
r5_violations_with_ancestors fuel d ancestors = elim (protocol_violations fuel d ancestors) [
  | none ↦ none
  | some found ↦ some (
      map protocol_violation found
      ++ all_shape_violations d.resources.max_depth d.performatives d.shapes)
]
