-- ===== src/Dialect/Signable/Parts.antt =====
-- The parts of a signed expression determine what they are written for.
use cbcl_rs.Prelude.{List, Option, String, [], ap, map, ne_of_test, none, refl, some, ◌∷◌, ◌≡◌}
use cbcl_rs.Sexpr.{SExpr}
use cbcl_rs.Protocol.{NodeRef, StepDecl, single, any_of, all_of}
use cbcl_rs.Shape.{
  from_str, Rules, ShapeConstraint, ShapeRule, TypeConstraint, max_depth, more_rules, no_rules,
  optional, require, type_name,
}
use cbcl_rs.Dialect.{PerformativeDef, RoleAnnotation}
use cbcl_rs.Dialect.Signable.{
  RoleCardinality, cardinality_name, node_ref_to_sexpr, step_to_sexpr, type_constraint_to_sexpr,
  default_to_sexpr, shape_rule_to_sexpr, rules_to_sexprs, shape_to_sexpr, RoleDecl, singleton,
  indexed, role_decl_to_sexpr, role_annotation_to_sexpr, perf_to_sexpr,
}
use cbcl_rs.Dialect.Signable.Forms.{option_map, of_list, form, text, from_option}

pub of_list_injective : (xs ys : List SExpr) → of_list xs ≡ of_list ys → xs ≡ ys
of_list_injective [] [] h = refl
of_list_injective [] (y ∷ ys) h = cc h
of_list_injective (x ∷ xs) [] h = cc h
of_list_injective (x ∷ xs) (y ∷ ys) h = cc (h, of_list_injective xs ys (cc h))

pub map_injective :
    {A B : Type 0} (f : A → B)
    → ((x y : A) → f x ≡ f y → x ≡ y)
    → (xs ys : List A) → map f xs ≡ map f ys
    → xs ≡ ys
map_injective f one [] [] h = refl
map_injective f one [] (y ∷ ys) h = cc h
map_injective f one (x ∷ xs) [] h = cc h
map_injective f one (x ∷ xs) (y ∷ ys) h = cc (one x y (cc h), map_injective f one xs ys (cc h))

pub form_injective :
    (t u : String) (xs ys : List SExpr) → form t xs ≡ form u ys → (t ≡ u) × (xs ≡ ys)
form_injective t u xs ys h = (cc h, of_list_injective xs ys (cc h))

pub texts_injective : (xs ys : List String) → map text xs ≡ map text ys → xs ≡ ys
texts_injective = map_injective text (λ x y h. cc h)

pub from_option_injective : (x y : Option SExpr) → from_option x ≡ from_option y → x ≡ y
from_option_injective none none h = refl
from_option_injective none (some y) h = cc h
from_option_injective (some x) none h = cc h
from_option_injective (some x) (some y) h = cc h

pub option_map_injective :
    {A B : Type 0} (f : A → B)
    → ((x y : A) → f x ≡ f y → x ≡ y)
    → (x y : Option A) → option_map f x ≡ option_map f y
    → x ≡ y
option_map_injective f one none none h = refl
option_map_injective f one none (some y) h = cc h
option_map_injective f one (some x) none h = cc h
option_map_injective f one (some x) (some y) h = ap some (one x y (cc h))

node_ref_injective : (x y : NodeRef) → node_ref_to_sexpr x ≡ node_ref_to_sexpr y → x ≡ y
unfolding node_ref_to_sexpr
node_ref_injective (single s) (single t) h = cc h
node_ref_injective (any_of xs) (any_of ys) h =
    ap any_of (texts_injective xs ys (form_injective "any" "any" _ _ h).1)
node_ref_injective (all_of xs) (all_of ys) h =
    ap all_of (texts_injective xs ys (form_injective "all" "all" _ _ h).1)
node_ref_injective (single s) (any_of ys) h = absurd (ne_of_test "single" "any" refl (cc h))
node_ref_injective (single s) (all_of ys) h = absurd (ne_of_test "single" "all" refl (cc h))
node_ref_injective (any_of xs) (single t) h = absurd (ne_of_test "any" "single" refl (cc h))
node_ref_injective (any_of xs) (all_of ys) h = absurd (ne_of_test "any" "all" refl (cc h))
node_ref_injective (all_of xs) (single t) h = absurd (ne_of_test "all" "single" refl (cc h))
node_ref_injective (all_of xs) (any_of ys) h = absurd (ne_of_test "all" "any" refl (cc h))

pub step_injective : (x y : StepDecl) → step_to_sexpr x ≡ step_to_sexpr y → x ≡ y
unfolding step_to_sexpr
step_injective x y h =
    let before = λ (s : StepDecl). map node_ref_to_sexpr s.predecessors in
    let after = λ (s : StepDecl). map node_ref_to_sexpr s.successors in
    let name : x.performative ≡ y.performative = cc h in
    let preds =
      map_injective node_ref_to_sexpr node_ref_injective x.predecessors y.predecessors
        (of_list_injective (before x) (before y) (cc h)) in
    let succs =
      map_injective node_ref_to_sexpr node_ref_injective x.successors y.successors
        (of_list_injective (after x) (after y) (cc h)) in
    cc (name, preds, succs)

pub from_str-type_name : (x : TypeConstraint) → from_str (type_name x) ≡ some x
unfolding from_str type_name
from_str-type_name TypeConstraint.string = refl
from_str-type_name TypeConstraint.hlc = refl
from_str-type_name TypeConstraint.number = refl
from_str-type_name TypeConstraint.bool = refl
from_str-type_name TypeConstraint.symbol = refl
from_str-type_name TypeConstraint.keyword = refl
from_str-type_name TypeConstraint.list = refl

type_name_injective : (x y : TypeConstraint) → type_name x ≡ type_name y → x ≡ y
unfolding type_name
type_name_injective x y h = cc (from_str-type_name x, from_str-type_name y, ap from_str h)

type_constraint_injective :
    (x y : Option TypeConstraint) → type_constraint_to_sexpr x ≡ type_constraint_to_sexpr y → x ≡ y
unfolding type_constraint_to_sexpr
type_constraint_injective none none h = refl
type_constraint_injective none (some y) h = cc h
type_constraint_injective (some x) none h = cc h
type_constraint_injective (some x) (some y) h = ap some (type_name_injective x y (cc h))

default_injective : (x y : Option SExpr) → default_to_sexpr x ≡ default_to_sexpr y → x ≡ y
unfolding default_to_sexpr
default_injective x y h =
    from_option_injective x y (of_list_injective (from_option x) (from_option y) (cc h))

mutual
  unfolding shape_rule_to_sexpr

  shape_rule_injective : (x y : ShapeRule) → shape_rule_to_sexpr x ≡ shape_rule_to_sexpr y → x ≡ y
  shape_rule_injective (require k tc cs) (require j ud ds) h = cc (
    h,
    type_constraint_injective tc ud (cc h),
    rules_injective cs ds (of_list_injective (rules_to_sexprs cs) (rules_to_sexprs ds) (cc h)),
  )
  shape_rule_injective (optional k tc e cs) (optional j ud f ds) h = cc (
    h,
    type_constraint_injective tc ud (cc h),
    default_injective e f (cc h),
    rules_injective cs ds (of_list_injective (rules_to_sexprs cs) (rules_to_sexprs ds) (cc h)),
  )
  shape_rule_injective (max_depth n) (max_depth m) h = cc h
  shape_rule_injective (require k tc cs) (optional j ud f ds) h =
      absurd (ne_of_test "require" "optional" refl (cc h))
  shape_rule_injective (require k tc cs) (max_depth m) h =
      absurd (ne_of_test "require" "max-depth" refl (cc h))
  shape_rule_injective (optional k tc e cs) (require j ud ds) h =
      absurd (ne_of_test "optional" "require" refl (cc h))
  shape_rule_injective (optional k tc e cs) (max_depth m) h =
      absurd (ne_of_test "optional" "max-depth" refl (cc h))
  shape_rule_injective (max_depth n) (require j ud ds) h =
      absurd (ne_of_test "max-depth" "require" refl (cc h))
  shape_rule_injective (max_depth n) (optional j ud f ds) h =
      absurd (ne_of_test "max-depth" "optional" refl (cc h))

  rules_injective : (x y : Rules) → rules_to_sexprs x ≡ rules_to_sexprs y → x ≡ y
  rules_injective no_rules no_rules h = refl
  rules_injective no_rules (more_rules r rs) h = cc h
  rules_injective (more_rules r rs) no_rules h = cc h
  rules_injective (more_rules r rs) (more_rules q qs) h =
      cc (shape_rule_injective r q (cc h), rules_injective rs qs (cc h))

pub shape_injective : (x y : ShapeConstraint) → shape_to_sexpr x ≡ shape_to_sexpr y → x ≡ y
unfolding shape_to_sexpr
shape_injective x y h = cc (
  h,
  rules_injective x.rules y.rules
      (of_list_injective (rules_to_sexprs x.rules) (rules_to_sexprs y.rules) (cc h)),
)

cardinality_injective : (x y : RoleCardinality) → cardinality_name x ≡ cardinality_name y → x ≡ y
unfolding cardinality_name
cardinality_injective singleton singleton h = refl
cardinality_injective singleton indexed h = absurd (ne_of_test "singleton" "indexed" refl h)
cardinality_injective indexed singleton h = absurd (ne_of_test "indexed" "singleton" refl h)
cardinality_injective indexed indexed h = refl

pub role_decl_injective : (x y : RoleDecl) → role_decl_to_sexpr x ≡ role_decl_to_sexpr y → x ≡ y
unfolding role_decl_to_sexpr
role_decl_injective x y h = cc (h, cardinality_injective x.cardinality y.cardinality (cc h))

pub role_annotation_injective :
    (x y : RoleAnnotation) → role_annotation_to_sexpr x ≡ role_annotation_to_sexpr y → x ≡ y
unfolding role_annotation_to_sexpr
role_annotation_injective x y h = cc (
  h,
  texts_injective x.receivers y.receivers
      (of_list_injective (map text x.receivers) (map text y.receivers) (cc h)),
)

pub perf_injective : (x y : PerformativeDef) → perf_to_sexpr x ≡ perf_to_sexpr y → x ≡ y
unfolding perf_to_sexpr
perf_injective x y h =
    let role = λ (p : PerformativeDef). from_option (option_map role_annotation_to_sexpr p.role) in
    let same_role =
      option_map_injective role_annotation_to_sexpr role_annotation_injective x.role y.role (
        from_option_injective (option_map role_annotation_to_sexpr x.role)
          (option_map role_annotation_to_sexpr y.role)
          (of_list_injective (role x) (role y) (cc h))) in
    cc (h, of_list_injective x.params y.params (cc h), same_role)
