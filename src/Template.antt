-- ===== src/Template.antt =====
-- The expansion of templates (crates/cbcl-core/src/template.rs). The forms do not change the
-- resource state; `eval_template` does, and returns it also where it fails.
pub mod Conditions
pub mod Mentions
pub mod Bounds
mod Tests
use cbcl_rs.Prelude.{
  Bool, List, Option, [], false, if◌then◌else◌, none, some, true, ℕ, ◌%◌, ◌++◌, ◌+◌, ◌||◌, ◌∷◌,
}
use cbcl_rs.Template.Conditions.{
  Bindings, build_bindings, eval_condition, resolve_value, substitute_expr,
}
use cbcl_rs.Sexpr.{Items, SExpr, atom, cons, is_symbol, list, nil}
use cbcl_rs.Resources.{ResourceState, add_expansion, byte_size, enter_depth, u32_range}
use cbcl_rs.Dialect.{PerformativeDef}

pub data ExpandedTemplate : Type 0 where
  single : SExpr → ExpandedTemplate
  sequence : List SExpr → ExpandedTemplate

abbrev is_form : SExpr → Bool
is_form (list (cons head rest)) = is_symbol "literal" head || is_symbol "cond" head
is_form _ = false

unfoldable pub all_forms : Items → Bool
all_forms nil = true
all_forms (cons item items) = let rest = all_forms items in if is_form item then rest else false

unfoldable pub is_sequence_template : Items → Bool
unfolding all_forms
is_sequence_template nil = false
is_sequence_template (cons item items) = all_forms (cons item items)

unfoldable pub eval_literal : Items → Bindings → Option ExpandedTemplate
unfolding substitute_expr
eval_literal (cons head (cons body nil)) bindings = some (single (substitute_expr body bindings))
eval_literal _ bindings = none

abbrev pub outputs : ExpandedTemplate → List SExpr
outputs (single e) = e ∷ []
outputs (sequence es) = es

abbrev pub in_sequence : Option (List SExpr) → Option ExpandedTemplate
in_sequence none = none
in_sequence (some es) = some (sequence es)

abbrev pub then_outputs : Option ExpandedTemplate → Option (List SExpr) → Option (List SExpr)
then_outputs none rest = none
then_outputs (some e) none = none
then_outputs (some e) (some es) = some (outputs e ++ es)

-- The form of a list, with the results of its clauses and of its items as arguments.
unfoldable pub dispatch_form :
    Items → Bindings → Option ExpandedTemplate → Option ExpandedTemplate → Option ExpandedTemplate
unfolding eval_literal is_sequence_template substitute_expr
dispatch_form nil bindings clauses all_items = some (single (list nil))
dispatch_form (cons head rest) bindings clauses all_items =
    if is_symbol "literal" head
    then eval_literal (cons head rest) bindings
    else if is_symbol "cond" head
    then clauses
    else if is_sequence_template (cons head rest)
    then all_items
    else some (single (substitute_expr (list (cons head rest)) bindings))

unfoldable mutual
  pub eval_form : SExpr → Bindings → Option ExpandedTemplate
  eval_form (atom a) bindings = some (single (resolve_value (atom a) bindings))
  eval_form (list items) bindings =
      dispatch_form items bindings (eval_clauses items bindings)
        (in_sequence (eval_sequence items bindings))

  -- The clauses behind the head.
  pub eval_clauses : Items → Bindings → Option ExpandedTemplate
  eval_clauses nil bindings = none
  eval_clauses (cons head clauses) bindings = eval_cond clauses bindings

  pub eval_cond : Items → Bindings → Option ExpandedTemplate
  eval_cond (cons (list (cons test (cons body nil))) clauses) bindings =
      let chosen = eval_form body bindings in
      let rest = eval_cond clauses bindings in
      if is_symbol "else" test
      then chosen
      else if eval_condition test bindings
      then chosen
      else rest
  eval_cond _ bindings = none

  pub eval_sequence : Items → Bindings → Option (List SExpr)
  eval_sequence nil bindings = some []
  eval_sequence (cons item items) bindings =
      then_outputs (eval_form item bindings) (eval_sequence items bindings)

-- The sum of sizes, in a u32 that wraps.
unfoldable pub sum_sizes : List SExpr → ℕ
unfolding byte_size
sum_sizes [] = 0
sum_sizes (e ∷ es) = (byte_size e % u32_range + sum_sizes es) % u32_range

unfoldable pub size_of : ExpandedTemplate → ℕ
unfolding byte_size sum_sizes
size_of (single e) = byte_size e % u32_range
size_of (sequence es) = sum_sizes es

abbrev pub Evaluated : Type 0
Evaluated = Option ExpandedTemplate × ResourceState

abbrev pub charged : ExpandedTemplate → ResourceState → Option ResourceState → Evaluated
charged e rs none = (none, rs)
charged e rs (some after) = (some e, after)

abbrev pub charge : Option ExpandedTemplate → ResourceState → Evaluated
charge none rs = (none, rs)
charge (some e) rs = charged e rs (add_expansion (size_of e) rs)

unfoldable pub eval_template : SExpr → Bindings → ResourceState → Evaluated
unfolding enter_depth add_expansion size_of eval_form
eval_template template bindings rs = elim (enter_depth rs) [
  | none ↦ (none, rs)
  | some inner ↦ charge (eval_form template bindings) inner
]

abbrev pub items_of : List SExpr → Items
items_of [] = nil
items_of (e ∷ es) = cons e (items_of es)

abbrev pub to_expr : ExpandedTemplate → SExpr
to_expr (single e) = e
to_expr (sequence es) = list (items_of es)

abbrev pub expr_of : Option ExpandedTemplate → Option SExpr
expr_of none = none
expr_of (some e) = some (to_expr e)

unfoldable pub expand_template :
    PerformativeDef → List SExpr → ResourceState → Option SExpr × ResourceState
unfolding eval_template build_bindings
expand_template def args rs =
    let (result, after) = eval_template def.template (build_bindings def.params args) rs in
    (expr_of result, after)
