-- ===== src/Evaluator.antt =====
-- The evaluation of messages (crates/cbcl-core/src/evaluator.rs). A message is evaluated without a
-- change of state; what the parser excludes is refused here again.
pub mod Core
pub mod Agreement
pub mod Shapes
mod Tests
use cbcl_rs.Prelude.{
  Bool, List, Option, String, [], false, if◌then◌else◌, map, none, some, true, ◌++◌, ◌==◌, ◌∷◌,
}
use cbcl_rs.Sexpr.{SExpr, atom, cons, is_symbol, list, nil, symbol}
use cbcl_rs.Message.{
  Message, Performative, as_str, core, custom, dialect, meta, name, recipient_set, simple, wrapped,
}
use cbcl_rs.Resources.{initial}
use cbcl_rs.Shape.{ShapeConstraint, ShapeViolation, check, or_else}
use cbcl_rs.Template.{expand_template}
use cbcl_rs.Dialect.{Dialect, defines_performative, find_performative}
use cbcl_rs.Dialect.Registry.{Registry, base_definer_of, find_by_name}

pub data Effect : Type 0 where
  send_message send_query send_reply : Option String → SExpr → Effect
  signal_error : SExpr → Effect
  acknowledge cancel_conversation announce_presence announce_departure : Effect
  store_belief remove_belief install_dialect custom_effect : SExpr → Effect

pub data EvalError : Type 0 where
  unknown_performative unscoped_dialect_performative : String → EvalError
  template_expansion_failed unknown_dialect malformed_message : String → EvalError
  violated : ShapeViolation → EvalError

pub record EvalResult : Type 0 where
  pub expanded : SExpr
  pub effects : List Effect
  pub thread_id : Option String

-- `Result<_, EvalError>`.
pub data Outcome (A : Type 0) : Type 0 where
  evaluated : A → Outcome A
  failed : EvalError → Outcome A

infixl 5 ◌>>=◌
abbrev pub ◌>>=◌ : {A B : Type 0} → Outcome A → (A → Outcome B) → Outcome B
evaluated a >>= f = f a
failed e >>= f = failed e

abbrev pub ok_or : {A : Type 0} → EvalError → Option A → Outcome A
ok_or e none = failed e
ok_or e (some a) = evaluated a

unfoldable pub extract_effect_action : SExpr → Option String
unfolding is_symbol
extract_effect_action (list (cons head (cons (atom (symbol action)) nil))) =
    if is_symbol "effect" head then some action else none
extract_effect_action _ = none

abbrev pub targets_of : List String → List (Option String)
targets_of [] = none ∷ []
targets_of (x ∷ xs) = map some (x ∷ xs)

unfoldable pub by_action : String → SExpr → List (Option String) → SExpr → List Effect
by_action action expanded targets content =
    if action == "send-message"
    then map (λ to. send_message to content) targets ++ store_belief content ∷ []
    else if action == "send-query"
    then map (λ to. send_query to content) targets
    else if action == "send-reply"
    then map (λ to. send_reply to content) targets
    else if action == "signal-error"
    then signal_error content ∷ []
    else if action == "acknowledge"
    then acknowledge ∷ []
    else if action == "cancel-conversation"
    then cancel_conversation ∷ []
    else if action == "announce-presence"
    then announce_presence ∷ []
    else if action == "announce-departure"
    then announce_departure ∷ []
    else custom_effect expanded ∷ []

unfoldable pub interpret_effects : SExpr → List String → SExpr → List Effect
unfolding by_action extract_effect_action
interpret_effects expanded recipients content = elim (extract_effect_action expanded) [
  | none ↦ custom_effect expanded ∷ []
  | some action ↦ by_action action expanded (targets_of recipients) content
]

-- `none` is Ok(()).
unfoldable pub check_dialect : String → SExpr → List ShapeConstraint → Option ShapeViolation
unfolding check
check_dialect perf expanded [] = none
check_dialect perf expanded (shape ∷ shapes) =
    or_else (if shape.performative == perf then check shape expanded else none)
      (check_dialect perf expanded shapes)

unfoldable pub check_shapes : {X : Type 0} → String → SExpr → Registry X → Option ShapeViolation
check_shapes perf expanded [] = none
check_shapes perf expanded (d ∷ ds) =
    or_else (check_dialect perf expanded d.shapes) (check_shapes perf expanded ds)

abbrev pub unless_violated : SExpr → Option ShapeViolation → Outcome SExpr
unless_violated expanded none = evaluated expanded
unless_violated expanded (some v) = failed (violated v)

unfoldable pub evaluate_meta : SExpr → EvalResult
evaluate_meta dialect_def = record {
  expanded = list (cons (atom (symbol "effect")) (cons (atom (symbol "install-dialect")) nil));
  effects = install_dialect dialect_def ∷ [];
  thread_id = none;
}

module _ {X : Type 0} (r : Registry X) where
  unfoldable pub resolve_performative_dialect :
      Performative → Option (Dialect X) → Outcome (Dialect X)
  unfolding base_definer_of defines_performative
  resolve_performative_dialect (core c) scope =
      ok_or (unknown_performative (as_str c)) (base_definer_of (as_str c) r)
  resolve_performative_dialect (custom n) none = failed (unscoped_dialect_performative n)
  resolve_performative_dialect (custom n) (some d) =
      if defines_performative n d.performatives
      then evaluated d
      else failed (unknown_performative n)

  unfoldable pub shape_checked : Bool → String → SExpr → Outcome SExpr
  unfolding check_shapes
  shape_checked false perf expanded = evaluated expanded
  shape_checked true perf expanded = unless_violated expanded (check_shapes perf expanded r)

  -- The expansion of a performative of a dialect.
  unfoldable pub expand_in : String → List SExpr → Dialect X → Outcome SExpr
  unfolding find_performative expand_template
  expand_in perf args d =
      ok_or (unknown_performative perf) (find_performative perf d.performatives) >>= λ def.
      ok_or (template_expansion_failed perf) (expand_template def args (initial d.resources)).0

  unfoldable pub evaluate_simple :
      Option (Dialect X)
      → Bool
      → Performative
      → List String
      → SExpr
      → List SExpr
      → Option String
      → Outcome EvalResult
  unfolding resolve_performative_dialect interpret_effects
  evaluate_simple scope check_shape p recipients content params thread =
      resolve_performative_dialect p scope
      >>= expand_in (name p) (content ∷ params)
      >>= shape_checked check_shape (name p)
      >>= λ expanded. evaluated (record {
        expanded = expanded;
        effects = interpret_effects expanded recipients content;
        thread_id = thread;
      })

  unfoldable pub evaluate_with_scope : Option (Dialect X) → Bool → Message → Outcome EvalResult
  unfolding find_by_name evaluate_meta recipient_set
  evaluate_with_scope scope check_shape (simple p to c ps t s cb) =
      evaluate_simple scope check_shape p (recipient_set (simple p to c ps t s cb)) c ps t
  evaluate_with_scope scope check_shape (meta dialect_def) = evaluated (evaluate_meta dialect_def)
  evaluate_with_scope scope check_shape (dialect n inner) = elim (find_by_name n r) [
    | none ↦ failed (unknown_dialect n)
    | some d ↦ evaluate_with_scope (some d) check_shape inner
  ]
  evaluate_with_scope scope check_shape (wrapped w ps inner) =
      evaluate_with_scope scope check_shape inner

  unfoldable pub evaluate : Message → Outcome EvalResult
  evaluate m = evaluate_with_scope none true m

  unfoldable pub evaluate_without_shape_check : Message → Outcome EvalResult
  evaluate_without_shape_check m = evaluate_with_scope none false m
