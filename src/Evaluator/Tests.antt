-- ===== src/Evaluator/Tests.antt =====
-- Runs of the evaluation of messages.
use cbcl_rs.Prelude.{[], arith, get, insert, none, refl, some, true, ◌++◌, ◌<◌, ◌∷◌, ◌≡◌}
use cbcl_rs.Resources.{is_valid, initial}
use cbcl_rs.Dialect.Recursion.{
  verify_r1_dialect, r1_violations, cyclic_performatives, cyclic_from, dependency_graph,
  add_dependencies, reaches_cycle, scan, references, collect_symbol_references,
}
use cbcl_rs.Sexpr.{SExpr, atom, cons, keyword, list, nil, num, pos, str, symbol, depth}
use cbcl_rs.Message.{
  Message, core, custom, dialect, innermost_simple, one, simple, tell, wrapped, recipient_set,
  signed,
}
use cbcl_rs.Shape.{
  missing, check_rules, on_required, find_in, is_key, first_of, check_type, ShapeConstraint,
  TypeConstraint, more_rules, no_rules, require, find_keyword_value, matches,
}
use cbcl_rs.Shape.Conforms.{AllConform}
use cbcl_rs.Template.{dispatch_form}
use cbcl_rs.Dialect.{is_core_performative_name, Dialect}
use cbcl_rs.Dialect.Registry.{
  r7_check, r1_check, r2_check, check_protocol_expansion_budget, r3_check, r5_check,
  resolve_ancestors, apply_r6, static_checks, ensure_hash, effect_template, Registry, base_dialect,
  install, installed, new_registry, find_by_name,
}
use cbcl_rs.Dialect.Checks.{verify_r3, r5_violations_with_ancestors, all_shape_violations}
use cbcl_rs.Dialect.Registry.Core.{fresh, plainly}
use cbcl_rs.Dialect.Tests.{installed_news, layers, news, perf, with_news}
use cbcl_rs.Dialect.Tests
use cbcl_rs.Evaluator
use cbcl_rs.Evaluator.Core.{evaluate-core}
use cbcl_rs.Evaluator.Agreement.{evaluate_without_shape_check-Agree}
use cbcl_rs.Evaluator.Shapes.{evaluate-conforms}

abbrev hi : SExpr
hi = atom (str "hi")

tell_unshaped :
    Evaluator.check_shapes "tell" (effect_template "send-message") (new_registry (layers [])) ≡ none
unfolding Evaluator.check_shapes new_registry base_dialect Evaluator.check_dialect
tell_unshaped = refl

evaluate-core_example :
    Evaluator.evaluate_with_scope
      (new_registry (layers []))
      none
      true
      (simple (core tell) (some (one "@bob")) hi [] (some "t") none none)
    ≡ Evaluator.evaluated (record {
      expanded = list (cons (atom (symbol "effect")) (cons (atom (symbol "send-message")) nil));
      effects = Evaluator.send_message (some "@bob") hi ∷ Evaluator.store_belief hi ∷ [];
      thread_id = some "t";
    })
unfolding recipient_set
evaluate-core_example =
    evaluate-core (layers []) fresh tell none (some (one "@bob")) hi [] (some "t") none none
      tell_unshaped true

-- Two registries that both have the dialect news, and a message in its scope.
abbrev sports : Dialect (Unit {0})
sports = Tests.dialect "sports" (perf "publish" "announce" ∷ [])

abbrev with_sports : Registry (Unit {0})
with_sports = with_news ++ record sports { hash = some "sha256:00" } ∷ []

installed_sports : install (layers []) 9 with_news sports ≡ installed with_sports
unfolding install r7_check r1_check verify_r1_dialect r1_violations cyclic_performatives cyclic_from
    dependency_graph add_dependencies insert reaches_cycle get scan references
    collect_symbol_references r2_check is_valid check_protocol_expansion_budget r3_check verify_r3
    is_core_performative_name r5_check r5_violations_with_ancestors resolve_ancestors find_by_name
    all_shape_violations apply_r6 static_checks ensure_hash
installed_sports = refl

abbrev published : Message
published = wrapped signed [] (dialect "news" (simple (custom "publish") none hi [] none none none))

news_found : find_by_name "news" with_news ≡ find_by_name "news" with_sports
unfolding find_by_name base_dialect
news_found = refl

evaluate_without_shape_check-Agree_example :
    Evaluator.evaluate_without_shape_check with_news published
    ≡ Evaluator.evaluate_without_shape_check with_sports published
evaluate_without_shape_check-Agree_example =
    evaluate_without_shape_check-Agree (layers []) (plainly 9 news fresh refl installed_news)
      (plainly 9 sports (plainly 9 news fresh refl installed_news) refl installed_sports) published
      (news_found, tt)

-- A dialect with a shape: an offer has a price, which is a number.
abbrev priced : ShapeConstraint
priced = record {
  performative = "offer";
  rules = more_rules (require "price" (some TypeConstraint.number) no_rules) no_rules;
}

abbrev offer : SExpr
offer = list (
    cons (atom (symbol "offer"))
      (cons (atom (keyword "price")) (cons (atom (symbol "amount")) nil)))

abbrev three : SExpr
three =
    list
      (cons (atom (symbol "offer")) (cons (atom (keyword "price")) (cons (atom (num (pos 3))) nil)))

abbrev shop : Dialect (Unit {0})
shop =
    record (Tests.dialect "shop" (
      record {
        performative = "offer";
        params = atom (symbol "amount") ∷ [];
        template = offer;
        role = none;
      }
      ∷ [])) { shapes = priced ∷ [] }

abbrev with_shop : Registry (Unit {0})
with_shop = shop ∷ []

abbrev offered : SExpr → Message
offered price = dialect "shop" (simple (custom "offer") none price [] none none none)

abbrev offer_result : Evaluator.EvalResult
offer_result = record {
  expanded = three;
  effects = Evaluator.custom_effect three ∷ [];
  thread_id = none;
}

offer_evaluated :
    Evaluator.evaluate with_shop (offered (atom (num (pos 3)))) ≡ Evaluator.evaluated offer_result
unfolding Evaluator.evaluate Evaluator.evaluate_with_scope Evaluator.evaluate_simple
    Evaluator.expand_in Evaluator.shape_checked Evaluator.check_dialect initial dispatch_form get
    insert check_rules on_required find_keyword_value find_in is_key first_of check_type matches
    Evaluator.check_shapes Evaluator.interpret_effects
offer_evaluated = refl

-- A shape that another dialect has for a performative of the same name refuses the message.
abbrev barter : Dialect (Unit {0})
barter = record (Tests.dialect "barter" (perf "offer" "swap" ∷ [])) {
  shapes =
      record { performative = "offer"; rules = more_rules (require "swap" none no_rules) no_rules }
      ∷ [];
}

foreign_shape :
    Evaluator.evaluate (shop ∷ barter ∷ []) (offered (atom (num (pos 3))))
    ≡ Evaluator.failed (Evaluator.violated (missing "swap"))
unfolding Evaluator.evaluate Evaluator.evaluate_with_scope Evaluator.evaluate_simple
    Evaluator.expand_in Evaluator.shape_checked Evaluator.check_dialect initial dispatch_form get
    insert check_rules on_required find_keyword_value find_in is_key first_of check_type matches
    Evaluator.check_shapes Evaluator.interpret_effects
foreign_shape = refl

offer_flat : depth three < 4294967296
unfolding depth
offer_flat = omega arith

offered_inner :
    innermost_simple (offered (atom (num (pos 3))))
    ≡ some (simple (custom "offer") none (atom (num (pos 3))) [] none none none)
unfolding innermost_simple
offered_inner = refl

evaluate-conforms_example : AllConform priced.rules three
evaluate-conforms_example =
    evaluate-conforms with_shop (offered (atom (num (pos 3)))) offer_result offer_evaluated
      offer_flat (custom "offer") none (atom (num (pos 3))) [] none none none offered_inner 0 0 shop
      priced refl refl refl
