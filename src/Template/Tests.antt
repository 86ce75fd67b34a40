-- ===== src/Template/Tests.antt =====
-- Runs of the expansion of templates.
use cbcl_rs.Prelude.{
  List, String, [], any, arith, get, insert, none, refl, some, true, ◌+◌, ◌<◌, ◌∷◌, ◌≡◌, ◌⊎◌,
}
use cbcl_rs.Dialect.Recursion.{contains_self_reference}
use cbcl_rs.Sexpr.{is_symbol, SExpr, atom, cons, list, nil, str, symbol}
use cbcl_rs.Resources.{ResourceState, byte_size}
use cbcl_rs.Dialect.{PerformativeDef}
use cbcl_rs.Template.{dispatch_form, expand_template}
use cbcl_rs.Template.Conditions.{eval_condition}
use cbcl_rs.Template.Mentions.{mentions, expand_template-mentions}
use cbcl_rs.Template.Bounds.{expand_template_bounds}

abbrev sym : String → SExpr
sym s = atom (symbol s)

-- (cond ((= level urgent) (literal (tell ops body))) (else (literal (tell log body))))
abbrev notify : PerformativeDef
notify = record {
  performative = "notify";
  params = sym "level" ∷ sym "body" ∷ [];
  template = list (
      cons (sym "cond") (
        cons
          (list (
            cons (list (cons (sym "=") (cons (sym "level") (cons (sym "urgent") nil)))) (
              cons
                (list (
                  cons (sym "literal") (
                    cons (list (cons (sym "tell") (cons (sym "ops") (cons (sym "body") nil))))
                      nil)))
                nil)))
          (cons
            (list (
              cons (sym "else") (
                cons
                  (list (
                    cons (sym "literal") (
                      cons (list (cons (sym "tell") (cons (sym "log") (cons (sym "body") nil))))
                        nil)))
                  nil)))
            nil)));
  role = none;
}

abbrev start : ResourceState
start = record { current_depth = 0; expansion_size = 0; max_depth = 8; max_exp_size = 512 }

abbrev args : List SExpr
args = sym "urgent" ∷ atom (str "fire") ∷ []

abbrev told : SExpr
told = list (cons (sym "tell") (cons (sym "ops") (cons (atom (str "fire")) nil)))

expanded : (expand_template notify args start).0 ≡ some told
unfolding expand_template dispatch_form is_symbol eval_condition get insert
expanded = refl

told-mentions_ops : mentions "ops" told ≡ true
unfolding contains_self_reference
told-mentions_ops = refl

expand_template-mentions_example :
    (mentions "ops" notify.template ≡ true) ⊎ (any (mentions "ops") args ≡ true)
expand_template-mentions_example =
    expand_template-mentions "ops" notify args start told expanded told-mentions_ops

told_fits : 0 + byte_size told < 4294967296
unfolding byte_size
told_fits = omega arith

expand_template_bounds_example :
    let after = (expand_template notify args start).1 in
    (after.current_depth ≡ 0 + 1)
    × (after.current_depth < 8)
    × (after.expansion_size ≡ 0 + byte_size told)
    × (after.expansion_size < 512)
expand_template_bounds_example =
    expand_template_bounds notify args start told (omega arith) told_fits expanded
