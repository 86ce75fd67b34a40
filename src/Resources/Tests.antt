-- ===== src/Resources/Tests.antt =====
-- Bounded evaluation of a small expression (crates/cbcl-core/src/r2.rs).
use cbcl_rs.Prelude.{arith, if◌then◌else◌, is_some, none, refl, some, true, ◌≡◌}
use cbcl_rs.Sexpr.{SExpr, atom, bool, list, nil, cons}
use cbcl_rs.Resources.{enter, ResourceBounds, is_valid, initial, bounded_eval, byte_size}
use cbcl_rs.Resources.Eval.{bounded_eval_lem, chain, sum, fits, spent}

abbrev bounds : ResourceBounds
bounds = record { max_depth = 8; max_expansion_size = 100; verification_time_ms = 10 }

-- Two nested lists around a boolean of one byte.
abbrev nested : SExpr
nested = list (cons (list (cons (atom (bool true)) nil)) nil)

bounded_eval_lem_example : bounded_eval 3 nested (initial bounds) ≡ (
    if fits 3 (chain nested) (initial bounds)
    then some (nested, spent (sum (chain nested)) (initial bounds))
    else none)
unfolding initial byte_size
bounded_eval_lem_example = bounded_eval_lem 3 nested (initial bounds) (omega arith) (omega arith)

bounds-valid : is_valid bounds ≡ true
unfolding is_valid
bounds-valid = refl

nested-evaluated : is_some (bounded_eval 3 nested (initial bounds)) ≡ true
unfolding bounded_eval initial byte_size enter
nested-evaluated = refl
