-- ===== src/Shape/Tests.antt =====
-- Runs of the shape check.
use cbcl_rs.Prelude.{arith, none, refl, some, ◌↔◌, ◌≡◌}
use cbcl_rs.Sexpr.{Atom, SExpr, atom, cons, depth, nil, pos}
use cbcl_rs.Shape.{
  on_optional, matches, check_rules, find_keyword_value, find_in, on_required, check_type, first_of,
  is_key, describe_type, TypeConstraint, ShapeConstraint, missing, wrong_type, require, optional,
  max_depth, no_rules, more_rules, check,
}
use cbcl_rs.Shape.Conforms.{AllConform, check_iff}

abbrev shape : ShapeConstraint
shape = record {
  performative = "bid";
  rules = more_rules (require "price" (some TypeConstraint.number) no_rules) (
      more_rules (optional "note" (some TypeConstraint.string) none no_rules)
        (more_rules (max_depth 2) no_rules));
}

-- (bid :price <e>)
abbrev bid : SExpr → SExpr
bid e =
    SExpr.list (cons (atom (Atom.symbol "bid")) (cons (atom (Atom.keyword "price")) (cons e nil)))

good_bid : check shape (bid (atom (Atom.num (pos 5)))) ≡ none
unfolding check check_rules on_required find_keyword_value find_in is_key first_of check_type
    matches on_optional depth
good_bid = refl

bad_bid :
    check shape (bid (atom (Atom.str "5")))
    ≡ some (wrong_type "price" TypeConstraint.number "string")
unfolding check check_rules on_required find_keyword_value find_in is_key first_of check_type
    matches describe_type
bad_bid = refl

no_price : check shape (SExpr.list nil) ≡ some (missing "price")
unfolding check check_rules on_required find_keyword_value find_in
no_price = refl

check_iff_example :
    (check shape (bid (atom (Atom.num (pos 5)))) ≡ none)
    ↔ AllConform shape.rules (bid (atom (Atom.num (pos 5))))
unfolding depth
check_iff_example = check_iff shape (bid (atom (Atom.num (pos 5)))) (omega arith)
