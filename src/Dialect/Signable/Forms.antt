-- ===== src/Dialect/Signable/Forms.antt =====
-- Forms of expressions (crates/cbcl-core/src/canonical.rs).
use cbcl_rs.Prelude.{List, Option, String, [], none, some, ℕ, ◌∷◌}
use cbcl_rs.Sexpr.{Items, SExpr, atom, cons, list, nil, num, pos, str, symbol}

abbrev pub of_list : List SExpr → Items
of_list [] = nil
of_list (e ∷ es) = cons e (of_list es)

-- A list with a symbol at its head.
abbrev pub form : String → List SExpr → SExpr
form head es = list (cons (atom (symbol head)) (of_list es))

abbrev pub text : String → SExpr
text s = atom (str s)

abbrev pub number : ℕ → SExpr
number n = atom (num (pos n))

abbrev pub from_option : Option SExpr → List SExpr
from_option none = []
from_option (some e) = e ∷ []

abbrev pub option_map : {A B : Type 0} → (A → B) → Option A → Option B
option_map f none = none
option_map f (some a) = some (f a)

-- An optional segment before the others.
abbrev pub segment : Option SExpr → List SExpr → List SExpr
segment none rest = rest
segment (some e) rest = e ∷ rest
