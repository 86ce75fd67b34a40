-- ===== src/Template/Conditions.antt =====
-- Bindings, what they are put into, and conditions (crates/cbcl-core/src/template.rs).
use cbcl_rs.Prelude.{
  Bool, List, Map, Option, String, [], eqb, false, get, if◌then◌else◌, insert, none, some, true,
  ◌==◌, ◌∷◌,
}
use Prim.Native.Char.{code}
use cbcl_rs.Sexpr.{
  Atom, Items, SExpr, atom, bool, cons, is_symbol, keyword, list, negsuc, nil, num, pos, str,
  symbol, ℤ,
}

abbrev pub Bindings : Type 0
Bindings = Map SExpr

-- The derived equality of expressions.
abbrev same_number : ℤ → ℤ → Bool
same_number (pos n) (pos m) = eqb n m
same_number (negsuc n) (negsuc m) = eqb n m
same_number _ _ = false

abbrev same_bool : Bool → Bool → Bool
same_bool true b = b
same_bool false true = false
same_bool false false = true

abbrev same_atom : Atom → Atom → Bool
same_atom (symbol s) (symbol t) = s == t
same_atom (str s) (str t) = s == t
same_atom (num n) (num m) = same_number n m
same_atom (bool b) (bool c) = same_bool b c
same_atom (keyword s) (keyword t) = s == t
same_atom _ _ = false

unfoldable mutual
  pub same_sexpr : SExpr → SExpr → Bool
  same_sexpr (atom a) (atom b) = same_atom a b
  same_sexpr (list xs) (list ys) = same_items xs ys
  same_sexpr _ _ = false

  pub same_items : Items → Items → Bool
  same_items nil nil = true
  same_items (cons x xs) (cons y ys) =
      let rest = same_items xs ys in if same_sexpr x y then rest else false
  same_items _ _ = false

-- '@'.
abbrev names_agent : String → Bool
names_agent String.[] = false
names_agent (String.◌∷◌ c s) = eqb (code c) 64

abbrev is_num : SExpr → Bool
is_num (atom (num n)) = true
is_num _ = false

abbrev is_str : SExpr → Bool
is_str (atom (str s)) = true
is_str _ = false

abbrev is_name : SExpr → Bool
is_name (atom (symbol s)) = true
is_name _ = false

abbrev is_boolean : SExpr → Bool
is_boolean (atom (bool b)) = true
is_boolean _ = false

abbrev is_agent : SExpr → Bool
is_agent (atom (symbol s)) = names_agent s
is_agent _ = false

unfoldable pub eval_type_predicate : SExpr → String → Bool
eval_type_predicate value type_name =
    if type_name == "number"
    then is_num value
    else if type_name == "string"
    then is_str value
    else if type_name == "symbol"
    then is_name value
    else if type_name == "bool"
    then is_boolean value
    else if type_name == "agent"
    then is_agent value
    else false

-- A parameter that is no symbol is passed over with its argument.
abbrev bind : SExpr → SExpr → Bindings → Bindings
bind (atom (symbol name)) arg bindings = insert name arg bindings
bind _ arg bindings = bindings

unfoldable pub bind_all : List SExpr → List SExpr → Bindings → Bindings
bind_all [] args bindings = bindings
bind_all (param ∷ params) [] bindings = bindings
bind_all (param ∷ params) (arg ∷ args) bindings = bind_all params args (bind param arg bindings)

unfoldable pub build_bindings : List SExpr → List SExpr → Bindings
unfolding bind_all
build_bindings params args = bind_all params args []

abbrev value_or : SExpr → Option SExpr → SExpr
value_or e none = e
value_or e (some v) = v

unfoldable pub resolve_value : SExpr → Bindings → SExpr
resolve_value (atom (symbol name)) bindings = value_or (atom (symbol name)) (get name bindings)
resolve_value e bindings = e

unfoldable mutual
  pub substitute_expr : SExpr → Bindings → SExpr
  substitute_expr (atom (symbol name)) bindings = value_or (atom (symbol name)) (get name bindings)
  substitute_expr (atom (str s)) bindings = atom (str s)
  substitute_expr (atom (num n)) bindings = atom (num n)
  substitute_expr (atom (bool b)) bindings = atom (bool b)
  substitute_expr (atom (keyword k)) bindings = atom (keyword k)
  substitute_expr (list items) bindings = list (substitute_all items bindings)

  pub substitute_all : Items → Bindings → Items
  substitute_all nil bindings = nil
  substitute_all (cons e items) bindings =
      cons (substitute_expr e bindings) (substitute_all items bindings)

-- The second test of the code, on two symbols, is part of the first.
unfoldable pub values_equal : SExpr → SExpr → Bool
unfolding same_sexpr
values_equal a b = same_sexpr a b

unfoldable pub any_equal : SExpr → Items → Bindings → Bool
unfolding values_equal resolve_value
any_equal value nil bindings = false
any_equal value (cons m members) bindings =
    let rest = any_equal value members bindings in
    if values_equal value (resolve_value m bindings) then true else rest

abbrev is_member : SExpr → SExpr → Bindings → Bool
is_member value (list members) bindings = any_equal value members bindings
is_member value (atom a) bindings = false

abbrev is_of_type : SExpr → SExpr → Bool
is_of_type value (atom (symbol type_name)) = eval_type_predicate value type_name
is_of_type value _ = false

unfoldable pub eval_condition : SExpr → Bindings → Bool
unfolding values_equal resolve_value any_equal eval_type_predicate
eval_condition (list (cons head (cons left (cons right nil)))) bindings =
    let value = resolve_value left bindings in
    if is_symbol "=" head
    then values_equal value (resolve_value right bindings)
    else if is_symbol "member" head
    then is_member value right bindings
    else if is_symbol "type?" head
    then is_of_type value right
    else false
eval_condition _ bindings = false
