-- ===== src/Shape.antt =====
-- Shape constraints on expanded messages (crates/cbcl-core/src/shape.rs) and their checks at
-- installation (crates/cbcl-core/src/r5.rs). A diagnostic has one constructor for each text.
pub mod Conforms
mod Tests
use cbcl_rs.Prelude.{
  Bool, List, Option, String, [], contains, false, if◌then◌else◌, is_some, ltb, none, some, true, ℕ,
  ◌%◌, ◌++◌, ◌+◌, ◌==◌, ◌∷◌,
}
use cbcl_rs.Sexpr.{Atom, Items, SExpr, atom, cons, depth, nil}
use cbcl_rs.Canonical.{as_bytes}
use cbcl_rs.Hlc
use cbcl_rs.Resources.{u32_range}

pub data TypeConstraint : Type 0 where
  string hlc number bool symbol keyword list : TypeConstraint

unfoldable pub from_str : String → Option TypeConstraint
from_str s =
    if s == "string"
    then some TypeConstraint.string
    else if s == "hlc"
    then some TypeConstraint.hlc
    else if s == "number"
    then some TypeConstraint.number
    else if s == "bool"
    then some TypeConstraint.bool
    else if s == "symbol"
    then some TypeConstraint.symbol
    else if s == "keyword"
    then some TypeConstraint.keyword
    else if s == "list"
    then some TypeConstraint.list
    else none

-- The text of a type constraint (`Display`).
unfoldable pub type_name : TypeConstraint → String
type_name TypeConstraint.string = "string"
type_name TypeConstraint.hlc = "hlc"
type_name TypeConstraint.number = "number"
type_name TypeConstraint.bool = "bool"
type_name TypeConstraint.symbol = "symbol"
type_name TypeConstraint.keyword = "keyword"
type_name TypeConstraint.list = "list"

unfoldable pub matches : TypeConstraint → SExpr → Bool
unfolding as_bytes Hlc.parse
matches TypeConstraint.hlc (atom (Atom.str text)) = is_some (Hlc.parse (as_bytes text))
matches TypeConstraint.string (atom (Atom.str s)) = true
matches TypeConstraint.number (atom (Atom.num n)) = true
matches TypeConstraint.bool (atom (Atom.bool b)) = true
matches TypeConstraint.symbol (atom (Atom.symbol s)) = true
matches TypeConstraint.keyword (atom (Atom.keyword k)) = true
matches TypeConstraint.list (SExpr.list items) = true
matches _ _ = false

mutual
  pub data ShapeRule : Type 0 where
    require : String → Option TypeConstraint → Rules → ShapeRule
    optional : String → Option TypeConstraint → Option SExpr → Rules → ShapeRule
    max_depth : ℕ → ShapeRule

  pub data Rules : Type 0 where
    no_rules : Rules
    more_rules : ShapeRule → Rules → Rules

pub record ShapeConstraint : Type 0 where
  pub performative : String
  pub rules : Rules

pub data ShapeViolation : Type 0 where
  missing : String → ShapeViolation
  wrong_type : String → TypeConstraint → String → ShapeViolation
  too_deep : ℕ → ℕ → ShapeViolation

-- The value behind the first occurrence of the keyword.
unfoldable pub first_of : Items → Option SExpr
first_of nil = none
first_of (cons e items) = some e

unfoldable pub is_key : String → SExpr → Bool
is_key key (atom (Atom.keyword k)) = k == key
is_key key (atom (Atom.symbol s)) = false
is_key key (atom (Atom.str s)) = false
is_key key (atom (Atom.num n)) = false
is_key key (atom (Atom.bool b)) = false
is_key key (SExpr.list items) = false

unfoldable pub find_in : String → Items → Option SExpr
find_in key nil = none
find_in key (cons e items) =
    let rest = find_in key items in if is_key key e then first_of items else rest

unfoldable pub find_keyword_value : String → SExpr → Option SExpr
find_keyword_value key (atom a) = none
find_keyword_value key (SExpr.list items) = find_in key items

unfoldable pub describe_type : SExpr → String
describe_type (atom (Atom.str s)) = "string"
describe_type (atom (Atom.num n)) = "number"
describe_type (atom (Atom.bool b)) = "bool"
describe_type (atom (Atom.symbol s)) = "symbol"
describe_type (atom (Atom.keyword k)) = "keyword"
describe_type (SExpr.list items) = "list"

unfoldable pub check_type : String → Option TypeConstraint → SExpr → Option ShapeViolation
check_type key none value = none
check_type key (some tc) value =
    if matches tc value then none else some (wrong_type key tc (describe_type value))

abbrev pub or_else : Option ShapeViolation → Option ShapeViolation → Option ShapeViolation
or_else none next = next
or_else (some v) next = some v

-- The two kinds of field, with the check of the children as an argument.
unfoldable pub on_required :
    String
    → Option TypeConstraint
    → (SExpr → Option ShapeViolation)
    → Option SExpr
    → Option ShapeViolation
on_required key tc inner none = some (missing key)
on_required key tc inner (some value) = or_else (check_type key tc value) (inner value)

unfoldable pub on_optional :
    String
    → Option TypeConstraint
    → (SExpr → Option ShapeViolation)
    → Option SExpr
    → Option ShapeViolation
on_optional key tc inner none = none
on_optional key tc inner (some value) = or_else (check_type key tc value) (inner value)

-- `none` is Ok(()).
unfoldable mutual
  pub check_rule : ShapeRule → SExpr → Option ShapeViolation
  check_rule (require key tc children) sexpr =
      on_required key tc (check_rules children) (find_keyword_value key sexpr)
  check_rule (optional key tc default children) sexpr =
      on_optional key tc (check_rules children) (find_keyword_value key sexpr)
  check_rule (max_depth most) sexpr =
      if ltb most (depth sexpr % u32_range)
      then some (too_deep (depth sexpr % u32_range) most)
      else none

  pub check_rules : Rules → SExpr → Option ShapeViolation
  check_rules no_rules sexpr = none
  check_rules (more_rules rule rules) sexpr =
      or_else (check_rule rule sexpr) (check_rules rules sexpr)

unfoldable pub check : ShapeConstraint → SExpr → Option ShapeViolation
check c sexpr = check_rules c.rules sexpr

unfoldable mutual
  pub collect_max_depths : Rules → List ℕ → List ℕ
  collect_max_depths no_rules out = out
  collect_max_depths (more_rules rule rules) out = collect_max_depths rules (collect_of rule out)

  pub collect_of : ShapeRule → List ℕ → List ℕ
  collect_of (require key tc children) out = collect_max_depths children out
  collect_of (optional key tc default children) out = collect_max_depths children out
  collect_of (max_depth d) out = out ++ d ∷ []

unfoldable pub max_depths : ShapeConstraint → List ℕ
max_depths c = collect_max_depths c.rules []

-- The keyword that is given twice, and its depth; `none` is Ok(()).
abbrev pub Duplicate : Type 0
Duplicate = Option (String × ℕ)

abbrev pub or_later : Duplicate → Duplicate → Duplicate
or_later none next = next
or_later (some d) next = some d

unfoldable pub walk_keywords : Rules → ℕ → List String → Duplicate
walk_keywords no_rules level seen = none
walk_keywords (more_rules (max_depth d) rules) level seen = walk_keywords rules level seen
walk_keywords (more_rules (require key tc children) rules) level seen =
    let inner = walk_keywords children (level + 1) [] in
    let later = walk_keywords rules level (key ∷ seen) in
    if contains seen key then some (key, level) else or_later inner later
walk_keywords (more_rules (optional key tc default children) rules) level seen =
    let inner = walk_keywords children (level + 1) [] in
    let later = walk_keywords rules level (key ∷ seen) in
    if contains seen key then some (key, level) else or_later inner later

unfoldable pub no_duplicate_keywords : ShapeConstraint → Duplicate
no_duplicate_keywords c = walk_keywords c.rules 0 []

-- The number of rules with an empty keyword, each of which is a violation.
unfoldable mutual
  pub empty_keywords : Rules → ℕ
  empty_keywords no_rules = 0
  empty_keywords (more_rules rule rules) = empty_in rule + empty_keywords rules

  pub empty_in : ShapeRule → ℕ
  empty_in (require key tc children) = (if key == "" then 1 else 0) + empty_keywords children
  empty_in (optional key tc default children) =
      (if key == "" then 1 else 0) + empty_keywords children
  empty_in (max_depth d) = 0
