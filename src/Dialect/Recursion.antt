-- ===== src/Dialect/Recursion.antt =====
-- The check against recursion, R1 (crates/cbcl-core/src/r1.rs). The search for a cycle takes fuel;
-- `none` means that it ran out. A set is the list of its members, a new one in front.
pub mod Chains
pub mod Search
pub mod Templates
pub mod Exact
use cbcl_rs.Prelude.{
  Bool, List, Map, Option, String, [], contains, false, get, if◌then◌else◌, insert, is_empty, keys,
  length, none, not, retain, set_insert, some, suc, true, zero, ℕ, ◌+◌, ◌==◌, ◌∷◌,
}
use cbcl_rs.Sexpr.{Items, SExpr, atom, bool, cons, keyword, list, nil, num, str, symbol}
use cbcl_rs.Dialect.{Dialect, PerformativeDef, base_name, performative_names}

unfoldable mutual
  pub contains_self_reference : String → SExpr → Bool
  contains_self_reference name (atom (symbol s)) = s == name
  contains_self_reference name (atom (str s)) = false
  contains_self_reference name (atom (num n)) = false
  contains_self_reference name (atom (bool b)) = false
  contains_self_reference name (atom (keyword k)) = false
  contains_self_reference name (list items) = any_self_reference name items

  pub any_self_reference : String → Items → Bool
  any_self_reference name nil = false
  any_self_reference name (cons e items) =
      let rest = any_self_reference name items in
      if contains_self_reference name e then true else rest

unfoldable pub verify_r1 : String → SExpr → Bool
verify_r1 perf_name template = not (contains_self_reference perf_name template)

unfoldable mutual
  pub collect_symbol_references : SExpr → List String → List String
  collect_symbol_references (atom (symbol name)) referenced = set_insert name referenced
  collect_symbol_references (atom (str s)) referenced = referenced
  collect_symbol_references (atom (num n)) referenced = referenced
  collect_symbol_references (atom (bool b)) referenced = referenced
  collect_symbol_references (atom (keyword k)) referenced = referenced
  collect_symbol_references (list items) referenced = collect_all_references items referenced

  pub collect_all_references : Items → List String → List String
  collect_all_references nil referenced = referenced
  collect_all_references (cons item items) referenced =
      collect_all_references items (collect_symbol_references item referenced)

unfoldable pub references : List String → SExpr → List String
references names template = retain (contains names) (collect_symbol_references template [])

-- A later performative of the same name takes the place of an earlier one.
unfoldable pub add_dependencies :
    List String → List PerformativeDef → Map (List String) → Map (List String)
add_dependencies names [] graph = graph
add_dependencies names (p ∷ ps) graph =
    add_dependencies names ps (insert p.performative (references names p.template) graph)

unfoldable pub dependency_graph : List PerformativeDef → Map (List String)
dependency_graph ps = add_dependencies (performative_names ps) ps []

abbrev pub Found : Type 0
Found = Option (Bool × List String)

abbrev pub found_or : Found → (List String → Found) → Found
found_or none next = none
found_or (some (true, v)) next = some (true, v)
found_or (some (false, v)) next = next v

-- The loop of `reaches_cycle` over the dependencies, with its recursive call as an argument.
unfoldable pub scan : (String → List String → Found) → String → List String → List String → Found
scan visit start [] visiting = some (false, visiting)
scan visit start (dependency ∷ rest) visiting =
    let next = scan visit start rest visiting in
    let descend =
      found_or (visit dependency (dependency ∷ visiting))
        (λ v. scan visit start rest (retain (λ x. not (x == dependency)) v)) in
    if dependency == start
    then some (true, visiting)
    else if contains visiting dependency
    then next
    else descend

unfoldable pub reaches_cycle : ℕ → String → String → Map (List String) → List String → Found
reaches_cycle zero start current graph visiting = none
reaches_cycle (suc fuel) start current graph visiting = elim (get current graph) [
  | none ↦ some (false, visiting)
  | some dependencies ↦ scan (λ d v. reaches_cycle fuel start d graph v) start dependencies visiting
]

unfoldable pub cyclic_from : ℕ → Map (List String) → List String → Option (List String)
cyclic_from fuel graph [] = some []
cyclic_from fuel graph (name ∷ names) = elim (reaches_cycle fuel name name graph []) [
  | none ↦ none
  | some (cyclic, _) ↦ elim (cyclic_from fuel graph names) [
    | none ↦ none
    | some rest ↦ some (if cyclic then name ∷ rest else rest)
  ]
]

-- The fuel is enough for every path without a repetition.
unfoldable pub cyclic_performatives : Map (List String) → Option (List String)
cyclic_performatives graph = cyclic_from (length (keys graph) + 2) graph (keys graph)

unfoldable pub r1_violations : {X : Type 0} → Dialect X → Option (List String)
r1_violations d =
    if d.name == base_name
    then some []
    else elim (cyclic_performatives (dependency_graph d.performatives)) [
      | none ↦ none
      | some cyclic ↦ some (retain (contains cyclic) (performative_names d.performatives))
    ]

unfoldable pub verify_r1_dialect : {X : Type 0} → Dialect X → Option Bool
verify_r1_dialect d =
    if d.name == base_name
    then some true
    else elim (r1_violations d) [ none ↦ none | some violations ↦ some (is_empty violations) ]
