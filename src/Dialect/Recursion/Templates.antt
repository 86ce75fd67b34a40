-- ===== src/Dialect/Recursion/Templates.antt =====
-- The dependency graph of a dialect (`dependency_graph` of crates/cbcl-core/src/r1.rs): an edge is
-- a mention of a performative in a template.
use cbcl_rs.Prelude.{
  Bool, List, Map, Option, Option-cases, String, String-cases, [], and_both, and_intro, ap, arith,
  contains, contains-set_insert, eq_iff, get, get-insert, if◌then◌else◌, inl, inr, insert, none,
  refl, retain, some, subst, sym, true, ◌&&◌, ◌==◌, ◌||◌, ◌∙◌, ◌∷◌, ◌≡◌,
}
use cbcl_rs.Sexpr.{Items, SExpr, atom, bool, cons, keyword, list, nil, num, str, symbol}
use cbcl_rs.Dialect.{PerformativeDef, performative_names}
use cbcl_rs.Dialect.Recursion.{
  contains_self_reference, any_self_reference, collect_symbol_references, collect_all_references,
  references, add_dependencies, dependency_graph,
}
use cbcl_rs.Dialect.Recursion.Chains.{Chain, Depends, edge, step}

mutual
  unfolding contains_self_reference collect_symbol_references

  pub contains-collect :
      (e : SExpr) (acc : List String) (y : String)
      → contains (collect_symbol_references e acc) y
        ≡ (contains_self_reference y e || contains acc y)
  contains-collect (atom (symbol s)) acc y = ground (arith, contains-set_insert s acc y, eq_iff s y)
  contains-collect (atom (str s)) acc y = refl
  contains-collect (atom (num n)) acc y = refl
  contains-collect (atom (bool b)) acc y = refl
  contains-collect (atom (keyword k)) acc y = refl
  contains-collect (list items) acc y = contains-collect_all items acc y

  pub contains-collect_all :
      (items : Items) (acc : List String) (y : String)
      → contains (collect_all_references items acc) y
        ≡ (any_self_reference y items || contains acc y)
  contains-collect_all nil acc y = refl
  contains-collect_all (cons e items) acc y = ground (
    arith,
    contains-collect e acc y,
    contains-collect_all items (collect_symbol_references e acc) y,
  )

pub contains-retain :
    (p : String → Bool) (xs : List String) (y : String)
    → contains (retain p xs) y ≡ (contains xs y && p y)
contains-retain p [] y = refl
contains-retain p (x ∷ xs) y = elim (String-cases x y) [
  | inl same ↦ ground (arith, eq_iff x y, contains-retain p xs y, ap p same)
  | inr other ↦ ground (arith, eq_iff x y, contains-retain p xs y)
]

-- The template that counts for a name is that of the last performative of the name.
pub last_named : String → List PerformativeDef → Option PerformativeDef
last_named x [] = none
last_named x (p ∷ ps) = elim (last_named x ps) [
  | some q ↦ some q
  | none ↦ if p.performative == x then some p else none
]

-- `x` mentions the performative `y`.
abbrev pub Mentions : List PerformativeDef → String → String → Type 0
Mentions ps x y =
    (p : PerformativeDef) × (last_named x ps ≡ some p)
    × (contains_self_reference y p.template ≡ true)
    × (contains (performative_names ps) y ≡ true)

-- The chains of mentions that lead from a performative to `t`.
pub data Expands (ps : List PerformativeDef) (t : String) : String → Type 0 where
  directly : {x : String} → Mentions ps x t → Expands ps t x
  through : {x y : String} → Mentions ps x y → Expands ps t y → Expands ps t x

graph_get : List String → List PerformativeDef → Map (List String) → String → Option (List String)
graph_get names ps graph x = elim (last_named x ps) [
  | some p ↦ some (references names p.template)
  | none ↦ get x graph
]

get-add_dependencies :
    (names : List String) (ps : List PerformativeDef) (graph : Map (List String)) (x : String)
    → get x (add_dependencies names ps graph) ≡ graph_get names ps graph x
unfolding add_dependencies graph_get last_named
get-add_dependencies names [] graph x = refl
get-add_dependencies names (p ∷ ps) graph x =
    let rec =
      get-add_dependencies names ps (insert p.performative (references names p.template) graph) x in
    let set = get-insert x p.performative (references names p.template) graph in
    ground (arith, rec, set)

contains-references :
    (names : List String) (e : SExpr) (y : String)
    → contains (references names e) y ≡ (contains_self_reference y e && contains names y)
unfolding references
contains-references names e y = ground (
  arith,
  contains-retain (contains names) (collect_symbol_references e []) y,
  contains-collect e [] y,
)

module _ (ps : List PerformativeDef) where
  get-graph : (x : String) → get x (dependency_graph ps) ≡ graph_get (performative_names ps) ps [] x
  unfolding dependency_graph
  get-graph x = get-add_dependencies (performative_names ps) ps [] x

  mention : (x y : String) → Depends (dependency_graph ps) x y → Mentions ps x y
  unfolding graph_get get
  mention x y (ds, e, m) = elim (Option-cases (last_named x ps)) [
    | inl absent ↦ absurd (ground (arith, get-graph x))
    | inr (p, q) ↦
        let both = contains-references (performative_names ps) p.template y in
        let here : references (performative_names ps) p.template ≡ ds =
          ground (arith, get-graph x) in
        let m' = subst (λ l. contains l y ≡ true) (sym here) m in
        let parts = and_both _ _ (sym both ∙ m') in (p, q, parts.0, parts.1)
  ]

  depend : (x y : String) → Mentions ps x y → Depends (dependency_graph ps) x y
  unfolding graph_get
  depend x y (p, q, m, n) = (
    references (performative_names ps) p.template,
    get-graph x ∙ rw (q, graph_get) refl,
    contains-references (performative_names ps) p.template y ∙ and_intro _ _ m n,
  )

  pub Expands-Chain : {t x : String} → Chain (dependency_graph ps) t [] x → Expands ps t x
  Expands-Chain {t} {x} (edge d) = directly (mention x t d)
  Expands-Chain (step {x} {y} d out c) = through (mention x y d) (Expands-Chain c)

  pub Chain-Expands : {t x : String} → Expands ps t x → Chain (dependency_graph ps) t [] x
  Chain-Expands {t} {x} (directly m) = edge (depend x t m)
  Chain-Expands (through {x} {y} m c) = step (depend x y m) refl (Chain-Expands c)

  -- What a chain leads to is a performative.
  pub Expands-named : {t x : String} → Expands ps t x → contains (performative_names ps) t ≡ true
  Expands-named (directly (p, q, m, named)) = named
  Expands-named (through m c) = Expands-named c
