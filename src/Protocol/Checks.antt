-- ===== src/Protocol/Checks.antt =====
-- The install checks on a protocol (R5, crates/cbcl-core/src/protocol.rs). A loop on a stack and a
-- search take fuel; `none` means that it ran out.
pub mod Defined
use cbcl_rs.Prelude.{
  Bool, List, Map, Option, String, [], any, contains, false, get_or, if◌then◌else◌, insert, keys,
  leb, length, none, not, retain, set_insert, some, suc, take, true, zero, ℕ, ◌&&◌, ◌++◌, ◌-◌, ◌==◌,
  ◌||◌, ◌∷◌,
}
use cbcl_rs.Protocol.{
  NodeRef, performatives, StepDecl, CausalProtocol, begin_keyword, repeat_base_name,
}

pub data ProtocolViolation : Type 0 where
  cycle : List String → ProtocolViolation
  unreachable : String → ProtocolViolation
  undefined_performative : String → ProtocolViolation
  duplicate_step : String → ProtocolViolation

abbrev pub same_texts : List String → List String → Bool
same_texts [] [] = true
same_texts (x ∷ xs) (y ∷ ys) = x == y && same_texts xs ys
same_texts _ _ = false

abbrev pub same_ref : NodeRef → NodeRef → Bool
same_ref (NodeRef.single a) (NodeRef.single b) = a == b
same_ref (NodeRef.any_of xs) (NodeRef.any_of ys) = same_texts xs ys
same_ref (NodeRef.all_of xs) (NodeRef.all_of ys) = same_texts xs ys
same_ref _ _ = false

unfoldable pub has_duplicate : List NodeRef → Bool
has_duplicate [] = false
has_duplicate (r ∷ rs) = any (same_ref r) rs || has_duplicate rs

unfoldable pub add_names : List String → List String → List String
add_names [] names = names
add_names (p ∷ ps) names = add_names ps (if p == begin_keyword then names else set_insert p names)

unfoldable pub add_refs : List NodeRef → List String → List String
unfolding add_names performatives
add_refs [] names = names
add_refs (r ∷ rs) names = add_refs rs (add_names (performatives r) names)

unfoldable pub referenced_from : Map StepDecl → List String → List String
unfolding add_refs add_names
referenced_from [] names = names
referenced_from ((name, step) ∷ steps) names =
    referenced_from steps
      (add_refs (step.predecessors ++ step.successors) (add_names (name ∷ []) names))

unfoldable pub all_referenced_performatives : CausalProtocol → List String
unfolding referenced_from
all_referenced_performatives protocol = referenced_from protocol.steps []

-- `entry(k).or_default()`
abbrev touch : String → Map (List String) → Map (List String)
touch k graph = insert k (get_or k [] graph) graph

unfoldable pub add_edges : String → List String → Map (List String) → Map (List String)
add_edges name [] graph = graph
add_edges name (s ∷ ss) graph =
    add_edges name ss (touch s (insert name (set_insert s (get_or name [] graph)) graph))

unfoldable pub add_successors : String → List NodeRef → Map (List String) → Map (List String)
unfolding add_edges performatives
add_successors name [] graph = graph
add_successors name (r ∷ rs) graph = add_successors name rs (add_edges name (performatives r) graph)

unfoldable pub graph_from : Map StepDecl → Map (List String) → Map (List String)
unfolding add_successors
graph_from [] graph = graph
graph_from ((name, step) ∷ steps) graph =
    graph_from steps (add_successors name step.successors (touch name graph))

unfoldable pub successor_graph : CausalProtocol → Map (List String)
unfolding graph_from
successor_graph protocol = graph_from protocol.steps []

pub data Color : Type 0 where
  white gray black : Color

-- The variables of the depth-first search.
pub record Search : Type 0 where
  pub color : Map Color
  pub path : List String
  pub violations : List ProtocolViolation

-- The path from its first occurrence of the node.
unfoldable pub path_from : String → List String → List String
path_from node [] = []
path_from node (p ∷ path) = if p == node then p ∷ path else path_from node path

abbrev back_edge : String → Search → Search
back_edge next st =
    if contains st.path next
    then record st { violations = st.violations ++ cycle (path_from next st.path) ∷ [] }
    else st

abbrev enter : String → Search → Search
enter node st = record st { color = insert node gray st.color; path = st.path ++ node ∷ [] }

abbrev drop_last : List String → List String
drop_last path = take (length path - 1) path

abbrev leave : String → Search → Search
leave node st = record st { color = insert node black st.color; path = drop_last st.path }

-- The loop over the neighbours of a node, or over all the nodes, with `dfs_cycle` at the white ones.
unfoldable pub dfs_all : ℕ → Map (List String) → List String → Search → Option Search
unfolding path_from
dfs_all zero graph nodes st = none
dfs_all (suc fuel) graph [] st = some st
dfs_all (suc fuel) graph (next ∷ rest) st = elim (get_or next white st.color) [
  | white ↦ elim (dfs_all fuel graph (get_or next [] graph) (enter next st)) [
    | none ↦ none
    | some st' ↦ dfs_all fuel graph rest (leave next st')
  ]
  | gray ↦ dfs_all fuel graph rest (back_edge next st)
  | black ↦ dfs_all fuel graph rest st
]

abbrev violations_of : Option Search → Option (List ProtocolViolation)
violations_of none = none
violations_of (some st) = some st.violations

unfoldable pub check_acyclicity : ℕ → CausalProtocol → Option (List ProtocolViolation)
unfolding dfs_all successor_graph
check_acyclicity fuel protocol =
    let graph = successor_graph protocol in
    violations_of
      (dfs_all fuel graph (keys graph) (record { color = []; path = []; violations = [] }))

-- The neighbours that are not visited yet are marked and go on the stack.
unfoldable pub push_new : List String → List String → List String → List String × List String
push_new [] visited stack = (visited, stack)
push_new (n ∷ ns) visited stack =
    if contains visited n then push_new ns visited stack else push_new ns (n ∷ visited) (n ∷ stack)

unfoldable pub reach_loop : ℕ → Map (List String) → List String → List String → Option (List String)
unfolding push_new
reach_loop zero graph visited stack = none
reach_loop (suc fuel) graph visited [] = some visited
reach_loop (suc fuel) graph visited (current ∷ stack) =
    let (visited', stack') = push_new (get_or current [] graph) visited stack in
    reach_loop fuel graph visited' stack'

unfoldable pub unreachable_steps : List String → List String → List ProtocolViolation
unreachable_steps visited [] = []
unreachable_steps visited (name ∷ names) =
    let rest = unreachable_steps visited names in
    if not (name == begin_keyword) && not (contains visited name)
    then unreachable name ∷ rest
    else rest

abbrev unvisited : CausalProtocol → Option (List String) → Option (List ProtocolViolation)
unvisited protocol none = none
unvisited protocol (some visited) = some (unreachable_steps visited (keys protocol.steps))

unfoldable pub check_reachability : ℕ → CausalProtocol → Option (List ProtocolViolation)
unfolding reach_loop successor_graph unreachable_steps
check_reachability fuel protocol =
    let graph = successor_graph protocol in
    let start = if contains (keys graph) begin_keyword then begin_keyword ∷ [] else [] in
    unvisited protocol (reach_loop fuel graph start start)

-- Each undefined base name is flagged once.
unfoldable pub undefined_names : List String → List String → List String → List ProtocolViolation
unfolding repeat_base_name
undefined_names defined flagged [] = []
undefined_names defined flagged (name ∷ names) =
    let base = repeat_base_name name in
    let rest = undefined_names defined flagged names in
    let flag = undefined_performative base ∷ undefined_names defined (base ∷ flagged) names in
    if contains defined base || contains flagged base then rest else flag

unfoldable pub check_performative_definedness :
    List String → CausalProtocol → List ProtocolViolation
unfolding undefined_names all_referenced_performatives
check_performative_definedness defined protocol =
    undefined_names defined [] (all_referenced_performatives protocol)

abbrev u32_max : ℕ
u32_max = 4294967295

unfoldable pub expansion_size : CausalProtocol → ℕ
expansion_size protocol =
    let n = length (retain (λ name. not (name == begin_keyword)) (keys protocol.steps)) in
    if leb n u32_max then n else u32_max

unfoldable pub duplicate_steps : Map StepDecl → List ProtocolViolation
unfolding has_duplicate
duplicate_steps [] = []
duplicate_steps ((name, step) ∷ steps) =
    let rest = duplicate_steps steps in
    if has_duplicate step.predecessors || has_duplicate step.successors
    then duplicate_step name ∷ rest
    else rest

unfoldable pub check_step_uniqueness : CausalProtocol → List ProtocolViolation
unfolding duplicate_steps
check_step_uniqueness protocol = duplicate_steps protocol.steps

abbrev add_search :
    Option (List ProtocolViolation)
    → Option (List ProtocolViolation)
    → Option (List ProtocolViolation)
add_search (some xs) (some ys) = some (xs ++ ys)
add_search _ _ = none

-- The fuel is for each of the two searches.
unfoldable pub verify_r5_protocol :
    ℕ → List String → CausalProtocol → Option (List ProtocolViolation)
unfolding check_step_uniqueness check_acyclicity check_reachability check_performative_definedness
verify_r5_protocol fuel defined protocol = add_search (some (check_step_uniqueness protocol)) (
    add_search (check_acyclicity fuel protocol) (
      add_search (check_reachability fuel protocol)
        (some (check_performative_definedness defined protocol))))
