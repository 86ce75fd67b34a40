-- ===== src/Dialect/Tests.antt =====
-- Runs of the checks on dialects, of installation and of the form that is signed.
use cbcl_rs.Prelude.{
  Bool, List, Option, String, [], contains, false, get, insert, keys, none, refl, some, true, ℕ,
  ◌↔◌, ◌∷◌, ◌≡◌, ◌≢◌,
}
use cbcl_rs.Certification.{quorum_budget}
use cbcl_rs.Dialect.Signable.State.{
  CounterRule, collective, bounded_counter, set_union, field, domain,
}
use cbcl_rs.Sexpr.{pos, atom, cons, list, nil, symbol}
use cbcl_rs.Resources.{is_valid, ResourceBounds}
use cbcl_rs.Dialect.{Dialect, PerformativeDef, base_name, is_core_performative_name}
use cbcl_rs.Dialect.Recursion.{
  cyclic_performatives, scan, add_dependencies, collect_symbol_references, dependency_graph,
  reaches_cycle, cyclic_from, references, r1_violations, verify_r1_dialect,
}
use cbcl_rs.Dialect.Recursion.Templates.{Expands}
use cbcl_rs.Dialect.Recursion.Exact.{r1_violations_lem}
use cbcl_rs.Dialect.Registry.{
  r7_check, check_r4, static_checks, resolve_ancestors, find_by_name, apply_r6, r2_check,
  check_protocol_expansion_budget, r3_check, r1_check, r5_check, Layers, Registry, installed,
  refused, r1_violation, r7_violation, unsigned, invalid, install, install_with_signer,
  new_registry, base_dialect, dialects_defining, ensure_hash,
}
use cbcl_rs.Dialect.Checks.{verify_r3, all_shape_violations, r5_violations_with_ancestors}
use cbcl_rs.Dialect.Registry.Admitted.{Adds, install_with_signer_lem}
use cbcl_rs.Dialect.Registry.Core.{fresh, plainly, IsCore, Grown-IsCore}
use cbcl_rs.Dialect.Signable.{RoleLayer, reject}

abbrev bounds : ResourceBounds
bounds = record { max_depth = 8; max_expansion_size = 512; verification_time_ms = 10 }

-- A performative whose template is (effect <action>).
abbrev pub perf : String → String → PerformativeDef
perf name action = record {
  performative = name;
  params = [];
  template = list (cons (atom (symbol "effect")) (cons (atom (symbol action)) nil));
  role = none;
}

abbrev pub dialect : String → List PerformativeDef → Dialect (Unit {0})
dialect name ps = record {
  name = name;
  extends = "cbcl" ∷ [];
  author = none;
  performatives = ps;
  resources = bounds;
  examples = [];
  signature = none;
  hash = none;
  protocol = none;
  causal_protocol = none;
  shapes = [];
  layers = tt;
}

abbrev ping_pong : Dialect (Unit {0})
ping_pong = dialect "ping-pong" (perf "ping" "pong" ∷ perf "pong" "ping" ∷ perf "end" "stop" ∷ [])

ping_pong_recursive : r1_violations ping_pong ≡ some ("ping" ∷ "pong" ∷ [])
unfolding r1_violations cyclic_performatives cyclic_from dependency_graph add_dependencies insert
    reaches_cycle get scan references collect_symbol_references
ping_pong_recursive = refl

r1_violations_lem_example :
    (vs : List String) × (r1_violations ping_pong ≡ some vs)
    × ((n : String) → (contains vs n ≡ true) ↔ Expands ping_pong.performatives n n)
r1_violations_lem_example = r1_violations_lem ping_pong refl

-- Layers without checks of their own, and with a state layer that finds a violation.
abbrev pub layers : List String → Layers (Unit {0}) String String
layers r7 = record {
  no_layers = tt;
  r6_violations = λ d. [];
  is_not_local = λ v. false;
  deriving_routes = λ x. false;
  with_routes = λ d. tt;
  r7_violations = λ d. r7;
  sign_body = λ d. [];
  dialect_hash = λ d. "sha256:00";
}

abbrev pub news : Dialect (Unit {0})
news = dialect "news" (perf "publish" "send-message" ∷ [])

abbrev pub with_news : Registry (Unit {0})
with_news = base_dialect (layers []) ∷ record news { hash = some "sha256:00" } ∷ []

pub installed_news : install (layers []) 9 (new_registry (layers [])) news ≡ installed with_news
unfolding install r7_check r1_check verify_r1_dialect r1_violations cyclic_performatives cyclic_from
    dependency_graph add_dependencies insert reaches_cycle get scan references
    collect_symbol_references r2_check is_valid check_protocol_expansion_budget r3_check verify_r3
    is_core_performative_name r5_check r5_violations_with_ancestors resolve_ancestors find_by_name
    all_shape_violations apply_r6 static_checks ensure_hash new_registry base_dialect
installed_news = refl

core_tell : is_core_performative_name "tell" ≡ true
unfolding is_core_performative_name
core_tell = refl

Grown-IsCore_example : IsCore (layers []) "tell" core_tell with_news
Grown-IsCore_example =
    Grown-IsCore (layers []) "tell" core_tell (plainly 9 news fresh refl installed_news)

recursive_refused :
    install (layers []) 9 (new_registry (layers [])) ping_pong
    ≡ refused (r1_violation ("ping" ∷ "pong" ∷ []))
unfolding install r1_check verify_r1_dialect r1_violations cyclic_performatives cyclic_from
    dependency_graph add_dependencies insert reaches_cycle get scan references
    collect_symbol_references
recursive_refused = refl

-- A dialect that takes the base's name is not held to R1 and R3.
abbrev impostor : Dialect (Unit {0})
impostor = dialect base_name (perf "tell" "tell" ∷ [])

abbrev with_impostor : Registry (Unit {0})
with_impostor = base_dialect (layers []) ∷ record impostor { hash = some "sha256:00" } ∷ []

impostor_installed :
    install (layers []) 9 (new_registry (layers [])) impostor ≡ installed with_impostor
unfolding install r1_check verify_r1_dialect r2_check is_valid check_protocol_expansion_budget
    r3_check verify_r3 r5_check r5_violations_with_ancestors all_shape_violations apply_r6
    new_registry
impostor_installed = refl

two_tells : dialects_defining "tell" with_impostor ≡ with_impostor
unfolding dialects_defining base_dialect
two_tells = refl

-- A violation of the state layer refuses an installation, but not one with a signer.
state_refused :
    install (layers ("bad field" ∷ [])) 9 (new_registry (layers ("bad field" ∷ []))) news
    ≡ refused (r7_violation ("bad field" ∷ []))
unfolding install r7_check r1_check verify_r1_dialect r1_violations cyclic_performatives cyclic_from
    dependency_graph add_dependencies insert reaches_cycle get scan references
    collect_symbol_references r2_check is_valid check_protocol_expansion_budget r3_check verify_r3
    is_core_performative_name r5_check r5_violations_with_ancestors resolve_ancestors find_by_name
    all_shape_violations apply_r6 static_checks ensure_hash new_registry base_dialect
state_refused = refl

abbrev verify : List ℕ → List ℕ → Bool
verify body sig = true

signed_news :
    install_with_signer
      (layers ("bad field" ∷ []))
      verify
      9
      (new_registry (layers ("bad field" ∷ [])))
      news
    ≡ installed (
      base_dialect (layers ("bad field" ∷ [])) ∷ record news { hash = some "sha256:00" } ∷ [],
      unsigned,
    )
unfolding install_with_signer check_r4 r1_check verify_r1_dialect r1_violations cyclic_performatives
    cyclic_from dependency_graph add_dependencies insert reaches_cycle get scan references
    collect_symbol_references r2_check is_valid check_protocol_expansion_budget r3_check verify_r3
    is_core_performative_name r5_check r5_violations_with_ancestors resolve_ancestors find_by_name
    all_shape_violations apply_r6 static_checks ensure_hash new_registry base_dialect
signed_news = refl

install_with_signer_lem_example :
    Adds
      (layers ("bad field" ∷ []))
      (new_registry (layers ("bad field" ∷ [])))
      news
      (base_dialect (layers ("bad field" ∷ [])) ∷ record news { hash = some "sha256:00" } ∷ [])
    × (unsigned ≢ invalid)
install_with_signer_lem_example =
    install_with_signer_lem (layers ("bad field" ∷ [])) verify 9
      (new_registry (layers ("bad field" ∷ [])))
      (base_dialect (layers ("bad field" ∷ [])) ∷ record news { hash = some "sha256:00" } ∷ []) news
      unsigned signed_news

-- A dialect with a state clause: a counter whose certification names its validators.
abbrev quorum_of : List String → Option ℕ → CounterRule
quorum_of keys faults = record {
  ownership = collective;
  certification = quorum_budget (some keys) faults;
  floor = pos 0;
  ceiling = none;
  initial_verb = "open";
  initial_key = "stock";
  headroom_key = none;
  issuer = "";
  increment = ("add", "n");
  decrement = ("take", "n");
  transfer = none;
  transfer_headroom = none;
}

abbrev stateful : List String → Option ℕ → Dialect RoleLayer
stateful keys faults = record {
  name = "news";
  extends = "cbcl" ∷ [];
  author = some "@ann";
  performatives = perf "publish" "send-message" ∷ [];
  resources = bounds;
  examples = [];
  signature = none;
  hash = none;
  protocol = none;
  causal_protocol = none;
  shapes = [];
  layers = record {
    roles = [];
    causal_locality = reject;
    state = some (record {
      entries =
          field "stock" (bounded_counter (quorum_of keys faults))
          ∷ field "seen" (set_union "publish" "topic")
          ∷ domain "publish" "topic" "seen"
          ∷ [];
    });
    state_bounds = none;
  };
}

-- The same committee, with its keys in another order and its faults left to be computed.
abbrev sorted_keys : Dialect RoleLayer
sorted_keys = stateful ("@a" ∷ "@b" ∷ "@c" ∷ "@d" ∷ []) (some 1)

abbrev mixed_keys : Dialect RoleLayer
mixed_keys = stateful ("@c" ∷ "@a" ∷ "@d" ∷ "@b" ∷ []) none
