-- ===== src/Dialect/Registry.antt =====
-- The registry of dialects and installation (crates/cbcl-core/src/dialect.rs, with r2.rs and
-- r4.rs). The checks of the role and the state layers, the canonical body, the hash and
-- the verification of a signature are arguments. The graph searches of R5 take fuel.
pub mod Core
pub mod Admitted
use cbcl_rs.Prelude.{
  Bool, List, Option, String, [], if◌then◌else◌, is_empty, leb, map, none, not, retain, some, ℕ,
  ◌++◌, ◌==◌, ◌∷◌,
}
use cbcl_rs.Dialect.Checks.{R5Violation, r3_violations, r5_violations_with_ancestors, verify_r3}
use cbcl_rs.Sexpr.{SExpr, atom, symbol, list, cons, nil}
use cbcl_rs.Protocol.Checks.{expansion_size}
use cbcl_rs.Resources.{is_valid}
use cbcl_rs.Dialect.{Dialect, PerformativeDef, base_name, defines_performative}
use cbcl_rs.Dialect.Recursion.{r1_violations, verify_r1_dialect}

-- What installation takes from the other layers. A role violation is of a type `V`, a violation of
-- the state layer of a type `W`.
pub record Layers (X V W : Type 0) : Type 0 where
  pub no_layers : X
  pub r6_violations : Dialect X → List V
  pub is_not_local : V → Bool
  pub deriving_routes : X → Bool
  pub with_routes : Dialect X → X
  pub r7_violations : Dialect X → List W
  pub sign_body : Dialect X → List ℕ
  pub dialect_hash : Dialect X → String

pub data DialectInstallError (V W : Type 0) : Type 0 where
  r1_violation : List String → DialectInstallError V W
  r2_violation : DialectInstallError V W
  r2_protocol_budget_exceeded : ℕ → ℕ → DialectInstallError V W
  r3_violation : List String → DialectInstallError V W
  r4_violation : DialectInstallError V W
  r5_violation : List R5Violation → DialectInstallError V W
  r6_violation : List V → DialectInstallError V W
  r7_violation : List W → DialectInstallError V W

pub data R4Result : Type 0 where
  valid unsigned invalid : R4Result

-- The result of an installation; `out_of_fuel` is of the model only.
pub data Installed (A V W : Type 0) : Type 0 where
  installed : A → Installed A V W
  refused : DialectInstallError V W → Installed A V W
  out_of_fuel : Installed A V W

abbrev pub Registry : Type 0 → Type 0
Registry X = List (Dialect X)

abbrev pub effect_template : String → SExpr
effect_template action = list (cons (atom (symbol "effect")) (cons (atom (symbol action)) nil))

abbrev pub core_effect_actions : List (String × String)
core_effect_actions =
    ("tell", "send-message")
    ∷ ("ask", "send-query")
    ∷ ("reply", "send-reply")
    ∷ ("error", "signal-error")
    ∷ ("ok", "acknowledge")
    ∷ ("cancel", "cancel-conversation")
    ∷ ("hello", "announce-presence")
    ∷ ("bye", "announce-departure")
    ∷ []

abbrev pub core_performative : String × String → PerformativeDef
core_performative (name, action) = record {
  performative = name;
  params = [];
  template = effect_template action;
  role = none;
}

unfoldable pub find_by_name : {X : Type 0} → String → Registry X → Option (Dialect X)
find_by_name name [] = none
find_by_name name (d ∷ ds) =
    let rest = find_by_name name ds in if d.name == name then some d else rest

abbrev resolve_name : String → String
resolve_name name = if name == "cbcl" then base_name else name

abbrev found_first : {X : Type 0} → Option (Dialect X) → List (Dialect X) → List (Dialect X)
found_first none rest = rest
found_first (some d) rest = d ∷ rest

unfoldable pub resolve_ancestors : {X : Type 0} → Registry X → List String → List (Dialect X)
unfolding find_by_name
resolve_ancestors r [] = []
resolve_ancestors r (name ∷ names) =
    found_first (find_by_name (resolve_name name) r) (resolve_ancestors r names)

unfoldable pub base_definer_of : {X : Type 0} → String → Registry X → Option (Dialect X)
unfolding defines_performative
base_definer_of name [] = none
base_definer_of name (d ∷ ds) = if defines_performative name d.performatives then some d else none

unfoldable pub dialects_defining : {X : Type 0} → String → Registry X → List (Dialect X)
unfolding defines_performative
dialects_defining name r = retain (λ d. defines_performative name d.performatives) r

infixl 5 ◌>>=◌
abbrev pub ◌>>=◌ : {A B V W : Type 0} → Installed A V W → (A → Installed B V W) → Installed B V W
installed a >>= f = f a
refused e >>= f = refused e
out_of_fuel >>= f = out_of_fuel

module _ {X V W : Type 0} where
  abbrev pub refuse_r1 : Option (List String) → Installed (Dialect X) V W
  refuse_r1 none = out_of_fuel
  refuse_r1 (some recursive) = refused (r1_violation recursive)

  unfoldable pub r1_check : Dialect X → Installed (Dialect X) V W
  r1_check d = elim (verify_r1_dialect d) [
    | none ↦ out_of_fuel
    | some pass ↦ if pass then installed d else refuse_r1 (r1_violations d)
  ]

  unfoldable pub r2_check : Dialect X → Installed (Dialect X) V W
  r2_check d = if is_valid d.resources then installed d else refused r2_violation

  unfoldable pub check_protocol_expansion_budget : Dialect X → Installed (Dialect X) V W
  check_protocol_expansion_budget d = elim d.causal_protocol [
    | none ↦ installed d
    | some protocol ↦
        if leb d.resources.max_expansion_size (expansion_size protocol)
        then refused
            (r2_protocol_budget_exceeded (expansion_size protocol) d.resources.max_expansion_size)
        else installed d
  ]

  unfoldable pub r3_check : Dialect X → Installed (Dialect X) V W
  r3_check d = if verify_r3 d then installed d else refused (r3_violation (r3_violations d))

  unfoldable pub r5_check : ℕ → Registry X → Dialect X → Installed (Dialect X) V W
  r5_check fuel r d = elim (r5_violations_with_ancestors fuel d (resolve_ancestors r d.extends)) [
    | none ↦ out_of_fuel
    | some violations ↦
        if is_empty violations then installed d else refused (r5_violation violations)
  ]

module _ {X V W : Type 0} (l : Layers X V W) where
  unfoldable pub base_dialect : Dialect X
  base_dialect = record {
    name = base_name;
    extends = [];
    author = some "@cbcl-system";
    performatives = map core_performative core_effect_actions;
    resources = record { max_depth = 8; max_expansion_size = 512; verification_time_ms = 10 };
    examples = [];
    signature = none;
    hash = none;
    protocol = none;
    causal_protocol = none;
    shapes = [];
    layers = l.no_layers;
  }

  unfoldable pub new_registry : Registry X
  new_registry = base_dialect ∷ []

  unfoldable pub apply_r6 : Dialect X → Installed (Dialect X) V W
  apply_r6 d =
      let deriving_mode = l.deriving_routes d.layers in
      let all_found = l.r6_violations d in
      let violations =
        if deriving_mode then retain (λ v. not (l.is_not_local v)) all_found else all_found in
      if not (is_empty violations)
      then refused (r6_violation violations)
      else if deriving_mode
      then installed (record d { layers = l.with_routes d })
      else installed d

  unfoldable pub ensure_hash : Dialect X → Dialect X
  ensure_hash d = elim d.hash [ some h ↦ d | none ↦ record d { hash = some (l.dialect_hash d) } ]

  -- What both ways to install check, in their order.
  unfoldable pub static_checks : ℕ → Registry X → Dialect X → Installed (Dialect X) V W
  static_checks fuel r d =
      r1_check d
      >>= r2_check
      >>= check_protocol_expansion_budget
      >>= r3_check
      >>= r5_check fuel r
      >>= apply_r6

  unfoldable pub r7_check : Dialect X → Installed (Dialect X) V W
  r7_check d =
      let violations = l.r7_violations d in
      if is_empty violations then installed d else refused (r7_violation violations)

  unfoldable pub install : ℕ → Registry X → Dialect X → Installed (Registry X) V W
  unfolding static_checks r7_check ensure_hash
  install fuel r d =
      static_checks fuel r d >>= r7_check >>= λ final. installed (r ++ ensure_hash final ∷ [])

  module _ (verify : List ℕ → List ℕ → Bool) where
    unfoldable pub check_r4 : Dialect X → R4Result
    check_r4 d = elim d.signature [
      | none ↦ unsigned
      | some sig ↦ if verify (l.sign_body d) sig then valid else invalid
    ]

    abbrev pub accept_signed :
        Registry X → Dialect X → R4Result → Installed (Registry X × R4Result) V W
    accept_signed r final invalid = refused r4_violation
    accept_signed r final valid = installed (r ++ ensure_hash final ∷ [], valid)
    accept_signed r final unsigned = installed (r ++ ensure_hash final ∷ [], unsigned)

    unfoldable pub install_with_signer :
        ℕ → Registry X → Dialect X → Installed (Registry X × R4Result) V W
    unfolding static_checks check_r4 ensure_hash
    install_with_signer fuel r d =
        static_checks fuel r d >>= λ final. accept_signed r final (check_r4 final)
