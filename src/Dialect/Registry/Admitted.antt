-- ===== src/Dialect/Registry/Admitted.antt =====
-- What an installation has checked (crates/cbcl-core/src/dialect.rs).
use cbcl_rs.Prelude.{
  Bool, Bool-cases, List, Option-cases, String, String-cases, [], any, ap, arith, false,
  if◌then◌else◌, inl, inr, leb, refl, some, subst, sym, true, ℕ, ◌++◌, ◌<◌, ◌==◌, ◌∷◌, ◌≡◌, ◌≢◌,
  ◌≤◌,
}
use cbcl_rs.Protocol.{CausalProtocol}
use cbcl_rs.Protocol.Checks.{expansion_size}
use cbcl_rs.Resources.{is_valid}
use cbcl_rs.Dialect.{
  Dialect, PerformativeDef, base_name, defines_performative, is_core_performative_name,
}
use cbcl_rs.Dialect.Recursion.{r1_violations, verify_r1_dialect}
use cbcl_rs.Dialect.Recursion.Templates.{Expands}
use cbcl_rs.Dialect.Recursion.Exact.{verify_r1_dialect_iff}
use cbcl_rs.Dialect.Registry.{
  accept_signed, refuse_r1, r2_protocol_budget_exceeded, Layers, Registry, Installed, installed,
  refused, out_of_fuel, ◌>>=◌, R4Result, valid, unsigned, invalid, r1_check, r2_check,
  check_protocol_expansion_budget, r3_check, r5_check, apply_r6, static_checks, r7_check, install,
  ensure_hash, check_r4, install_with_signer,
}
use cbcl_rs.Dialect.Checks.{verify_r3}

>>=-eq-installed :
    {A B V W : Type 0} (m : Installed A V W) (f : A → Installed B V W) {b : B}
    → (m >>= f) ≡ installed b
    → (a : A) × (m ≡ installed a) × (f a ≡ installed b)
>>=-eq-installed (installed a) f h = (a, refl, h)
>>=-eq-installed (refused e) f h = cc h
>>=-eq-installed out_of_fuel f h = cc h

core_free :
    (n : String)
    → is_core_performative_name n ≡ true
    → (ps : List PerformativeDef) → any (λ p. is_core_performative_name p.performative) ps ≡ false
    → defines_performative n ps ≡ false
unfolding defines_performative
core_free n core [] h = refl
core_free n core (p ∷ ps) h = elim (String-cases p.performative n) [
  | inl same ↦ absurd (ground (arith, h, core, ap is_core_performative_name same))
  | inr other ↦ rw other (core_free n core ps (ground (arith, h)))
]

-- What R1, R2 and R3 ask of a dialect.
pub record IsAdmitted {X : Type 0} (d : Dialect X) : Type 0 where
  pub no_recursion : (d.name == base_name) ≡ false → (n : String) → ¬ Expands d.performatives n n
  pub no_core :
      (d.name == base_name) ≡ false
      → (n : String) → is_core_performative_name n ≡ true
      → defines_performative n d.performatives ≡ false
  pub depth_bound : d.resources.max_depth ≤ 64
  pub size_bound : d.resources.max_expansion_size ≤ 8192
  pub budget :
      (p : CausalProtocol)
      → d.causal_protocol ≡ some p
      → expansion_size p < d.resources.max_expansion_size

module _ {X V W : Type 0} (d : Dialect X) where
  refused_r1 :
      {P : Type 0} (e : Dialect X) → refuse_r1 {V = V} {W = W} (r1_violations d) ≡ installed e → P
  refused_r1 e h = elim (Option-cases (r1_violations d)) [
    | inl stuck ↦ cc (rw stuck at h)
    | inr (vs, q) ↦ cc (rw q at h)
  ]

  r1_lem :
      (e : Dialect X)
      → r1_check {V = V} {W = W} d ≡ installed e
      → (d ≡ e) × ((d.name == base_name) ≡ false → (n : String) → ¬ Expands d.performatives n n)
  unfolding r1_check
  r1_lem e h = elim (Option-cases (verify_r1_dialect d)) [
    | inl stuck ↦ cc (rw (stuck, r1_check) at h)
    | inr (true, q) ↦ (
      ground (arith, h, q),
      λ other. let (b, q', iff) = verify_r1_dialect_iff d other in iff.0 (cc (q, q')),
    )
    | inr (false, q) ↦ refused_r1 e (rw (q, r1_check) at h)
  ]

  r2_lem :
      (e : Dialect X)
      → r2_check {V = V} {W = W} d ≡ installed e
      → (d ≡ e) × (d.resources.max_depth ≤ 64) × (d.resources.max_expansion_size ≤ 8192)
  unfolding r2_check is_valid
  r2_lem e h = ground (arith, h)

  budget_at :
      (p : CausalProtocol) (e : Dialect X)
      → d.causal_protocol ≡ some p
      → ◌≡◌ {A = Installed (Dialect X) V W}
          (if leb d.resources.max_expansion_size (expansion_size p)
            then refused
                (r2_protocol_budget_exceeded (expansion_size p) d.resources.max_expansion_size)
            else installed d)
          (installed e)
      → (d ≡ e)
        × ((p : CausalProtocol)
            → d.causal_protocol ≡ some p
            → expansion_size p < d.resources.max_expansion_size)
  budget_at p e q h = elim (Bool-cases (leb d.resources.max_expansion_size (expansion_size p))) [
    | inl over ↦ cc (rw over at h)
    | inr fits ↦ (cc (rw fits at h), λ p' q'. let same : p' ≡ p = cc in ground (arith, fits, same))
  ]

  budget_lem :
      (e : Dialect X)
      → check_protocol_expansion_budget {V = V} {W = W} d ≡ installed e
      → (d ≡ e)
        × ((p : CausalProtocol)
            → d.causal_protocol ≡ some p
            → expansion_size p < d.resources.max_expansion_size)
  unfolding check_protocol_expansion_budget
  budget_lem e h = elim (Option-cases d.causal_protocol) [
    | inl absent ↦ (cc (rw (absent, check_protocol_expansion_budget) at h), λ p q. cc)
    | inr (p, q) ↦ budget_at p e q (rw (q, check_protocol_expansion_budget) at h)
  ]

  r3_lem :
      (e : Dialect X)
      → r3_check {V = V} {W = W} d ≡ installed e
      → (d ≡ e)
        × ((d.name == base_name) ≡ false
            → (n : String) → is_core_performative_name n ≡ true
            → defines_performative n d.performatives ≡ false)
  unfolding r3_check verify_r3
  r3_lem e h = elim (Bool-cases (verify_r3 d)) [
    | inl pass ↦ (
      cc (rw (pass, r3_check) at h),
      λ other n core. core_free n core d.performatives (ground (arith, pass, other)),
    )
    | inr fail ↦ cc (rw (fail, r3_check) at h)
  ]

  r5_lem :
      (fuel : ℕ) (r : Registry X) (e : Dialect X)
      → r5_check {V = V} {W = W} fuel r d ≡ installed e
      → d ≡ e
  unfolding r5_check
  r5_lem fuel r e h = ground (arith, h)

-- The fields that R6 and the hash leave alone.
abbrev pub SameBody : {X : Type 0} → Dialect X → Dialect X → Type 0
SameBody d e =
    (e.name ≡ d.name)
    × (e.performatives ≡ d.performatives)
    × (e.resources ≡ d.resources)
    × (e.causal_protocol ≡ d.causal_protocol)

module _ {X V W : Type 0} (l : Layers X V W) where
  r6_lem : (d e : Dialect X) → apply_r6 l d ≡ installed e → SameBody d e
  unfolding apply_r6
  r6_lem d e h = ground (arith, h)

  static_checks_lem :
      (fuel : ℕ) (r : Registry X) (d e : Dialect X)
      → static_checks l fuel r d ≡ installed e
      → IsAdmitted d × SameBody d e
  unfolding static_checks
  static_checks_lem fuel r d e h =
      let (d5, h5, k6) = >>=-eq-installed _ (apply_r6 l) h in
      let (d4, h4, k5) = >>=-eq-installed _ (r5_check fuel r) h5 in
      let (d3, h3, k4) = >>=-eq-installed _ r3_check h4 in
      let (d2, h2, k3) = >>=-eq-installed _ check_protocol_expansion_budget h3 in
      let (d1, k1, k2) = >>=-eq-installed _ r2_check h2 in
      let (s1, acyclic) = r1_lem d d1 k1 in
      let c2 = subst (λ x. r2_check {V = V} {W = W} x ≡ installed d2) (sym s1) k2 in
      let (s2, deep, size) = r2_lem d d2 c2 in
      let c3 =
        subst (λ x. check_protocol_expansion_budget {V = V} {W = W} x ≡ installed d3) (sym s2) k3 in
      let (s3, steps) = budget_lem d d3 c3 in
      let c4 = subst (λ x. r3_check {V = V} {W = W} x ≡ installed d4) (sym s3) k4 in
      let (s4, core) = r3_lem d d4 c4 in
      let c5 = subst (λ x. r5_check {V = V} {W = W} fuel r x ≡ installed d5) (sym s4) k5 in
      let s5 = r5_lem {V = V} {W = W} d fuel r d5 c5 in
      (
        record {
          no_recursion = acyclic;
          no_core = core;
          depth_bound = deep;
          size_bound = size;
          budget = steps;
        },
        r6_lem d e (subst (λ x. apply_r6 l x ≡ installed e) (sym s5) k6),
      )

  -- What an installation adds: one dialect, at the end.
  abbrev pub Adds : Registry X → Dialect X → Registry X → Type 0
  Adds r d r' = (e : Dialect X) × (r' ≡ r ++ e ∷ []) × SameBody d e × IsAdmitted d

  ensure_hash-SameBody : (d e : Dialect X) → SameBody d e → SameBody d (ensure_hash l e)
  unfolding ensure_hash
  ensure_hash-SameBody d e (a, b, c, p) = ground arith

  r7_lem : (d e : Dialect X) → r7_check l d ≡ installed e → d ≡ e
  unfolding r7_check
  r7_lem d e h = ground (arith, h)

  accept_signed_lem :
      (verify : List ℕ → List ℕ → Bool) (r r' : Registry X) (e : Dialect X)
      (result found : R4Result)
      → accept_signed l verify r e found ≡ installed (r', result)
      → (r' ≡ r ++ ensure_hash l e ∷ []) × (result ≢ invalid)
  accept_signed_lem verify r r' e result valid h = (cc h, λ q. cc)
  accept_signed_lem verify r r' e result unsigned h = (cc h, λ q. cc)
  accept_signed_lem verify r r' e result invalid h = cc h

  pub install_lem :
      (fuel : ℕ) (r r' : Registry X) (d : Dialect X)
      → install l fuel r d ≡ installed r'
      → Adds r d r'
  unfolding install
  install_lem fuel r r' d h =
      let (e, k, last) =
        >>=-eq-installed (static_checks l fuel r d >>= r7_check l)
          (λ final. installed (r ++ ensure_hash l final ∷ [])) h in
      let (e1, k1, k7) = >>=-eq-installed (static_checks l fuel r d) (r7_check l) k in
      let (ok, same) = static_checks_lem fuel r d e1 k1 in
      let same7 = subst (λ x. SameBody d x) (r7_lem e1 e k7) same in
      (ensure_hash l e, cc last, ensure_hash-SameBody d e same7, ok)

  -- An installation with a signer that succeeds adds one dialect at the end, with the name,
  -- performatives, resources and protocol of the given one, and without the result invalid; that
  -- dialect has a depth bound of at most 64, a size bound of at most 8192, a protocol within its
  -- budget, and, unless it is named cbcl-base, no recursion and no core performative.
  pub install_with_signer_lem :
      (verify : List ℕ → List ℕ → Bool) (fuel : ℕ) (r r' : Registry X) (d : Dialect X)
      (result : R4Result)
      → install_with_signer l verify fuel r d ≡ installed (r', result)
      → Adds r d r' × (result ≢ invalid)
  unfolding install_with_signer
  install_with_signer_lem verify fuel r r' d result h =
      let (e, k, last) =
        >>=-eq-installed (static_checks l fuel r d)
          (λ final. accept_signed l verify r final (check_r4 l verify final)) h in
      let (ok, same) = static_checks_lem fuel r d e k in
      let (grown, fine) = accept_signed_lem verify r r' e result (check_r4 l verify e) last in
      ((ensure_hash l e, grown, ensure_hash-SameBody d e same, ok), fine)
