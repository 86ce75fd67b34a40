-- ===== src/Dialect/Recursion/Exact.antt =====
-- R1 is exact (`r1_violations` and `verify_r1_dialect` of crates/cbcl-core/src/r1.rs).
use cbcl_rs.Prelude.{
  Bool, List, Map, Option, String, String-cases, [], and_both, and_intro, arith, contains, eq_iff,
  false, inl, inr, is_empty, keys, length, refl, retain, some, subst, sym, true, ℕ, ◌+◌, ◌==◌, ◌↔◌,
  ◌∙◌, ◌∷◌, ◌≡◌, ◌≢◌,
}
use cbcl_rs.Dialect.{Dialect, base_name, performative_names}
use cbcl_rs.Dialect.Recursion.{
  r1_violations, verify_r1_dialect, cyclic_performatives, cyclic_from, dependency_graph,
  reaches_cycle,
}
use cbcl_rs.Dialect.Recursion.Chains.{Chain}
use cbcl_rs.Dialect.Recursion.Search.{Answers, reaches_cycle_lem, keys-Chain}
use cbcl_rs.Dialect.Recursion.Templates.{
  Expands, Expands-Chain, Chain-Expands, Expands-named, contains-retain,
}

module _ (g : Map (List String)) where
  abbrev Cyclic : List String → Option (List String) → Type 0
  Cyclic names r =
      (vs : List String) × (r ≡ some vs)
      × ((x : String) → (contains vs x ≡ true) ↔ ((contains names x ≡ true) × Chain g x [] x))

  Cyclic-cons :
      (name : String) (names : List String) (fuel : ℕ)
      → Answers g name [] name (reaches_cycle fuel name name g [])
      → Cyclic names (cyclic_from fuel g names)
      → Cyclic (name ∷ names) (cyclic_from fuel g (name ∷ names))
  unfolding cyclic_from
  Cyclic-cons name names fuel (true, v, e, holds, fails) (vs, q, iff) = (
    name ∷ vs,
    rw (e, cyclic_from) (rw q),
    λ x. elim (String-cases name x) [
      | inl same ↦ (
        λ _. (ground (arith, eq_iff name x), subst (λ y. Chain g y [] y) same (holds refl)),
        λ _. ground (arith, eq_iff name x),
      )
      | inr other ↦ rw other (iff x)
    ],
  )
  Cyclic-cons name names fuel (false, v, e, holds, fails) (vs, q, iff) = (
    vs,
    rw (e, cyclic_from) (rw q),
    λ x. elim (String-cases name x) [
      | inl same ↦ (
        λ m. (ground (arith, eq_iff name x), ((iff x).0 m).1),
        λ (_, c). absurd ((fails refl).1 (subst (λ y. Chain g y [] y) (sym same) c)),
      )
      | inr other ↦ rw other (iff x)
    ],
  )

  cyclic_from-Cyclic :
      (names : List String) → Cyclic names (cyclic_from (length (keys g) + 2) g names)
  unfolding cyclic_from
  cyclic_from-Cyclic [] = ([], refl, λ x. (λ m. cc m, λ (m, _). cc m))
  cyclic_from-Cyclic (name ∷ names) =
      Cyclic-cons name names (length (keys g) + 2) (reaches_cycle_lem g name name)
        (cyclic_from-Cyclic names)

cyclic_performatives-Cyclic : (g : Map (List String)) → Cyclic g (keys g) (cyclic_performatives g)
unfolding cyclic_performatives
cyclic_performatives-Cyclic g = cyclic_from-Cyclic g (keys g)

empty_lem : (vs : List String) → is_empty vs ≡ true → (n : String) → contains vs n ≢ true
empty_lem [] h n = cc
empty_lem (v ∷ vs) h n = cc

lone : (vs : List String) → ((n : String) → contains vs n ≢ true) → is_empty vs ≡ true
lone [] h = refl
lone (v ∷ vs) h = absurd (h v (ground (arith, eq_iff v v)))

module _ {X : Type 0} (d : Dialect X) (other : (d.name == base_name) ≡ false) where
  -- For a dialect that is not named cbcl-base the search of R1 ends, and lists exactly the
  -- performatives from which a chain of mentions in templates leads back to themselves, where of
  -- several performatives with one name the last counts.
  pub r1_violations_lem :
      (vs : List String) × (r1_violations d ≡ some vs)
      × ((n : String) → (contains vs n ≡ true) ↔ Expands d.performatives n n)
  unfolding r1_violations
  r1_violations_lem =
      let (cyclic, e, iff) = cyclic_performatives-Cyclic (dependency_graph d.performatives) in
      let both = contains-retain (contains cyclic) (performative_names d.performatives) in
      (
        retain (contains cyclic) (performative_names d.performatives),
        rw other (rw e),
        λ n. (
          λ m.
              let parts = and_both _ _ (sym (both n) ∙ m) in
              Expands-Chain d.performatives (((iff n).0 parts.1).1),
          λ c.
              both n
              ∙ and_intro _ _ (Expands-named d.performatives c) (
                  (iff n).1 (
                    keys-Chain (Chain-Expands d.performatives c),
                    Chain-Expands d.performatives c,
                  )),
        ),
      )

  pub verify_r1_dialect_iff :
      (b : Bool) × (verify_r1_dialect d ≡ some b)
      × ((b ≡ true) ↔ ((n : String) → ¬ Expands d.performatives n n))
  unfolding verify_r1_dialect
  verify_r1_dialect_iff =
      let (vs, e, iff) = r1_violations_lem in
      (
        is_empty vs,
        rw other (rw e),
        (λ h n c. empty_lem vs h n ((iff n).1 c), λ none. lone vs (λ n m. none n ((iff n).0 m))),
      )
