-- ===== src/Dialect/Recursion/Chains.antt =====
-- Chains of dependencies in a graph (crates/cbcl-core/src/r1.rs).
use cbcl_rs.Prelude.{
  List, Map, String, String-cases, [], contains, false, get, inl, inr, refl, some, subst, sym, true,
  ◌∷◌, ◌≡◌, ◌⊎◌,
}

abbrev pub Depends : Map (List String) → String → String → Type 0
Depends g x y = (ds : List String) × (get x g ≡ some ds) × (contains ds y ≡ true)

-- The chains to `t` whose inner nodes are not in `avoid`.
pub data Chain (g : Map (List String)) (t : String) (avoid : List String) : String → Type 0 where
  edge : {x : String} → Depends g x t → Chain g t avoid x
  step :
      {x y : String}
      → Depends g x y
      → contains avoid y ≡ false
      → Chain g t avoid y
      → Chain g t avoid x

module _ {g : Map (List String)} {t : String} {avoid : List String} where
  pub weaken : {x : String} → Chain g t avoid x → Chain g t [] x
  weaken (edge d) = edge d
  weaken (step d out c) = step d refl (weaken c)

  -- A chain may be cut at its last visit of a node.
  pub cut :
      (z : String) {x : String}
      → Chain g t avoid x
      → Chain g t (z ∷ avoid) x ⊎ Chain g t (z ∷ avoid) z
  cut z (edge d) = inl (edge d)
  cut z (step {x} {y} d out c) = elim (cut z c) [
    | inr at_z ↦ inr at_z
    | inl at_y ↦ elim (String-cases z y) [
      | inl same ↦ inr (subst (λ w. Chain g t (z ∷ avoid) w) (sym same) at_y)
      | inr other ↦ inl (step d (rw other out) at_y)
    ]
  ]
