-- ===== src/Dialect/Registry/Core.antt =====
-- The core performatives keep their definitions (R3, crates/cbcl-core/src/dialect.rs and r3.rs).
use cbcl_rs.Prelude.{
  Bool, List, String, [], all, ap, arith, false, get_elem?, refl, retain, some, true, ℕ, ◌++◌, ◌==◌,
  ◌∙◌, ◌∷◌, ◌≡◌,
}
use cbcl_rs.Dialect.{Dialect, base_name, defines_performative, is_core_performative_name}
use cbcl_rs.Dialect.Registry.{
  Layers, Registry, installed, R4Result, install, install_with_signer, new_registry, base_dialect,
  dialects_defining, base_definer_of, find_by_name,
}
use cbcl_rs.Dialect.Registry.Admitted.{Adds, install_lem, install_with_signer_lem}

-- The registries that come of installations of dialects that do not carry the base's name.
pub data Grown {X V W : Type 0} (l : Layers X V W) : Registry X → Type 0 where
  fresh : Grown l (new_registry l)
  plainly :
      {r r' : Registry X} (fuel : ℕ) (d : Dialect X)
      → Grown l r
      → (d.name == base_name) ≡ false
      → install l fuel r d ≡ installed r'
      → Grown l r'
  signed :
      {r r' : Registry X} (verify : List ℕ → List ℕ → Bool) (fuel : ℕ) (d : Dialect X)
      (result : R4Result)
      → Grown l r
      → (d.name == base_name) ≡ false
      → install_with_signer l verify fuel r d ≡ installed (r', result)
      → Grown l r'

retain-snoc :
    {A : Type 0} (p : A → Bool) (xs : List A) (y : A)
    → p y ≡ false
    → retain p (xs ++ y ∷ []) ≡ retain p xs
retain-snoc p [] y h = rw h
retain-snoc p (x ∷ xs) y h = rw (retain-snoc p xs y h)

find_by_name-snoc :
    {X : Type 0} (k : String) (r : Registry X) (e b : Dialect X)
    → find_by_name k r ≡ some b
    → find_by_name k (r ++ e ∷ []) ≡ some b
unfolding find_by_name
find_by_name-snoc k [] e b h = cc
find_by_name-snoc k (x ∷ xs) e b h = ground (arith, h, find_by_name-snoc k xs e b)

module _ {X V W : Type 0} (l : Layers X V W) (n : String)
    (core : is_core_performative_name n ≡ true) where
  -- The base dialect stands first, and it alone defines the core performative.
  abbrev pub IsCore : Registry X → Type 0
  IsCore r =
      (get_elem? r 0 ≡ some (base_dialect l))
      × (base_definer_of n r ≡ some (base_dialect l))
      × (find_by_name base_name r ≡ some (base_dialect l))
      × (dialects_defining n r ≡ base_dialect l ∷ [])

  base_defines : defines_performative n (base_dialect l).performatives ≡ true
  unfolding base_dialect defines_performative is_core_performative_name
  base_defines = core

  base_named : ((base_dialect l).name == base_name) ≡ true
  unfolding base_dialect
  base_named = refl

  front :
      (r : Registry X) (e b : Dialect X)
      → get_elem? r 0 ≡ some b
      → (get_elem? (r ++ e ∷ []) 0 ≡ get_elem? r 0)
        × (base_definer_of n (r ++ e ∷ []) ≡ base_definer_of n r)
  unfolding base_definer_of
  front [] e b h = cc
  front (x ∷ xs) e b h = (refl, refl)

  IsCore-fresh : IsCore (new_registry l)
  unfolding new_registry base_definer_of dialects_defining find_by_name
  IsCore-fresh = (refl, rw base_defines refl, rw base_named refl, rw base_defines refl)

  IsCore-Adds :
      (r r' : Registry X) (d : Dialect X)
      → (d.name == base_name) ≡ false
      → Adds l r d r'
      → IsCore r
      → IsCore r'
  unfolding dialects_defining
  IsCore-Adds r r' d other (e, grown, same, ok) (at, definer, found, all) =
      let (first, second) = front r e (base_dialect l) at in
      let foreign : defines_performative n e.performatives ≡ false =
        ap (defines_performative n) same.1 ∙ ok.no_core other n core in
      rw grown (
        first ∙ at,
        second ∙ definer,
        find_by_name-snoc base_name r e (base_dialect l) found,
        retain-snoc (λ x. defines_performative n x.performatives) r e foreign ∙ all,
      )

  -- In a registry that has grown from the base dialect by installations, with a signer or without,
  -- of dialects that are not named cbcl-base, the base dialect stands first, is found by its name,
  -- and is both the base definer of each core performative and the only dialect that defines it.
  pub Grown-IsCore : {r : Registry X} → Grown l r → IsCore r
  Grown-IsCore fresh = IsCore-fresh
  Grown-IsCore (plainly {r} {r'} fuel d g other h) =
      IsCore-Adds r r' d other (install_lem l fuel r r' d h) (Grown-IsCore g)
  Grown-IsCore (signed {r} {r'} verify fuel d result g other h) =
      IsCore-Adds r r' d other (install_with_signer_lem l verify fuel r r' d result h).0
        (Grown-IsCore g)
