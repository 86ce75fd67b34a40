-- ===== src/Dialect/Recursion/Search.antt =====
-- The search for a cycle (`reaches_cycle` of crates/cbcl-core/src/r1.rs): it ends, and it is exact.
use cbcl_rs.Prelude.{
  Bool, Bool-cases, List, Map, Option-cases, String, String-cases, [], ap, arith, contains, eq_iff,
  eq_refl, false, get, if◌then◌else◌, inl, inr, keys, length, ne_of_test, none, not, refl, retain,
  some, subst, suc, true, zero, ℕ, ◌+◌, ◌<◌, ◌==◌, ◌∷◌, ◌≡◌, ◌≢◌, ◌≤◌, ◌⊎◌,
}
use cbcl_rs.Dialect.Recursion.{Found, found_or, scan, reaches_cycle}
use cbcl_rs.Dialect.Recursion.Chains.{Chain, Depends, edge, step, cut}

-- What a search from `x` is to find out: it answers; yes means a chain, and no means that none
-- leads through nodes that were not being visited, and that these are left as they were.
abbrev pub Answers : Map (List String) → String → List String → String → Found → Type 0
Answers g t visiting x r =
    (b : Bool) × (v : List String) × (r ≡ some (b, v))
    × (b ≡ true → Chain g t [] x)
    × (b ≡ false → (v ≡ visiting) × (¬ Chain g t visiting x))

retain_absent :
    (x : String) (xs : List String) → contains xs x ≡ false → retain (λ y. not (y == x)) xs ≡ xs
retain_absent x [] h = refl
retain_absent x (y ∷ ys) h = ground (arith, eq_iff y x, retain_absent x ys)

retain_new :
    (x : String) (xs : List String)
    → contains xs x ≡ false
    → retain (λ y. not (y == x)) (x ∷ xs) ≡ xs
retain_new x xs h = ground (arith, eq_iff x x, retain_absent x xs)

-- The nodes that a search may still come to.
pub unvisited : List String → List String → ℕ
unvisited [] visiting = 0
unvisited (k ∷ ks) visiting =
    let rest = unvisited ks visiting in if contains visiting k then rest else rest + 1

unvisited_le :
    (ks visiting : List String) (x : String) → unvisited ks (x ∷ visiting) ≤ unvisited ks visiting
unfolding unvisited
unvisited_le [] visiting x = omega arith
unvisited_le (k ∷ ks) visiting x = ground (arith, unvisited_le ks visiting x)

unvisited_lt :
    (ks visiting : List String) (x : String)
    → contains visiting x ≡ false
    → contains ks x ≡ true
    → unvisited ks (x ∷ visiting) < unvisited ks visiting
unfolding unvisited
unvisited_lt [] visiting x h m = cc m
unvisited_lt (k ∷ ks) visiting x h m =
    ground (arith, eq_iff k x, eq_iff x k, unvisited_le ks visiting x, unvisited_lt ks visiting x)

unvisited_all : (ks : List String) → unvisited ks [] ≤ length ks
unfolding unvisited
unvisited_all [] = omega arith
unvisited_all (k ∷ ks) = omega (arith, unvisited_all ks)

keys-contain :
    {V : Type 0} (x : String) (g : Map V) {v : V} → get x g ≡ some v → contains (keys g) x ≡ true
unfolding get
keys-contain x [] h = cc h
keys-contain x ((k, w) ∷ g) h = elim (String-cases k x) [
  | inl e ↦ ground (arith, eq_iff k x)
  | inr e ↦ rw e (keys-contain x g (rw e at h))
]

pub keys-Chain :
    {g : Map (List String)} {t : String} {avoid : List String} {x : String}
    → Chain g t avoid x
    → contains (keys g) x ≡ true
keys-Chain {g} {t} {avoid} {x} (edge (ds, e, m)) = keys-contain x g e
keys-Chain {g} {t} {avoid} {x} (step (ds, e, m) out c) = keys-contain x g e

module _ (g : Map (List String)) (t : String) where
  -- What the loop over some dependencies is to find out.
  abbrev Scanned : List String → List String → Found → Type 0
  Scanned visiting ds r =
      (b : Bool) × (v : List String) × (r ≡ some (b, v))
      × (b ≡ true → (d : String) × (contains ds d ≡ true) × ((d ≡ t) ⊎ Chain g t [] d))
      × (b ≡ false
          → (v ≡ visiting)
            × ((d : String)
                → contains ds d ≡ true
                → (d ≢ t) × (contains visiting d ≡ false → ¬ Chain g t (d ∷ visiting) d)))

  later :
      (visiting : List String) (d : String) (ds : List String) (r : Found)
      → d ≢ t
      → (contains visiting d ≡ false → ¬ Chain g t (d ∷ visiting) d)
      → Scanned visiting ds r
      → Scanned visiting (d ∷ ds) r
  later visiting d ds r ne dead (b, v, e, holds, fails) = (
    b,
    v,
    e,
    λ h. let (x, m, c) = holds h in (x, ground arith, c),
    λ h.
        let (same, others) = fails h in
        (
          same,
          λ x m. elim (String-cases d x) [
            | inl q ↦
                subst (λ y. (y ≢ t) × (contains visiting y ≡ false → ¬ Chain g t (y ∷ visiting) y))
                  q (ne, dead)
            | inr q ↦ others x (rw q at m)
          ],
        ),
  )

  found :
      (visiting : List String) (d : String) (ds : List String) (v : List String)
      → (d ≡ t) ⊎ Chain g t [] d
      → Scanned visiting (d ∷ ds) (some (true, v))
  found visiting d ds v c = (true, v, refl, λ _. (d, ground (arith, eq_iff d d), c), λ h. cc h)

  module _ (visit : String → List String → Found) (visiting : List String) where
    abbrev Visits : Type 0
    Visits =
        (d : String)
        → contains visiting d ≡ false
        → Answers g t (d ∷ visiting) d (visit d (d ∷ visiting))

    -- A new dependency: the loop goes on with the nodes as they were if the search there fails.
    descend :
        (d : String) (ds : List String)
        → contains visiting d ≡ false
        → d ≢ t
        → Answers g t (d ∷ visiting) d (visit d (d ∷ visiting))
        → Scanned visiting ds (scan visit t ds visiting)
        → Scanned visiting (d ∷ ds) (
            found_or (visit d (d ∷ visiting)) (λ v. scan visit t ds (retain (λ x. not (x == d)) v)))
    descend d ds new other (true, v, e, holds, fails) rest =
        rw e (found visiting d ds v (inr (holds refl)))
    descend d ds new other (false, v, e, holds, fails) rest =
        rw (e, (fails refl).0, retain_new d visiting new)
          (later visiting d ds _ other (λ _. (fails refl).1) rest)

    scan-Scanned : Visits → (ds : List String) → Scanned visiting ds (scan visit t ds visiting)
    unfolding scan
    scan-Scanned sub [] = (false, visiting, refl, λ h. cc h, λ _. (refl, λ d m. cc m))
    scan-Scanned sub (d ∷ ds) = elim (String-cases d t) [
      | inl same ↦ rw (ap (λ x. x == t) same, eq_refl t) (found visiting d ds visiting (inl same))
      | inr other ↦ elim (Bool-cases (contains visiting d)) [
        | inl seen ↦
            rw (other, seen)
              (later visiting d ds _ (ne_of_test d t other) (λ h c. cc) (scan-Scanned sub ds))
        | inr new ↦
            rw (other, new)
              (descend d ds new (ne_of_test d t other) (sub d new) (scan-Scanned sub ds))
      ]
    ]

  abbrev pub IsNeeded : ℕ → List String → Type 0
  IsNeeded fuel visiting = unvisited (keys g) visiting + 2 ≤ fuel

  at_dead_end : {x : String} {avoid : List String} → get x g ≡ none → ¬ Chain g t avoid x
  at_dead_end e (edge (ds, p, m)) = cc
  at_dead_end e (step (ds, p, m) out c) = cc

  lengthen :
      {x d : String} {ds : List String}
      → get x g ≡ some ds
      → contains ds d ≡ true
      → (d ≡ t) ⊎ Chain g t [] d
      → Chain g t [] x
  lengthen {ds = ds} e m (inl same) = edge (ds, e, subst (λ y. contains ds y ≡ true) same m)
  lengthen {ds = ds} e m (inr c) = step (ds, e, m) refl c

  listed :
      (x y : String) {ds : List String} → get x g ≡ some ds → Depends g x y → contains ds y ≡ true
  listed x y e (ds, p, m) = cc

  no_way :
      {x : String} {visiting ds : List String}
      → get x g ≡ some ds
      → ((d : String)
          → contains ds d ≡ true
          → (d ≢ t) × (contains visiting d ≡ false → ¬ Chain g t (d ∷ visiting) d))
      → ¬ Chain g t visiting x
  no_way {x} e dead (edge d) = (dead t (listed x t e d)).0 refl
  no_way e dead (step {x} {y} d out c) =
      let ends = (dead y (listed x y e d)).1 out in
      elim (cut y c) [ inl a ↦ ends a | inr a ↦ ends a ]

  at_leaf :
      (fuel : ℕ) (x : String) (visiting : List String)
      → 0 < fuel
      → get x g ≡ none
      → Answers g t visiting x (reaches_cycle fuel t x g visiting)
  unfolding reaches_cycle
  at_leaf zero x visiting pos e = absurd (omega arith)
  at_leaf (suc fuel) x visiting pos e =
      rw (e, reaches_cycle) (false, visiting, refl, λ h. cc h, λ _. (refl, λ c. at_dead_end e c))

  at_node :
      (fuel : ℕ) (x : String) (visiting ds : List String)
      → get x g ≡ some ds
      → Scanned visiting ds (scan (λ d v. reaches_cycle fuel t d g v) t ds visiting)
      → Answers g t visiting x (reaches_cycle (suc fuel) t x g visiting)
  unfolding reaches_cycle
  at_node fuel x visiting ds e (b, v, r, holds, fails) =
      rw (e, reaches_cycle)
        (
          b,
          v,
          r,
          λ h. let (d, m, c) = holds h in lengthen e m c,
          λ h. ((fails h).0, λ c. no_way e (fails h).1 c),
        )

  -- With more fuel than there are nodes to come to, the search answers.
  pub reaches_cycle-Answers :
      (fuel : ℕ) (x : String) (visiting : List String)
      → IsNeeded fuel visiting
      → Answers g t visiting x (reaches_cycle fuel t x g visiting)
  reaches_cycle-Answers zero x visiting enough = absurd (omega arith)
  reaches_cycle-Answers (suc fuel) x visiting enough = elim (Option-cases (get x g)) [
    | inl leaf ↦ at_leaf (suc fuel) x visiting (omega arith) leaf
    | inr (ds, e) ↦ at_node fuel x visiting ds e (
        scan-Scanned (λ d v. reaches_cycle fuel t d g v) visiting
          (λ d new. elim (Option-cases (get d g)) [
            | inl leaf ↦ at_leaf fuel d (d ∷ visiting) (omega arith) leaf
            | inr (es, q) ↦
                reaches_cycle-Answers fuel d (d ∷ visiting)
                  (omega (arith, unvisited_lt (keys g) visiting d new (keys-contain d g q)))
          ])
          ds)
  ]

  -- The fuel of the program's caller is enough.
  pub reaches_cycle_lem :
      (x : String) → Answers g t [] x (reaches_cycle (length (keys g) + 2) t x g [])
  reaches_cycle_lem x =
      reaches_cycle-Answers (length (keys g) + 2) x [] (omega (arith, unvisited_all (keys g)))
