-- ===== src/Resources/Eval.antt =====
-- What the bounded evaluation computes (crates/cbcl-core/src/r2.rs).
use cbcl_rs.Prelude.{
  Bool, List, Option, Option-cases, [], ap, arith, false, if◌then◌else◌, inl, inr, is_empty,
  is_some, length, ltb, none, refl, some, suc, sym, true, zero, ℕ, ◌%◌, ◌&&◌, ◌+◌, ◌<◌, ◌||◌, ◌∙◌,
  ◌∷◌, ◌≡◌,
}
use cbcl_rs.Sexpr.{SExpr, Items, atom, list, nil, cons}
use cbcl_rs.Resources.{
  ResourceBounds, is_valid, initial, ResourceState, enter, enter_depth, add_expansion, bounded_eval,
  byte_size, u32_range, exit_depth,
}

-- The sizes of the non-empty lists on the way down the heads.
abbrev pub chain : SExpr → List ℕ
chain (atom a) = []
chain (list nil) = []
chain (list (cons head rest)) = byte_size (list (cons head rest)) ∷ chain head

abbrev pub sum : List ℕ → ℕ
sum [] = 0
sum (n ∷ ns) = n + sum ns

-- Does a chain of lists fit the fuel and the limits?
abbrev pub fits : ℕ → List ℕ → ResourceState → Bool
fits fuel sizes rs =
    ltb (length sizes) fuel
    && (is_empty sizes
        || (ltb (rs.current_depth + length sizes) rs.max_depth
            && ltb (rs.expansion_size + sum sizes) rs.max_exp_size))

abbrev pub spent : ℕ → ResourceState → ResourceState
spent n rs = record rs { expansion_size = rs.expansion_size + n }

abbrev entered : ℕ → ResourceState → ResourceState
entered n rs = record rs {
  current_depth = rs.current_depth + 1;
  expansion_size = rs.expansion_size + n;
}

mod_small : (n : ℕ) → n < u32_range → n % u32_range ≡ n
mod_small n h = omega arith

enter_lem :
    (n : ℕ) (rs : ResourceState)
    → rs.current_depth + 1 < u32_range
    → rs.expansion_size + n < u32_range
    → enter (n % u32_range) rs ≡ (
        if ltb (rs.current_depth + 1) rs.max_depth && ltb (rs.expansion_size + n) rs.max_exp_size
        then some (entered n rs)
        else none)
unfolding enter enter_depth add_expansion
enter_lem n rs d s = ground (
  arith,
  mod_small n (omega arith),
  mod_small (rs.current_depth + 1) d,
  mod_small (rs.expansion_size + n) s,
)

fits-suc :
    (fuel n : ℕ) (ns : List ℕ) (rs : ResourceState)
    → fits (suc fuel) (n ∷ ns) rs ≡ (
        (ltb (rs.current_depth + 1) rs.max_depth && ltb (rs.expansion_size + n) rs.max_exp_size)
        && fits fuel ns (entered n rs))
fits-suc fuel n [] rs = ground arith
fits-suc fuel n (m ∷ ns) rs = ground arith

leave : (n k : ℕ) (rs : ResourceState) → exit_depth (spent k (entered n rs)) ≡ spent (n + k) rs
unfolding exit_depth
leave n k rs =
    ap (λ (p : ℕ × ℕ). record rs { current_depth = p.0; expansion_size = p.1 }) (ground arith)

abbrev finish : SExpr → Option (SExpr × ResourceState) → Option (SExpr × ResourceState)
finish e none = none
finish e (some (_, rs)) = some (e, exit_depth rs)

descended :
    (ok : Bool) (head e : SExpr) (n k : ℕ) (rs : ResourceState)
    → finish e (if ok then some (head, spent k (entered n rs)) else none)
      ≡ (if ok then some (e, spent (n + k) rs) else none)
descended false head e n k rs = refl
descended true head e n k rs = rw (leave n k rs) refl

abbrev step : ℕ → SExpr → SExpr → Option ResourceState → Option (SExpr × ResourceState)
step fuel head e none = none
step fuel head e (some inner) = finish e (bounded_eval fuel head inner)

-- One level: `ok` is the test on entry.
within :
    (ok : Bool) (fuel : ℕ) (head e : SExpr) (n : ℕ) (rs : ResourceState)
    → bounded_eval fuel head (entered n rs) ≡ (
        if fits fuel (chain head) (entered n rs)
        then some (head, spent (sum (chain head)) (entered n rs))
        else none)
    → step fuel head e (if ok then some (entered n rs) else none) ≡ (
        if ok && fits fuel (chain head) (entered n rs)
        then some (e, spent (n + sum (chain head)) rs)
        else none)
within false fuel head e n rs h = refl
within true fuel head e n rs h =
    rw h (descended (fits fuel (chain head) (entered n rs)) head e n (sum (chain head)) rs)

unrolled :
    (fuel : ℕ) (head : SExpr) (rest : Items) (rs : ResourceState)
    → bounded_eval (suc fuel) (list (cons head rest)) rs
      ≡ step fuel head
          (list (cons head rest))
          (enter (byte_size (list (cons head rest)) % u32_range) rs)
unfolding bounded_eval
unrolled fuel head rest rs =
    elim (Option-cases (enter (byte_size (list (cons head rest)) % u32_range) rs)) [
      | inl n ↦ rw (n, bounded_eval) refl
      | inr (inner, e) ↦
          rw (e, bounded_eval)
            (elim (Option-cases (bounded_eval fuel head inner)) [
              | inl n ↦ rw (n, bounded_eval) refl
              | inr (r, h) ↦ rw h refl
            ])
    ]

level :
    (fuel : ℕ) (head : SExpr) (rest : Items) (n : ℕ)
    → n ≡ byte_size (list (cons head rest))
    → (rs : ResourceState) → rs.current_depth + 1 < u32_range
    → rs.expansion_size + n < u32_range
    → bounded_eval fuel head (entered n rs) ≡ (
        if fits fuel (chain head) (entered n rs)
        then some (head, spent (sum (chain head)) (entered n rs))
        else none)
    → bounded_eval (suc fuel) (list (cons head rest)) rs ≡ (
        if fits (suc fuel) (n ∷ chain head) rs
        then some (list (cons head rest), spent (n + sum (chain head)) rs)
        else none)
level fuel head rest n e rs d s h =
    unrolled fuel head rest rs
    ∙ ap (λ k. step fuel head (list (cons head rest)) (enter (k % u32_range) rs)) (sym e)
    ∙ ap (step fuel head (list (cons head rest))) (enter_lem n rs d s)
    ∙ within
        (ltb (rs.current_depth + 1) rs.max_depth && ltb (rs.expansion_size + n) rs.max_exp_size)
        fuel head (list (cons head rest)) n rs h
    ∙ ap (λ b. if b then some (list (cons head rest), spent (n + sum (chain head)) rs) else none)
        (sym (fits-suc fuel n (chain head) rs))

-- With a depth and a total size that a u32 holds, the evaluation gives back the expression it got
-- exactly when the fuel exceeds the number of nested non-empty lists at the head and these fit both
-- limits; it then leaves the depth as it was and adds the sizes of those lists to the expansion.
pub bounded_eval_lem :
    (fuel : ℕ) (e : SExpr) (rs : ResourceState)
    → rs.current_depth + length (chain e) < u32_range
    → rs.expansion_size + sum (chain e) < u32_range
    → bounded_eval fuel e rs
      ≡ (if fits fuel (chain e) rs then some (e, spent (sum (chain e)) rs) else none)
unfolding bounded_eval
bounded_eval_lem zero e rs d s = ground arith
bounded_eval_lem (suc fuel) (atom a) rs d s = ground arith
bounded_eval_lem (suc fuel) (list nil) rs d s = ground arith
bounded_eval_lem (suc fuel) (list (cons head rest)) rs d s =
    level fuel head rest (byte_size (list (cons head rest))) refl rs (omega arith) (omega arith) (
      bounded_eval_lem fuel head (entered (byte_size (list (cons head rest))) rs) (omega arith)
        (omega arith))

fits-limits :
    (fuel : ℕ) (ns : List ℕ) (b : ResourceBounds)
    → is_valid b ≡ true
    → fits fuel ns (initial b) ≡ true
    → (length ns < 64) × (sum ns < 8192)
unfolding is_valid initial
fits-limits fuel [] b v f = (omega arith, omega arith)
fits-limits fuel (n ∷ ns) b v f = ground arith

-- Under valid bounds an evaluation from the initial state that returns has met fewer than 64 nested
-- non-empty lists at the head, of fewer than 8192 bytes in all (for sizes that a u32 holds).
pub bounded_eval-limits :
    (fuel : ℕ) (e : SExpr) (b : ResourceBounds)
    → is_valid b ≡ true
    → length (chain e) < u32_range
    → sum (chain e) < u32_range
    → is_some (bounded_eval fuel e (initial b)) ≡ true
    → (length (chain e) < 64) × (sum (chain e) < 8192)
unfolding initial
bounded_eval-limits fuel e b v d s h =
    fits-limits fuel (chain e) b v
      (ground (arith, bounded_eval_lem fuel e (initial b) (omega arith) (omega arith)))
