-- ===== src/Resources.antt =====
-- Resource bounds (crates/cbcl-core/src/r2.rs, ResourceBounds of dialect.rs and SExpr::byte_size of
-- sexpr.rs). A u32 is a number; its additions wrap, as a build without overflow checks has them.
pub mod Eval
mod Tests
use cbcl_rs.Prelude.{
  Bool, Option, if◌then◌else◌, leb, ltb, none, some, suc, zero, ℕ, ◌%◌, ◌&&◌, ◌+◌, ◌-◌,
}
use Prim.Native.String.{len}
use cbcl_rs.Sexpr.{Atom, SExpr, Items, symbol, str, num, bool, keyword, atom, list, nil, cons}

pub record ResourceBounds : Type 0 where
  pub max_depth : ℕ
  pub max_expansion_size : ℕ
  pub verification_time_ms : ℕ

unfoldable pub is_valid : ResourceBounds → Bool
is_valid b =
    ltb 0 b.max_depth
    && leb b.max_depth 64
    && ltb 0 b.max_expansion_size
    && leb b.max_expansion_size 8192
    && ltb 0 b.verification_time_ms
    && leb b.verification_time_ms 1000

pub record ResourceState : Type 0 where
  pub current_depth : ℕ
  pub expansion_size : ℕ
  pub max_depth : ℕ
  pub max_exp_size : ℕ

-- The number of values of a u32.
abbrev pub u32_range : ℕ
u32_range = 4294967296

unfoldable pub enter_depth : ResourceState → Option ResourceState
enter_depth rs =
    let new_depth = (rs.current_depth + 1) % u32_range in
    if ltb new_depth rs.max_depth then some (record rs { current_depth = new_depth }) else none

unfoldable pub add_expansion : ℕ → ResourceState → Option ResourceState
add_expansion size rs =
    let new_size = (rs.expansion_size + size) % u32_range in
    if ltb new_size rs.max_exp_size then some (record rs { expansion_size = new_size }) else none

unfoldable pub exit_depth : ResourceState → ResourceState
exit_depth rs = record rs { current_depth = rs.current_depth - 1 }

unfoldable pub remaining_depth : ResourceState → ℕ
remaining_depth rs = rs.max_depth - rs.current_depth

unfoldable pub initial : ResourceBounds → ResourceState
initial b = record {
  current_depth = 0;
  expansion_size = 0;
  max_depth = b.max_depth;
  max_exp_size = b.max_expansion_size;
}

abbrev atom_size : Atom → ℕ
atom_size (symbol s) = len s
atom_size (str s) = len s
atom_size (num n) = 8
atom_size (bool b) = 1
atom_size (keyword s) = len s

unfoldable mutual
  pub byte_size : SExpr → ℕ
  byte_size (atom a) = atom_size a
  byte_size (list items) = items_size items

  pub items_size : Items → ℕ
  items_size nil = 0
  items_size (cons e items) = byte_size e + items_size items

unfoldable pub enter : ℕ → ResourceState → Option ResourceState
unfolding enter_depth add_expansion
enter size rs = elim (enter_depth rs) [ none ↦ none | some inner ↦ add_expansion size inner ]

-- The expression and the state that the caller is left with; on `none` the caller's is unchanged.
unfoldable pub bounded_eval : ℕ → SExpr → ResourceState → Option (SExpr × ResourceState)
bounded_eval zero expr rs = none
bounded_eval (suc fuel) (atom a) rs = some (atom a, rs)
bounded_eval (suc fuel) (list nil) rs = some (list nil, rs)
bounded_eval (suc fuel) (list (cons head rest)) rs =
    elim (enter (byte_size (list (cons head rest)) % u32_range) rs) [
      | none ↦ none
      | some rs_inner ↦ elim (bounded_eval fuel head rs_inner) [
        | none ↦ none
        | some (_, rs_after) ↦ some (list (cons head rest), exit_depth rs_after)
      ]
    ]
