-- ===== src/Sexpr.antt =====
-- S-expressions (crates/cbcl-core/src/sexpr.rs). A list of expressions is a type of its own,
-- `Items`, since a data type does not hold a list of itself.
use cbcl_rs.Prelude.{Bool, String, false, max, ℕ, ◌+◌, ◌==◌}

-- An i64: `negsuc n` is -(n + 1).
pub data ℤ : Type 0 where
  pos : ℕ → ℤ
  negsuc : ℕ → ℤ

pub data Atom : Type 0 where
  symbol : String → Atom
  str : String → Atom
  num : ℤ → Atom
  bool : Bool → Atom
  keyword : String → Atom

mutual
  pub data SExpr : Type 0 where
    atom : Atom → SExpr
    list : Items → SExpr

  pub data Items : Type 0 where
    nil : Items
    cons : SExpr → Items → Items

unfoldable mutual
  pub depth : SExpr → ℕ
  depth (atom a) = 0
  depth (list items) = 1 + deepest items

  -- The greatest depth of the items, 0 if there are none.
  pub deepest : Items → ℕ
  deepest nil = 0
  deepest (cons e items) = max (depth e) (deepest items)

unfoldable pub is_symbol : String → SExpr → Bool
is_symbol name (atom (symbol s)) = s == name
is_symbol name (atom (str s)) = false
is_symbol name (atom (num n)) = false
is_symbol name (atom (bool b)) = false
is_symbol name (atom (keyword k)) = false
is_symbol name (list items) = false
