-- ===== src/Canonical.antt =====
-- The canonical form of expressions, over which dialects and messages are signed
-- (crates/cbcl-core/src/canonical.rs). A byte is a number. A sink is what comes before a rest.
mod Digits
mod Utf8
pub mod Injective
mod Tests
use cbcl_rs.Prelude.{
  List, String, [], eqb, if◌then◌else◌, length, ltb, suc, zero, ℕ, ◌%◌, ◌++◌, ◌+◌, ◌/◌, ◌∷◌,
}
use Prim.Native.Char.{code}
use cbcl_rs.Sexpr.{
  Atom, Items, SExpr, atom, bool, cons, keyword, list, negsuc, nil, num, pos, str, symbol, ℤ,
}

-- The UTF-8 of a code point, and of a text: Rust's `as_bytes`.
unfoldable pub utf8_char : ℕ → List ℕ → List ℕ
utf8_char c rest =
    if ltb c 128
    then c ∷ rest
    else if ltb c 2048
    then (192 + c / 64) ∷ (128 + c % 64) ∷ rest
    else if ltb c 65536
    then (224 + c / 4096) ∷ (128 + c / 64 % 64) ∷ (128 + c % 64) ∷ rest
    else (240 + c / 262144) ∷ (128 + c / 4096 % 64) ∷ (128 + c / 64 % 64) ∷ (128 + c % 64) ∷ rest

unfoldable pub as_bytes : String → List ℕ
as_bytes String.[] = []
as_bytes (String.◌∷◌ c s) = utf8_char (code c) (as_bytes s)

-- The loop over the digits of a number, from the last one, in a buffer with so many places.
unfoldable pub digits : ℕ → ℕ → List ℕ → List ℕ
digits zero n rest = rest
digits (suc places) n rest =
    let longer = digits places (n / 10) ((b'0' + n % 10) ∷ rest) in
    if eqb (n / 10) 0 then (b'0' + n % 10) ∷ rest else longer

unfoldable pub num_octets : ℤ → List ℕ
num_octets (pos n) = digits 21 n []
num_octets (negsuc n) = b'-' ∷ digits 21 (n + 1) []

unfoldable pub atom_to_octets : Atom → List ℕ
atom_to_octets (symbol s) = b'S' ∷ as_bytes s
atom_to_octets (keyword k) = b'K' ∷ as_bytes k
atom_to_octets (str s) = b'Q' ∷ as_bytes s
atom_to_octets (num n) = b'N' ∷ num_octets n
atom_to_octets (bool b) = b'B' ∷ (if b then b't' else b'f') ∷ []

unfoldable pub encode_tagged_to : ℕ → List ℕ → List ℕ → List ℕ
encode_tagged_to tag octets rest = digits 64 (length octets + 1) (b':' ∷ tag ∷ (octets ++ rest))

unfoldable pub encode_symbol_to : String → List ℕ → List ℕ
encode_symbol_to s rest = encode_tagged_to b'S' (as_bytes s) rest

unfoldable pub encode_atom_to : Atom → List ℕ → List ℕ
encode_atom_to (symbol s) rest = encode_symbol_to s rest
encode_atom_to (keyword k) rest = encode_tagged_to b'K' (as_bytes k) rest
encode_atom_to (str s) rest = encode_tagged_to b'Q' (as_bytes s) rest
encode_atom_to (bool b) rest = encode_tagged_to b'B' ((if b then b't' else b'f') ∷ []) rest
encode_atom_to (num n) rest = encode_tagged_to b'N' (num_octets n) rest

unfoldable mutual
  pub encode_to : SExpr → List ℕ → List ℕ
  encode_to (atom a) rest = encode_atom_to a rest
  encode_to (list items) rest = b'(' ∷ encode_all_to items (b')' ∷ rest)

  pub encode_all_to : Items → List ℕ → List ℕ
  encode_all_to nil rest = rest
  encode_all_to (cons item items) rest = encode_to item (encode_all_to items rest)

unfoldable pub canonical_encode : SExpr → List ℕ
canonical_encode e = encode_to e []
