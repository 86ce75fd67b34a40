-- ===== src/Canonical/Tests.antt =====
-- Runs of the canonical encoder.
use cbcl_rs.Prelude.{[], arith, refl, true, ◌∷◌, ◌≡◌}
use cbcl_rs.Sexpr.{SExpr, atom, bool, cons, list, negsuc, nil, num, symbol}
use cbcl_rs.Canonical.{
  utf8_char, encode_atom_to, encode_tagged_to, digits, num_octets, encode_symbol_to, encode_to,
  as_bytes, canonical_encode,
}
use cbcl_rs.Canonical.Injective.{IsEncodable, canonical_encode_injective}

abbrev sample : SExpr
sample =
    list (cons (atom (symbol "é")) (cons (atom (num (negsuc 6))) (cons (atom (bool true)) nil)))

-- (3:S\xC3\xA93:N-72:Bt)
encode_sample :
    canonical_encode sample
    ≡ b'(' ∷ b'3' ∷ b':' ∷ b'S' ∷ 195 ∷ 169 ∷ b'3' ∷ b':' ∷ b'N' ∷ b'-' ∷ b'7' ∷ b'2' ∷ b':' ∷ b'B'
      ∷ b't' ∷ b')' ∷ []
unfolding canonical_encode encode_to encode_atom_to encode_symbol_to encode_tagged_to digits
    as_bytes utf8_char num_octets
encode_sample = refl

sample-IsEncodable : IsEncodable sample
unfolding as_bytes utf8_char
sample-IsEncodable = omega arith

canonical_encode_injective_example : sample ≡ sample
canonical_encode_injective_example =
    canonical_encode_injective sample sample sample-IsEncodable sample-IsEncodable refl
