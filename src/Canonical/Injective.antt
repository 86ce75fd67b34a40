-- ===== src/Canonical/Injective.antt =====
-- No two expressions have one canonical form, and no form is the start of another's
-- (crates/cbcl-core/src/canonical.rs).
use cbcl_rs.Prelude.{
  List, Option, [], ap, arith, eqb, false, if◌then◌else◌, length, none, refl, some, suc, sym, true,
  zero, ℕ, ◌%◌, ◌*◌, ◌++◌, ◌+◌, ◌-◌, ◌/◌, ◌<◌, ◌^◌, ◌∙◌, ◌∷◌, ◌≡◌, ◌≢◌, ◌≤◌,
}
use cbcl_rs.Sexpr.{
  Atom, Items, SExpr, atom, bool, cons, keyword, list, negsuc, nil, num, pos, str, symbol, ℤ,
}
use cbcl_rs.Canonical.{
  digits, num_octets, atom_to_octets, as_bytes, encode_tagged_to, encode_symbol_to, encode_atom_to,
  encode_to, encode_all_to, canonical_encode,
}
use cbcl_rs.Canonical.Digits.{read-digits, digits-StartsWithDigit}
use cbcl_rs.Canonical.Utf8.{as_bytes_injective}

-- A text has a length that a usize holds, and a number is an i64.
abbrev pub Fits : Atom → Type 0
Fits (symbol s) = length (as_bytes s) + 1 < 2 ^ 64
Fits (keyword k) = length (as_bytes k) + 1 < 2 ^ 64
Fits (str s) = length (as_bytes s) + 1 < 2 ^ 64
Fits (num (pos n)) = n < 2 ^ 63
Fits (num (negsuc n)) = n < 2 ^ 63
Fits (bool b) = Unit

abbrev mutual
  pub IsEncodable : SExpr → Type 0
  IsEncodable (atom a) = Fits a
  IsEncodable (list items) = AllEncodable items

  pub AllEncodable : Items → Type 0
  AllEncodable nil = Unit
  AllEncodable (cons e items) = IsEncodable e × AllEncodable items

-- A number that stands before a byte that is no digit.
read_length : List ℕ → ℕ → Option (ℕ × List ℕ)
read_length [] n = none
read_length (b ∷ rest) n =
    if eqb b b':' then some (n, rest) else read_length rest (n * 10 + (b - b'0'))

read_length_digit :
    (d acc : ℕ) (rest : List ℕ)
    → d < 10
    → read_length ((b'0' + d) ∷ rest) acc ≡ read_length rest (acc * 10 + d)
unfolding read_length
read_length_digit d acc rest h = ground arith

length_injective :
    (n m : ℕ) (r s : List ℕ)
    → n < 2 ^ 64
    → m < 2 ^ 64
    → digits 64 n (b':' ∷ r) ≡ digits 64 m (b':' ∷ s)
    → (n ≡ m) × (r ≡ s)
unfolding read_length
length_injective n m r s p q h =
    let a = read-digits read_length read_length_digit 64 n (b':' ∷ r) (omega arith) in
    let b = read-digits read_length read_length_digit 64 m (b':' ∷ s) (omega arith) in
    let e : some (n, r) ≡ some (m, s) = sym a ∙ ap (λ l. read_length l 0) h ∙ b in (cc e, cc e)

-- The value of digits that end a list.
read_all : List ℕ → ℕ → ℕ
read_all [] n = n
read_all (b ∷ rest) n = read_all rest (n * 10 + (b - b'0'))

read_all_digit :
    (d acc : ℕ) (rest : List ℕ)
    → d < 10
    → read_all ((b'0' + d) ∷ rest) acc ≡ read_all rest (acc * 10 + d)
unfolding read_all
read_all_digit d acc rest h = ap (read_all rest) (omega arith)

value_injective : (n m : ℕ) → n < 2 ^ 64 → m < 2 ^ 64 → digits 21 n [] ≡ digits 21 m [] → n ≡ m
unfolding read_all
value_injective n m p q h =
    sym (read-digits read_all read_all_digit 21 n [] (omega arith))
    ∙ ap (λ l. read_all l 0) h
    ∙ read-digits read_all read_all_digit 21 m [] (omega arith)

sign_apart : (n : ℕ) (r : List ℕ) → ¬ (digits 21 n [] ≡ b'-' ∷ r)
sign_apart n r h = let (d, s, e, low, high) = digits-StartsWithDigit 20 n [] in ground (arith, h, e)

num_octets_injective : (x y : ℤ) → Fits (num x) → Fits (num y) → num_octets x ≡ num_octets y → x ≡ y
unfolding num_octets
num_octets_injective (pos n) (pos m) p q h =
    ap pos (value_injective n m (omega arith) (omega arith) h)
num_octets_injective (pos n) (negsuc m) p q h = absurd (sign_apart n _ h)
num_octets_injective (negsuc n) (pos m) p q h = absurd (sign_apart m _ (sym h))
num_octets_injective (negsuc n) (negsuc m) p q h =
    let e = value_injective (n + 1) (m + 1) (omega arith) (omega arith) (cc h) in
    ap negsuc (omega (arith, e))

pub atom_to_octets_injective :
    (a b : Atom) → Fits a → Fits b → atom_to_octets a ≡ atom_to_octets b → a ≡ b
unfolding atom_to_octets
atom_to_octets_injective (symbol s) (symbol t) p q h = ap symbol (as_bytes_injective s t (cc h))
atom_to_octets_injective (keyword s) (keyword t) p q h = ap keyword (as_bytes_injective s t (cc h))
atom_to_octets_injective (str s) (str t) p q h = ap str (as_bytes_injective s t (cc h))
atom_to_octets_injective (num x) (num y) p q h = ap num (num_octets_injective x y p q (cc h))
atom_to_octets_injective (bool true) (bool true) p q h = refl
atom_to_octets_injective (bool true) (bool false) p q h = ground arith
atom_to_octets_injective (bool false) (bool true) p q h = ground arith
atom_to_octets_injective (bool false) (bool false) p q h = refl
atom_to_octets_injective a b p q h = ground arith

length-digits_le : (w n : ℕ) (rest : List ℕ) → length (digits w n rest) ≤ w + length rest
unfolding digits
length-digits_le zero n rest = omega arith
length-digits_le (suc w) n rest =
    ground (arith, length-digits_le w (n / 10) ((b'0' + n % 10) ∷ rest))

length-octets-lt : (a : Atom) → Fits a → length (atom_to_octets a) < 2 ^ 64
unfolding atom_to_octets num_octets
length-octets-lt (symbol s) h = omega arith
length-octets-lt (keyword s) h = omega arith
length-octets-lt (str s) h = omega arith
length-octets-lt (num (pos n)) h = omega (arith, length-digits_le 21 n [])
length-octets-lt (num (negsuc n)) h = omega (arith, length-digits_le 21 (n + 1) [])
length-octets-lt (bool true) h = omega arith
length-octets-lt (bool false) h = omega arith

encode_tagged_to_lem :
    (tag : ℕ) (octets rest : List ℕ)
    → encode_tagged_to tag octets rest
      ≡ digits 64 (length (tag ∷ octets)) (b':' ∷ tag ∷ (octets ++ rest))
unfolding encode_tagged_to
encode_tagged_to_lem tag octets rest =
    ap (λ n. digits 64 n (b':' ∷ tag ∷ (octets ++ rest))) (omega arith)

pub encode_atom_to_lem :
    (a : Atom) (rest : List ℕ)
    → encode_atom_to a rest
      ≡ digits 64 (length (atom_to_octets a)) (b':' ∷ (atom_to_octets a ++ rest))
unfolding encode_atom_to encode_symbol_to atom_to_octets
encode_atom_to_lem (symbol s) rest = encode_tagged_to_lem b'S' (as_bytes s) rest
encode_atom_to_lem (keyword s) rest = encode_tagged_to_lem b'K' (as_bytes s) rest
encode_atom_to_lem (str s) rest = encode_tagged_to_lem b'Q' (as_bytes s) rest
encode_atom_to_lem (num z) rest = encode_tagged_to_lem b'N' (num_octets z) rest
encode_atom_to_lem (bool b) rest = encode_tagged_to_lem b'B' ((if b then b't' else b'f') ∷ []) rest

append_cancel :
    (xs ys r s : List ℕ) → length xs ≡ length ys → xs ++ r ≡ ys ++ s → (xs ≡ ys) × (r ≡ s)
append_cancel [] [] r s e h = (refl, h)
append_cancel [] (y ∷ ys) r s e h = absurd (omega arith)
append_cancel (x ∷ xs) [] r s e h = absurd (omega arith)
append_cancel (x ∷ xs) (y ∷ ys) r s e h =
    let rest = append_cancel xs ys r s (omega arith) (cc h) in (cc (h, rest.0), rest.1)

encode_atom_injective :
    (a b : Atom) (r s : List ℕ)
    → Fits a
    → Fits b
    → encode_atom_to a r ≡ encode_atom_to b s
    → (a ≡ b) × (r ≡ s)
encode_atom_injective a b r s p q h =
    let e = sym (encode_atom_to_lem a r) ∙ h ∙ encode_atom_to_lem b s in
    let (size, bytes) = length_injective _ _ _ _ (length-octets-lt a p) (length-octets-lt b q) e in
    let (octets, rest) = append_cancel (atom_to_octets a) (atom_to_octets b) r s size bytes in
    (atom_to_octets_injective a b p q octets, rest)

-- A form starts with a digit or an opening parenthesis.
encode_to_start :
    (e : SExpr) (rest : List ℕ) → (d : ℕ) × (t : List ℕ) × (encode_to e rest ≡ d ∷ t) × (d ≢ b')')
unfolding encode_to
encode_to_start (list items) rest = (b'(', _, refl, ground arith)
encode_to_start (atom a) rest =
    let (d, t, e, low, high) =
      digits-StartsWithDigit 63 (length (atom_to_octets a)) (b':' ∷ (atom_to_octets a ++ rest)) in
    (d, t, encode_atom_to_lem a rest ∙ e, omega arith)

atom_no_list : (a : Atom) (r s : List ℕ) → ¬ (encode_atom_to a r ≡ b'(' ∷ s)
atom_no_list a r s h =
    let (d, t, e, low, high) =
      digits-StartsWithDigit 63 (length (atom_to_octets a)) (b':' ∷ (atom_to_octets a ++ r)) in
    ground (arith, h, encode_atom_to_lem a r, e)

mutual
  unfolding encode_to

  pub encode_to_injective :
      (e f : SExpr) (r s : List ℕ)
      → IsEncodable e
      → IsEncodable f
      → encode_to e r ≡ encode_to f s
      → (e ≡ f) × (r ≡ s)
  encode_to_injective (atom a) (atom b) r s p q h =
      let (x, y) = encode_atom_injective a b r s p q h in (ap atom x, y)
  encode_to_injective (atom a) (list ys) r s p q h = absurd (atom_no_list a r _ h)
  encode_to_injective (list xs) (atom b) r s p q h = absurd (atom_no_list b s _ (sym h))
  encode_to_injective (list xs) (list ys) r s p q h =
      let (x, y) = encode_all_injective xs ys r s p q (cc h) in (ap list x, y)

  encode_all_injective :
      (xs ys : Items) (r s : List ℕ)
      → AllEncodable xs
      → AllEncodable ys
      → encode_all_to xs (b')' ∷ r) ≡ encode_all_to ys (b')' ∷ s)
      → (xs ≡ ys) × (r ≡ s)
  encode_all_injective nil nil r s p q h = (refl, cc h)
  encode_all_injective nil (cons f ys) r s p q h =
      let (d, t, e, ne) = encode_to_start f (encode_all_to ys (b')' ∷ s)) in absurd (ne (cc (e, h)))
  encode_all_injective (cons e xs) nil r s p q h =
      let (d, t, e', ne) = encode_to_start e (encode_all_to xs (b')' ∷ r)) in
      absurd (ne (cc (e', h)))
  encode_all_injective (cons e xs) (cons f ys) r s p q h =
      let (x, rest) = encode_to_injective e f _ _ p.0 q.0 h in
      let (y, z) = encode_all_injective xs ys r s p.1 q.1 rest in (cc (x, y), z)

-- Two expressions have the same canonical bytes only if they are equal, where a usize holds the
-- lengths of their texts and an i64 their numbers.
pub canonical_encode_injective :
    (e f : SExpr) → IsEncodable e → IsEncodable f → canonical_encode e ≡ canonical_encode f → e ≡ f
unfolding canonical_encode
canonical_encode_injective e f p q h = (encode_to_injective e f [] [] p q h).0
