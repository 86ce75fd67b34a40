-- ===== src/Text/Leaf/Progress.antt =====
-- What the parsers of the forms that are not lists (crates/cbcl-parser/src/parser.rs) leave of the
-- input, and that they do not touch the fuel.
use cbcl_rs.Prelude.{
  Bool, Option, [], arith, false, if_both, if◌then◌else◌, none, not, refl, some, true, ℕ, ◌&&◌, ◌+◌,
  ◌<◌, ◌||◌, ◌∷◌, ◌≡◌, ◌≤◌,
}
use Prim.Native.Char.{Char, len_utf8}
use cbcl_rs.Sexpr.{ℤ, SExpr}
use cbcl_rs.Text.Leaf.Words.{state}
use text.Mathlib.TextPositions.{len_utf8-pos}
use cbcl_rs.Text.{Chars, byte_len, is_code}
use cbcl_rs.Text.Leaf.{
  ParseError, unexpected_char, unexpected_eof, fuel_exhausted, invalid_escape, integer_overflow,
  ParserState, Parsed, ok, err, out_of_gas, skip, span, string_body, push, unescape, parse_leaf,
  parse_symbol, parse_keyword, parse_bool, parse_string, parse_integer, parse_number_or_symbol,
  is_ascii_digit, starts_with_digit, parse_i64, number_of, symbol_of, keyword_of, string_of,
  is_symbol_char, is_integer_char, is_ascii_whitespace,
}

abbrev pub is_exhausted : ParseError → Bool
is_exhausted (unexpected_char p c s) = false
is_exhausted (unexpected_eof p s) = false
is_exhausted (fuel_exhausted p) = true
is_exhausted (invalid_escape p c) = false
is_exhausted (integer_overflow p) = false

-- Success leaves fewer than `m` bytes and the fuel; failure is not for want of fuel.
abbrev pub Scanned : {A : Type 0} → ℕ → ℕ → Parsed A → Type 0
Scanned m f (ok a st) = (st.fuel ≡ f) × (byte_len st.rest < m)
Scanned m f (err x) = is_exhausted x ≡ false
Scanned m f out_of_gas = ⊥

pub len_pos : (c : Char) → 1 ≤ len_utf8 c
len_pos c = let (k, e) = len_utf8-pos c in omega (arith, e)

pub skip-byte_len : (b : Bool) (t : Chars) (p : ℕ) → byte_len (skip b t p).0 ≤ byte_len t
unfolding skip
skip-byte_len b [] p = omega arith
skip-byte_len b (c ∷ cs) p =
    if_both (λ (r : Chars × ℕ). byte_len r.0 ≤ byte_len (c ∷ cs))
      (b || is_ascii_whitespace c || is_code b';' c) _ _
      (omega (
        arith,
        skip-byte_len (if b then not (is_code b'\n' c) else is_code b';' c) cs (p + len_utf8 c),
      ))
      (omega arith)

span-byte_len :
    (test : Char → Bool) (t : Chars) (p : ℕ)
    → byte_len (span test t p).0 + byte_len (span test t p).1 ≡ byte_len t
unfolding span
span-byte_len test [] p = omega arith
span-byte_len test (c ∷ cs) p =
    if_both (λ (r : Chars × Chars × ℕ). byte_len r.0 + byte_len r.1 ≡ byte_len (c ∷ cs)) (test c) _
      _ (omega (arith, span-byte_len test cs (p + len_utf8 c))) (omega arith)

module _ {A : Type 0} where
  Scanned-weaken : (m m' f : ℕ) (r : Parsed A) → m ≤ m' → Scanned m f r → Scanned m' f r
  Scanned-weaken m m' f (ok a st) l (e, h) = (e, omega arith)
  Scanned-weaken m m' f (err x) l h = h
  Scanned-weaken m m' f out_of_gas l h = h

push-Scanned : (c : Char) (m f : ℕ) (r : Parsed Chars) → Scanned m f r → Scanned m f (push c r)
push-Scanned c m f (ok a st) h = h
push-Scanned c m f (err x) h = h
push-Scanned c m f out_of_gas h = h

string_of-Scanned : (m f : ℕ) (r : Parsed Chars) → Scanned m f r → Scanned m f (string_of r)
string_of-Scanned m f (ok a st) h = h
string_of-Scanned m f (err x) h = h
string_of-Scanned m f out_of_gas h = h

string_body-Scanned :
    (b : Bool) (t : Chars) (p f : ℕ) → Scanned (1 + byte_len t) f (string_body b t p f)
unfolding string_body
string_body-Scanned false [] p f = refl
string_body-Scanned true [] p f = refl
string_body-Scanned false (c ∷ cs) p f =
    let b = is_code b'\\' c in
    let m = 1 + byte_len (c ∷ cs) in
    let rest =
      Scanned-weaken (1 + byte_len cs) m f _ (omega arith)
        (string_body-Scanned b cs (p + len_utf8 c) f) in
    if_both (Scanned m f) (is_code b'"' c) _ _ (refl, omega arith)
      (if_both (Scanned m f) b _ _ rest (push-Scanned c m f _ rest))
string_body-Scanned true (c ∷ cs) p f =
    let m = 1 + byte_len (c ∷ cs) in
    let rest =
      Scanned-weaken (1 + byte_len cs) m f _ (omega arith)
        (string_body-Scanned false cs (p + len_utf8 c) f) in
    elim (unescape c)
      as (λ o. Scanned m f (elim o [
        | none ↦ err (invalid_escape p c)
        | some d ↦ push d (string_body false cs (p + len_utf8 c) f)
      ])) [ none ↦ refl | some d ↦ push-Scanned d m f _ rest ]

number_of-Scanned :
    (st : ParserState) (o : Option ℤ) (rest : Chars) (p m : ℕ)
    → byte_len rest < m
    → Scanned m st.fuel (number_of st o rest p)
number_of-Scanned st none rest p m h = refl
number_of-Scanned st (some n) rest p m h = (refl, h)

-- What a scan splits a text of `m` bytes into.
module _ (st : ParserState) (m : ℕ) where
  integer_of-Scanned :
      (x : Chars × Chars × ℕ)
      → byte_len x.0 + byte_len x.1 ≡ m
      → Scanned m st.fuel (number_of st (parse_i64 x.0) x.1 x.2)
  unfolding parse_i64
  integer_of-Scanned ([], r, q) h = refl
  integer_of-Scanned (c ∷ cs, r, q) h =
      number_of-Scanned st (parse_i64 (c ∷ cs)) r q m (omega (arith, len_pos c))

  symbol_of-Scanned :
      (x : Chars × Chars × ℕ) → byte_len x.0 + byte_len x.1 ≡ m → Scanned m st.fuel (symbol_of st x)
  symbol_of-Scanned ([], r, q) h = refl
  symbol_of-Scanned (c ∷ cs, r, q) h = (refl, omega (arith, len_pos c))

  keyword_of-Scanned :
      (p : ℕ) (x : Chars × Chars × ℕ)
      → byte_len x.0 + byte_len x.1 ≡ m
      → Scanned m st.fuel (keyword_of st p x)
  keyword_of-Scanned p ([], r, q) h = refl
  keyword_of-Scanned p (c ∷ cs, r, q) h = (refl, omega (arith, len_pos c))

module _ (c : Char) (cs : Chars) (p f : ℕ) where
  parse_integer-Scanned : Scanned (byte_len (c ∷ cs)) f (parse_integer (state (c ∷ cs) p f))
  unfolding parse_integer
  parse_integer-Scanned =
      integer_of-Scanned (state (c ∷ cs) p f) _ (span is_integer_char (c ∷ cs) p)
        (span-byte_len is_integer_char (c ∷ cs) p)

  parse_symbol-Scanned : Scanned (byte_len (c ∷ cs)) f (parse_symbol (state (c ∷ cs) p f))
  unfolding parse_symbol
  parse_symbol-Scanned =
      symbol_of-Scanned (state (c ∷ cs) p f) _ (span is_symbol_char (c ∷ cs) p)
        (span-byte_len is_symbol_char (c ∷ cs) p)

  parse_keyword-Scanned : Scanned (byte_len (c ∷ cs)) f (parse_keyword cs (state (c ∷ cs) p f))
  unfolding parse_keyword
  parse_keyword-Scanned = Scanned-weaken (byte_len cs) (byte_len (c ∷ cs)) f _ (omega arith) (
      keyword_of-Scanned (state (c ∷ cs) p f) _ (p + 1) (span is_symbol_char cs (p + 1))
        (span-byte_len is_symbol_char cs (p + 1)))

  parse_string-Scanned : Scanned (byte_len (c ∷ cs)) f (parse_string cs (state (c ∷ cs) p f))
  unfolding parse_string
  parse_string-Scanned = string_of-Scanned _ f _ (
      Scanned-weaken (1 + byte_len cs) (byte_len (c ∷ cs)) f _ (omega (arith, len_pos c))
        (string_body-Scanned false cs (p + 1) f))

parse_bool-Scanned :
    (c : Char) (cs : Chars) (p f : ℕ)
    → Scanned (byte_len (c ∷ cs)) f (parse_bool cs (state (c ∷ cs) p f))
unfolding parse_bool
parse_bool-Scanned c [] p f = refl
parse_bool-Scanned c (d ∷ cs) p f =
    let fits : byte_len cs < byte_len (c ∷ d ∷ cs) = omega (arith, len_pos c) in
    if_both (Scanned (byte_len (c ∷ d ∷ cs)) f) (is_code b't' d) _ _ (refl, fits)
      (if_both (Scanned (byte_len (c ∷ d ∷ cs)) f) (is_code b'f' d) _ _ (refl, fits) refl)

-- A form that is not a list takes some of the input and no fuel.
pub parse_leaf-Scanned :
    (c : Char) (cs : Chars) (p f : ℕ)
    → Scanned (byte_len (c ∷ cs)) f (parse_leaf c cs (state (c ∷ cs) p f))
unfolding parse_leaf parse_number_or_symbol
parse_leaf-Scanned c cs p f =
    let P : Parsed SExpr → Type 0 = Scanned (byte_len (c ∷ cs)) f in
    let word = parse_symbol-Scanned c cs p f in
    if_both P (is_code b'"' c) _ _ (parse_string-Scanned c cs p f) (
      if_both P (is_code b'#' c) _ _ (parse_bool-Scanned c cs p f) (
        if_both P (is_code b':' c) _ _ (parse_keyword-Scanned c cs p f) (
          if_both P (is_code b'-' c || is_ascii_digit c) _ _
            (if_both P (is_code b'-' c && not (starts_with_digit cs)) _ _ word
              (parse_integer-Scanned c cs p f))
            word)))
