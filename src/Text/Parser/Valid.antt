-- ===== src/Text/Parser/Valid.antt =====
-- The forms that are not lists, as they are parsed (crates/cbcl-parser/src/parser.rs), have a text of
-- their own.
use cbcl_rs.Prelude.{
  Bool, Option, [], all, and_intro, ap, arith, false, if_both, if_cases, ltb, none, not, refl, some,
  subst, suc, sym, true, zero, ℕ, ◌&&◌, ◌+◌, ◌||◌, ◌∷◌, ◌≡◌,
}
use Prim.Native.Char.{Char, len_utf8}
use cbcl_rs.Sexpr.{ℤ, pos, negsuc, SExpr}
use cbcl_rs.Text.{Chars, chars_of, text_of, is_code}
use cbcl_rs.Text.Leaf.{
  ParserState, Parsed, ok, err, out_of_gas, span, string_body, parse_leaf, parse_symbol,
  parse_keyword, parse_bool, parse_string, parse_integer, parse_number_or_symbol, parse_i64,
  nonempty_value, positive, negative, i64_bound, number_of, symbol_of, keyword_of, string_of,
  is_symbol_char, is_integer_char, is_ascii_digit, starts_with_digit,
}
use cbcl_rs.Text.Leaf.Words.{state}
use cbcl_rs.Text.Leaf.Numbers.{is_i64}
use cbcl_rs.Text.Parser.Atoms.{is_symbol, is_keyword, starts_number}
use cbcl_rs.Text.Parser.Steps.{is_valid}

-- The expression that was parsed, if one was, has a text of its own.
abbrev pub Valid : Parsed SExpr → Type 0
Valid (ok e st) = is_valid e ≡ true
Valid (err x) = Unit
Valid out_of_gas = Unit

chars_of-text_of : (cs : Chars) → chars_of (text_of cs) ≡ cs
chars_of-text_of [] = refl
chars_of-text_of (c ∷ cs) = ap (λ (t : Chars). c ∷ t) (chars_of-text_of cs)

-- The value, if there is one, is in range.
abbrev IsI64 : Option ℤ → Type 0
IsI64 none = Unit
IsI64 (some z) = is_i64 z ≡ true

positive-IsI64 : (o : Option ℕ) → IsI64 (positive o)
positive-IsI64 none = tt
positive-IsI64 (some n) = if_cases IsI64 (ltb n i64_bound) (some (pos n)) none (λ e. e) (λ e. tt)

negative-IsI64 : (o : Option ℕ) → IsI64 (negative o)
negative-IsI64 none = tt
negative-IsI64 (some zero) = refl
negative-IsI64 (some (suc n)) =
    if_cases IsI64 (ltb n i64_bound) (some (negsuc n)) none (λ e. e) (λ e. tt)

parse_i64-IsI64 : (t : Chars) → IsI64 (parse_i64 t)
unfolding parse_i64
parse_i64-IsI64 [] = tt
parse_i64-IsI64 (c ∷ cs) =
    if_both IsI64 (is_code b'-' c) _ _ (negative-IsI64 (nonempty_value cs))
      (positive-IsI64 (nonempty_value (c ∷ cs)))

span-all : (test : Char → Bool) (t : Chars) (p : ℕ) → all test (span test t p).0 ≡ true
unfolding span
span-all test [] p = refl
span-all test (c ∷ cs) p =
    let rest = span-all test cs (p + len_utf8 c) in
    if_cases (λ (x : Chars × Chars × ℕ). all test x.0 ≡ true) (test c) _ _
      (λ e. ground (arith, e, rest)) (λ e. refl)

span_digit :
    (test : Char → Bool) (t : Chars) (p : ℕ)
    → starts_with_digit (span test t p).0 ≡ true
    → starts_with_digit t ≡ true
unfolding span
span_digit test [] p h = h
span_digit test (c ∷ cs) p h =
    if_cases (λ (x : Chars × Chars × ℕ). starts_with_digit x.0 ≡ true → is_ascii_digit c ≡ true)
      (test c) _ _ (λ e d. d) (λ e d. absurd (ground arith)) h

keyword_of-Valid :
    (st : ParserState) (p : ℕ) (x : Chars × Chars × ℕ)
    → all is_symbol_char x.0 ≡ true
    → Valid (keyword_of st p x)
unfolding is_valid
keyword_of-Valid st p ([], r, q) h = tt
keyword_of-Valid st p (c ∷ cs, r, q) h =
    subst (λ t. is_keyword (c ∷ t) ≡ true) (sym (chars_of-text_of cs)) h

symbol_of-Valid :
    (st : ParserState) (x : Chars × Chars × ℕ)
    → all is_symbol_char x.0 ≡ true
    → starts_number x.0 ≡ false
    → Valid (symbol_of st x)
unfolding is_valid starts_number
symbol_of-Valid st ([], r, q) h n = tt
symbol_of-Valid st (c ∷ cs, r, q) h n =
    subst (λ t. is_symbol (c ∷ t) ≡ true) (sym (chars_of-text_of cs))
      (and_intro (all is_symbol_char (c ∷ cs)) _ h (ap not n))

string_of-Valid : (r : Parsed Chars) → Valid (string_of r)
unfolding is_valid
string_of-Valid (ok cs st) = refl
string_of-Valid (err x) = tt
string_of-Valid out_of_gas = tt

number_of-Valid :
    (st : ParserState) (o : Option ℤ) (rest : Chars) (p : ℕ)
    → IsI64 o
    → Valid (number_of st o rest p)
unfolding is_valid
number_of-Valid st none rest p h = tt
number_of-Valid st (some z) rest p h = h

span-starts_number :
    (test : Char → Bool) (c : Char) (cs : Chars) (p : ℕ)
    → starts_number (c ∷ cs) ≡ false
    → starts_number (span test (c ∷ cs) p).0 ≡ false
unfolding span starts_number
span-starts_number test c cs p n =
    if_cases (λ (x : Chars × Chars × ℕ). starts_number x.0 ≡ false) (test c) _ _
      (λ e. ground (arith, span_digit test cs (p + len_utf8 c))) (λ e. refl)

module _ (c : Char) (cs : Chars) (p f : ℕ) where
  parse_symbol-Valid : starts_number (c ∷ cs) ≡ false → Valid (parse_symbol (state (c ∷ cs) p f))
  unfolding parse_symbol
  parse_symbol-Valid n =
      symbol_of-Valid (state (c ∷ cs) p f) (span is_symbol_char (c ∷ cs) p)
        (span-all is_symbol_char (c ∷ cs) p) (span-starts_number is_symbol_char c cs p n)

  parse_integer-Valid : Valid (parse_integer (state (c ∷ cs) p f))
  unfolding parse_integer
  parse_integer-Valid =
      let x = span is_integer_char (c ∷ cs) p in
      number_of-Valid (state (c ∷ cs) p f) (parse_i64 x.0) x.1 x.2 (parse_i64-IsI64 x.0)

  parse_keyword-Valid : Valid (parse_keyword cs (state (c ∷ cs) p f))
  unfolding parse_keyword
  parse_keyword-Valid =
      keyword_of-Valid (state (c ∷ cs) p f) (p + 1) (span is_symbol_char cs (p + 1))
        (span-all is_symbol_char cs (p + 1))

  parse_string-Valid : Valid (parse_string cs (state (c ∷ cs) p f))
  unfolding parse_string
  parse_string-Valid = string_of-Valid (string_body false cs (p + 1) f)

parse_bool-Valid : (cs : Chars) (st : ParserState) → Valid (parse_bool cs st)
unfolding parse_bool is_valid
parse_bool-Valid [] st = tt
parse_bool-Valid (d ∷ cs) st =
    if_both Valid (is_code b't' d) _ _ refl (if_both Valid (is_code b'f' d) _ _ refl tt)

no_number :
    (c : Char) (cs : Chars)
    → (is_code b'-' c || is_ascii_digit c) ≡ false
    → starts_number (c ∷ cs) ≡ false
unfolding starts_number
no_number c cs h = ground arith

minus_no_number :
    (c : Char) (cs : Chars)
    → (is_code b'-' c && not (starts_with_digit cs)) ≡ true
    → starts_number (c ∷ cs) ≡ false
unfolding starts_number
minus_no_number c cs h = ground arith

pub parse_leaf-Valid :
    (c : Char) (cs : Chars) (p f : ℕ) → Valid (parse_leaf c cs (state (c ∷ cs) p f))
unfolding parse_leaf parse_number_or_symbol
parse_leaf-Valid c cs p f = if_both Valid (is_code b'"' c) _ _ (parse_string-Valid c cs p f) (
    if_both Valid (is_code b'#' c) _ _ (parse_bool-Valid cs (state (c ∷ cs) p f)) (
      if_both Valid (is_code b':' c) _ _ (parse_keyword-Valid c cs p f) (
        if_cases Valid (is_code b'-' c || is_ascii_digit c) _ _
          (λ e.
            if_cases Valid (is_code b'-' c && not (starts_with_digit cs)) _ _
              (λ m. parse_symbol-Valid c cs p f (minus_no_number c cs m))
              (λ m. parse_integer-Valid c cs p f))
          (λ e. parse_symbol-Valid c cs p f (no_number c cs e)))))
