-- ===== src/Text/Parser/Atoms.antt =====
-- Atoms: what the serializer (crates/cbcl-core/src/serializer.rs) writes, the parser
-- (crates/cbcl-parser/src/parser.rs) reads back, if the text that follows ends a word.
use cbcl_rs.Prelude.{
  Bool, [], all, all_weaken, ap, arith, false, if◌then◌else◌, is_empty, not, refl, subst, take,
  true, ℕ, ◌&&◌, ◌++◌, ◌+◌, ◌||◌, ◌∙◌, ◌∷◌, ◌≡◌,
}
use Prim.Native.Char.{Char}
use cbcl_rs.Sexpr.{ℤ, pos, negsuc, Atom, symbol, str, num, bool, keyword, SExpr, Items, atom}
use cbcl_rs.Text.{
  Chars, chars_of, text_of, text_of-chars_of, is_code, write_atom, write_num, decimal, i64_places,
  write_chars,
}
use cbcl_rs.Text.Leaf.{
  ParserState, Parsed, ok, parse_leaf, parse_symbol, parse_keyword, parse_bool, parse_string,
  parse_integer, parse_number_or_symbol, is_symbol_char, is_ascii_digit, is_integer_char,
  starts_with_digit, symbol_of, keyword_of, string_of, number_of, span, parse_i64,
}
use cbcl_rs.Text.Leaf.Words.{state, ends_word, span_to}
use cbcl_rs.Text.Leaf.Strings.{string_body-write_chars}
use cbcl_rs.Text.Leaf.Numbers.{
  is_i64, parse_i64-write_num, all-decimal, decimal_nonempty, decimal-append,
}
use cbcl_rs.Text.Parser.{expr_here, list_of}

-- A name that the parser does not take for a number.
abbrev pub is_symbol : Chars → Bool
is_symbol [] = false
is_symbol (c ∷ cs) =
    all is_symbol_char (c ∷ cs)
    && not (is_ascii_digit c || (is_code b'-' c && starts_with_digit cs))

abbrev pub is_keyword : Chars → Bool
is_keyword [] = false
is_keyword (c ∷ cs) = all is_symbol_char (c ∷ cs)

-- The atoms with a text of their own.
abbrev pub is_valid_atom : Atom → Bool
is_valid_atom (symbol s) = is_symbol (chars_of s)
is_valid_atom (str s) = true
is_valid_atom (num n) = is_i64 n
is_valid_atom (bool b) = true
is_valid_atom (keyword k) = is_keyword (chars_of k)

-- The parser reads the atom at the front of the text, up to `rest`.
abbrev ReadsAs : Chars → Chars → Atom → Type 0
ReadsAs text rest a =
    (items : ParserState → Parsed Items) (p f : ℕ)
    → (q : ℕ) × (expr_here items (state text p f) ≡ ok (atom a) (state rest q f))

expr_here_leaf :
    (items : ParserState → Parsed Items) (c : Char) (cs : Chars) (p f : ℕ)
    → is_code b'(' c ≡ false
    → expr_here items (state (c ∷ cs) p f) ≡ parse_leaf c cs (state (c ∷ cs) p f)
expr_here_leaf items c cs p f h =
    ap
      (λ (b : Bool). elim b [
        | true ↦ list_of (items (state cs (p + 1) f))
        | false ↦ parse_leaf c cs (state (c ∷ cs) p f)
      ])
      h

unfoldable pub starts_number : Chars → Bool
starts_number [] = false
starts_number (c ∷ cs) = is_ascii_digit c || (is_code b'-' c && starts_with_digit cs)

module _ (c : Char) (cs : Chars) (st : ParserState) where
  parse_leaf_symbol :
      is_symbol_char c ≡ true
      → starts_number (c ∷ cs) ≡ false
      → parse_leaf c cs st ≡ parse_symbol st
  unfolding parse_leaf parse_number_or_symbol is_symbol_char starts_number
  parse_leaf_symbol h g = ground arith

  parse_leaf_number : starts_number (c ∷ cs) ≡ true → parse_leaf c cs st ≡ parse_integer st
  unfolding parse_leaf parse_number_or_symbol starts_number
  parse_leaf_number g = ground arith

not_integer : (c : Char) → not (is_symbol_char c) ≡ true → not (is_integer_char c) ≡ true
unfolding is_symbol_char
not_integer c h = ground arith

symbol_char_plain : (c : Char) → is_symbol_char c ≡ true → is_code b'(' c ≡ false
unfolding is_symbol_char
symbol_char_plain c h = ground arith

number_here :
    (items : ParserState → Parsed Items) (t : Chars) (p f : ℕ)
    → starts_number t ≡ true
    → expr_here items (state t p f) ≡ parse_integer (state t p f)
unfolding starts_number
number_here items [] p f h = absurd (ground arith)
number_here items (c ∷ cs) p f h =
    expr_here_leaf items c cs p f (ground arith) ∙ parse_leaf_number c cs (state (c ∷ cs) p f) h

integer_of : ParserState → Chars × Chars × ℕ → Parsed SExpr
integer_of st (text, rest, offset) = number_of st (parse_i64 text) rest offset

write_num-append : (z : ℤ) (rest : Chars) → write_num z rest ≡ write_num z [] ++ rest
unfolding write_num
write_num-append (pos n) rest = decimal-append i64_places n rest
write_num-append (negsuc n) rest =
    ap (λ (t : Chars). "-" ∷ t) (decimal-append i64_places (n + 1) rest)

digit_is_integer_char : (c : Char) → is_ascii_digit c ≡ true → is_integer_char c ≡ true
digit_is_integer_char c h = ground arith

all-write_num : (z : ℤ) → all is_integer_char (write_num z []) ≡ true
unfolding write_num
all-write_num (pos n) =
    all_weaken is_ascii_digit is_integer_char digit_is_integer_char (decimal i64_places n [])
      (all-decimal i64_places n [] refl)
all-write_num (negsuc n) =
    all_weaken is_ascii_digit is_integer_char digit_is_integer_char (decimal i64_places (n + 1) [])
      (all-decimal i64_places (n + 1) [] refl)

starts_with_digit-digits :
    (t rest : Chars)
    → is_empty t ≡ false
    → all is_ascii_digit t ≡ true
    → starts_with_digit (t ++ rest) ≡ true
starts_with_digit-digits [] rest h a = absurd (ground arith)
starts_with_digit-digits (c ∷ t) rest h a = ground arith

starts_with_digit-decimal :
    (n : ℕ) (rest : Chars) → starts_with_digit (decimal i64_places n rest) ≡ true
starts_with_digit-decimal n rest =
    ap starts_with_digit (decimal-append i64_places n rest)
    ∙ starts_with_digit-digits (decimal i64_places n []) rest (decimal_nonempty 18 n [])
        (all-decimal i64_places n [] refl)

digit_starts_number : (t : Chars) → starts_with_digit t ≡ true → starts_number t ≡ true
unfolding starts_number
digit_starts_number [] h = h
digit_starts_number (c ∷ cs) h = ground arith

pub starts_number-write_num : (z : ℤ) (rest : Chars) → starts_number (write_num z rest) ≡ true
unfolding starts_number write_num
starts_number-write_num (pos n) rest =
    digit_starts_number (decimal i64_places n rest) (starts_with_digit-decimal n rest)
starts_number-write_num (negsuc n) rest = starts_with_digit-decimal (n + 1) rest

module _ (rest : Chars) (h : ends_word rest ≡ true) where
  ends_symbol : all (λ c. not (is_symbol_char c)) (take 1 rest) ≡ true
  ends_symbol =
      elim rest as (λ t. ends_word t ≡ true → all (λ c. not (is_symbol_char c)) (take 1 t) ≡ true) [
        | [] ↦ λ g. refl
        | c ∷ cs ↦ λ g. ground arith
      ]
        h

  ends_integer : all (λ c. not (is_integer_char c)) (take 1 rest) ≡ true
  ends_integer =
      all_weaken (λ c. not (is_symbol_char c)) (λ c. not (is_integer_char c)) not_integer
        (take 1 rest) ends_symbol

  starts_with_digit-append : (s : Chars) → starts_with_digit (s ++ rest) ≡ starts_with_digit s
  starts_with_digit-append [] =
      elim rest as (λ t. ends_word t ≡ true → starts_with_digit t ≡ false) [
        | [] ↦ λ g. refl
        | c ∷ cs ↦ λ g. ground (arith, not_integer c)
      ]
        h
  starts_with_digit-append (c ∷ s) = refl

  symbol_no_number :
      (c : Char) (s : Chars) → is_symbol (c ∷ s) ≡ true → starts_number (c ∷ s ++ rest) ≡ false
  unfolding starts_number
  symbol_no_number c s v = ground (arith, starts_with_digit-append s)

  symbol_back : (s : Chars) → is_symbol s ≡ true → ReadsAs (s ++ rest) rest (symbol (text_of s))
  unfolding parse_symbol
  symbol_back [] v items p f = absurd (ground arith)
  symbol_back (c ∷ s) v items p f =
      let (q, e) = span_to is_symbol_char (c ∷ s) rest p (ground arith) ends_symbol in
      (
        q,
        expr_here_leaf items c (s ++ rest) p f (ground (arith, symbol_char_plain c))
            ∙ parse_leaf_symbol c (s ++ rest) _ (ground arith) (symbol_no_number c s v)
            ∙ ap (symbol_of (state (c ∷ s ++ rest) p f)) e,
      )

  keyword_back :
      (s : Chars) → is_keyword s ≡ true → ReadsAs (":" ∷ s ++ rest) rest (keyword (text_of s))
  unfolding parse_leaf parse_keyword
  keyword_back [] v items p f = absurd (ground arith)
  keyword_back (c ∷ s) v items p f =
      let (q, e) = span_to is_symbol_char (c ∷ s) rest (p + 1) v ends_symbol in
      (q, ap (keyword_of (state (":" ∷ c ∷ s ++ rest) p f) (p + 1)) e)

  string_back : (s : Chars) → ReadsAs ("\"" ∷ write_chars s ("\"" ∷ rest)) rest (str (text_of s))
  unfolding parse_leaf parse_string
  string_back s items p f =
      let (q, e) = string_body-write_chars s rest (p + 1) f in (q, ap string_of e)

  bool_back : (b : Bool) → ReadsAs ("#" ∷ (if b then "t" else "f") ∷ rest) rest (bool b)
  unfolding parse_leaf parse_bool
  bool_back true items p f = (p + 2, refl)
  bool_back false items p f = (p + 2, refl)

  num_back : (z : ℤ) → is_i64 z ≡ true → ReadsAs (write_num z rest) rest (num z)
  unfolding parse_integer integer_of
  num_back z v items p f =
      let (q, e) = span_to is_integer_char (write_num z []) rest p (all-write_num z) ends_integer in
      let st = state (write_num z rest) p f in
      (
        q,
        number_here items (write_num z rest) p f (starts_number-write_num z rest)
            ∙ ap (λ t. integer_of st (span is_integer_char t p)) (write_num-append z rest)
            ∙ ap (integer_of st) e
            ∙ ap (λ o. number_of st o rest q) (parse_i64-write_num z v),
      )

-- A valid atom reads back.
pub atom_back :
    (a : Atom) (rest : Chars)
    → is_valid_atom a ≡ true
    → ends_word rest ≡ true
    → ReadsAs (write_atom a rest) rest a
unfolding write_atom
atom_back (symbol s) rest v h =
    subst (λ t. ReadsAs (chars_of s ++ rest) rest (symbol t)) (text_of-chars_of s)
      (symbol_back rest h (chars_of s) v)
atom_back (str s) rest v h =
    subst (λ t. ReadsAs ("\"" ∷ write_chars (chars_of s) ("\"" ∷ rest)) rest (str t))
      (text_of-chars_of s) (string_back rest h (chars_of s))
atom_back (num n) rest v h = num_back rest h n v
atom_back (bool b) rest v h = bool_back rest h b
atom_back (keyword k) rest v h =
    subst (λ t. ReadsAs (":" ∷ chars_of k ++ rest) rest (keyword t)) (text_of-chars_of k)
      (keyword_back rest h (chars_of k) v)
