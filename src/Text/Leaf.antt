-- ===== src/Text/Leaf.antt =====
-- The parsers of the forms that are not lists (crates/cbcl-parser/src/parser.rs). A state has the
-- input from the position on in place of the whole input.
pub mod Words
pub mod Strings
pub mod Numbers
pub mod Progress
use cbcl_rs.Prelude.{
  Bool, Option, String, [], false, if◌then◌else◌, leb, ltb, none, not, some, suc, true, zero, ℕ,
  ◌&&◌, ◌*◌, ◌+◌, ◌-◌, ◌||◌, ◌∷◌,
}
use Prim.Native.Char.{Char, code, len_utf8}
use cbcl_rs.Sexpr.{ℤ, pos, negsuc, SExpr, symbol, str, num, bool, keyword, atom}
use cbcl_rs.Text.{Chars, is_code, text_of}

pub data ParseError : Type 0 where
  -- offset, found, expected
  unexpected_char : ℕ → Char → String → ParseError
  -- offset, expected
  unexpected_eof : ℕ → String → ParseError
  fuel_exhausted : ℕ → ParseError
  -- offset, sequence
  invalid_escape : ℕ → Char → ParseError
  integer_overflow : ℕ → ParseError

-- `offset` counts bytes.
pub record ParserState : Type 0 where
  pub rest : Chars
  pub offset : ℕ
  pub fuel : ℕ

-- The result of a parser with the state after it; `out_of_gas` has no counterpart in the program.
pub data Parsed (A : Type 0) : Type 0 where
  ok : A → ParserState → Parsed A
  err : ParseError → Parsed A
  out_of_gas : Parsed A

abbrev pub is_ascii_whitespace : Char → Bool
is_ascii_whitespace c =
    is_code b' ' c || is_code b'\t' c || is_code b'\n' c || is_code 12 c || is_code b'\r' c

abbrev pub is_ascii_digit : Char → Bool
is_ascii_digit c = leb b'0' (code c) && leb (code c) b'9'

abbrev pub is_ascii_alphanumeric : Char → Bool
is_ascii_alphanumeric c =
    is_ascii_digit c
    || (leb b'A' (code c) && leb (code c) b'Z')
    || (leb b'a' (code c) && leb (code c) b'z')

unfoldable pub is_symbol_char : Char → Bool
is_symbol_char c =
    is_ascii_alphanumeric c
    || is_code b'_' c
    || is_code b'-' c
    || is_code b'.' c
    || is_code b'/' c
    || is_code b'!' c
    || is_code b'?' c
    || is_code b'+' c
    || is_code b'*' c
    || is_code b'<' c
    || is_code b'>' c
    || is_code b'=' c
    || is_code b'@' c

-- The input after white space and line comments; in a comment it goes on behind the line's end.
unfoldable pub skip : Bool → Chars → ℕ → Chars × ℕ
skip in_comment [] p = ([], p)
skip in_comment (c ∷ cs) p =
    let still = if in_comment then not (is_code b'\n' c) else is_code b';' c in
    let further = skip still cs (p + len_utf8 c) in
    if in_comment || is_ascii_whitespace c || is_code b';' c then further else (c ∷ cs, p)

unfoldable pub skip_whitespace : ParserState → ParserState
unfolding skip
skip_whitespace st =
    let (rest, offset) = skip false st.rest st.offset in record st { rest = rest; offset = offset }

unfoldable pub unescape : Char → Option Char
unescape c =
    if is_code b'n' c
    then some "\n"
    else if is_code b'r' c
    then some "\r"
    else if is_code b't' c
    then some "\t"
    else if is_code b'\\' c
    then some "\\"
    else if is_code b'"' c
    then some "\""
    else none

abbrev pub push : Char → Parsed Chars → Parsed Chars
push c (ok cs st) = ok (c ∷ cs) st
push c (err e) = err e
push c out_of_gas = out_of_gas

-- The characters up to the closing quote; `escaped` holds behind a backslash.
unfoldable pub string_body : Bool → Chars → ℕ → ℕ → Parsed Chars
unfolding unescape
string_body false [] p fuel = err (unexpected_eof p "closing '\"'")
string_body true [] p fuel = err (unexpected_eof p "escape character")
string_body false (c ∷ cs) p fuel =
    let further = string_body (is_code b'\\' c) cs (p + len_utf8 c) fuel in
    if is_code b'"' c
    then ok [] (record { rest = cs; offset = p + len_utf8 c; fuel = fuel })
    else if is_code b'\\' c
    then further
    else push c further
string_body true (c ∷ cs) p fuel =
    let further = string_body false cs (p + len_utf8 c) fuel in
    elim (unescape c) [ none ↦ err (invalid_escape p c) | some d ↦ push d further ]

-- The longest front of characters that pass the test, and what follows with its offset.
unfoldable pub span : (Char → Bool) → Chars → ℕ → Chars × Chars × ℕ
span test [] p = ([], [], p)
span test (c ∷ cs) p =
    let (front, rest, q) = span test cs (p + len_utf8 c) in
    if test c then (c ∷ front, rest, q) else ([], c ∷ cs, p)

-- The value of a text of digits, which is not empty.
unfoldable pub digits_value : Chars → ℕ → Option ℕ
digits_value [] acc = some acc
digits_value (c ∷ cs) acc =
    let further = digits_value cs (acc * 10 + (code c - 48)) in
    if is_ascii_digit c then further else none

abbrev pub i64_bound : ℕ
i64_bound = 9223372036854775808

abbrev pub positive : Option ℕ → Option ℤ
positive none = none
positive (some n) = if ltb n i64_bound then some (pos n) else none

abbrev pub negative : Option ℕ → Option ℤ
negative none = none
negative (some zero) = some (pos 0)
negative (some (suc n)) = if ltb n i64_bound then some (negsuc n) else none

abbrev pub nonempty_value : Chars → Option ℕ
nonempty_value [] = none
nonempty_value (c ∷ cs) = digits_value (c ∷ cs) 0

-- `text.parse::<i64>()` on a text without a plus sign.
unfoldable pub parse_i64 : Chars → Option ℤ
unfolding digits_value
parse_i64 [] = none
parse_i64 (c ∷ cs) =
    if is_code b'-' c then negative (nonempty_value cs) else positive (nonempty_value (c ∷ cs))

abbrev pub at : ParserState → Chars → ℕ → ParserState
at st rest offset = record st { rest = rest; offset = offset }

abbrev pub is_integer_char : Char → Bool
is_integer_char c = is_code b'-' c || is_ascii_digit c

abbrev pub number_of : ParserState → Option ℤ → Chars → ℕ → Parsed SExpr
number_of st none rest offset = err (integer_overflow st.offset)
number_of st (some n) rest offset = ok (atom (num n)) (at st rest offset)

unfoldable pub parse_integer : ParserState → Parsed SExpr
unfolding span parse_i64
parse_integer st =
    let (text, rest, offset) = span is_integer_char st.rest st.offset in
    number_of st (parse_i64 text) rest offset

abbrev nul : Char
nul = Prim.Native.Char.nul

abbrev peek_or_nul : Chars → Char
peek_or_nul [] = nul
peek_or_nul (c ∷ cs) = c

abbrev pub symbol_of : ParserState → Chars × Chars × ℕ → Parsed SExpr
symbol_of st ([], _, _) = err (unexpected_char st.offset (peek_or_nul st.rest) "symbol")
symbol_of st (c ∷ cs, rest, offset) = ok (atom (symbol (text_of (c ∷ cs)))) (at st rest offset)

unfoldable pub parse_symbol : ParserState → Parsed SExpr
unfolding span is_symbol_char
parse_symbol st = symbol_of st (span is_symbol_char st.rest st.offset)

abbrev pub keyword_of : ParserState → ℕ → Chars × Chars × ℕ → Parsed SExpr
keyword_of st start ([], _, _) = err (unexpected_eof start "keyword name")
keyword_of st start (c ∷ cs, rest, offset) =
    ok (atom (keyword (text_of (c ∷ cs)))) (at st rest offset)

-- From here on, the input starts with the character that the parser was chosen by.
unfoldable pub parse_keyword : Chars → ParserState → Parsed SExpr
unfolding span is_symbol_char
parse_keyword cs st = keyword_of st (st.offset + 1) (span is_symbol_char cs (st.offset + 1))

abbrev pub string_of : Parsed Chars → Parsed SExpr
string_of (ok cs st) = ok (atom (str (text_of cs))) st
string_of (err e) = err e
string_of out_of_gas = out_of_gas

unfoldable pub parse_string : Chars → ParserState → Parsed SExpr
unfolding string_body
parse_string cs st = string_of (string_body false cs (st.offset + 1) st.fuel)

unfoldable pub parse_bool : Chars → ParserState → Parsed SExpr
parse_bool [] st = err (unexpected_eof (st.offset + 1) "'t' or 'f'")
parse_bool (c ∷ cs) st =
    if is_code b't' c
    then ok (atom (bool true)) (at st cs (st.offset + 2))
    else if is_code b'f' c
    then ok (atom (bool false)) (at st cs (st.offset + 2))
    else err (unexpected_char (st.offset + 1) c "'t' or 'f'")

abbrev pub starts_with_digit : Chars → Bool
starts_with_digit [] = false
starts_with_digit (c ∷ cs) = is_ascii_digit c

unfoldable pub parse_number_or_symbol : Char → Chars → ParserState → Parsed SExpr
unfolding parse_integer parse_symbol
parse_number_or_symbol c cs st =
    if is_code b'-' c && not (starts_with_digit cs) then parse_symbol st else parse_integer st

-- The forms that are not lists.
unfoldable pub parse_leaf : Char → Chars → ParserState → Parsed SExpr
unfolding parse_string parse_bool parse_keyword parse_number_or_symbol parse_symbol
parse_leaf c cs st =
    if is_code b'"' c
    then parse_string cs st
    else if is_code b'#' c
    then parse_bool cs st
    else if is_code b':' c
    then parse_keyword cs st
    else if is_code b'-' c || is_ascii_digit c
    then parse_number_or_symbol c cs st
    else parse_symbol st
