-- ===== src/Text.antt =====
-- The canonical text of S-expressions (crates/cbcl-core/src/serializer.rs). A text under
-- construction or in parsing is the list of its characters; `rest` is the text that follows.
pub mod Leaf
pub mod Parser
mod Tests
use cbcl_rs.Prelude.{
  Bool, List, Option, String, [], ap, eqb, if◌then◌else◌, ltb, none, refl, some, suc, zero, ℕ, ◌%◌,
  ◌++◌, ◌+◌, ◌/◌, ◌∷◌, ◌≡◌,
}
use Prim.Native.Char.{Char, code, len_utf8}
use cbcl_rs.Sexpr.{
  ℤ, pos, negsuc, Atom, SExpr, Items, symbol, str, num, bool, keyword, atom, list, nil, cons,
}

abbrev pub Chars : Type 0
Chars = List Char

abbrev pub chars_of : String → Chars
chars_of String.[] = []
chars_of (String.◌∷◌ c s) = c ∷ chars_of s

abbrev pub text_of : Chars → String
text_of [] = String.[]
text_of (c ∷ cs) = String.◌∷◌ c (text_of cs)

pub text_of-chars_of : (s : String) → text_of (chars_of s) ≡ s
text_of-chars_of String.[] = refl
text_of-chars_of (String.◌∷◌ c s) = ap (λ t. String.◌∷◌ c t) (text_of-chars_of s)

abbrev pub byte_len : Chars → ℕ
byte_len [] = 0
byte_len (c ∷ cs) = len_utf8 c + byte_len cs

abbrev pub is_code : ℕ → Char → Bool
is_code n c = eqb (code c) n

-- The escape of a character of a string, if it has one.
unfoldable pub escape : Char → Option Char
escape c =
    if is_code b'"' c
    then some "\""
    else if is_code b'\\' c
    then some "\\"
    else if is_code b'\n' c
    then some "n"
    else if is_code b'\r' c
    then some "r"
    else if is_code b'\t' c
    then some "t"
    else none

unfoldable pub write_chars : Chars → Chars → Chars
unfolding escape
write_chars [] rest = rest
write_chars (c ∷ cs) rest = elim (escape c) [
  | none ↦ c ∷ write_chars cs rest
  | some d ↦ "\\" ∷ d ∷ write_chars cs rest
]

unfoldable pub digit_char : ℕ → Char
digit_char d =
    if eqb d 0
    then "0"
    else if eqb d 1
    then "1"
    else if eqb d 2
    then "2"
    else if eqb d 3
    then "3"
    else if eqb d 4
    then "4"
    else if eqb d 5
    then "5"
    else if eqb d 6
    then "6"
    else if eqb d 7
    then "7"
    else if eqb d 8
    then "8"
    else "9"

-- At most `places` decimal digits, without leading zeros.
unfoldable pub decimal : ℕ → ℕ → Chars → Chars
unfolding digit_char
decimal zero n rest = rest
decimal (suc places) n rest =
    let longer = decimal places (n / 10) (digit_char (n % 10) ∷ rest) in
    if ltb n 10 then digit_char n ∷ rest else longer

-- The magnitude of an i64 has at most 19 digits.
abbrev pub i64_places : ℕ
i64_places = 19

unfoldable pub write_num : ℤ → Chars → Chars
unfolding decimal
write_num (pos n) rest = decimal i64_places n rest
write_num (negsuc n) rest = "-" ∷ decimal i64_places (n + 1) rest

unfoldable pub write_atom : Atom → Chars → Chars
unfolding write_chars write_num
write_atom (symbol s) rest = chars_of s ++ rest
write_atom (str s) rest = "\"" ∷ write_chars (chars_of s) ("\"" ∷ rest)
write_atom (num n) rest = write_num n rest
write_atom (bool b) rest = "#" ∷ (if b then "t" else "f") ∷ rest
write_atom (keyword k) rest = ":" ∷ chars_of k ++ rest

unfoldable mutual
  pub write_sexpr : SExpr → Chars → Chars
  write_sexpr (atom a) rest = write_atom a rest
  write_sexpr (list items) rest = "(" ∷ write_items items (")" ∷ rest)

  pub write_items : Items → Chars → Chars
  write_items nil rest = rest
  write_items (cons e items) rest = write_sexpr e (write_more items rest)

  -- The items after the first, each behind a space.
  pub write_more : Items → Chars → Chars
  write_more nil rest = rest
  write_more (cons e items) rest = " " ∷ write_sexpr e (write_more items rest)

unfoldable pub serialize : SExpr → Chars
unfolding write_sexpr write_atom
serialize e = write_sexpr e []
