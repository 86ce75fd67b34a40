-- ===== src/Text/Tests.antt =====
-- Tests of the parser and the serializer, and instances of their theorems.
use cbcl_rs.Prelude.{refl, some, true, ◌≡◌, ◌≢◌}
use cbcl_rs.Sexpr.{pos, negsuc, SExpr, symbol, str, num, bool, keyword, atom, list, nil, cons}
use cbcl_rs.Text.{
  Chars, serialize, chars_of, write_sexpr, write_atom, write_num, write_chars, decimal,
}
use cbcl_rs.Text.Leaf.{fuel_exhausted, integer_overflow, invalid_escape, parse_leaf, is_symbol_char}
use cbcl_rs.Text.Parser.Steps.{is_valid}
use cbcl_rs.Text.Parser.Stable.{parse_with_fuel_stable}
use cbcl_rs.Text.Parser.RoundTrip.{parse-serialize}
use cbcl_rs.Text.Parser.Total.{parse_never_exhausted}
use cbcl_rs.Text.Parser.{parse, parse_with_fuel, parsed, failed, consume_fuel}

abbrev words : SExpr
words = list (
    cons (atom (symbol "tell")) (
      cons (atom (str "a\n\"b\\")) (
        cons (list (cons (atom (num (negsuc 41))) (cons (atom (bool true)) nil)))
          (cons (atom (keyword "k-1")) (cons (list nil) nil)))))

words_text : serialize words ≡ chars_of "(tell \"a\\n\\\"b\\\\\" (-42 #t) :k-1 ())"
unfolding serialize write_sexpr write_atom write_num write_chars decimal
words_text = refl

words_back : parse (serialize words) ≡ parsed words
unfolding parse serialize consume_fuel parse_leaf
words_back = refl

words_valid : is_valid words ≡ true
unfolding is_valid is_symbol_char
words_valid = refl

parse-serialize_example : parse (serialize words) ≡ parsed words
parse-serialize_example = parse-serialize words words_valid

parse_never_exhausted_example : parse (chars_of "(((") ≢ failed (fuel_exhausted 3)
parse_never_exhausted_example = parse_never_exhausted (chars_of "(((") 3

too_little_fuel : parse_with_fuel (serialize words) (some 7) ≡ failed (fuel_exhausted 31)
unfolding parse_with_fuel serialize consume_fuel parse_leaf
too_little_fuel = refl

minus_text : parse (chars_of "1-2") ≡ failed (integer_overflow 0)
unfolding parse consume_fuel parse_leaf
minus_text = refl

least_number :
    parse (chars_of " -9223372036854775808 ; end")
    ≡ parsed (atom (num (negsuc 9223372036854775807)))
unfolding parse consume_fuel parse_leaf
least_number = refl

too_large : parse (chars_of "9223372036854775808") ≡ failed (integer_overflow 0)
unfolding parse consume_fuel parse_leaf
too_large = refl

bad_escape : parse (chars_of "\"\\x\"") ≡ failed (invalid_escape 2 "x")
unfolding parse consume_fuel parse_leaf
bad_escape = refl

abbrev loose : Chars
loose = chars_of "; a list\n( a -0 -b #t) "

abbrev loose_expr : SExpr
loose_expr = list (
    cons (atom (symbol "a"))
      (cons (atom (num (pos 0))) (cons (atom (symbol "-b")) (cons (atom (bool true)) nil))))

loose_read : parse_with_fuel loose (some 9) ≡ parsed loose_expr
unfolding parse_with_fuel consume_fuel parse_leaf
loose_read = refl

parse_with_fuel_stable_example : parse (serialize loose_expr) ≡ parsed loose_expr
parse_with_fuel_stable_example = parse_with_fuel_stable loose (some 9) loose_expr loose_read
