-- ===== src/Text/Parser/RoundTrip.antt =====
-- What the serializer (crates/cbcl-core/src/serializer.rs) writes, the parser
-- (crates/cbcl-parser/src/parser.rs) reads back.
use cbcl_rs.Prelude.{
  Option, [], ap, arith, false, is_empty, none, refl, some, subst, suc, sym, true, zero, ℕ, ◌*◌,
  ◌++◌, ◌+◌, ◌-◌, ◌∙◌, ◌∷◌, ◌≡◌, ◌≤◌,
}
use cbcl_rs.Sexpr.{Atom, symbol, str, num, bool, keyword, SExpr, Items, atom, list, nil, cons}
use cbcl_rs.Text.{
  Chars, write_sexpr, write_items, write_more, write_atom, write_num, chars_of, serialize,
}
use cbcl_rs.Text.Leaf.{ParserState, ok, skip_whitespace}
use cbcl_rs.Text.Leaf.Words.{state, ends_word, skip_whitespace_none}
use cbcl_rs.Text.Parser.{parse_expr, parse_items, list_of, parse, parsed}
use cbcl_rs.Text.Parser.Atoms.{is_valid_atom, is_symbol, atom_back}
use text.Mathlib.TextPositions.{len_utf8-pos}
use cbcl_rs.Sexpr.{ℤ, pos, negsuc}
use cbcl_rs.Text.{byte_len, write_chars, decimal, i64_places, escape}
use cbcl_rs.Text.Leaf.Numbers.{decimal-append, decimal_nonempty}
use cbcl_rs.Text.Parser.{parse_with_fuel, finished, fuel_for, gas_for}
use cbcl_rs.Text.Parser.Steps.{
  is_valid, are_valid, size, sizes, size_pos, opens_form-write_atom, opens_form-write_sexpr,
  ends_word-write_more, parse_expr_step, skip_items, skip_more, parse_items_end, parse_items_cons,
}

mutual
  unfolding size is_valid write_sexpr

  -- The parser reads a written expression up to its end.
  expr_back :
      (e : SExpr) (rest : Chars) (gas p f : ℕ)
      → is_valid e ≡ true
      → ends_word rest ≡ true
      → 2 * size e ≤ gas
      → size e ≤ f
      → (q : ℕ) × (parse_expr gas (state (write_sexpr e rest) p f)
          ≡ ok e (state rest q (f - size e)))
  expr_back e rest zero p f v h g l = absurd (omega (arith, size_pos e))
  expr_back (atom a) rest (suc gas) p f v h g l =
      let (q, r) = atom_back a rest v h (parse_items gas) p (f - 1) in
      (q, parse_expr_step gas (write_atom a rest) p f (opens_form-write_atom a rest v) l ∙ r)
  expr_back (list items) rest (suc gas) p f v h g l =
      let start = state (write_items items (")" ∷ rest)) (p + 1) (f - 1) in
      let (q, r) =
        items_back items rest gas start (p + 1) (f - 1) v (skip_items items rest (p + 1) (f - 1) v)
          (omega arith) (omega arith) in
      (
        q,
        parse_expr_step gas (write_sexpr (list items) rest) p f refl (omega arith)
            ∙ ap list_of r
            ∙ ap (λ (x : ℕ). ok (list items) (state rest q x)) (omega arith),
      )

  -- The loop reads written items up to the end of the list.
  items_back :
      (items : Items) (rest : Chars) (gas : ℕ) (st : ParserState) (p f : ℕ)
      → are_valid items ≡ true
      → skip_whitespace st ≡ state (write_items items (")" ∷ rest)) p f
      → 2 * sizes items + 1 ≤ gas
      → sizes items ≤ f
      → (q : ℕ) × (parse_items gas st ≡ ok items (state rest q (f - sizes items)))
  items_back items rest zero st p f v h g l = absurd (omega arith)
  items_back nil rest (suc gas) st p f v h g l = (
    p + 1,
    parse_items_end gas st rest p f h ∙ ap (λ (x : ℕ). ok nil (state rest (p + 1) x)) (omega arith),
  )
  items_back (cons e items) rest (suc gas) st p f v h g l =
      let s = size_pos e in
      let after = write_more items (")" ∷ rest) in
      let (q, r) =
        expr_back e after gas p f (ground arith) (ends_word-write_more items rest) (omega arith)
          (omega arith) in
      let (q1, h1) = skip_more items rest q (f - size e) (ground arith) in
      let (q2, r2) =
        items_back items rest gas (state after q (f - size e)) q1 (f - size e) (ground arith) h1
          (omega arith) (omega arith) in
      (
        q2,
        parse_items_cons gas st (state after q (f - size e)) _ (write_sexpr e after) p f e items
              (opens_form-write_sexpr e after (ground arith)) h r r2
            ∙ ap (λ (x : ℕ). ok (cons e items) (state rest q2 x)) (omega arith),
      )

byte_len-append : (s t : Chars) → byte_len (s ++ t) ≡ byte_len s + byte_len t
byte_len-append [] t = omega arith
byte_len-append (c ∷ s) t = omega (arith, byte_len-append s t)

byte_len-nonempty : (s : Chars) → is_empty s ≡ false → 1 ≤ byte_len s
byte_len-nonempty [] h = absurd (ground arith)
byte_len-nonempty (c ∷ s) h = let (k, e) = len_utf8-pos c in omega (arith, e)

longer : (s t : Chars) → is_empty s ≡ false → 1 + byte_len t ≤ byte_len (s ++ t)
longer s t h = omega (arith, byte_len-append s t, byte_len-nonempty s h)

byte_len-write_chars : (s t : Chars) → byte_len t ≤ byte_len (write_chars s t)
unfolding write_chars
byte_len-write_chars [] t = omega arith
byte_len-write_chars (c ∷ s) t =
    elim (escape c)
      as (λ o.
        byte_len t
        ≤ byte_len (elim o [ none ↦ c ∷ write_chars s t | some d ↦ "\\" ∷ d ∷ write_chars s t ])) [
          | none ↦ omega (arith, byte_len-write_chars s t)
          | some d ↦ omega (arith, byte_len-write_chars s t)
        ]

byte_len-decimal : (n : ℕ) (rest : Chars) → 1 + byte_len rest ≤ byte_len (decimal i64_places n rest)
byte_len-decimal n rest =
    subst (λ t. 1 + byte_len rest ≤ byte_len t) (sym (decimal-append i64_places n rest))
      (longer (decimal i64_places n []) rest (decimal_nonempty 18 n []))

byte_len-write_num : (z : ℤ) (rest : Chars) → 1 + byte_len rest ≤ byte_len (write_num z rest)
unfolding write_num
byte_len-write_num (pos n) rest = byte_len-decimal n rest
byte_len-write_num (negsuc n) rest = omega (arith, byte_len-decimal (n + 1) rest)

is_symbol_nonempty : (s : Chars) → is_symbol s ≡ true → is_empty s ≡ false
is_symbol_nonempty [] v = absurd (ground arith)
is_symbol_nonempty (c ∷ s) v = refl

byte_len-write_atom :
    (a : Atom) (rest : Chars)
    → is_valid_atom a ≡ true
    → 1 + byte_len rest ≤ byte_len (write_atom a rest)
unfolding write_atom
byte_len-write_atom (symbol s) rest v = longer (chars_of s) rest (is_symbol_nonempty (chars_of s) v)
byte_len-write_atom (str s) rest v = omega (arith, byte_len-write_chars (chars_of s) ("\"" ∷ rest))
byte_len-write_atom (num z) rest v = byte_len-write_num z rest
byte_len-write_atom (bool b) rest v = omega arith
byte_len-write_atom (keyword k) rest v = omega (arith, byte_len-append (chars_of k) rest)

mutual
  unfolding size is_valid write_sexpr

  byte_len-write_sexpr :
      (e : SExpr) (rest : Chars)
      → is_valid e ≡ true
      → size e + byte_len rest ≤ byte_len (write_sexpr e rest)
  byte_len-write_sexpr (atom a) rest v = byte_len-write_atom a rest v
  byte_len-write_sexpr (list nil) rest v = omega arith
  byte_len-write_sexpr (list (cons e items)) rest v = omega (
    arith,
    byte_len-write_sexpr e (write_more items (")" ∷ rest)) (ground arith),
    byte_len-write_more items (")" ∷ rest) (ground arith),
  )

  byte_len-write_more :
      (items : Items) (rest : Chars)
      → are_valid items ≡ true
      → sizes items + byte_len rest ≤ byte_len (write_more items rest)
  byte_len-write_more nil rest v = omega arith
  byte_len-write_more (cons e items) rest v = omega (
    arith,
    byte_len-write_sexpr e (write_more items rest) (ground arith),
    byte_len-write_more items rest (ground arith),
  )

-- With fuel for every expression of a valid one, the parser reads its text back.
pub parse_with_fuel-serialize :
    (e : SExpr) (fuel : Option ℕ)
    → is_valid e ≡ true
    → size e ≤ fuel_for fuel (serialize e)
    → parse_with_fuel (serialize e) fuel ≡ parsed e
unfolding parse_with_fuel serialize
parse_with_fuel-serialize e fuel v l =
    let f = fuel_for fuel (serialize e) in
    let (q, r) = expr_back e [] (gas_for f) 0 f v refl (omega arith) l in
    ap (λ st. finished (parse_expr (gas_for f) st))
      (skip_whitespace_none (write_sexpr e []) 0 f (opens_form-write_sexpr e [] v))
    ∙ ap finished r
    ∙ refl

-- The text that the serializer writes for an expression, with the names that the grammar allows and
-- numbers in the range of an i64, is read back as that expression, with the fuel that the parser
-- chooses.
pub parse-serialize : (e : SExpr) → is_valid e ≡ true → parse (serialize e) ≡ parsed e
unfolding parse serialize
parse-serialize e v =
    parse_with_fuel-serialize e none v (omega (arith, byte_len-write_sexpr e [] v))
