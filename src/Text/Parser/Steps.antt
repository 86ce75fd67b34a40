-- ===== src/Text/Parser/Steps.antt =====
-- The rounds of the parser (crates/cbcl-parser/src/parser.rs) on what the serializer
-- (crates/cbcl-core/src/serializer.rs) writes.
use cbcl_rs.Prelude.{
  Bool, [], ap, arith, eqb, false, if◌then◌else◌, none, refl, some, suc, true, ℕ, ◌&&◌, ◌++◌, ◌+◌,
  ◌-◌, ◌∙◌, ◌∷◌, ◌≡◌, ◌≤◌,
}
use cbcl_rs.Sexpr.{Atom, symbol, str, num, bool, keyword, SExpr, Items, atom, list, nil, cons}
use cbcl_rs.Text.{
  Chars, is_code, write_sexpr, write_items, write_more, write_atom, write_num, chars_of,
}
use cbcl_rs.Text.Leaf.{
  ParserState, Parsed, ok, err, fuel_exhausted, skip, skip_whitespace, is_symbol_char,
}
use cbcl_rs.Text.Leaf.Words.{
  state, ends_word, opens_form, skip_whitespace_none, skip_whitespace_space,
}
use cbcl_rs.Text.Parser.{
  parse_expr, parse_items, expr_here, items_here, then_items, cons_of, consume_fuel,
}
use cbcl_rs.Text.Parser.Atoms.{is_valid_atom, is_symbol, starts_number, starts_number-write_num}

unfoldable mutual
  -- The expressions that the text of the serializer stands for.
  pub is_valid : SExpr → Bool
  is_valid (atom a) = is_valid_atom a
  is_valid (list items) = are_valid items

  pub are_valid : Items → Bool
  are_valid nil = true
  are_valid (cons e items) = is_valid e && are_valid items

unfoldable mutual
  -- The number of expressions, which is the fuel that they cost.
  pub size : SExpr → ℕ
  size (atom a) = 1
  size (list items) = 1 + sizes items

  pub sizes : Items → ℕ
  sizes nil = 0
  sizes (cons e items) = size e + sizes items

pub size_pos : (e : SExpr) → 1 ≤ size e
unfolding size
size_pos (atom a) = omega arith
size_pos (list items) = omega arith

opens_form-symbol : (s rest : Chars) → is_symbol s ≡ true → opens_form (s ++ rest) ≡ true
unfolding is_symbol_char
opens_form-symbol [] rest v = absurd (ground arith)
opens_form-symbol (c ∷ s) rest v = ground arith

opens_form-number : (t : Chars) → starts_number t ≡ true → opens_form t ≡ true
unfolding starts_number
opens_form-number [] h = h
opens_form-number (c ∷ cs) h = ground arith

pub opens_form-write_atom :
    (a : Atom) (rest : Chars) → is_valid_atom a ≡ true → opens_form (write_atom a rest) ≡ true
unfolding write_atom is_symbol_char
opens_form-write_atom (symbol s) rest v = opens_form-symbol (chars_of s) rest v
opens_form-write_atom (str s) rest v = refl
opens_form-write_atom (num z) rest v =
    opens_form-number (write_num z rest) (starts_number-write_num z rest)
opens_form-write_atom (bool b) rest v = refl
opens_form-write_atom (keyword k) rest v = refl

pub opens_form-write_sexpr :
    (e : SExpr) (rest : Chars) → is_valid e ≡ true → opens_form (write_sexpr e rest) ≡ true
unfolding is_valid write_sexpr
opens_form-write_sexpr (atom a) rest v = opens_form-write_atom a rest v
opens_form-write_sexpr (list items) rest v = refl

pub ends_word-write_more :
    (items : Items) (rest : Chars) → ends_word (write_more items (")" ∷ rest)) ≡ true
unfolding write_more is_symbol_char
ends_word-write_more nil rest = refl
ends_word-write_more (cons e items) rest = refl

pub parse_expr_fuel :
    (gas : ℕ) (t : Chars) (p f : ℕ)
    → 1 ≤ f
    → parse_expr (suc gas) (state t p f)
      ≡ expr_here (parse_items gas) (skip_whitespace (state t p (f - 1)))
unfolding parse_expr consume_fuel
parse_expr_fuel gas t p f h =
    let zero_fuel : eqb f 0 ≡ false = ground arith in
    ap
      (λ (b : Bool). elim (if b then none else some (state t p (f - 1))) [
        | none ↦ err (fuel_exhausted p)
        | some st ↦ expr_here (parse_items gas) (skip_whitespace st)
      ])
      zero_fuel

pub parse_expr_step :
    (gas : ℕ) (t : Chars) (p f : ℕ)
    → opens_form t ≡ true
    → 1 ≤ f
    → parse_expr (suc gas) (state t p f) ≡ expr_here (parse_items gas) (state t p (f - 1))
parse_expr_step gas t p f o h =
    parse_expr_fuel gas t p f h
    ∙ ap (expr_here (parse_items gas)) (skip_whitespace_none t p (f - 1) o)

items_here_expr :
    (expr : ParserState → Parsed SExpr) (items : ParserState → Parsed Items) (t : Chars) (p f : ℕ)
    → opens_form t ≡ true
    → items_here expr items (state t p f) ≡ then_items items (expr (state t p f))
items_here_expr expr items [] p f h = absurd (ground arith)
items_here_expr expr items (c ∷ cs) p f h =
    let no_end : is_code b')' c ≡ false = ground arith in
    ap
      (λ (b : Bool). elim b [
        | true ↦ ok nil (state cs (p + 1) f)
        | false ↦ then_items items (expr (state (c ∷ cs) p f))
      ])
      no_end

-- The white space between two items, and in front of the first, where there is none.
pub skip_items :
    (items : Items) (rest : Chars) (p f : ℕ)
    → are_valid items ≡ true
    → skip_whitespace (state (write_items items (")" ∷ rest)) p f)
      ≡ state (write_items items (")" ∷ rest)) p f
unfolding are_valid write_items skip_whitespace skip
skip_items nil rest p f v = refl
skip_items (cons e items) rest p f v =
    skip_whitespace_none (write_sexpr e (write_more items (")" ∷ rest))) p f
      (opens_form-write_sexpr e (write_more items (")" ∷ rest)) (ground arith))

pub skip_more :
    (items : Items) (rest : Chars) (p f : ℕ)
    → are_valid items ≡ true
    → (q : ℕ) × (skip_whitespace (state (write_more items (")" ∷ rest)) p f)
        ≡ state (write_items items (")" ∷ rest)) q f)
unfolding are_valid write_items skip_whitespace skip
skip_more nil rest p f v = (p, refl)
skip_more (cons e items) rest p f v = (
  p + 1,
  skip_whitespace_space (write_sexpr e (write_more items (")" ∷ rest))) p f
      (opens_form-write_sexpr e (write_more items (")" ∷ rest)) (ground arith)),
)

pub parse_items_end :
    (gas : ℕ) (st : ParserState) (rest : Chars) (p f : ℕ)
    → skip_whitespace st ≡ state (")" ∷ rest) p f
    → parse_items (suc gas) st ≡ ok nil (state rest (p + 1) f)
unfolding parse_items
parse_items_end gas st rest p f h = ap (items_here (parse_expr gas) (parse_items gas)) h

pub parse_items_cons :
    (gas : ℕ) (st st' st'' : ParserState) (t : Chars) (p f : ℕ) (e : SExpr) (items : Items)
    → opens_form t ≡ true
    → skip_whitespace st ≡ state t p f
    → parse_expr gas (state t p f) ≡ ok e st'
    → parse_items gas st' ≡ ok items st''
    → parse_items (suc gas) st ≡ ok (cons e items) st''
unfolding parse_items
parse_items_cons gas st st' st'' t p f e items o h r s =
    ap (items_here (parse_expr gas) (parse_items gas)) h
    ∙ items_here_expr (parse_expr gas) (parse_items gas) t p f o
    ∙ ap (then_items (parse_items gas)) r
    ∙ ap (cons_of e) s
