-- ===== src/Text/Parser.antt =====
-- The parser of S-expressions (crates/cbcl-parser/src/parser.rs). The recursion runs on a count,
-- `gas`, that the program does not have.
pub mod Atoms
pub mod Steps
pub mod Total
pub mod RoundTrip
mod Valid
pub mod Stable
use cbcl_rs.Prelude.{
  Option, [], eqb, false, if◌then◌else◌, max, none, some, suc, true, zero, ℕ, ◌*◌, ◌+◌, ◌-◌, ◌∷◌,
}
use cbcl_rs.Sexpr.{SExpr, Items, list, nil, cons}
use cbcl_rs.Text.{Chars, byte_len, is_code}
use cbcl_rs.Text.Leaf.{
  ParseError, unexpected_char, unexpected_eof, fuel_exhausted, ParserState, Parsed, ok, err,
  out_of_gas, skip_whitespace, parse_leaf,
}

abbrev pub list_of : Parsed Items → Parsed SExpr
list_of (ok items st) = ok (list items) st
list_of (err e) = err e
list_of out_of_gas = out_of_gas

abbrev pub cons_of : SExpr → Parsed Items → Parsed Items
cons_of e (ok items st) = ok (cons e items) st
cons_of e (err x) = err x
cons_of e out_of_gas = out_of_gas

unfoldable pub consume_fuel : ParserState → Option ParserState
consume_fuel st = if eqb st.fuel 0 then none else some (record st { fuel = st.fuel - 1 })

-- What the first character of an expression asks for.
abbrev pub expr_here : (ParserState → Parsed Items) → ParserState → Parsed SExpr
expr_here items st = elim st.rest [
  | [] ↦ err (unexpected_eof st.offset "expression")
  | c ∷ cs ↦ elim (is_code b'(' c) [
    | true ↦ list_of (items (record st { rest = cs; offset = st.offset + 1 }))
    | false ↦ parse_leaf c cs st
  ]
]

abbrev pub then_items : (ParserState → Parsed Items) → Parsed SExpr → Parsed Items
then_items items (ok e st) = cons_of e (items st)
then_items items (err x) = err x
then_items items out_of_gas = out_of_gas

-- One round of the loop over the items of a list.
abbrev pub items_here :
    (ParserState → Parsed SExpr) → (ParserState → Parsed Items) → ParserState → Parsed Items
items_here expr items st = elim st.rest [
  | [] ↦ err (unexpected_eof st.offset "')'")
  | c ∷ cs ↦ elim (is_code b')' c) [
    | true ↦ ok nil (record st { rest = cs; offset = st.offset + 1 })
    | false ↦ then_items items (expr st)
  ]
]

unfoldable mutual
  pub parse_expr : ℕ → ParserState → Parsed SExpr
  parse_expr zero st = out_of_gas
  parse_expr (suc gas) st = elim (consume_fuel st) [
    | none ↦ err (fuel_exhausted st.offset)
    | some st' ↦ expr_here (parse_items gas) (skip_whitespace st')
  ]

  pub parse_items : ℕ → ParserState → Parsed Items
  parse_items zero st = out_of_gas
  parse_items (suc gas) st = items_here (parse_expr gas) (parse_items gas) (skip_whitespace st)

-- The result of the whole parser, without the state.
pub data ParseResult : Type 0 where
  parsed : SExpr → ParseResult
  failed : ParseError → ParseResult
  unfinished : ParseResult

abbrev pub finish_input : SExpr → ParserState → ParseResult
finish_input e st = elim st.rest [
  | [] ↦ parsed e
  | c ∷ cs ↦ failed (unexpected_char st.offset c "end of input")
]

abbrev pub finished : Parsed SExpr → ParseResult
finished (ok e st) = finish_input e (skip_whitespace st)
finished (err x) = failed x
finished out_of_gas = unfinished

-- Each call of the parser costs a unit of fuel and at most two units of gas.
abbrev pub gas_for : ℕ → ℕ
gas_for fuel = 2 * fuel + 1

abbrev pub fuel_for : Option ℕ → Chars → ℕ
fuel_for none input = max (byte_len input) 1
fuel_for (some fuel) input = fuel

unfoldable pub parse_with_fuel : Chars → Option ℕ → ParseResult
unfolding parse_expr skip_whitespace
parse_with_fuel input fuel =
    let f = fuel_for fuel input in
    finished
      (parse_expr (gas_for f) (skip_whitespace (record { rest = input; offset = 0; fuel = f })))

unfoldable pub parse : Chars → ParseResult
unfolding parse_with_fuel
parse input = parse_with_fuel input none
