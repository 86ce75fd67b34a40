-- ===== src/Text/Parser/Stable.antt =====
-- An expression that was parsed (crates/cbcl-parser/src/parser.rs) has a text of its own, so it is
-- read back from its canonical text.
use cbcl_rs.Prelude.{
  Bool, Option, [], and_intro, eqb, false, if_both, none, refl, some, subst, suc, true, zero, ℕ,
  ◌+◌, ◌-◌, ◌∷◌, ◌≡◌,
}
use cbcl_rs.Sexpr.{SExpr, Items, nil}
use cbcl_rs.Text.{Chars, is_code, serialize}
use cbcl_rs.Text.Leaf.{
  ParserState, Parsed, ok, err, out_of_gas, skip, skip_whitespace, parse_leaf, fuel_exhausted,
  unexpected_char,
}
use cbcl_rs.Text.Leaf.Words.{state}
use cbcl_rs.Text.Parser.{
  parse_expr, parse_items, expr_here, items_here, then_items, cons_of, list_of, consume_fuel, parse,
  parse_with_fuel, ParseResult, parsed, failed, unfinished, finished, fuel_for, gas_for,
}
use cbcl_rs.Text.Parser.Steps.{is_valid, are_valid}
use cbcl_rs.Text.Parser.RoundTrip.{parse-serialize}
use cbcl_rs.Text.Parser.Valid.{Valid, parse_leaf-Valid}

abbrev ItemsValid : Parsed Items → Type 0
ItemsValid (ok items st) = are_valid items ≡ true
ItemsValid (err x) = Unit
ItemsValid out_of_gas = Unit

list_of-Valid : (r : Parsed Items) → ItemsValid r → Valid (list_of r)
unfolding is_valid
list_of-Valid (ok items st) h = h
list_of-Valid (err x) h = tt
list_of-Valid out_of_gas h = tt

cons_of-ItemsValid :
    (e : SExpr) (r : Parsed Items) → is_valid e ≡ true → ItemsValid r → ItemsValid (cons_of e r)
unfolding is_valid
cons_of-ItemsValid e (ok items st) h g = and_intro (is_valid e) (are_valid items) h g
cons_of-ItemsValid e (err x) h g = tt
cons_of-ItemsValid e out_of_gas h g = tt

then_items-ItemsValid :
    (items : ParserState → Parsed Items) (r : Parsed SExpr)
    → ((st : ParserState) → ItemsValid (items st))
    → Valid r
    → ItemsValid (then_items items r)
then_items-ItemsValid items (ok e st) k h = cons_of-ItemsValid e (items st) h (k st)
then_items-ItemsValid items (err x) k h = tt
then_items-ItemsValid items out_of_gas k h = tt

expr_here-Valid :
    (items : ParserState → Parsed Items) (t : Chars) (p f : ℕ)
    → ((st : ParserState) → ItemsValid (items st))
    → Valid (expr_here items (state t p f))
expr_here-Valid items [] p f k = tt
expr_here-Valid items (x ∷ cs) p f k =
    elim (is_code b'(' x)
      as (λ (b : Bool). Valid (elim b as (λ _. Parsed SExpr) [
        | true ↦ list_of (items (state cs (p + 1) f))
        | false ↦ parse_leaf x cs (state (x ∷ cs) p f)
      ])) [
        | true ↦ list_of-Valid (items (state cs (p + 1) f)) (k (state cs (p + 1) f))
        | false ↦ parse_leaf-Valid x cs p f
      ]

items_here-ItemsValid :
    (expr : ParserState → Parsed SExpr) (items : ParserState → Parsed Items) (t : Chars) (p f : ℕ)
    → ((st : ParserState) → Valid (expr st))
    → ((st : ParserState) → ItemsValid (items st))
    → ItemsValid (items_here expr items (state t p f))
unfolding is_valid
items_here-ItemsValid expr items [] p f h k = tt
items_here-ItemsValid expr items (x ∷ cs) p f h k =
    elim (is_code b')' x)
      as (λ (b : Bool). ItemsValid (elim b as (λ _. Parsed Items) [
        | true ↦ ok nil (state cs (p + 1) f)
        | false ↦ then_items items (expr (state (x ∷ cs) p f))
      ])) [
        | true ↦ refl
        | false ↦ then_items-ItemsValid items (expr (state (x ∷ cs) p f)) k (h (state (x ∷ cs) p f))
      ]

mutual
  unfolding parse_expr skip_whitespace consume_fuel

  expr-Valid : (gas : ℕ) (st : ParserState) → Valid (parse_expr gas st)
  expr-Valid zero st = tt
  expr-Valid (suc gas) st =
      let s = skip false st.rest st.offset in
      if_both
        (λ (o : Option ParserState). Valid (elim o as (λ _. Parsed SExpr) [
          | none ↦ err (fuel_exhausted st.offset)
          | some st' ↦ expr_here (parse_items gas) (skip_whitespace st')
        ]))
        (eqb st.fuel 0) none (some (record st { fuel = st.fuel - 1 })) tt
        (expr_here-Valid (parse_items gas) s.0 s.1 (st.fuel - 1) (λ st'. items-ItemsValid gas st'))

  items-ItemsValid : (gas : ℕ) (st : ParserState) → ItemsValid (parse_items gas st)
  items-ItemsValid zero st = tt
  items-ItemsValid (suc gas) st =
      let s = skip false st.rest st.offset in
      items_here-ItemsValid (parse_expr gas) (parse_items gas) s.0 s.1 st.fuel
        (λ st'. expr-Valid gas st') (λ st'. items-ItemsValid gas st')

abbrev ResultValid : ParseResult → Type 0
ResultValid (parsed e) = is_valid e ≡ true
ResultValid (failed x) = Unit
ResultValid unfinished = Unit

finished-ResultValid : (r : Parsed SExpr) → Valid r → ResultValid (finished r)
finished-ResultValid (ok e st) h =
    let end = skip_whitespace st in
    elim end.rest
      as (λ (t : Chars). ResultValid (elim t as (λ _. ParseResult) [
        | [] ↦ parsed e
        | c ∷ cs ↦ failed (unexpected_char end.offset c "end of input")
      ])) [ [] ↦ h | c ∷ cs ↦ tt ]
finished-ResultValid (err x) h = tt
finished-ResultValid out_of_gas h = tt

-- An expression that was parsed, from any text and with any fuel, is read back from the text that
-- the serializer writes for it.
pub parse_with_fuel_stable :
    (input : Chars) (fuel : Option ℕ) (e : SExpr)
    → parse_with_fuel input fuel ≡ parsed e
    → parse (serialize e) ≡ parsed e
unfolding parse_with_fuel
parse_with_fuel_stable input fuel e h =
    let f = fuel_for fuel input in
    let start = skip_whitespace (state input 0 f) in
    parse-serialize e (
      subst ResultValid h
        (finished-ResultValid (parse_expr (gas_for f) start) (expr-Valid (gas_for f) start)))
