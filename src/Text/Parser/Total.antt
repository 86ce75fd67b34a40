-- ===== src/Text/Parser/Total.antt =====
-- The parser (crates/cbcl-parser/src/parser.rs) always ends, and the fuel that it chooses suffices.
use cbcl_rs.Prelude.{
  Bool, Bool-cases, Option, [], arith, eqb, false, inl, inr, none, refl, subst, suc, sym, true,
  zero, ℕ, ◌*◌, ◌+◌, ◌-◌, ◌<◌, ◌∷◌, ◌≡◌, ◌≢◌, ◌≤◌,
}
use cbcl_rs.Sexpr.{SExpr, Items, nil}
use cbcl_rs.Text.{Chars, byte_len, is_code}
use cbcl_rs.Text.Leaf.{
  unexpected_char, fuel_exhausted, ParserState, Parsed, ok, err, out_of_gas, parse_leaf, skip,
  skip_whitespace,
}
use cbcl_rs.Text.Leaf.Words.{state}
use cbcl_rs.Text.Leaf.Progress.{Scanned, is_exhausted, parse_leaf-Scanned, skip-byte_len, len_pos}
use cbcl_rs.Text.Parser.{
  parse_expr, parse_items, expr_here, items_here, then_items, cons_of, list_of, consume_fuel, parse,
  parse_with_fuel, ParseResult, parsed, failed, unfinished, finished, finish_input, gas_for,
  fuel_for,
}
use cbcl_rs.Text.Parser.Steps.{parse_expr_fuel}

-- Success leaves less fuel than `n`; if the fuel covers the input at the start, then it does so at
-- the end, and the failure is not for want of fuel.
abbrev After : {A : Type 0} → Bool → ℕ → Parsed A → Type 0
After covers n (ok a st) = (st.fuel < n) × (covers ≡ true → byte_len st.rest ≤ st.fuel)
After covers n (err x) = covers ≡ true → is_exhausted x ≡ false
After covers n out_of_gas = ⊥

-- The fuel covers the input.
abbrev Covers : Bool → Chars → ℕ → Type 0
Covers covers t f = covers ≡ true → byte_len t ≤ f

module _ (covers : Bool) where
  Scanned-After :
      (m f : ℕ) (r : Parsed SExpr)
      → (covers ≡ true → m ≤ suc f)
      → Scanned m f r
      → After covers (suc f) r
  Scanned-After m f (ok e st) l (eq, h) = (omega arith, λ b. let k = l b in omega arith)
  Scanned-After m f (err x) l h = λ b. h
  Scanned-After m f out_of_gas l h = elim h [ ]

  After-weaken : {A : Type 0} (n m : ℕ) (r : Parsed A) → n ≤ m → After covers n r → After covers m r
  After-weaken n m (ok a st) l (h, c) = (omega arith, c)
  After-weaken n m (err x) l h = h
  After-weaken n m out_of_gas l h = elim h [ ]

  list_of-After : (n : ℕ) (r : Parsed Items) → After covers n r → After covers n (list_of r)
  list_of-After n (ok items st) h = h
  list_of-After n (err x) h = h
  list_of-After n out_of_gas h = elim h [ ]

  cons_of-After :
      (n : ℕ) (e : SExpr) (r : Parsed Items) → After covers n r → After covers n (cons_of e r)
  cons_of-After n e (ok items st) h = h
  cons_of-After n e (err x) h = h
  cons_of-After n e out_of_gas h = elim h [ ]

  then_items-After :
      (n : ℕ) (items : ParserState → Parsed Items) (r : Parsed SExpr)
      → ((st : ParserState)
          → st.fuel < n
          → Covers covers st.rest st.fuel
          → After covers n (items st))
      → After covers n r
      → After covers n (then_items items r)
  then_items-After n items (ok e st) k (l, c) = cons_of-After n e (items st) (k st l c)
  then_items-After n items (err x) k h = h
  then_items-After n items out_of_gas k h = elim h [ ]

  expr_here-After :
      (items : ParserState → Parsed Items) (t : Chars) (p f : ℕ)
      → ((cs : Chars) (q : ℕ) → Covers covers cs f → After covers (suc f) (items (state cs q f)))
      → Covers covers t (suc f)
      → After covers (suc f) (expr_here items (state t p f))
  expr_here-After items [] p f k c = λ b. refl
  expr_here-After items (x ∷ cs) p f k c =
      elim (is_code b'(' x)
        as (λ (b : Bool). After covers (suc f) (elim b [
          | true ↦ list_of (items (state cs (p + 1) f))
          | false ↦ parse_leaf x cs (state (x ∷ cs) p f)
        ])) [
          | true ↦
              list_of-After (suc f) (items (state cs (p + 1) f))
                (k cs (p + 1) (λ b. let l = c b in omega (arith, len_pos x)))
          | false ↦ Scanned-After (byte_len (x ∷ cs)) f _ c (parse_leaf-Scanned x cs p f)
        ]

  items_here-After :
      (expr : ParserState → Parsed SExpr) (items : ParserState → Parsed Items) (t : Chars) (p f : ℕ)
      → ((covers ≡ true → 1 ≤ f) → After covers f (expr (state t p f)))
      → ((st : ParserState)
          → st.fuel < f
          → Covers covers st.rest st.fuel
          → After covers f (items st))
      → Covers covers t f
      → After covers (suc f) (items_here expr items (state t p f))
  items_here-After expr items [] p f h k c = λ b. refl
  items_here-After expr items (x ∷ cs) p f h k c =
      let fuel : covers ≡ true → 1 ≤ f = λ b. let l = c b in omega (arith, len_pos x) in
      elim (is_code b')' x)
        as (λ (b : Bool). After covers (suc f) (elim b [
          | true ↦ ok nil (state cs (p + 1) f)
          | false ↦ then_items items (expr (state (x ∷ cs) p f))
        ])) [
          | true ↦ (omega arith, λ b. let l = c b in omega arith)
          | false ↦ After-weaken f (suc f) _ (omega arith) (then_items-After f items _ k (h fuel))
        ]

  skip-Covers : (t : Chars) (p f : ℕ) → Covers covers t f → Covers covers (skip false t p).0 f
  skip-Covers t p f c b = let l = c b in omega (arith, skip-byte_len false t p)

  no_fuel_After :
      (gas : ℕ) (t : Chars) (p f : ℕ)
      → f ≡ 0
      → (covers ≡ true → 1 ≤ f)
      → After covers f (parse_expr (suc gas) (state t p f))
  unfolding parse_expr consume_fuel
  no_fuel_After gas t p f z o =
      subst (λ (k : ℕ). After covers f (parse_expr (suc gas) (state t p k))) (sym z)
        (λ b. let l = o b in absurd (omega arith))

  expr_round_After :
      (gas : ℕ) (t : Chars) (p f : ℕ)
      → 1 ≤ f
      → ((cs : Chars) (q : ℕ)
          → Covers covers cs (f - 1)
          → After covers (suc (f - 1)) (parse_items gas (state cs q (f - 1))))
      → Covers covers t f
      → After covers f (parse_expr (suc gas) (state t p f))
  unfolding skip_whitespace
  expr_round_After gas t p f o k c =
      let s = skip false t p in
      let covered : Covers covers s.0 (suc (f - 1)) =
        λ b. let l = skip-Covers t p f c b in omega arith in
      subst (After covers f) (sym (parse_expr_fuel gas t p f o)) (
        After-weaken (suc (f - 1)) f _ (omega arith)
          (expr_here-After (parse_items gas) s.0 s.1 (f - 1) k covered))

  items_round_After :
      (gas : ℕ) (t : Chars) (p f : ℕ)
      → ((cs : Chars) (q : ℕ)
          → Covers covers cs f
          → (covers ≡ true → 1 ≤ f)
          → After covers f (parse_expr gas (state cs q f)))
      → ((st : ParserState)
          → st.fuel < f
          → Covers covers st.rest st.fuel
          → After covers f (parse_items gas st))
      → Covers covers t f
      → After covers (suc f) (parse_items (suc gas) (state t p f))
  unfolding parse_items skip_whitespace
  items_round_After gas t p f h k c =
      let s = skip false t p in
      let covered = skip-Covers t p f c in
      items_here-After (parse_expr gas) (parse_items gas) s.0 s.1 f (h s.0 s.1 covered) k covered

  mutual
    -- The count suffices for one expression.
    expr_After :
        (gas : ℕ) (t : Chars) (p f : ℕ)
        → 2 * f < gas
        → (covers ≡ true → 1 ≤ f)
        → Covers covers t f
        → After covers f (parse_expr gas (state t p f))
    expr_After zero t p f g o c = absurd (omega arith)
    expr_After (suc gas) t p f g o c = elim (Bool-cases (eqb f 0)) [
      | inl z ↦ no_fuel_After gas t p f (ground arith) o
      | inr n ↦
          let some_fuel : 1 ≤ f = ground arith in
          expr_round_After gas t p f some_fuel (λ cs q. items_After gas cs q (f - 1) (omega arith))
            c
    ]

    -- The count suffices for the items of a list.
    items_After :
        (gas : ℕ) (t : Chars) (p f : ℕ)
        → 2 * f + 1 < gas
        → Covers covers t f
        → After covers (suc f) (parse_items gas (state t p f))
    items_After zero t p f g c = absurd (omega arith)
    items_After (suc gas) t p f g c =
        items_round_After gas t p f (λ cs q d o. expr_After gas cs q f (omega arith) o d)
          (λ st l d.
            After-weaken (suc st.fuel) f _ (omega arith)
              (items_After gas st.rest st.offset st.fuel (omega arith) d))
          c

-- A result that the program can have: not the end of the count, and, if `covers` holds, not the end
-- of the fuel.
abbrev pub IsFinal : Bool → ParseResult → Type 0
IsFinal covers (parsed e) = Unit
IsFinal covers (failed x) = covers ≡ true → is_exhausted x ≡ false
IsFinal covers unfinished = ⊥

finish_input-IsFinal :
    (covers : Bool) (e : SExpr) (st : ParserState) → IsFinal covers (finish_input e st)
finish_input-IsFinal covers e st =
    elim st.rest
      as (λ (t : Chars).
        IsFinal covers (elim t [
          | [] ↦ parsed e
          | c ∷ cs ↦ failed (unexpected_char st.offset c "end of input")
        ])) [ [] ↦ tt | c ∷ cs ↦ λ b. refl ]

finished-IsFinal :
    (covers : Bool) (n : ℕ) (r : Parsed SExpr) → After covers n r → IsFinal covers (finished r)
finished-IsFinal covers n (ok e st) h = finish_input-IsFinal covers e (skip_whitespace st)
finished-IsFinal covers n (err x) h = h
finished-IsFinal covers n out_of_gas h = elim h [ ]

run-IsFinal :
    (covers : Bool) (input : Chars) (fuel : Option ℕ)
    → (covers ≡ true → 1 ≤ fuel_for fuel input)
    → Covers covers input (fuel_for fuel input)
    → IsFinal covers (parse_with_fuel input fuel)
unfolding parse_with_fuel skip_whitespace
run-IsFinal covers input fuel o c =
    let f = fuel_for fuel input in
    let s = skip false input 0 in
    finished-IsFinal covers f _
      (expr_After covers (gas_for f) s.0 s.1 f (omega arith) o (skip-Covers covers input 0 f c))

-- With any fuel and on any text the parser ends with an expression or an error: the count that its
-- recursion runs on suffices.
pub parse_with_fuel_ends :
    (input : Chars) (fuel : Option ℕ) → parse_with_fuel input fuel ≢ unfinished
parse_with_fuel_ends input fuel e =
    subst (IsFinal false) e
      (run-IsFinal false input fuel (λ b. absurd (ground arith)) (λ b. absurd (ground arith)))

-- With the fuel that it chooses itself the parser does not fail for want of fuel, on any text.
pub parse_never_exhausted : (input : Chars) (p : ℕ) → parse input ≢ failed (fuel_exhausted p)
unfolding parse
parse_never_exhausted input p e =
    let final : IsFinal true (failed (fuel_exhausted p)) =
      subst (IsFinal true) e (run-IsFinal true input none (λ b. omega arith) (λ b. omega arith)) in
    absurd (ground (arith, final refl))
