-- ===== src/Text/Leaf/Numbers.antt =====
-- Decimal numbers: what the serializer (crates/cbcl-core/src/serializer.rs) writes, the parser
-- (crates/cbcl-parser/src/parser.rs) reads.
use cbcl_rs.Prelude.{
  Bool, Bool-cases, [], all, ap, arith, false, if◌then◌else◌, inl, inr, is_empty, ltb, none, refl,
  some, suc, true, zero, ℕ, ◌%◌, ◌*◌, ◌++◌, ◌+◌, ◌-◌, ◌/◌, ◌<◌, ◌^◌, ◌∙◌, ◌∷◌, ◌≡◌, ◌≤◌,
}
use Prim.Native.Char.{Char, code}
use native.Mathlib.Nat.{pow-suc}
use mathlib.Core.List.{append_assoc}
use cbcl_rs.Sexpr.{ℤ, pos, negsuc}
use cbcl_rs.Text.{Chars, is_code, decimal, digit_char, write_num, i64_places}
use cbcl_rs.Text.Leaf.{
  digits_value, parse_i64, is_ascii_digit, i64_bound, nonempty_value, positive, negative,
}

digit_char-value : (d : ℕ) → d < 10 → code (digit_char d) ≡ 48 + d
unfolding digit_char
digit_char-value zero h = refl
digit_char-value (suc zero) h = refl
digit_char-value (suc (suc zero)) h = refl
digit_char-value (suc (suc (suc zero))) h = refl
digit_char-value (suc (suc (suc (suc zero)))) h = refl
digit_char-value (suc (suc (suc (suc (suc zero))))) h = refl
digit_char-value (suc (suc (suc (suc (suc (suc zero)))))) h = refl
digit_char-value (suc (suc (suc (suc (suc (suc (suc zero))))))) h = refl
digit_char-value (suc (suc (suc (suc (suc (suc (suc (suc zero)))))))) h = refl
digit_char-value (suc (suc (suc (suc (suc (suc (suc (suc (suc zero))))))))) h = refl
digit_char-value (suc (suc (suc (suc (suc (suc (suc (suc (suc (suc d)))))))))) h =
    absurd (omega arith)

digit_char-is_ascii_digit : (d : ℕ) → d < 10 → is_ascii_digit (digit_char d) ≡ true
digit_char-is_ascii_digit d h = ground (arith, digit_char-value d h)

module _ (w n : ℕ) (rest : Chars) where
  decimal_short : n < 10 → decimal (suc w) n rest ≡ digit_char n ∷ rest
  unfolding decimal
  decimal_short h = ground arith

  decimal_long : 10 ≤ n → decimal (suc w) n rest ≡ decimal w (n / 10) (digit_char (n % 10) ∷ rest)
  unfolding decimal
  decimal_long h = ground arith

decimal-zero : (n : ℕ) (rest : Chars) → decimal zero n rest ≡ rest
unfolding decimal
decimal-zero n rest = refl

digits_value_digit :
    (d acc : ℕ) (rest : Chars)
    → d < 10
    → digits_value (digit_char d ∷ rest) acc ≡ digits_value rest (acc * 10 + d)
unfolding digits_value
digits_value_digit d acc rest h =
    ap (λ (b : Bool). if b then digits_value rest (acc * 10 + (code (digit_char d) - 48)) else none)
      (digit_char-is_ascii_digit d h)
    ∙ ap (λ (x : ℕ). digits_value rest x) (omega (arith, digit_char-value d h))

pub decimal-append : (w n : ℕ) (rest : Chars) → decimal w n rest ≡ decimal w n [] ++ rest
decimal-append zero n rest = cc (decimal-zero n rest, decimal-zero n [])
decimal-append (suc w) n rest = elim (Bool-cases (ltb n 10)) [
  | inl e ↦ cc (decimal_short w n rest (ground arith), decimal_short w n [] (ground arith))
  | inr e ↦
      let d = digit_char (n % 10) in
      cc (
        decimal_long w n rest (ground arith),
        decimal_long w n [] (ground arith),
        decimal-append w (n / 10) (d ∷ rest),
        decimal-append w (n / 10) (d ∷ []),
        append_assoc (decimal w (n / 10) []) (d ∷ []) rest,
      )
]

pub all-decimal :
    (w n : ℕ) (rest : Chars)
    → all is_ascii_digit rest ≡ true
    → all is_ascii_digit (decimal w n rest) ≡ true
all-decimal zero n rest h = rw (decimal-zero n rest) h
all-decimal (suc w) n rest h = elim (Bool-cases (ltb n 10)) [
  | inl e ↦
      ap (all is_ascii_digit) (decimal_short w n rest (ground arith))
      ∙ ground (arith, digit_char-is_ascii_digit n)
  | inr e ↦
      ap (all is_ascii_digit) (decimal_long w n rest (ground arith))
      ∙ all-decimal w (n / 10) (digit_char (n % 10) ∷ rest)
          (ground (arith, digit_char-is_ascii_digit (n % 10)))
]

pub digits_value-decimal :
    (w n : ℕ) (rest : Chars) → n < 10 ^ w → digits_value (decimal w n rest) 0 ≡ digits_value rest n
digits_value-decimal zero n rest h =
    ap (λ t. digits_value t 0) (decimal-zero n rest)
    ∙ ap (λ (x : ℕ). digits_value rest x) (omega arith)
digits_value-decimal (suc w) n rest h = elim (Bool-cases (ltb n 10)) [
  | inl e ↦
      ap (λ t. digits_value t 0) (decimal_short w n rest (ground arith))
      ∙ digits_value_digit n 0 rest (ground arith)
      ∙ ap (λ (x : ℕ). digits_value rest x) (omega arith)
  | inr e ↦
      ap (λ t. digits_value t 0) (decimal_long w n rest (ground arith))
      ∙ digits_value-decimal w (n / 10) (digit_char (n % 10) ∷ rest) (omega (arith, pow-suc 10 w))
      ∙ digits_value_digit (n % 10) (n / 10) rest (omega arith)
      ∙ ap (λ (x : ℕ). digits_value rest x) (omega arith)
]

more_digits_nonempty :
    (w n : ℕ) (c : Char) (rest : Chars) → is_empty (decimal w n (c ∷ rest)) ≡ false
more_digits_nonempty zero n c rest = ap is_empty (decimal-zero n (c ∷ rest))
more_digits_nonempty (suc w) n c rest = elim (Bool-cases (ltb n 10)) [
  | inl e ↦ ap is_empty (decimal_short w n (c ∷ rest) (ground arith))
  | inr e ↦
      ap is_empty (decimal_long w n (c ∷ rest) (ground arith))
      ∙ more_digits_nonempty w (n / 10) (digit_char (n % 10)) (c ∷ rest)
]

pub decimal_nonempty : (w n : ℕ) (rest : Chars) → is_empty (decimal (suc w) n rest) ≡ false
decimal_nonempty w n rest = elim (Bool-cases (ltb n 10)) [
  | inl e ↦ ap is_empty (decimal_short w n rest (ground arith))
  | inr e ↦
      ap is_empty (decimal_long w n rest (ground arith))
      ∙ more_digits_nonempty w (n / 10) (digit_char (n % 10)) rest
]

-- The value of an i64 is in range.
abbrev pub is_i64 : ℤ → Bool
is_i64 (pos n) = ltb n i64_bound
is_i64 (negsuc n) = ltb n i64_bound

parse_i64_positive :
    (t : Chars) (n : ℕ)
    → is_empty t ≡ false
    → all is_ascii_digit t ≡ true
    → digits_value t 0 ≡ some n
    → n < i64_bound
    → parse_i64 t ≡ some (pos n)
unfolding parse_i64
parse_i64_positive [] n h a v l = absurd (ground arith)
parse_i64_positive (c ∷ cs) n h a v l =
    let digit : is_ascii_digit c ≡ true = ground arith in
    let unsigned : is_code b'-' c ≡ false = ground arith in
    ap
      (λ (b : Bool). if b then negative (nonempty_value cs) else positive (digits_value (c ∷ cs) 0))
      unsigned
    ∙ ap positive v
    ∙ ground arith

parse_i64_negative :
    (t : Chars) (n : ℕ)
    → is_empty t ≡ false
    → digits_value t 0 ≡ some (suc n)
    → n < i64_bound
    → parse_i64 ("-" ∷ t) ≡ some (negsuc n)
unfolding parse_i64
parse_i64_negative [] n h v l = absurd (ground arith)
parse_i64_negative (c ∷ cs) n h v l = ap negative v ∙ ground arith

digits_value_end : (n : ℕ) → digits_value [] n ≡ some n
unfolding digits_value
digits_value_end n = refl

pub parse_i64-write_num : (z : ℤ) → is_i64 z ≡ true → parse_i64 (write_num z []) ≡ some z
unfolding write_num
parse_i64-write_num (pos n) h =
    parse_i64_positive (decimal i64_places n []) n (decimal_nonempty 18 n [])
      (all-decimal i64_places n [] refl)
      (digits_value-decimal i64_places n [] (ground arith) ∙ digits_value_end n) (ground arith)
parse_i64-write_num (negsuc n) h =
    parse_i64_negative (decimal i64_places (n + 1) []) n (decimal_nonempty 18 (n + 1) [])
      (digits_value-decimal i64_places (n + 1) [] (ground arith)
        ∙ digits_value_end (n + 1)
        ∙ ap some (omega arith))
      (ground arith)
