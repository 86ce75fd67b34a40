-- ===== src/Hlc/Digits.antt =====
-- Fixed-width hexadecimal numbers (the widths of crates/cbcl-core/src/hlc.rs): printing and reading
-- are inverse.
use cbcl_rs.Prelude.{
  List, [], all, ap, arith, length, refl, suc, true, zero, ℕ, ◌%◌, ◌*◌, ◌++◌, ◌+◌, ◌/◌, ◌<◌, ◌^◌,
  ◌∙◌, ◌∷◌, ◌≡◌, ◌≤◌,
}
use native.Mathlib.Nat.{pow-suc}
use mathlib.Core.List.{append_assoc}
use cbcl_rs.Hlc.{hex_digit, hex, lower_hex, digit_value, hex_value}

digit_value-hex_digit : (d : ℕ) → d < 16 → digit_value (hex_digit d) ≡ d
unfolding digit_value hex_digit
digit_value-hex_digit d h = ground arith

lower_hex-hex_digit : (d : ℕ) → d < 16 → lower_hex (hex_digit d) ≡ true
unfolding lower_hex hex_digit
lower_hex-hex_digit d h = ground arith

digit_value-injective :
    (a b : ℕ) → lower_hex a ≡ true → lower_hex b ≡ true → digit_value a ≡ digit_value b → a ≡ b
unfolding lower_hex digit_value
digit_value-injective a b p q e = ground arith

pub digit_value-lt : (b : ℕ) → lower_hex b ≡ true → digit_value b < 16
unfolding lower_hex digit_value
digit_value-lt b p = ground arith

hex_value-hex :
    (w a n : ℕ) (rest : List ℕ)
    → n < 16 ^ w
    → hex_value a (hex w n rest) ≡ hex_value (a * 16 ^ w + n) rest
unfolding hex hex_value
hex_value-hex zero a n rest h = ap (λ (x : ℕ). hex_value x rest) (omega arith)
hex_value-hex (suc w) a n rest h =
    hex_value-hex w a (n / 16) (hex_digit (n % 16) ∷ rest) (omega (arith, pow-suc 16 w))
    ∙ ap (λ (x : ℕ). hex_value x rest)
        (omega (
          arith,
          ap (λ (x : ℕ). a * x) (pow-suc 16 w),
          digit_value-hex_digit (n % 16) (omega arith),
        ))

pub length-hex : (w n : ℕ) (rest : List ℕ) → length (hex w n rest) ≡ w + length rest
unfolding hex
length-hex zero n rest = omega arith
length-hex (suc w) n rest = omega (arith, length-hex w (n / 16) (hex_digit (n % 16) ∷ rest))

pub hex-append : (w n : ℕ) (rest : List ℕ) → hex w n rest ≡ hex w n [] ++ rest
unfolding hex
hex-append zero n rest = refl
hex-append (suc w) n rest =
    let d = hex_digit (n % 16) in
    cc (
      hex-append w (n / 16) (d ∷ rest),
      hex-append w (n / 16) (d ∷ []),
      append_assoc (hex w (n / 16) []) (d ∷ []) rest,
    )

pub all-lower_hex-hex :
    (w n : ℕ) (rest : List ℕ) → all lower_hex rest ≡ true → all lower_hex (hex w n rest) ≡ true
unfolding hex
all-lower_hex-hex zero n rest h = h
all-lower_hex-hex (suc w) n rest h =
    all-lower_hex-hex w (n / 16) (hex_digit (n % 16) ∷ rest)
      (ground (arith, lower_hex-hex_digit (n % 16) (omega arith)))

-- A printed number reads back.
pub hex_value-hex_lem : (w n : ℕ) → n < 16 ^ w → hex_value 0 (hex w n []) ≡ n
unfolding hex_value
hex_value-hex_lem w n h = hex_value-hex w 0 n [] h ∙ omega arith

mul_mono : (x y k : ℕ) → x ≤ y → x * k ≤ y * k
mul_mono x y k h = grind arith

pub hex_value-lt :
    (a : ℕ) (bs : List ℕ) → all lower_hex bs ≡ true → hex_value a bs < (a + 1) * 16 ^ length bs
unfolding hex_value
hex_value-lt a [] h = omega arith
hex_value-lt a (b ∷ bs) h =
    let d = digit_value-lt b (ground arith) in
    omega (
      arith,
      hex_value-lt (a * 16 + digit_value b) bs (ground arith),
      mul_mono (a * 16 + digit_value b + 1) ((a + 1) * 16) (16 ^ length bs) (omega arith),
      ap (λ (x : ℕ). (a + 1) * x) (pow-suc 16 (length bs)),
    )

hex_value-injective :
    (a a' : ℕ) (bs cs : List ℕ)
    → all lower_hex bs ≡ true
    → all lower_hex cs ≡ true
    → length bs ≡ length cs
    → hex_value a bs ≡ hex_value a' cs
    → (a ≡ a') × (bs ≡ cs)
unfolding hex_value
hex_value-injective a a' [] [] p q l e = (e, refl)
hex_value-injective a a' [] (c ∷ cs) p q l e = absurd (omega arith)
hex_value-injective a a' (b ∷ bs) [] p q l e = absurd (omega arith)
hex_value-injective a a' (b ∷ bs) (c ∷ cs) p q l e =
    let pb : lower_hex b ≡ true = ground arith in
    let qc : lower_hex c ≡ true = ground arith in
    let (heads, tails) =
      hex_value-injective (a * 16 + digit_value b) (a' * 16 + digit_value c) bs cs (ground arith)
        (ground arith) (omega arith) e in
    let bd = digit_value-lt b pb in
    let cd = digit_value-lt c qc in
    let same = digit_value-injective b c pb qc (omega arith) in (omega arith, cc (same, tails))

-- The printed form of the value of `w` digits is these digits.
pub hex-hex_value :
    (w : ℕ) (bs : List ℕ) → all lower_hex bs ≡ true → length bs ≡ w → hex w (hex_value 0 bs) [] ≡ bs
hex-hex_value w bs p l =
    let fits : hex_value 0 bs < 16 ^ w = rw (← l) (omega (arith, hex_value-lt 0 bs p)) in
    (hex_value-injective 0 0 (hex w (hex_value 0 bs) []) bs
      (all-lower_hex-hex w (hex_value 0 bs) [] refl) p
      (omega (arith, length-hex w (hex_value 0 bs) []))
      (hex_value-hex_lem w (hex_value 0 bs) fits)).1
