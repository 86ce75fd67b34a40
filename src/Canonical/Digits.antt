-- ===== src/Canonical/Digits.antt =====
-- The decimal digits of a length or a number (crates/cbcl-core/src/canonical.rs).
use cbcl_rs.Prelude.{
  Bool-cases, List, ap, arith, eqb, inl, inr, refl, suc, zero, ℕ, ◌%◌, ◌*◌, ◌+◌, ◌/◌, ◌<◌, ◌^◌, ◌∙◌,
  ◌∷◌, ◌≡◌, ◌≤◌,
}
use native.Mathlib.Nat.{pow-suc}
use cbcl_rs.Canonical.{digits}

-- What a reader that takes a digit at a time makes of the digits.
module _ {R : Type 0} (read : List ℕ → ℕ → R)
    (next : (d acc : ℕ) (rest : List ℕ)
      → d < 10
      → read ((b'0' + d) ∷ rest) acc ≡ read rest (acc * 10 + d)) where
  pub read-digits : (w n : ℕ) (rest : List ℕ) → n < 10 ^ w → read (digits w n rest) 0 ≡ read rest n
  unfolding digits
  read-digits zero n rest h = ap (read rest) (omega arith)
  read-digits (suc w) n rest h = elim (Bool-cases (eqb (n / 10) 0)) [
    | inl e ↦ rw e (next (n % 10) 0 rest (omega arith) ∙ ap (read rest) (ground arith))
    | inr e ↦ rw e (
        read-digits w (n / 10) ((b'0' + n % 10) ∷ rest) (omega (arith, pow-suc 10 w))
        ∙ next (n % 10) (n / 10) rest (omega arith)
        ∙ ap (read rest) (omega arith))
  ]

abbrev pub StartsWithDigit : List ℕ → Type 0
StartsWithDigit bytes = (d : ℕ) × (rest : List ℕ) × (bytes ≡ d ∷ rest) × (b'0' ≤ d) × (d ≤ b'9')

more_digits :
    (w n c : ℕ) (rest : List ℕ) → b'0' ≤ c → c ≤ b'9' → StartsWithDigit (digits w n (c ∷ rest))
unfolding digits
more_digits zero n c rest l h = (c, rest, refl, l, h)
more_digits (suc w) n c rest l h = elim (Bool-cases (eqb (n / 10) 0)) [
  | inl e ↦ rw e (b'0' + n % 10, c ∷ rest, refl, omega arith, omega arith)
  | inr e ↦ rw e (more_digits w (n / 10) (b'0' + n % 10) (c ∷ rest) (omega arith) (omega arith))
]

pub digits-StartsWithDigit : (w n : ℕ) (rest : List ℕ) → StartsWithDigit (digits (suc w) n rest)
unfolding digits
digits-StartsWithDigit w n rest = elim (Bool-cases (eqb (n / 10) 0)) [
  | inl e ↦ rw e (b'0' + n % 10, rest, refl, omega arith, omega arith)
  | inr e ↦ rw e (more_digits w (n / 10) (b'0' + n % 10) rest (omega arith) (omega arith))
]
