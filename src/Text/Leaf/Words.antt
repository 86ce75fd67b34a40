-- ===== src/Text/Leaf/Words.antt =====
-- The scan of a word and of the space in front of a form (crates/cbcl-parser/src/parser.rs).
use cbcl_rs.Prelude.{
  Bool, [], all, arith, false, not, refl, take, true, ℕ, ◌++◌, ◌+◌, ◌||◌, ◌∷◌, ◌≡◌,
}
use Prim.Native.Char.{Char, len_utf8}
use cbcl_rs.Text.{Chars, is_code}
use cbcl_rs.Text.Leaf.{
  ParserState, skip, skip_whitespace, span, is_symbol_char, is_ascii_whitespace,
}

abbrev pub state : Chars → ℕ → ℕ → ParserState
state rest offset fuel = record { rest = rest; offset = offset; fuel = fuel }

-- The text ends the word in front of it.
abbrev pub ends_word : Chars → Bool
ends_word [] = true
ends_word (c ∷ cs) = not (is_symbol_char c)

-- The text starts with a form.
abbrev pub opens_form : Chars → Bool
opens_form [] = false
opens_form (c ∷ cs) = not (is_ascii_whitespace c || is_code b';' c || is_code b')' c)

pub span_to :
    (test : Char → Bool) (front rest : Chars) (p : ℕ)
    → all test front ≡ true
    → all (λ c. not (test c)) (take 1 rest) ≡ true
    → (q : ℕ) × (span test (front ++ rest) p ≡ (front, rest, q))
unfolding span
span_to test [] [] p h g = (p, refl)
span_to test [] (c ∷ cs) p h g = (p, ground arith)
span_to test (c ∷ front) rest p h g =
    let (q, e) = span_to test front rest (p + len_utf8 c) (ground arith) g in (q, ground (arith, e))

pub skip_whitespace_none :
    (rest : Chars) (p f : ℕ)
    → opens_form rest ≡ true
    → skip_whitespace (state rest p f) ≡ state rest p f
unfolding skip_whitespace skip
skip_whitespace_none [] p f h = absurd (ground arith)
skip_whitespace_none (c ∷ cs) p f h = ground arith

pub skip_whitespace_space :
    (rest : Chars) (p f : ℕ)
    → opens_form rest ≡ true
    → skip_whitespace (state (" " ∷ rest) p f) ≡ state rest (p + 1) f
unfolding skip_whitespace skip
skip_whitespace_space [] p f h = absurd (ground arith)
skip_whitespace_space (c ∷ cs) p f h = ground arith
