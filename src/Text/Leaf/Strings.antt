-- ===== src/Text/Leaf/Strings.antt =====
-- The escapes of a string: what the serializer (crates/cbcl-core/src/serializer.rs) writes, the
-- parser (crates/cbcl-parser/src/parser.rs) reads.
use cbcl_rs.Prelude.{
  Bool-cases, [], ap, arith, false, inl, inr, none, refl, some, subst, sym, ℕ, ◌+◌, ◌∙◌, ◌∷◌, ◌≡◌,
  ◌⊎◌,
}
use Prim.Native.Char.{Char, code, len_utf8}
use cbcl_rs.Text.{Chars, is_code, escape, write_chars}
use text.Mathlib.TextEquality.{Char-path}
use cbcl_rs.Text.Leaf.Words.{state}
use cbcl_rs.Text.Leaf.{ok, err, invalid_escape, push, unescape, string_body}

-- The character `d` stands for `c` behind a backslash.
abbrev Escapes : Char → Char → Type 0
Escapes c d = (escape c ≡ some d) × (unescape d ≡ some c)

abbrev Plain : Char → Type 0
Plain c = (escape c ≡ none) × ((is_code b'"' c ≡ false) × (is_code b'\\' c ≡ false))

same_escape : (x y c : Char) → Escapes x y → code c ≡ code x → Plain c ⊎ ((d : Char) × Escapes c d)
same_escape x y c h e =
    inr (subst (λ (z : Char). (d : Char) × Escapes z d) (sym (Char-path c x e)) (y, h))

escape-cases : (c : Char) → Plain c ⊎ ((d : Char) × Escapes c d)
unfolding escape unescape
escape-cases c = elim (Bool-cases (is_code b'"' c)) [
  | inl e ↦ same_escape "\"" "\"" c (refl, refl) (ground arith)
  | inr e1 ↦ elim (Bool-cases (is_code b'\\' c)) [
    | inl e ↦ same_escape "\\" "\\" c (refl, refl) (ground arith)
    | inr e2 ↦ elim (Bool-cases (is_code b'\n' c)) [
      | inl e ↦ same_escape "\n" "n" c (refl, refl) (ground arith)
      | inr e3 ↦ elim (Bool-cases (is_code b'\r' c)) [
        | inl e ↦ same_escape "\r" "r" c (refl, refl) (ground arith)
        | inr e4 ↦ elim (Bool-cases (is_code b'\t' c)) [
          | inl e ↦ same_escape "\t" "t" c (refl, refl) (ground arith)
          | inr e5 ↦ inl (ground arith, (e1, e2))
        ]
      ]
    ]
  ]
]

write_chars_plain :
    (c : Char) (cs rest : Chars)
    → escape c ≡ none
    → write_chars (c ∷ cs) rest ≡ c ∷ write_chars cs rest
unfolding write_chars
write_chars_plain c cs rest h =
    ap (λ o. elim o [ none ↦ c ∷ write_chars cs rest | some d ↦ "\\" ∷ d ∷ write_chars cs rest ]) h

write_chars_escaped :
    (c d : Char) (cs rest : Chars)
    → escape c ≡ some d
    → write_chars (c ∷ cs) rest ≡ "\\" ∷ d ∷ write_chars cs rest
unfolding write_chars
write_chars_escaped c d cs rest h =
    ap (λ o. elim o [ none ↦ c ∷ write_chars cs rest | some d ↦ "\\" ∷ d ∷ write_chars cs rest ]) h

string_body_plain :
    (c : Char) (cs : Chars) (p f : ℕ)
    → is_code b'"' c ≡ false
    → is_code b'\\' c ≡ false
    → string_body false (c ∷ cs) p f ≡ push c (string_body false cs (p + len_utf8 c) f)
unfolding string_body
string_body_plain c cs p f h g = ground arith

string_body_escaped :
    (c d : Char) (cs : Chars) (p f : ℕ)
    → unescape d ≡ some c
    → string_body false ("\\" ∷ d ∷ cs) p f ≡ push c (string_body false cs (p + 1 + len_utf8 d) f)
unfolding string_body
string_body_escaped c d cs p f h =
    ap
      (λ o. elim o [
        | none ↦ err (invalid_escape (p + 1) d)
        | some x ↦ push x (string_body false cs (p + 1 + len_utf8 d) f)
      ])
      h

string_body_end :
    (rest : Chars) (p f : ℕ)
    → string_body false (write_chars [] ("\"" ∷ rest)) p f ≡ ok [] (state rest (p + 1) f)
unfolding string_body write_chars
string_body_end rest p f = refl

-- A written string reads back up to its closing quote, whatever follows.
pub string_body-write_chars :
    (cs rest : Chars) (p f : ℕ)
    → (q : ℕ) × (string_body false (write_chars cs ("\"" ∷ rest)) p f ≡ ok cs (state rest q f))
string_body-write_chars [] rest p f = (p + 1, string_body_end rest p f)
string_body-write_chars (c ∷ cs) rest p f = elim (escape-cases c) [
  | inl (e, (a, b)) ↦
      let (q, h) = string_body-write_chars cs rest (p + len_utf8 c) f in
      (
        q,
        ap (λ t. string_body false t p f) (write_chars_plain c cs _ e)
            ∙ string_body_plain c _ p f a b
            ∙ ap (push c) h,
      )
  | inr (d, (e, u)) ↦
      let (q, h) = string_body-write_chars cs rest (p + 1 + len_utf8 d) f in
      (
        q,
        ap (λ t. string_body false t p f) (write_chars_escaped c d cs _ e)
            ∙ string_body_escaped c d _ p f u
            ∙ ap (push c) h,
      )
]
