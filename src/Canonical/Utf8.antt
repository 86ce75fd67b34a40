-- ===== src/Canonical/Utf8.antt =====
-- The bytes of a text determine it.
use cbcl_rs.Prelude.{List, String, [], arith, refl, sym, ℕ, ◌≡◌}
use Prim.Native.Char.{code}
use text.Mathlib.TextEquality.{Char-path}
use cbcl_rs.Canonical.{utf8_char, as_bytes}

utf8_char_injective : (c d : ℕ) (r s : List ℕ) → utf8_char c r ≡ utf8_char d s → (c ≡ d) × (r ≡ s)
unfolding utf8_char
utf8_char_injective c d r s h = ground arith

utf8_char_nonempty : (c : ℕ) (r : List ℕ) → ¬ (utf8_char c r ≡ [])
unfolding utf8_char
utf8_char_nonempty c r h = ground arith

pub as_bytes_injective : (s t : String) → as_bytes s ≡ as_bytes t → s ≡ t
unfolding as_bytes
as_bytes_injective String.[] String.[] h = refl
as_bytes_injective String.[] (String.◌∷◌ d t) h =
    absurd (utf8_char_nonempty (code d) (as_bytes t) (sym h))
as_bytes_injective (String.◌∷◌ c s) String.[] h =
    absurd (utf8_char_nonempty (code c) (as_bytes s) h)
as_bytes_injective (String.◌∷◌ c s) (String.◌∷◌ d t) h =
    let (head, tail) = utf8_char_injective (code c) (code d) (as_bytes s) (as_bytes t) h in
    cc (Char-path c d head, as_bytes_injective s t tail)
