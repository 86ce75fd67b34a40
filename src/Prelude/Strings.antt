-- ===== src/Prelude/Strings.antt =====
-- Membership of a text in a list of texts, which stands for the sets of the program.
use Prim.Native.String.{String}
use mathlib.Core.Path.{◌≡◌, refl}
use mathlib.Core.Logic.{◌≢◌, ◌⊎◌}
use mathlib.Core.Bool.{Bool, true, false, ◌||◌}
use mathlib.Core.List.{List, [], ◌∷◌, ◌++◌}
use text.Mathlib.Text.{◌==◌ as str_eq}
use text.Mathlib.TextEquality.{eq_iff}
use native.Mathlib.Omega.{arith}
use cbcl_rs.Prelude.Tests.{if◌then◌else◌}

infix 50 ◌==◌
abbrev pub ◌==◌ : String → String → Bool
◌==◌ = str_eq

abbrev pub contains : List String → String → Bool
contains [] a = false
contains (x ∷ xs) a = if x == a then true else contains xs a

-- `insert` of a set: nothing changes if the text is there.
abbrev pub set_insert : String → List String → List String
set_insert a xs = if contains xs a then xs else a ∷ xs

pub contains-append :
    (xs ys : List String) (a : String) → contains (xs ++ ys) a ≡ (contains xs a || contains ys a)
contains-append [] ys a = refl
contains-append (x ∷ xs) ys a = ground (arith, contains-append xs ys a)

pub contains-set_insert :
    (a : String) (xs : List String) (b : String)
    → contains (set_insert a xs) b ≡ (if a == b then true else contains xs b)
contains-set_insert a xs b = ground (arith, eq_iff a b)

pub String-cases : (a b : String) → (a ≡ b) ⊎ ((a == b) ≡ false)
String-cases a b = ground (arith, eq_iff a b)

pub ne_of_test : (a b : String) → (a == b) ≡ false → a ≢ b
ne_of_test a b h = ground (arith, eq_iff a b)
