-- ===== src/Prelude/Maps.antt =====
-- The maps of the program with text keys, as association lists. What the program reads off the
-- iteration order of a map is read off the order of the list.
use Prim.Native.String.{String}
use mathlib.Core.Path.{◌≡◌, refl}
use mathlib.Core.List.{List, [], ◌∷◌}
use mathlib.Core.Option.{Option, none, some}
use native.Mathlib.Omega.{arith}
use text.Mathlib.TextEquality.{eq_iff}
use cbcl_rs.Prelude.Tests.{if◌then◌else◌, is_some}
use cbcl_rs.Prelude.Strings.{◌==◌, contains}

abbrev pub Map {ℓ} : Type ℓ → Type ℓ
Map V = List (String × V)

module _ {ℓ} {V : Type ℓ} where
  unfoldable pub get : String → Map V → Option V
  get k [] = none
  get k ((j, v) ∷ m) = if j == k then some v else get k m

  -- Replaces in place, or adds at the end.
  unfoldable pub insert : String → V → Map V → Map V
  insert k v [] = (k, v) ∷ []
  insert k v ((j, w) ∷ m) = if j == k then (k, v) ∷ m else (j, w) ∷ insert k v m

  pub get-insert :
      (j k : String) (v : V) (m : Map V)
      → get j (insert k v m) ≡ (if k == j then some v else get j m)
  unfolding get insert
  get-insert j k v [] = refl
  get-insert j k v ((i, w) ∷ m) =
      ground (arith, eq_iff k j, eq_iff i k, eq_iff i j, get-insert j k v m)

  -- `get(k).unwrap_or_default()` and the value that `entry(k).or_default()` refers to.
  abbrev pub get_or : String → V → Map V → V
  get_or k d m = elim (get k m) [ none ↦ d | some v ↦ v ]

  abbrev pub keys : Map V → List String
  keys [] = []
  keys ((k, v) ∷ m) = k ∷ keys m

  pub is_some-get : (m : Map V) (k : String) → is_some (get k m) ≡ contains (keys m) k
  unfolding get
  is_some-get [] k = refl
  is_some-get ((j, v) ∷ m) k = ground (arith, is_some-get m k)

  pub get_or-insert :
      (j k : String) (d v : V) (m : Map V)
      → get_or j d (insert k v m) ≡ (if k == j then v else get_or j d m)
  get_or-insert j k d v m = ground (arith, get-insert j k v m)
