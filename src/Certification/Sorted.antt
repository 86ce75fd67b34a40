-- ===== src/Certification/Sorted.antt =====
-- What sorting keeps of a vector of texts, for the rosters of crates/cbcl-core/src/certification.rs.
use cbcl_rs.Prelude.{
  Bool, List, String, [], all, ap, arith, contains, eq_iff, false, if◌then◌else◌, inl, inr,
  is_empty, length, refl, true, ◌+◌, ◌==◌, ◌∙◌, ◌∷◌, ◌≡◌,
}
use Prim.Native.String.{compare}
use text.Mathlib.TextEquality.{path_by_compare}
use cbcl_rs.Message.Args.{sort, insert_sorted}
use cbcl_rs.Message.Arguments.{is_sorted, is_ascending, sorted_tail}
use cbcl_rs.Message.Order.{
  Ordering-cases, ascending_lt, sorted_no_gt, insert_lt, insert_eq, insert_gt,
}
use cbcl_rs.Certification.{has_double}

insert_sorted-rule :
    {A : Type 0} (f : List String → A) (x y : String) (ys : List String) (a : A)
    → f (x ∷ y ∷ ys) ≡ a
    → f (y ∷ insert_sorted x ys) ≡ a
    → f (insert_sorted x (y ∷ ys)) ≡ a
insert_sorted-rule f x y ys a p q = elim (Ordering-cases (compare x y)) [
  | inl o ↦ ap f (insert_lt x y ys o) ∙ p
  | inr (inl o) ↦ ap f (insert_eq x y ys o) ∙ p
  | inr (inr o) ↦ ap f (insert_gt x y ys o) ∙ q
]

length-insert_sorted : (x : String) (ys : List String) → length (insert_sorted x ys) ≡ 1 + length ys
length-insert_sorted x [] = omega arith
length-insert_sorted x (y ∷ ys) =
    insert_sorted-rule length x y ys (1 + length (y ∷ ys)) (omega arith)
      (omega (arith, length-insert_sorted x ys))

pub length-sort : (xs : List String) → length (sort xs) ≡ length xs
unfolding sort
length-sort [] = refl
length-sort (x ∷ xs) = omega (arith, length-insert_sorted x (sort xs), length-sort xs)

contains-insert_sorted :
    (k x : String) (ys : List String)
    → contains (insert_sorted x ys) k ≡ (if x == k then true else contains ys k)
contains-insert_sorted k x [] = refl
contains-insert_sorted k x (y ∷ ys) =
    insert_sorted-rule (λ l. contains l k) x y ys _ refl
      (ap (λ (b : Bool). if y == k then true else b) (contains-insert_sorted k x ys) ∙ ground arith)

pub contains-sort : (k : String) (xs : List String) → contains (sort xs) k ≡ contains xs k
unfolding sort
contains-sort k [] = refl
contains-sort k (x ∷ xs) =
    contains-insert_sorted k x (sort xs)
    ∙ ap (λ (b : Bool). if x == k then true else b) (contains-sort k xs)

pub sorted-is_ascending :
    (xs : List String) → is_sorted xs ≡ true → has_double xs ≡ false → is_ascending xs ≡ true
sorted-is_ascending [] h g = refl
sorted-is_ascending (x ∷ []) h g = refl
sorted-is_ascending (x ∷ y ∷ ys) h g = elim (Ordering-cases (compare x y)) [
  | inl o ↦
      ascending_lt x y ys o ∙ sorted-is_ascending (y ∷ ys) (sorted_tail x (y ∷ ys) h) (ground arith)
  | inr (inl o) ↦ absurd (ground (arith, (eq_iff x y).1 (path_by_compare x y o)))
  | inr (inr o) ↦ absurd (sorted_no_gt x y ys o h)
]

all-insert_sorted :
    (test : String → Bool) (x : String) (ys : List String)
    → test x ≡ true
    → all test ys ≡ true
    → all test (insert_sorted x ys) ≡ true
all-insert_sorted test x [] h g = ground arith
all-insert_sorted test x (y ∷ ys) h g =
    insert_sorted-rule (all test) x y ys true (ground arith)
      (ground (arith, all-insert_sorted test x ys h))

pub all-sort :
    (test : String → Bool) (xs : List String) → all test xs ≡ true → all test (sort xs) ≡ true
unfolding sort
all-sort test [] h = refl
all-sort test (x ∷ xs) h =
    all-insert_sorted test x (sort xs) (ground arith) (all-sort test xs (ground arith))

pub empty-sort : (xs : List String) → is_empty xs ≡ false → is_empty (sort xs) ≡ false
empty-sort [] h = absurd (ground arith)
empty-sort (x ∷ xs) h =
    elim (sort (x ∷ xs)) as (λ (l : List String). length l ≡ 1 + length xs → is_empty l ≡ false) [
      | [] ↦ λ e. absurd (omega arith)
      | y ∷ ys ↦ λ e. refl
    ]
      (length-sort (x ∷ xs) ∙ omega arith)
