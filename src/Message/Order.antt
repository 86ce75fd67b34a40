-- ===== src/Message/Order.antt =====
-- The order of texts, and the sorted vectors and sets that the recognition of messages
-- (crates/cbcl-core/src/message.rs) makes.
use cbcl_rs.Prelude.{
  Bool, List, String, [], ap, arith, false, inl, inr, refl, sym, true, ℕ, ◌∙◌, ◌∷◌, ◌≡◌, ◌≢◌, ◌⊎◌,
}
use Prim.Native.Nat.{Ordering}
use Prim.Native.Nat as Nat
use Prim.Native.String.compare as order
use Prim.Native.Char.{code}
use Prim.Native.String.{compare, then}
use cbcl_rs.Message.Args.{sort, insert_sorted, collect_set, btree_insert}
use cbcl_rs.Message.Arguments.{is_sorted, is_ascending, sorted_tail, ascending_tail}

abbrev flip : Ordering → Ordering
flip Ordering.lt = Ordering.gt
flip Ordering.eq = Ordering.eq
flip Ordering.gt = Ordering.lt

code_flip : (a b : ℕ) → Nat.compare b a ≡ flip (Nat.compare a b)
code_flip a b = ground arith

then-flip : (o p : Ordering) → then (flip o) (flip p) ≡ flip (then o p)
then-flip Ordering.lt p = refl
then-flip Ordering.eq p = refl
then-flip Ordering.gt p = refl

-- The order of two texts the other way round.
compare-flip : (s t : String) → compare t s ≡ flip (compare s t)
compare-flip String.[] String.[] = refl
compare-flip String.[] (String.◌∷◌ d t) = order.cons-nil d t ∙ ap flip (sym (order.nil-cons d t))
compare-flip (String.◌∷◌ c s) String.[] = order.nil-cons c s ∙ ap flip (sym (order.cons-nil c s))
compare-flip (String.◌∷◌ c s) (String.◌∷◌ d t) =
    order.cons-cons d c t s
    ∙ ap (λ (o : Ordering). then o (compare t s)) (code_flip (code c) (code d))
    ∙ ap (then (flip (Nat.compare (code c) (code d)))) (compare-flip s t)
    ∙ then-flip (Nat.compare (code c) (code d)) (compare s t)
    ∙ ap flip (sym (order.cons-cons c d s t))

pub Ordering-cases : (o : Ordering) → (o ≡ Ordering.lt) ⊎ ((o ≡ Ordering.eq) ⊎ (o ≡ Ordering.gt))
Ordering-cases Ordering.lt = inl refl
Ordering-cases Ordering.eq = inr (inl refl)
Ordering-cases Ordering.gt = inr (inr refl)

module _ (x y : String) (ys : List String) where
  sorted_lt : compare x y ≡ Ordering.lt → is_sorted (x ∷ y ∷ ys) ≡ is_sorted (y ∷ ys)
  sorted_lt e =
      ap (λ (o : Ordering). elim o as (λ _. Bool) [ Ordering.gt ↦ false | _ ↦ is_sorted (y ∷ ys) ])
        e

  sorted_eq : compare x y ≡ Ordering.eq → is_sorted (x ∷ y ∷ ys) ≡ is_sorted (y ∷ ys)
  sorted_eq e =
      ap (λ (o : Ordering). elim o as (λ _. Bool) [ Ordering.gt ↦ false | _ ↦ is_sorted (y ∷ ys) ])
        e

  pub ascending_lt : compare x y ≡ Ordering.lt → is_ascending (x ∷ y ∷ ys) ≡ is_ascending (y ∷ ys)
  ascending_lt e =
      ap
        (λ (o : Ordering). elim o as (λ _. Bool) [
          | Ordering.lt ↦ is_ascending (y ∷ ys)
          | _ ↦ false
        ])
        e

  pub insert_lt : compare x y ≡ Ordering.lt → insert_sorted x (y ∷ ys) ≡ x ∷ y ∷ ys
  insert_lt e =
      ap
        (λ (o : Ordering). elim o as (λ _. List String) [
          | Ordering.gt ↦ y ∷ insert_sorted x ys
          | _ ↦ x ∷ y ∷ ys
        ])
        e

  pub insert_eq : compare x y ≡ Ordering.eq → insert_sorted x (y ∷ ys) ≡ x ∷ y ∷ ys
  insert_eq e =
      ap
        (λ (o : Ordering). elim o as (λ _. List String) [
          | Ordering.gt ↦ y ∷ insert_sorted x ys
          | _ ↦ x ∷ y ∷ ys
        ])
        e

  pub insert_gt : compare x y ≡ Ordering.gt → insert_sorted x (y ∷ ys) ≡ y ∷ insert_sorted x ys
  insert_gt e =
      ap
        (λ (o : Ordering). elim o as (λ _. List String) [
          | Ordering.gt ↦ y ∷ insert_sorted x ys
          | _ ↦ x ∷ y ∷ ys
        ])
        e

  btree_lt : compare x y ≡ Ordering.lt → btree_insert x (y ∷ ys) ≡ x ∷ y ∷ ys
  btree_lt e =
      ap
        (λ (o : Ordering). elim o as (λ _. List String) [
          | Ordering.lt ↦ x ∷ y ∷ ys
          | Ordering.eq ↦ y ∷ ys
          | Ordering.gt ↦ y ∷ btree_insert x ys
        ])
        e

  btree_eq : compare x y ≡ Ordering.eq → btree_insert x (y ∷ ys) ≡ y ∷ ys
  btree_eq e =
      ap
        (λ (o : Ordering). elim o as (λ _. List String) [
          | Ordering.lt ↦ x ∷ y ∷ ys
          | Ordering.eq ↦ y ∷ ys
          | Ordering.gt ↦ y ∷ btree_insert x ys
        ])
        e

  btree_gt : compare x y ≡ Ordering.gt → btree_insert x (y ∷ ys) ≡ y ∷ btree_insert x ys
  btree_gt e =
      ap
        (λ (o : Ordering). elim o as (λ _. List String) [
          | Ordering.lt ↦ x ∷ y ∷ ys
          | Ordering.eq ↦ y ∷ ys
          | Ordering.gt ↦ y ∷ btree_insert x ys
        ])
        e

  turned : compare x y ≡ Ordering.gt → compare y x ≡ Ordering.lt
  turned e = compare-flip x y ∙ ap flip e

pub sorted_no_gt :
    (x y : String) (ys : List String) → compare x y ≡ Ordering.gt → is_sorted (x ∷ y ∷ ys) ≢ true
sorted_no_gt x y ys e h =
    let no =
      ap (λ (o : Ordering). elim o as (λ _. Bool) [ Ordering.gt ↦ false | _ ↦ is_sorted (y ∷ ys) ])
        e in
    cc (no, h)

ascending_first :
    (x y : String) (ys : List String) → is_ascending (x ∷ y ∷ ys) ≡ true → compare x y ≡ Ordering.lt
ascending_first x y ys h =
    elim (compare x y)
        as (λ (o : Ordering).
          elim o as (λ _. Bool) [ Ordering.lt ↦ is_ascending (y ∷ ys) | _ ↦ false ] ≡ true
          → o ≡ Ordering.lt) [
            | Ordering.lt ↦ λ e. refl
            | Ordering.eq ↦ λ e. absurd (ground arith)
            | Ordering.gt ↦ λ e. absurd (ground arith)
          ]
      h

-- A text after `y` goes behind it.
sorted_behind :
    (y x : String) (zs : List String)
    → compare y x ≡ Ordering.lt
    → is_sorted (y ∷ zs) ≡ true
    → is_sorted (insert_sorted x zs) ≡ true
    → is_sorted (y ∷ insert_sorted x zs) ≡ true
sorted_behind y x [] e h g = sorted_lt y x [] e ∙ g
sorted_behind y x (z ∷ zs) e h g = elim (Ordering-cases (compare x z)) [
  | inl o ↦ behind_x (insert_lt x z zs o)
  | inr (inl o) ↦ behind_x (insert_eq x z zs o)
  | inr (inr o) ↦ behind_z (insert_gt x z zs o)
]
  where
    behind_x :
        insert_sorted x (z ∷ zs) ≡ x ∷ z ∷ zs → is_sorted (y ∷ insert_sorted x (z ∷ zs)) ≡ true
    behind_x p =
        ap (λ (l : List String). is_sorted (y ∷ l)) p
        ∙ sorted_lt y x (z ∷ zs) e
        ∙ ap is_sorted (sym p)
        ∙ g

    behind_z :
        insert_sorted x (z ∷ zs) ≡ z ∷ insert_sorted x zs
        → is_sorted (y ∷ insert_sorted x (z ∷ zs)) ≡ true
    behind_z p =
        ap (λ (l : List String). is_sorted (y ∷ l)) p ∙ elim (Ordering-cases (compare y z)) [
          | inl o ↦ sorted_lt y z (insert_sorted x zs) o ∙ ap is_sorted (sym p) ∙ g
          | inr (inl o) ↦ sorted_eq y z (insert_sorted x zs) o ∙ ap is_sorted (sym p) ∙ g
          | inr (inr o) ↦ absurd (sorted_no_gt y z zs o h)
        ]

insert_sorted-is_sorted :
    (x : String) (ys : List String) → is_sorted ys ≡ true → is_sorted (insert_sorted x ys) ≡ true
insert_sorted-is_sorted x [] h = refl
insert_sorted-is_sorted x (y ∷ ys) h =
    let tail = insert_sorted-is_sorted x ys (sorted_tail y ys h) in
    elim (Ordering-cases (compare x y)) [
      | inl o ↦ ap is_sorted (insert_lt x y ys o) ∙ sorted_lt x y ys o ∙ h
      | inr (inl o) ↦ ap is_sorted (insert_eq x y ys o) ∙ sorted_eq x y ys o ∙ h
      | inr (inr o) ↦
          ap is_sorted (insert_gt x y ys o) ∙ sorted_behind y x ys (turned x y ys o) h tail
    ]

pub sort-is_sorted : (xs : List String) → is_sorted (sort xs) ≡ true
unfolding sort
sort-is_sorted [] = refl
sort-is_sorted (x ∷ xs) = insert_sorted-is_sorted x (sort xs) (sort-is_sorted xs)

ascending_behind :
    (y x : String) (zs : List String)
    → compare y x ≡ Ordering.lt
    → is_ascending (y ∷ zs) ≡ true
    → is_ascending (btree_insert x zs) ≡ true
    → is_ascending (y ∷ btree_insert x zs) ≡ true
ascending_behind y x [] e h g = ascending_lt y x [] e ∙ g
ascending_behind y x (z ∷ zs) e h g = elim (Ordering-cases (compare x z)) [
  | inl o ↦
      ap (λ (l : List String). is_ascending (y ∷ l)) (btree_lt x z zs o)
      ∙ ascending_lt y x (z ∷ zs) e
      ∙ ap is_ascending (sym (btree_lt x z zs o))
      ∙ g
  | inr (inl o) ↦ ap (λ (l : List String). is_ascending (y ∷ l)) (btree_eq x z zs o) ∙ h
  | inr (inr o) ↦
      let p = btree_gt x z zs o in
      ap (λ (l : List String). is_ascending (y ∷ l)) p
      ∙ ascending_lt y z (btree_insert x zs) (ascending_first y z zs h)
      ∙ ap is_ascending (sym p)
      ∙ g
]

btree_insert-is_ascending :
    (x : String) (ys : List String)
    → is_ascending ys ≡ true
    → is_ascending (btree_insert x ys) ≡ true
btree_insert-is_ascending x [] h = refl
btree_insert-is_ascending x (y ∷ ys) h =
    let tail = btree_insert-is_ascending x ys (ascending_tail y ys h) in
    elim (Ordering-cases (compare x y)) [
      | inl o ↦ ap is_ascending (btree_lt x y ys o) ∙ ascending_lt x y ys o ∙ h
      | inr (inl o) ↦ ap is_ascending (btree_eq x y ys o) ∙ h
      | inr (inr o) ↦
          ap is_ascending (btree_gt x y ys o) ∙ ascending_behind y x ys (turned x y ys o) h tail
    ]

pub collect_set-is_ascending : (xs : List String) → is_ascending (collect_set xs) ≡ true
unfolding collect_set
collect_set-is_ascending [] = refl
collect_set-is_ascending (x ∷ xs) =
    btree_insert-is_ascending x (collect_set xs) (collect_set-is_ascending xs)
