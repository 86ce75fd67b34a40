-- ===== src/Message/Arguments.antt =====
-- What the printing of a message (crates/cbcl-core/src/message.rs) writes behind its head, the loop
-- over the arguments reads back.
use cbcl_rs.Prelude.{
  Bool, List, Option, String, [], ap, arith, false, if◌then◌else◌, is_empty, none, not, refl, some,
  true, ◌&&◌, ◌==◌, ◌||◌, ◌∙◌, ◌∷◌, ◌≡◌,
}
use Prim.Native.Nat.{Ordering}
use Prim.Native.String.{compare}
use cbcl_rs.Sexpr.{keyword, SExpr, atom}
use cbcl_rs.Text.{chars_of}
use cbcl_rs.Message.{CausedBy, begin, single, multiple, Recipients, one, set}
use cbcl_rs.Message.Print.{symbols, caused_by_value}
use cbcl_rs.Message.Args.{
  ok, parse_caused_by, sorted_hashes, hashes_of, push_hash, sort, insert_sorted, collect_set,
  btree_insert, symbol_texts, is_address_list, is_address_group, starts_with_at,
}
use cbcl_rs.Protocol.{begin_keyword}

abbrev pub is_reserved : String → Bool
is_reserved k = k == "thread" || k == "sender" || k == "caused-by"

abbrev pub is_keyword : SExpr → Bool
is_keyword (atom (keyword k)) = true
is_keyword _ = false

abbrev pub is_content : SExpr → Bool
is_content e = not (is_keyword e) && not (is_address_group e)

-- The arguments that a message keeps as they are: keywords with a value, and contents.
abbrev pub are_params : List SExpr → Bool
are_params [] = true
are_params (atom (keyword k) ∷ []) = false
are_params (atom (keyword k) ∷ v ∷ ps) = not (is_reserved k) && are_params ps
are_params (e ∷ ps) = is_content e && are_params ps

-- Each text stands before the next, or is equal to it.
abbrev pub is_sorted : List String → Bool
is_sorted [] = true
is_sorted (x ∷ []) = true
is_sorted (x ∷ y ∷ ys) = elim (compare x y) [ Ordering.gt ↦ false | _ ↦ is_sorted (y ∷ ys) ]

-- Each text stands before the next.
abbrev pub is_ascending : List String → Bool
is_ascending [] = true
is_ascending (x ∷ []) = true
is_ascending (x ∷ y ∷ ys) = elim (compare x y) [ Ordering.lt ↦ is_ascending (y ∷ ys) | _ ↦ false ]

abbrev pub are_recipients : Option Recipients → Bool
are_recipients none = true
are_recipients (some (one r)) = starts_with_at (chars_of r)
are_recipients (some (set rs)) = is_address_list (symbols rs) && is_ascending rs

abbrev pub is_cause : Option CausedBy → Bool
is_cause none = true
is_cause (some begin) = true
is_cause (some (single h)) = not (h == begin_keyword)
is_cause (some (multiple hs)) = not (is_empty hs) && is_sorted hs

insert_first :
    (x : String) (ys : List String) → is_sorted (x ∷ ys) ≡ true → insert_sorted x ys ≡ x ∷ ys
insert_first x [] h = refl
insert_first x (y ∷ ys) h =
    elim (compare x y)
        as (λ (o : Ordering).
          elim o as (λ _. Bool) [ Ordering.gt ↦ false | _ ↦ is_sorted (y ∷ ys) ] ≡ true
          → elim o as (λ _. List String) [ Ordering.gt ↦ y ∷ insert_sorted x ys | _ ↦ x ∷ y ∷ ys ]
            ≡ x ∷ y ∷ ys) [
              | Ordering.lt ↦ λ e. refl
              | Ordering.eq ↦ λ e. refl
              | Ordering.gt ↦ λ e. absurd (ground arith)
            ]
      h

pub sorted_tail : (x : String) (ys : List String) → is_sorted (x ∷ ys) ≡ true → is_sorted ys ≡ true
sorted_tail x [] h = refl
sorted_tail x (y ∷ ys) h =
    elim (compare x y)
        as (λ (o : Ordering).
          elim o as (λ _. Bool) [ Ordering.gt ↦ false | _ ↦ is_sorted (y ∷ ys) ] ≡ true
          → is_sorted (y ∷ ys) ≡ true) [
            | Ordering.lt ↦ λ e. e
            | Ordering.eq ↦ λ e. e
            | Ordering.gt ↦ λ e. absurd (ground arith)
          ]
      h

pub sort_sorted : (xs : List String) → is_sorted xs ≡ true → sort xs ≡ xs
unfolding sort
sort_sorted [] h = refl
sort_sorted (x ∷ xs) h =
    ap (insert_sorted x) (sort_sorted xs (sorted_tail x xs h)) ∙ insert_first x xs h

btree_first :
    (x : String) (ys : List String) → is_ascending (x ∷ ys) ≡ true → btree_insert x ys ≡ x ∷ ys
btree_first x [] h = refl
btree_first x (y ∷ ys) h =
    elim (compare x y)
        as (λ (o : Ordering).
          elim o as (λ _. Bool) [ Ordering.lt ↦ is_ascending (y ∷ ys) | _ ↦ false ] ≡ true
          → elim o as (λ _. List String) [
            | Ordering.lt ↦ x ∷ y ∷ ys
            | Ordering.eq ↦ y ∷ ys
            | Ordering.gt ↦ y ∷ btree_insert x ys
          ]
            ≡ x ∷ y ∷ ys) [
              | Ordering.lt ↦ λ e. refl
              | Ordering.eq ↦ λ e. absurd (ground arith)
              | Ordering.gt ↦ λ e. absurd (ground arith)
            ]
      h

pub ascending_tail :
    (x : String) (ys : List String) → is_ascending (x ∷ ys) ≡ true → is_ascending ys ≡ true
ascending_tail x [] h = refl
ascending_tail x (y ∷ ys) h =
    elim (compare x y)
        as (λ (o : Ordering).
          elim o as (λ _. Bool) [ Ordering.lt ↦ is_ascending (y ∷ ys) | _ ↦ false ] ≡ true
          → is_ascending (y ∷ ys) ≡ true) [
            | Ordering.lt ↦ λ e. e
            | Ordering.eq ↦ λ e. absurd (ground arith)
            | Ordering.gt ↦ λ e. absurd (ground arith)
          ]
      h

pub collect_ascending : (xs : List String) → is_ascending xs ≡ true → collect_set xs ≡ xs
unfolding collect_set
collect_ascending [] h = refl
collect_ascending (x ∷ xs) h =
    ap (btree_insert x) (collect_ascending xs (ascending_tail x xs h)) ∙ btree_first x xs h

pub symbol_texts-symbols : (ss : List String) → symbol_texts (symbols ss) ≡ ss
symbol_texts-symbols [] = refl
symbol_texts-symbols (s ∷ ss) = ap (λ (t : List String). s ∷ t) (symbol_texts-symbols ss)

hashes_of-symbols : (ss : List String) → hashes_of (symbols ss) ≡ ok ss
hashes_of-symbols [] = refl
hashes_of-symbols (s ∷ ss) = ap (push_hash s) (hashes_of-symbols ss)

pub cause_back :
    (cb : CausedBy) → is_cause (some cb) ≡ true → parse_caused_by (caused_by_value cb) ≡ ok cb
unfolding parse_caused_by
cause_back begin h = refl
cause_back (single s) h =
    let other : (s == begin_keyword) ≡ false = ground arith in
    ap (λ (b : Bool). ok (if b then begin else single s)) other
cause_back (multiple []) h = absurd (ground arith)
cause_back (multiple (s ∷ ss)) h =
    ap sorted_hashes (hashes_of-symbols (s ∷ ss))
    ∙ ap (λ (t : List String). ok (multiple t)) (sort_sorted (s ∷ ss) (ground arith))
