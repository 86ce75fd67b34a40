-- ===== src/Message/Causes.antt =====
-- The recipients and the causes that the recognition of a message (crates/cbcl-core/src/message.rs)
-- reads: only what the printing would write.
use cbcl_rs.Prelude.{
  List, Option, String, [], and_both, and_intro, ap, arith, false, if_cases, is_empty, not, refl,
  some, true, ◌==◌, ◌∷◌, ◌≡◌,
}
use Prim.Native.Nat.{Ordering}
use Prim.Native.String.{compare}
use cbcl_rs.Sexpr.{symbol, str, num, bool, keyword, SExpr, Items, atom, list, nil, cons}
use cbcl_rs.Text.{chars_of}
use cbcl_rs.Message.{CausedBy, begin, single, Recipients, set}
use cbcl_rs.Message.Print.{symbols}
use cbcl_rs.Message.Args.{
  Recognised, ok, err, parse_caused_by, begin_or_single, sorted_hashes, hashes_of, push_hash, sort,
  insert_sorted, collect_set, btree_insert, take_recipient, symbol_texts, all_addresses,
  is_address_list, starts_with_at,
}
use cbcl_rs.Message.Arguments.{is_sorted, is_ascending, are_recipients, is_cause}
use cbcl_rs.Message.Order.{sort-is_sorted, collect_set-is_ascending}
use cbcl_rs.Protocol.{begin_keyword}

address_list_all : (items : Items) → is_address_list items ≡ true → all_addresses items ≡ true
address_list_all nil h = refl
address_list_all (cons e es) h = h

addresses_insert :
    (x : String) (ys : List String)
    → starts_with_at (chars_of x) ≡ true
    → all_addresses (symbols ys) ≡ true
    → is_address_list (symbols (btree_insert x ys)) ≡ true
addresses_insert x [] h g = ground arith
addresses_insert x (y ∷ ys) h g =
    let (here, there) = and_both (starts_with_at (chars_of y)) (all_addresses (symbols ys)) g in
    elim (compare x y)
      as (λ (o : Ordering).
        is_address_list (
          symbols (elim o as (λ _. List String) [
            | Ordering.lt ↦ x ∷ y ∷ ys
            | Ordering.eq ↦ y ∷ ys
            | Ordering.gt ↦ y ∷ btree_insert x ys
          ]))
        ≡ true) [
          | Ordering.lt ↦ ground arith
          | Ordering.eq ↦ g
          | Ordering.gt ↦
              and_intro (starts_with_at (chars_of y)) (all_addresses (symbols (btree_insert x ys)))
                here
                (address_list_all (symbols (btree_insert x ys)) (addresses_insert x ys h there))
        ]

addresses_collect :
    (items : Items)
    → all_addresses items ≡ true
    → all_addresses (symbols (collect_set (symbol_texts items))) ≡ true
unfolding collect_set
addresses_collect nil h = refl
addresses_collect (cons (atom (symbol s)) es) h =
    let (here, there) = and_both (starts_with_at (chars_of s)) (all_addresses es) h in
    address_list_all (symbols (btree_insert s (collect_set (symbol_texts es))))
      (addresses_insert s (collect_set (symbol_texts es)) here (addresses_collect es there))
addresses_collect (cons (atom (str s)) es) h = absurd (ground arith)
addresses_collect (cons (atom (num n)) es) h = absurd (ground arith)
addresses_collect (cons (atom (bool b)) es) h = absurd (ground arith)
addresses_collect (cons (atom (keyword k)) es) h = absurd (ground arith)
addresses_collect (cons (list l) es) h = absurd (ground arith)

insert_nonempty : (x : String) (ys : List String) → is_empty (insert_sorted x ys) ≡ false
insert_nonempty x [] = refl
insert_nonempty x (y ∷ ys) =
    elim (compare x y)
      as (λ (o : Ordering).
        is_empty
          (elim o as (λ _. List String) [ Ordering.gt ↦ y ∷ insert_sorted x ys | _ ↦ x ∷ y ∷ ys ])
        ≡ false) [ Ordering.lt ↦ refl | Ordering.eq ↦ refl | Ordering.gt ↦ refl ]

-- A cause that is read can be written.
abbrev pub CauseRead : Recognised CausedBy → Type 0
CauseRead (ok cb) = is_cause (some cb) ≡ true
CauseRead (err x) = Unit

sorted_hashes-CauseRead :
    (s : String) (r : Recognised (List String)) → CauseRead (sorted_hashes (push_hash s r))
unfolding sort
sorted_hashes-CauseRead s (ok hs) =
    and_intro (not (is_empty (sort (s ∷ hs)))) (is_sorted (sort (s ∷ hs)))
      (ap not (insert_nonempty s (sort hs))) (sort-is_sorted (s ∷ hs))
sorted_hashes-CauseRead s (err x) = tt

begin_or_single-is_cause : (s : String) → is_cause (some (begin_or_single s)) ≡ true
begin_or_single-is_cause s =
    if_cases (λ (cb : CausedBy). is_cause (some cb) ≡ true) (s == begin_keyword) begin (single s)
      (λ e. refl) (λ e. ap not e)

pub parse_caused_by-CauseRead : (v : SExpr) → CauseRead (parse_caused_by v)
unfolding parse_caused_by
parse_caused_by-CauseRead (atom (symbol s)) = begin_or_single-is_cause s
parse_caused_by-CauseRead (atom (str s)) = begin_or_single-is_cause s
parse_caused_by-CauseRead (atom (num n)) = tt
parse_caused_by-CauseRead (atom (bool b)) = tt
parse_caused_by-CauseRead (atom (keyword k)) = tt
parse_caused_by-CauseRead (list nil) = tt
parse_caused_by-CauseRead (list (cons (atom (symbol s)) es)) =
    sorted_hashes-CauseRead s (hashes_of es)
parse_caused_by-CauseRead (list (cons (atom (str s)) es)) = sorted_hashes-CauseRead s (hashes_of es)
parse_caused_by-CauseRead (list (cons (atom (num n)) es)) = tt
parse_caused_by-CauseRead (list (cons (atom (bool b)) es)) = tt
parse_caused_by-CauseRead (list (cons (atom (keyword k)) es)) = tt
parse_caused_by-CauseRead (list (cons (list l) es)) = tt

recipients_collect :
    (items : Items)
    → is_address_list items ≡ true
    → are_recipients (some (set (collect_set (symbol_texts items)))) ≡ true
unfolding collect_set
recipients_collect nil h = absurd (ground arith)
recipients_collect (cons (atom (symbol s)) es) h =
    let (here, there) = and_both (starts_with_at (chars_of s)) (all_addresses es) h in
    let rest = collect_set (symbol_texts es) in
    and_intro (is_address_list (symbols (btree_insert s rest))) (is_ascending (btree_insert s rest))
      (addresses_insert s rest here (addresses_collect es there))
      (collect_set-is_ascending (s ∷ symbol_texts es))
recipients_collect (cons (atom (str s)) es) h = absurd (ground arith)
recipients_collect (cons (atom (num n)) es) h = absurd (ground arith)
recipients_collect (cons (atom (bool b)) es) h = absurd (ground arith)
recipients_collect (cons (atom (keyword k)) es) h = absurd (ground arith)
recipients_collect (cons (list l) es) h = absurd (ground arith)

-- The recipient that is read can be written.
pub take_recipient-are_recipients : (tail : Items) → are_recipients (take_recipient tail).0 ≡ true
unfolding take_recipient
take_recipient-are_recipients nil = refl
take_recipient-are_recipients (cons (atom (symbol s)) es) =
    if_cases (λ (x : Option Recipients × Items). are_recipients x.0 ≡ true)
      (starts_with_at (chars_of s)) _ _ (λ e. e) (λ e. refl)
take_recipient-are_recipients (cons (atom (str s)) es) = refl
take_recipient-are_recipients (cons (atom (num n)) es) = refl
take_recipient-are_recipients (cons (atom (bool b)) es) = refl
take_recipient-are_recipients (cons (atom (keyword k)) es) = refl
take_recipient-are_recipients (cons (list items) es) =
    if_cases (λ (x : Option Recipients × Items). are_recipients x.0 ≡ true) (is_address_list items)
      _ _ (recipients_collect items) (λ e. refl)
