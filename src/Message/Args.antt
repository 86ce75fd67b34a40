-- ===== src/Message/Args.antt =====
-- The arguments of a message (crates/cbcl-core/src/message.rs, `parse_simple`): its recipient, and
-- the loop over the rest.
use cbcl_rs.Prelude.{
  Bool, List, Option, String, [], false, if◌then◌else◌, none, some, true, ◌&&◌, ◌++◌, ◌==◌, ◌∷◌,
}
use Prim.Native.Nat.{Ordering}
use Prim.Native.String.{compare}
use cbcl_rs.Sexpr.{symbol, str, keyword, SExpr, Items, atom, list, nil, cons}
use cbcl_rs.Text.{Chars, chars_of, text_of, is_code, serialize}
use cbcl_rs.Message.{
  CausedBy, begin, single, multiple, CorePerformative, tell, ask, reply, error, cancel, hello, bye,
  Recipients, one, set, WrapperType, envelope, signed, with_limits, with_roles,
}
use cbcl_rs.Protocol.{begin_keyword}

-- The texts of the errors; the last two have the name that the text shows.
pub data MessageParseError : Type 0 where
  empty_message not_a_list head_not_symbol : MessageParseError
  meta_requires_operation dialect_requires_name_and_inner dialect_name_not_symbol :
      MessageParseError
  wrapped_requires_inner : MessageParseError
  caused_by_empty caused_by_element caused_by_form : MessageParseError
  address_in_content : SExpr → MessageParseError
  keyword_missing_value : String → MessageParseError
  not_core : String → MessageParseError

pub data Recognised (A : Type 0) : Type 0 where
  ok : A → Recognised A
  err : MessageParseError → Recognised A

pub data LangScope : Type 0 where
  unscoped scoped lax : LangScope

unfoldable pub core_parse : String → Option CorePerformative
core_parse s =
    if s == "tell"
    then some tell
    else if s == "ask"
    then some ask
    else if s == "reply"
    then some reply
    else if s == "error"
    then some error
    else if s == "ok"
    then some CorePerformative.ok
    else if s == "cancel"
    then some cancel
    else if s == "hello"
    then some hello
    else if s == "bye"
    then some bye
    else none

unfoldable pub wrapper_parse : String → Option WrapperType
wrapper_parse s =
    if s == "envelope"
    then some envelope
    else if s == "signed"
    then some signed
    else if s == "with-limits"
    then some with_limits
    else if s == "with-roles"
    then some with_roles
    else none

abbrev pub starts_with_at : Chars → Bool
starts_with_at [] = false
starts_with_at (c ∷ cs) = is_code b'@' c

abbrev pub is_address : SExpr → Bool
is_address (atom (symbol s)) = starts_with_at (chars_of s)
is_address _ = false

abbrev pub all_addresses : Items → Bool
all_addresses nil = true
all_addresses (cons e es) = is_address e && all_addresses es

abbrev pub is_address_list : Items → Bool
is_address_list nil = false
is_address_list (cons e es) = all_addresses (cons e es)

abbrev pub is_address_group : SExpr → Bool
is_address_group (atom a) = is_address (atom a)
is_address_group (list items) = is_address_list items

-- `sort` of a vector.
abbrev pub insert_sorted : String → List String → List String
insert_sorted x [] = x ∷ []
insert_sorted x (y ∷ ys) = elim (compare x y) [
  | Ordering.gt ↦ y ∷ insert_sorted x ys
  | _ ↦ x ∷ y ∷ ys
]

unfoldable pub sort : List String → List String
sort [] = []
sort (x ∷ xs) = insert_sorted x (sort xs)

-- `collect` into an ordered set.
abbrev pub btree_insert : String → List String → List String
btree_insert x [] = x ∷ []
btree_insert x (y ∷ ys) = elim (compare x y) [
  | Ordering.lt ↦ x ∷ y ∷ ys
  | Ordering.eq ↦ y ∷ ys
  | Ordering.gt ↦ y ∷ btree_insert x ys
]

unfoldable pub collect_set : List String → List String
collect_set [] = []
collect_set (x ∷ xs) = btree_insert x (collect_set xs)

-- The texts of symbols; other items do not occur where it is used.
abbrev pub symbol_texts : Items → List String
symbol_texts nil = []
symbol_texts (cons (atom (symbol s)) es) = s ∷ symbol_texts es
symbol_texts (cons _ es) = symbol_texts es

-- The recipient, if the first argument is one, and the other arguments.
unfoldable pub take_recipient : Items → Option Recipients × Items
unfolding collect_set
take_recipient nil = (none, nil)
take_recipient (cons (atom (symbol s)) es) =
    if starts_with_at (chars_of s) then (some (one s), es) else (none, cons (atom (symbol s)) es)
take_recipient (cons (list items) es) =
    if is_address_list items
    then (some (set (collect_set (symbol_texts items))), es)
    else (none, cons (list items) es)
take_recipient (cons e es) = (none, cons e es)

unfoldable pub extract_string_or_symbol : SExpr → String
extract_string_or_symbol (atom (str s)) = s
extract_string_or_symbol (atom (symbol s)) = s
extract_string_or_symbol e = text_of (serialize e)

abbrev pub push_hash : String → Recognised (List String) → Recognised (List String)
push_hash s (ok hs) = ok (s ∷ hs)
push_hash s (err x) = err x

abbrev pub hashes_of : Items → Recognised (List String)
hashes_of nil = ok []
hashes_of (cons (atom (symbol s)) es) = push_hash s (hashes_of es)
hashes_of (cons (atom (str s)) es) = push_hash s (hashes_of es)
hashes_of (cons _ es) = err caused_by_element

abbrev pub begin_or_single : String → CausedBy
begin_or_single s = if s == begin_keyword then begin else single s

abbrev pub sorted_hashes : Recognised (List String) → Recognised CausedBy
sorted_hashes (ok hs) = ok (multiple (sort hs))
sorted_hashes (err x) = err x

unfoldable pub parse_caused_by : SExpr → Recognised CausedBy
unfolding sort
parse_caused_by (atom (symbol s)) = ok (begin_or_single s)
parse_caused_by (atom (str s)) = ok (begin_or_single s)
parse_caused_by (atom _) = err caused_by_form
parse_caused_by (list nil) = err caused_by_empty
parse_caused_by (list (cons e es)) = sorted_hashes (hashes_of (cons e es))

-- What the loop over the arguments has read.
pub record Args : Type 0 where
  pub content : Option SExpr
  pub params : List SExpr
  pub thread : Option String
  pub sender : Option String
  pub caused_by : Option CausedBy

abbrev pub with_caused_by : Args → Recognised CausedBy → Recognised Args
with_caused_by a (ok cb) = ok (record a { caused_by = some cb })
with_caused_by a (err x) = err x

unfoldable pub read_keyword : String → SExpr → Args → Recognised Args
unfolding extract_string_or_symbol parse_caused_by
read_keyword k v a =
    if k == "thread"
    then ok (record a { thread = some (extract_string_or_symbol v) })
    else if k == "sender"
    then ok (record a { sender = some (extract_string_or_symbol v) })
    else if k == "caused-by"
    then with_caused_by a (parse_caused_by v)
    else ok (record a { params = a.params ++ atom (keyword k) ∷ v ∷ [] })

unfoldable pub read_positional : SExpr → Args → Args
read_positional e a = elim a.content [
  | none ↦ record a { content = some e }
  | some c ↦ record a { params = a.params ++ e ∷ [] }
]

abbrev pub next_args : (Args → Recognised Args) → Recognised Args → Recognised Args
next_args further (ok a) = further a
next_args further (err x) = err x

unfoldable pub parse_args : Items → Args → Recognised Args
unfolding read_keyword read_positional
parse_args nil a = ok a
parse_args (cons (atom (keyword k)) nil) a = err (keyword_missing_value k)
parse_args (cons (atom (keyword k)) (cons v es)) a = next_args (parse_args es) (read_keyword k v a)
parse_args (cons e es) a = elim (is_address_group e) [
  | true ↦ err (address_in_content e)
  | false ↦ parse_args es (read_positional e a)
]
