-- ===== src/Message/Parse.antt =====
-- The recognition of messages (crates/cbcl-core/src/message.rs, `TryFrom<&SExpr> for Message`).
use cbcl_rs.Prelude.{
  Bool, List, Option, String, [], false, if◌then◌else◌, none, some, true, ◌==◌, ◌∷◌,
}
use cbcl_rs.Sexpr.{symbol, SExpr, Items, atom, list, nil, cons}
use cbcl_rs.Message.{
  Performative, core, custom, Recipients, WrapperType, Message, simple, meta, dialect, wrapped,
}
use cbcl_rs.Message.Args.{
  Recognised, LangScope, core_parse, wrapper_parse, take_recipient, Args, parse_args, ok, err,
  unscoped, scoped, lax, empty_message, not_a_list, head_not_symbol, meta_requires_operation,
  dialect_requires_name_and_inner, dialect_name_not_symbol, wrapped_requires_inner, not_core,
}

abbrev pub no_args : Args
no_args = record { content = none; params = []; thread = none; sender = none; caused_by = none }

abbrev pub simple_of : Performative → Option Recipients → Recognised Args → Recognised Message
simple_of p r (ok a) = ok (
    simple p r (elim a.content [ none ↦ list nil | some c ↦ c ]) a.params a.thread a.sender
      a.caused_by)
simple_of p r (err x) = err x

abbrev pub head_of : String → LangScope → Recognised Performative
head_of head place = elim (core_parse head) [
  | some c ↦ ok (core c)
  | none ↦ elim place [ unscoped ↦ err (not_core head) | _ ↦ ok (custom head) ]
]

abbrev pub simple_from : Performative → Option Recipients × Items → Recognised Message
simple_from p (recipient, tail) = simple_of p recipient (parse_args tail no_args)

abbrev pub with_performative : Recognised Performative → Items → Recognised Message
with_performative (ok p) tail = simple_from p (take_recipient tail)
with_performative (err x) tail = err x

unfoldable pub parse_simple : String → Items → LangScope → Recognised Message
unfolding core_parse take_recipient parse_args
parse_simple head tail place = with_performative (head_of head place) tail

abbrev pub parse_meta : Items → Recognised Message
parse_meta nil = err meta_requires_operation
parse_meta (cons d es) = ok (meta d)

abbrev pub dialect_of : String → Recognised Message → Recognised Message
dialect_of d (ok m) = ok (dialect d m)
dialect_of d (err x) = err x

abbrev pub wrapped_of : WrapperType → Option (List SExpr × Recognised Message) → Recognised Message
wrapped_of w none = err wrapped_requires_inner
wrapped_of w (some (params, ok m)) = ok (wrapped w params m)
wrapped_of w (some (params, err x)) = err x

abbrev pub is_list : SExpr → Bool
is_list (atom a) = false
is_list (list items) = true

-- The form that the head names.
abbrev pub dispatch :
    String
    → Items
    → LangScope
    → Recognised Message
    → Option (List SExpr × Recognised Message)
    → Recognised Message
dispatch head tail place in_dialect in_wrapper =
    if head == "meta"
    then parse_meta tail
    else if head == "lang"
    then in_dialect
    else elim (wrapper_parse head) [
      | some w ↦ wrapped_of w in_wrapper
      | none ↦ parse_simple head tail place
    ]

unfoldable mutual
  pub parse_message_scoped : SExpr → LangScope → Recognised Message
  parse_message_scoped (atom a) place = err not_a_list
  parse_message_scoped (list nil) place = err empty_message
  parse_message_scoped (list (cons (atom (symbol head)) tail)) place =
      dispatch head tail place (parse_dialect_msg tail) (last_list tail place)
  parse_message_scoped (list (cons e tail)) place = err head_not_symbol

  pub parse_dialect_msg : Items → Recognised Message
  parse_dialect_msg nil = err dialect_requires_name_and_inner
  parse_dialect_msg (cons e nil) = err dialect_requires_name_and_inner
  parse_dialect_msg (cons (atom (symbol d)) (cons inner es)) =
      dialect_of d (parse_message_scoped inner scoped)
  parse_dialect_msg (cons e (cons inner es)) = err dialect_name_not_symbol

  -- The last list, recognised, and the expressions in front of it.
  pub last_list : Items → LangScope → Option (List SExpr × Recognised Message)
  last_list nil place = none
  last_list (cons e es) place = elim (last_list es place) [
    | some (params, r) ↦ some (e ∷ params, r)
    | none ↦ elim (is_list e) [ true ↦ some ([], parse_message_scoped e place) | false ↦ none ]
  ]

unfoldable pub try_from : SExpr → Recognised Message
unfolding parse_message_scoped
try_from e = parse_message_scoped e unscoped

unfoldable pub parse_lax : SExpr → Recognised Message
unfolding parse_message_scoped
parse_lax e = parse_message_scoped e lax
