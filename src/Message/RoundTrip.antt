-- ===== src/Message/RoundTrip.antt =====
-- What the printing of a message (crates/cbcl-core/src/message.rs) writes, the recognition reads
-- back.
use cbcl_rs.Prelude.{
  Bool, List, Option, String, [], and_both, ap, arith, false, if◌then◌else◌, none, refl, some, true,
  ◌&&◌, ◌==◌, ◌∙◌, ◌∷◌, ◌≡◌,
}
use cbcl_rs.Sexpr.{SExpr, Items, nil, cons}
use cbcl_rs.Message.{
  CausedBy, Performative, name, Recipients, WrapperType, envelope, signed, with_limits, with_roles,
  Message, simple, meta, dialect, wrapped,
}
use cbcl_rs.Message.Print.{
  extend, write_recipients, write_field, write_caused_by, wrapper_as_str, to_sexpr,
}
use cbcl_rs.Message.Args.{
  is_address_group, read_positional, Recognised, ok, wrapper_parse, LangScope, scoped, parse_args,
}
use cbcl_rs.Message.Parse.{
  parse_message_scoped, last_list, dispatch, parse_simple, simple_of, simple_from,
  with_performative, no_args, dialect_of, wrapped_of, is_list, parse_meta,
}
use cbcl_rs.Message.Arguments.{is_content, are_params, are_recipients, is_cause}
use cbcl_rs.Message.Loop.{args, recipient_back, positional_step, params_back, fields_back}
use cbcl_rs.Message.Heads.{is_head, is_performative, is_none→none, head_of-name}

-- The messages that a printed form stands for.
unfoldable pub is_printable : Message → LangScope → Bool
is_printable (simple p r c ps t s cb) place =
    is_performative p place && are_recipients r && is_content c && are_params ps && is_cause cb
is_printable (meta d) place = true
is_printable (dialect d m) place = is_printable m scoped
is_printable (wrapped w ps m) place = is_printable m place

dispatch_simple :
    (head : String) (tail : Items) (place : LangScope) (a : Recognised Message)
    (b : Option (List SExpr × Recognised Message))
    → is_head head ≡ true
    → dispatch head tail place a b ≡ parse_simple head tail place
dispatch_simple head tail place a b h =
    let not_meta : (head == "meta") ≡ false = ground arith in
    let not_lang : (head == "lang") ≡ false = ground arith in
    let not_wrapper = is_none→none (wrapper_parse head) (ground arith) in
    ap
      (λ (c : Bool).
        if c
        then parse_meta tail
        else (if head == "lang" then a else elim (wrapper_parse head) as (λ _. Recognised Message) [
          | some w ↦ wrapped_of w b
          | none ↦ parse_simple head tail place
        ]))
      not_meta
    ∙ ap
        (λ (c : Bool). if c then a else elim (wrapper_parse head) as (λ _. Recognised Message) [
          | some w ↦ wrapped_of w b
          | none ↦ parse_simple head tail place
        ])
        not_lang
    ∙ ap
        (λ o. elim o as (λ _. Recognised Message) [
          | some w ↦ wrapped_of w b
          | none ↦ parse_simple head tail place
        ])
        not_wrapper

fields : Option String → Option String → Option CausedBy → Items
fields t s cb = write_field "thread" t (write_field "sender" s (write_caused_by cb))

arguments_back :
    (c : SExpr) (ps : List SExpr) (t s : Option String) (cb : Option CausedBy)
    → is_content c ≡ true
    → are_params ps ≡ true
    → is_cause cb ≡ true
    → parse_args (cons c (extend ps (fields t s cb))) no_args ≡ ok (args (some c) ps t s cb)
unfolding fields read_positional
arguments_back c ps t s cb h g k =
    positional_step c (extend ps (fields t s cb)) no_args h
    ∙ params_back ps [] (fields t s cb) c none none none g
    ∙ fields_back (some c) ps t s cb k

simple_back :
    (p : Performative) (r : Option Recipients) (c : SExpr) (ps : List SExpr) (t s : Option String)
    (cb : Option CausedBy) (place : LangScope)
    → is_performative p place ≡ true
    → are_recipients r ≡ true
    → is_content c ≡ true
    → are_params ps ≡ true
    → is_cause cb ≡ true
    → parse_simple (name p) (write_recipients r (cons c (extend ps (fields t s cb)))) place
      ≡ ok (simple p r c ps t s cb)
unfolding parse_simple
simple_back p r c ps t s cb place hp hr hc hs hb =
    let tail = write_recipients r (cons c (extend ps (fields t s cb))) in
    let no_group : is_address_group c ≡ false = ground arith in
    ap (λ h. with_performative h tail) (head_of-name p place hp).1
    ∙ ap (simple_from p) (recipient_back r c (extend ps (fields t s cb)) hr no_group)
    ∙ ap (simple_of p r) (arguments_back c ps t s cb hc hs hb)

dispatch_wrapper :
    (w : WrapperType) (tail : Items) (place : LangScope) (a : Recognised Message)
    (b : Option (List SExpr × Recognised Message))
    → dispatch (wrapper_as_str w) tail place a b ≡ wrapped_of w b
unfolding wrapper_parse
dispatch_wrapper envelope tail place a b = refl
dispatch_wrapper signed tail place a b = refl
dispatch_wrapper with_limits tail place a b = refl
dispatch_wrapper with_roles tail place a b = refl

last_list_back :
    (ps : List SExpr) (e : SExpr) (place : LangScope)
    → is_list e ≡ true
    → last_list (extend ps (cons e nil)) place ≡ some (ps, parse_message_scoped e place)
unfolding parse_message_scoped
last_list_back [] e place h =
    ap
      (λ (b : Bool). elim b as (λ _. Option (List SExpr × Recognised Message)) [
        | true ↦ some ([], parse_message_scoped e place)
        | false ↦ none
      ])
      h
last_list_back (p ∷ ps) e place h =
    ap
      (λ o. elim o as (λ _. Option (List SExpr × Recognised Message)) [
        | some (params, r) ↦ some (p ∷ params, r)
        | none ↦ elim (is_list p) as (λ _. Option (List SExpr × Recognised Message)) [
          | true ↦ some ([], parse_message_scoped p place)
          | false ↦ none
        ]
      ])
      (last_list_back ps e place h)

to_sexpr-is_list : (m : Message) → is_list (to_sexpr m) ≡ true
unfolding to_sexpr
to_sexpr-is_list (simple p r c ps t s cb) = refl
to_sexpr-is_list (meta d) = refl
to_sexpr-is_list (dialect d m) = refl
to_sexpr-is_list (wrapped w ps m) = refl

-- The form of a message is read back as the message.
simple_parts :
    (p : Performative) (r : Option Recipients) (c : SExpr) (ps : List SExpr) (t s : Option String)
    (cb : Option CausedBy) (place : LangScope)
    → is_printable (simple p r c ps t s cb) place ≡ true
    → (is_performative p place ≡ true)
      × ((are_recipients r ≡ true)
          × ((is_content c ≡ true) × ((are_params ps ≡ true) × (is_cause cb ≡ true))))
unfolding is_printable
simple_parts p r c ps t s cb place h =
    let a = is_performative p place in
    let b = are_recipients r in
    let (h1, hb) = and_both (a && b && is_content c && are_params ps) (is_cause cb) h in
    let (h2, hs) = and_both (a && b && is_content c) (are_params ps) h1 in
    let (h3, hc) = and_both (a && b) (is_content c) h2 in
    let (hp, hr) = and_both a b h3 in (hp, (hr, (hc, (hs, hb))))

-- The form that a printable message is written in is recognised as that message, in every scope
-- that admits its performative: with its recipients in ascending order, its arguments that are no
-- addresses, no reserved keywords and no keywords without a value, and its causes sorted.
pub parse_message_scoped-to_sexpr :
    (m : Message) (place : LangScope)
    → is_printable m place ≡ true
    → parse_message_scoped (to_sexpr m) place ≡ ok m
unfolding parse_message_scoped to_sexpr is_printable fields
parse_message_scoped-to_sexpr (simple p r c ps t s cb) place h =
    let (hp, (hr, (hc, (hs, hb)))) = simple_parts p r c ps t s cb place h in
    dispatch_simple (name p) (write_recipients r (cons c (extend ps (fields t s cb)))) place _ _
      (head_of-name p place hp).0
    ∙ simple_back p r c ps t s cb place hp hr hc hs hb
parse_message_scoped-to_sexpr (meta d) place h = refl
parse_message_scoped-to_sexpr (dialect d m) place h =
    ap (dialect_of d) (parse_message_scoped-to_sexpr m scoped h)
parse_message_scoped-to_sexpr (wrapped w ps m) place h =
    let r = parse_message_scoped-to_sexpr m place h in
    let found =
      last_list_back ps (to_sexpr m) place (to_sexpr-is_list m) ∙ ap (λ x. some (ps, x)) r in
    dispatch_wrapper w (extend ps (cons (to_sexpr m) nil)) place _ _ ∙ ap (wrapped_of w) found
