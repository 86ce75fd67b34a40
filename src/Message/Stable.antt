-- ===== src/Message/Stable.antt =====
-- A message that was recognised (crates/cbcl-core/src/message.rs) is printable, so its printed form
-- is recognised as the same message.
use cbcl_rs.Prelude.{
  Bool, List, Option, String, [], and_intro, ap, arith, false, if_cases, none, refl, some, subst,
  true, ◌&&◌, ◌==◌, ◌∷◌, ◌≡◌,
}
use cbcl_rs.Sexpr.{symbol, str, num, bool, keyword, SExpr, Items, atom, list, nil, cons}
use cbcl_rs.Message.{CorePerformative, Performative, core, custom, Recipients, WrapperType, Message}
use cbcl_rs.Message.Print.{to_sexpr}
use cbcl_rs.Message.Args.{
  Recognised, ok, err, core_parse, wrapper_parse, LangScope, unscoped, scoped, lax, Args,
  parse_args, take_recipient, not_core,
}
use cbcl_rs.Message.Parse.{
  parse_message_scoped, parse_dialect_msg, last_list, dispatch, parse_simple, head_of, simple_of,
  with_performative, no_args, dialect_of, wrapped_of, is_list, parse_meta,
}
use cbcl_rs.Message.Arguments.{is_content, are_params, are_recipients, is_cause}
use cbcl_rs.Message.Causes.{take_recipient-are_recipients}
use cbcl_rs.Message.Read.{LoopRead, parse_args-LoopRead, is_read_content}
use cbcl_rs.Message.Heads.{is_none, is_head, is_performative}
use cbcl_rs.Message.RoundTrip.{is_printable, parse_message_scoped-to_sexpr}

abbrev Printable : LangScope → Recognised Message → Type 0
Printable place (ok m) = is_printable m place ≡ true
Printable place (err x) = Unit

abbrev PrintableLast : LangScope → Option (List SExpr × Recognised Message) → Type 0
PrintableLast place none = Unit
PrintableLast place (some (params, r)) = Printable place r

abbrev HeadRead : LangScope → Recognised Performative → Type 0
HeadRead place (ok p) = is_performative p place ≡ true
HeadRead place (err x) = Unit

content_or_nil :
    (o : Option SExpr)
    → is_read_content o ≡ true
    → is_content (elim o as (λ _. SExpr) [ none ↦ list nil | some c ↦ c ]) ≡ true
content_or_nil none h = refl
content_or_nil (some c) h = h

simple_of-Printable :
    (place : LangScope) (p : Performative) (r : Option Recipients) (a : Recognised Args)
    → is_performative p place ≡ true
    → are_recipients r ≡ true
    → LoopRead a
    → Printable place (simple_of p r a)
unfolding is_printable
simple_of-Printable place p r (err x) hp hr g = tt
simple_of-Printable place p r (ok a) hp hr (c, (ps, b)) =
    let content = content_or_nil a.content c in
    let written = elim a.content as (λ _. SExpr) [ none ↦ list nil | some d ↦ d ] in
    let p1 = is_performative p place in
    let p2 = are_recipients r in
    let p3 = is_content written in
    let p4 = are_params a.params in
    and_intro (p1 && p2 && p3 && p4) (is_cause a.caused_by)
      (and_intro (p1 && p2 && p3) p4 (and_intro (p1 && p2) p3 (and_intro p1 p2 hp hr) content) ps) b

with_performative-Printable :
    (place : LangScope) (p : Recognised Performative) (tail : Items)
    → HeadRead place p
    → Printable place (with_performative p tail)
with_performative-Printable place (ok p) tail h =
    simple_of-Printable place p (take_recipient tail).0 (parse_args (take_recipient tail).1 no_args)
      h (take_recipient-are_recipients tail)
      (parse_args-LoopRead (take_recipient tail).1 no_args (refl, (refl, refl)))
with_performative-Printable place (err x) tail h = tt

custom_HeadRead :
    (head : String) (place : LangScope)
    → (is_none (core_parse head) && is_head head) ≡ true
    → HeadRead place (elim place as (λ _. Recognised Performative) [
      | unscoped ↦ err (not_core head)
      | _ ↦ ok (custom head)
    ])
custom_HeadRead head unscoped h = tt
custom_HeadRead head scoped h = and_intro (is_none (core_parse head) && is_head head) true h refl
custom_HeadRead head lax h = and_intro (is_none (core_parse head) && is_head head) true h refl

head_of-HeadRead :
    (head : String) (place : LangScope) → is_head head ≡ true → HeadRead place (head_of head place)
head_of-HeadRead head place h =
    elim (core_parse head)
        as (λ (o : Option CorePerformative).
          (o ≡ none → is_none (core_parse head) ≡ true)
          → HeadRead place (elim o as (λ _. Recognised Performative) [
            | some c ↦ ok (core c)
            | none ↦ elim place as (λ _. Recognised Performative) [
              | unscoped ↦ err (not_core head)
              | _ ↦ ok (custom head)
            ]
          ])) [
            | some c ↦ λ k. refl
            | none ↦ λ k.
                custom_HeadRead head place
                  (and_intro (is_none (core_parse head)) (is_head head) (k refl) h)
          ]
      (λ e. ap is_none e)

dialect_of-Printable :
    (d : String) (r : Recognised Message) (place : LangScope)
    → Printable scoped r
    → Printable place (dialect_of d r)
unfolding is_printable
dialect_of-Printable d (ok m) place h = h
dialect_of-Printable d (err x) place h = tt

wrapped_of-Printable :
    (w : WrapperType) (o : Option (List SExpr × Recognised Message)) (place : LangScope)
    → PrintableLast place o
    → Printable place (wrapped_of w o)
unfolding is_printable
wrapped_of-Printable w none place h = tt
wrapped_of-Printable w (some (params, ok m)) place h = h
wrapped_of-Printable w (some (params, err x)) place h = tt

parse_meta-Printable : (tail : Items) (place : LangScope) → Printable place (parse_meta tail)
unfolding is_printable
parse_meta-Printable nil place = tt
parse_meta-Printable (cons e es) place = refl

parse_simple-Printable :
    (head : String) (tail : Items) (place : LangScope)
    → is_head head ≡ true
    → Printable place (parse_simple head tail place)
unfolding parse_simple
parse_simple-Printable head tail place h =
    with_performative-Printable place (head_of head place) tail (head_of-HeadRead head place h)

head_free :
    (head : String)
    → (head == "meta") ≡ false
    → (head == "lang") ≡ false
    → is_none (wrapper_parse head) ≡ true
    → is_head head ≡ true
head_free head m l w = ground arith

last_step :
    (place : LangScope) (e : SExpr) (o : Option (List SExpr × Recognised Message)) (b : Bool)
    (r : Recognised Message)
    → PrintableLast place o
    → Printable place r
    → PrintableLast place (elim o as (λ _. Option (List SExpr × Recognised Message)) [
      | some (params, x) ↦ some (e ∷ params, x)
      | none ↦ elim b as (λ _. Option (List SExpr × Recognised Message)) [
        | true ↦ some ([], r)
        | false ↦ none
      ]
    ])
last_step place e (some (params, x)) b r h g = h
last_step place e none true r h g = g
last_step place e none false r h g = tt

dispatch-Printable :
    (head : String) (tail : Items) (place : LangScope) (a : Recognised Message)
    (b : Option (List SExpr × Recognised Message))
    → Printable place a
    → PrintableLast place b
    → Printable place (dispatch head tail place a b)
dispatch-Printable head tail place a b h g =
    if_cases (Printable place) (head == "meta") _ _ (λ e. parse_meta-Printable tail place)
      (λ not_meta.
        if_cases (Printable place) (head == "lang") _ _ (λ e. h)
          (λ not_lang.
            elim (wrapper_parse head)
                as (λ (o : Option WrapperType).
                  (o ≡ none → is_none (wrapper_parse head) ≡ true)
                  → Printable place (elim o as (λ _. Recognised Message) [
                    | some w ↦ wrapped_of w b
                    | none ↦ parse_simple head tail place
                  ])) [
                    | some w ↦ λ k. wrapped_of-Printable w b place g
                    | none ↦ λ k.
                        parse_simple-Printable head tail place
                          (head_free head not_meta not_lang (k refl))
                  ]
              (λ e. ap is_none e)))

mutual
  unfolding parse_message_scoped

  scoped-Printable :
      (e : SExpr) (place : LangScope) → Printable place (parse_message_scoped e place)
  scoped-Printable (atom a) place = tt
  scoped-Printable (list nil) place = tt
  scoped-Printable (list (cons (atom (symbol head)) tail)) place =
      dispatch-Printable head tail place _ _ (dialect-Printable tail place)
        (last-Printable tail place)
  scoped-Printable (list (cons (atom (str s)) tail)) place = tt
  scoped-Printable (list (cons (atom (num n)) tail)) place = tt
  scoped-Printable (list (cons (atom (bool b)) tail)) place = tt
  scoped-Printable (list (cons (atom (keyword k)) tail)) place = tt
  scoped-Printable (list (cons (list l) tail)) place = tt

  dialect-Printable : (tail : Items) (place : LangScope) → Printable place (parse_dialect_msg tail)
  dialect-Printable nil place = tt
  dialect-Printable (cons e nil) place = tt
  dialect-Printable (cons (atom (symbol d)) (cons inner es)) place =
      dialect_of-Printable d (parse_message_scoped inner scoped) place
        (scoped-Printable inner scoped)
  dialect-Printable (cons (atom (str s)) (cons inner es)) place = tt
  dialect-Printable (cons (atom (num n)) (cons inner es)) place = tt
  dialect-Printable (cons (atom (bool b)) (cons inner es)) place = tt
  dialect-Printable (cons (atom (keyword k)) (cons inner es)) place = tt
  dialect-Printable (cons (list l) (cons inner es)) place = tt

  last-Printable : (tail : Items) (place : LangScope) → PrintableLast place (last_list tail place)
  last-Printable nil place = tt
  last-Printable (cons e es) place =
      last_step place e (last_list es place) (is_list e) (parse_message_scoped e place)
        (last-Printable es place) (scoped-Printable e place)

-- A message that was recognised, from any expression and in any scope, is recognised in that scope
-- as the same message from its printed form.
pub parse_message_scoped_stable :
    (e : SExpr) (place : LangScope) (m : Message)
    → parse_message_scoped e place ≡ ok m
    → parse_message_scoped (to_sexpr m) place ≡ ok m
parse_message_scoped_stable e place m h =
    parse_message_scoped-to_sexpr m place (subst (Printable place) h (scoped-Printable e place))
