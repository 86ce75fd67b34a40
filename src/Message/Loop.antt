-- ===== src/Message/Loop.antt =====
-- The loop over the arguments of a message (crates/cbcl-core/src/message.rs, `parse_simple`) on what
-- the printing writes.
use cbcl_rs.Prelude.{
  Bool, List, Option, String, [], ap, arith, false, if◌then◌else◌, none, refl, some, sym, true,
  ◌++◌, ◌∙◌, ◌∷◌, ◌≡◌,
}
use mathlib.Core.List.{append_assoc, append-nil}
use cbcl_rs.Sexpr.{symbol, str, num, bool, keyword, SExpr, Items, atom, list, nil, cons}
use cbcl_rs.Message.{CausedBy, Recipients, one, set}
use cbcl_rs.Message.Print.{symbols, extend, write_recipients, write_field, write_caused_by}
use cbcl_rs.Message.Args.{
  Recognised, ok, err, Args, parse_args, read_keyword, read_positional, collect_set, with_caused_by,
  take_recipient, symbol_texts, is_address_list, is_address_group, next_args,
  extract_string_or_symbol, address_in_content,
}
use cbcl_rs.Message.Arguments.{
  is_reserved, is_content, are_params, are_recipients, is_cause, cause_back, collect_ascending,
  symbol_texts-symbols,
}

abbrev pub args : Option SExpr → List SExpr → Option String → Option String → Option CausedBy → Args
args c ps t s cb = record { content = c; params = ps; thread = t; sender = s; caused_by = cb }

take_recipient-none :
    (c : SExpr) (rest : Items)
    → is_address_group c ≡ false
    → take_recipient (cons c rest) ≡ (none, cons c rest)
unfolding take_recipient
take_recipient-none (atom (symbol s)) rest h =
    ap (λ (b : Bool). if b then (some (one s), rest) else (none, cons (atom (symbol s)) rest)) h
take_recipient-none (atom (str s)) rest h = refl
take_recipient-none (atom (num n)) rest h = refl
take_recipient-none (atom (bool b)) rest h = refl
take_recipient-none (atom (keyword k)) rest h = refl
take_recipient-none (list es) rest h =
    ap
      (λ (b : Bool).
        if b
        then (some (set (collect_set (symbol_texts es))), rest)
        else (none, cons (list es) rest))
      h

pub recipient_back :
    (r : Option Recipients) (c : SExpr) (rest : Items)
    → are_recipients r ≡ true
    → is_address_group c ≡ false
    → take_recipient (write_recipients r (cons c rest)) ≡ (r, cons c rest)
unfolding take_recipient
recipient_back none c rest h g = take_recipient-none c rest g
recipient_back (some (one r)) c rest h g =
    ap
      (λ (b : Bool).
        if b then (some (one r), cons c rest) else (none, cons (atom (symbol r)) (cons c rest)))
      h
recipient_back (some (set rs)) c rest h g =
    let group : is_address_list (symbols rs) ≡ true = ground arith in
    ap
      (λ (b : Bool).
        if b
        then (some (set (collect_set (symbol_texts (symbols rs)))), cons c rest)
        else (none, cons (list (symbols rs)) (cons c rest)))
      group
    ∙ ap (λ (t : List String). (some (set (collect_set t)), cons c rest)) (symbol_texts-symbols rs)
    ∙ ap (λ (t : List String). (some (set t), cons c rest)) (collect_ascending rs (ground arith))

positional_choice :
    (e : SExpr) (es : Items) (a : Args)
    → is_address_group e ≡ false
    → elim (is_address_group e) as (λ _. Recognised Args) [
      | true ↦ err (address_in_content e)
      | false ↦ parse_args es (read_positional e a)
    ]
      ≡ parse_args es (read_positional e a)
positional_choice e es a h =
    ap
      (λ (b : Bool). elim b as (λ _. Recognised Args) [
        | true ↦ err (address_in_content e)
        | false ↦ parse_args es (read_positional e a)
      ])
      h

-- A content is read as one.
pub positional_step :
    (e : SExpr) (es : Items) (a : Args)
    → is_content e ≡ true
    → parse_args (cons e es) a ≡ parse_args es (read_positional e a)
unfolding parse_args
positional_step (atom (symbol x)) es a h = positional_choice (atom (symbol x)) es a (ground arith)
positional_step (atom (str x)) es a h = positional_choice (atom (str x)) es a (ground arith)
positional_step (atom (num x)) es a h = positional_choice (atom (num x)) es a (ground arith)
positional_step (atom (bool x)) es a h = positional_choice (atom (bool x)) es a (ground arith)
positional_step (list x) es a h = positional_choice (list x) es a (ground arith)
positional_step (atom (keyword x)) es a h = absurd (ground arith)

read_other :
    (k : String) (v : SExpr) (a : Args)
    → is_reserved k ≡ false
    → read_keyword k v a ≡ ok (record a { params = a.params ++ atom (keyword k) ∷ v ∷ [] })
unfolding read_keyword
read_other k v a h = ground arith

keyword_step :
    (k : String) (v : SExpr) (es : Items) (c : Option SExpr) (ps : List SExpr) (t s : Option String)
    (cb : Option CausedBy)
    → is_reserved k ≡ false
    → parse_args (cons (atom (keyword k)) (cons v es)) (args c ps t s cb)
      ≡ parse_args es (args c (ps ++ atom (keyword k) ∷ v ∷ []) t s cb)
unfolding parse_args read_keyword
keyword_step k v es c ps t s cb h =
    ap (next_args (parse_args es)) (read_other k v (args c ps t s cb) h)

content_back :
    (e : SExpr) (ps qs : List SExpr) (rest : Items) (c : SExpr) (t s : Option String)
    (cb : Option CausedBy)
    → is_content e ≡ true
    → parse_args (extend ps rest) (args (some c) (qs ++ e ∷ []) t s cb)
      ≡ parse_args rest (args (some c) ((qs ++ e ∷ []) ++ ps) t s cb)
    → parse_args (extend (e ∷ ps) rest) (args (some c) qs t s cb)
      ≡ parse_args rest (args (some c) (qs ++ e ∷ ps) t s cb)
unfolding read_positional
content_back e ps qs rest c t s cb h ih =
    positional_step e (extend ps rest) (args (some c) qs t s cb) h
    ∙ ih
    ∙ ap (λ (l : List SExpr). parse_args rest (args (some c) l t s cb))
        (append_assoc qs (e ∷ []) ps)

pub params_back :
    (ps qs : List SExpr) (rest : Items) (c : SExpr) (t s : Option String) (cb : Option CausedBy)
    → are_params ps ≡ true
    → parse_args (extend ps rest) (args (some c) qs t s cb)
      ≡ parse_args rest (args (some c) (qs ++ ps) t s cb)
params_back [] qs rest c t s cb h =
    ap (λ (l : List SExpr). parse_args rest (args (some c) l t s cb)) (sym (append-nil qs))
params_back (atom (keyword k) ∷ []) qs rest c t s cb h = absurd (ground arith)
params_back (atom (keyword k) ∷ v ∷ ps) qs rest c t s cb h =
    keyword_step k v (extend ps rest) (some c) qs t s cb (ground arith)
    ∙ params_back ps (qs ++ atom (keyword k) ∷ v ∷ []) rest c t s cb (ground arith)
    ∙ ap (λ (l : List SExpr). parse_args rest (args (some c) l t s cb))
        (append_assoc qs (atom (keyword k) ∷ v ∷ []) ps)
params_back (atom (symbol x) ∷ ps) qs rest c t s cb h =
    content_back (atom (symbol x)) ps qs rest c t s cb (ground arith)
      (params_back ps (qs ++ atom (symbol x) ∷ []) rest c t s cb (ground arith))
params_back (atom (str x) ∷ ps) qs rest c t s cb h =
    content_back (atom (str x)) ps qs rest c t s cb (ground arith)
      (params_back ps (qs ++ atom (str x) ∷ []) rest c t s cb (ground arith))
params_back (atom (num x) ∷ ps) qs rest c t s cb h =
    content_back (atom (num x)) ps qs rest c t s cb (ground arith)
      (params_back ps (qs ++ atom (num x) ∷ []) rest c t s cb (ground arith))
params_back (atom (bool x) ∷ ps) qs rest c t s cb h =
    content_back (atom (bool x)) ps qs rest c t s cb (ground arith)
      (params_back ps (qs ++ atom (bool x) ∷ []) rest c t s cb (ground arith))
params_back (list x ∷ ps) qs rest c t s cb h =
    content_back (list x) ps qs rest c t s cb (ground arith)
      (params_back ps (qs ++ list x ∷ []) rest c t s cb (ground arith))

cause_field :
    (c : Option SExpr) (ps : List SExpr) (t s : Option String) (cb : Option CausedBy)
    → is_cause cb ≡ true
    → parse_args (write_caused_by cb) (args c ps t s none) ≡ ok (args c ps t s cb)
unfolding parse_args read_keyword
cause_field c ps t s none h = refl
cause_field c ps t s (some cb) h =
    ap (λ r. next_args (parse_args nil) (with_caused_by (args c ps t s none) r)) (cause_back cb h)

pub fields_back :
    (c : Option SExpr) (ps : List SExpr) (t s : Option String) (cb : Option CausedBy)
    → is_cause cb ≡ true
    → parse_args
        (write_field "thread" t (write_field "sender" s (write_caused_by cb)))
        (args c ps none none none)
      ≡ ok (args c ps t s cb)
unfolding parse_args read_keyword extract_string_or_symbol
fields_back c ps none none cb h = cause_field c ps none none cb h
fields_back c ps none (some s) cb h = cause_field c ps none (some s) cb h
fields_back c ps (some t) none cb h = cause_field c ps (some t) none cb h
fields_back c ps (some t) (some s) cb h = cause_field c ps (some t) (some s) cb h
