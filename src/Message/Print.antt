-- ===== src/Message/Print.antt =====
-- Messages as S-expressions (crates/cbcl-core/src/message.rs, `From<Message> for SExpr`).
use cbcl_rs.Prelude.{List, Option, String, [], none, some, ◌∷◌}
use cbcl_rs.Sexpr.{SExpr, Items, symbol, str, keyword, atom, list, nil, cons}
use cbcl_rs.Message.{
  CausedBy, begin, single, multiple, name, Recipients, one, set, WrapperType, envelope, signed,
  with_limits, with_roles, Message, simple, meta, dialect, wrapped,
}
use cbcl_rs.Protocol.{begin_keyword}

abbrev pub wrapper_as_str : WrapperType → String
wrapper_as_str envelope = "envelope"
wrapper_as_str signed = "signed"
wrapper_as_str with_limits = "with-limits"
wrapper_as_str with_roles = "with-roles"

abbrev pub word : String → SExpr
word s = atom (symbol s)

-- A vector of symbols.
abbrev pub symbols : List String → Items
symbols [] = nil
symbols (s ∷ ss) = cons (word s) (symbols ss)

-- The expressions in front of `rest`.
abbrev pub extend : List SExpr → Items → Items
extend [] rest = rest
extend (e ∷ es) rest = cons e (extend es rest)

abbrev pub write_recipients : Option Recipients → Items → Items
write_recipients none rest = rest
write_recipients (some (one r)) rest = cons (word r) rest
write_recipients (some (set rs)) rest = cons (list (symbols rs)) rest

-- A keyword with a text, if there is one.
abbrev pub write_field : String → Option String → Items → Items
write_field k none rest = rest
write_field k (some t) rest = cons (atom (keyword k)) (cons (atom (str t)) rest)

abbrev pub caused_by_value : CausedBy → SExpr
caused_by_value begin = word begin_keyword
caused_by_value (single h) = word h
caused_by_value (multiple hs) = list (symbols hs)

abbrev pub write_caused_by : Option CausedBy → Items
write_caused_by none = nil
write_caused_by (some cb) = cons (atom (keyword "caused-by")) (cons (caused_by_value cb) nil)

unfoldable pub to_sexpr : Message → SExpr
to_sexpr (simple p r c ps t s cb) = list (
    cons (word (name p)) (
      write_recipients r (
        cons c (extend ps (write_field "thread" t (write_field "sender" s (write_caused_by cb)))))))
to_sexpr (meta d) = list (cons (word "meta") (cons d nil))
to_sexpr (dialect d m) = list (cons (word "lang") (cons (word d) (cons (to_sexpr m) nil)))
to_sexpr (wrapped w ps m) =
    list (cons (word (wrapper_as_str w)) (extend ps (cons (to_sexpr m) nil)))
