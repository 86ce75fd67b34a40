-- ===== src/Message/Tests.antt =====
-- Tests of the printing and the recognition of messages, and instances of their theorems.
use cbcl_rs.Prelude.{[], none, refl, some, true, ◌∷◌, ◌≡◌}
use cbcl_rs.Sexpr.{SExpr, str, num, pos, keyword, atom, list, nil, cons}
use cbcl_rs.Text.{serialize}
use cbcl_rs.Text.Parser.{parse, parsed, consume_fuel}
use cbcl_rs.Text.Leaf.{parse_leaf}
use cbcl_rs.Message.{
  ask, single, multiple, tell, core, custom, set, Message, simple, dialect, wrapped, signed,
}
use cbcl_rs.Message.Print.{word, to_sexpr}
use cbcl_rs.Message.Args.{
  ok, err, unscoped, not_core, keyword_missing_value, core_parse, wrapper_parse,
}
use cbcl_rs.Message.Parse.{parse_message_scoped, try_from, parse_lax, parse_simple}
use cbcl_rs.Message.Stable.{parse_message_scoped_stable}
use cbcl_rs.Message.RoundTrip.{is_printable, parse_message_scoped-to_sexpr}

-- A signed offer to two agents, in a dialect, after two messages.
abbrev offer : Message
offer = wrapped signed (atom (str "sig") ∷ []) (
    dialect "trade" (
      simple (custom "offer") (some (set ("@a" ∷ "@b" ∷ []))) (atom (str "box"))
        (atom (keyword "price") ∷ atom (num (pos 3)) ∷ word "now" ∷ []) (some "t") (some "@c")
        (some (multiple ("h1" ∷ "h2" ∷ [])))))

offer_printable : is_printable offer unscoped ≡ true
unfolding is_printable core_parse wrapper_parse
offer_printable = refl

parse_message_scoped-to_sexpr_example : parse_message_scoped (to_sexpr offer) unscoped ≡ ok offer
parse_message_scoped-to_sexpr_example = parse_message_scoped-to_sexpr offer unscoped offer_printable

bare_custom :
    (try_from (list (cons (word "offer") nil)) ≡ err (not_core "offer"))
    × (parse_lax (list (cons (word "offer") nil))
        ≡ ok (simple (custom "offer") none (list nil) [] none none none))
unfolding try_from parse_lax wrapper_parse parse_simple
bare_custom = (refl, refl)

-- A cause given as a quoted text.
abbrev quoted_cause : SExpr
quoted_cause = list (
    cons (word "tell") (
      cons (atom (str "x"))
        (cons (atom (keyword "caused-by")) (cons (atom (str "sha256:ab")) nil))))

abbrev caused : Message
caused = simple (core tell) none (atom (str "x")) [] none none (some (single "sha256:ab"))

-- It is recognised, but the printed message is no message any more when its text is read again.
quoted_cause_lost :
    (try_from quoted_cause ≡ ok caused)
    × (parse (serialize (to_sexpr caused))
        ≡ parsed (
            list (
              cons (word "tell") (
                cons (atom (str "x")) (
                  cons
                    (atom (keyword "caused-by"))
                    (cons (word "sha256") (cons (atom (keyword "ab")) nil)))))))
    × (try_from (
          list (
            cons (word "tell") (
              cons (atom (str "x")) (
                cons
                  (atom (keyword "caused-by"))
                  (cons (word "sha256") (cons (atom (keyword "ab")) nil))))))
        ≡ err (keyword_missing_value "ab"))
unfolding try_from parse serialize to_sexpr consume_fuel parse_leaf wrapper_parse parse_simple
quoted_cause_lost = (refl, refl, refl)

-- Two recipients out of order and twice, arguments around the content, a keyword in between.
abbrev untidy : SExpr
untidy = list (
    cons (word "ask") (
      cons (list (cons (word "@b") (cons (word "@a") (cons (word "@b") nil)))) (
        cons (atom (keyword "thread")) (
          cons (word "t") (
            cons (atom (str "q")) (
              cons (atom (keyword "n")) (
                cons (atom (num (pos 1))) (
                  cons (atom (keyword "caused-by"))
                    (cons (list (cons (word "h2") (cons (atom (str "h1")) nil))) nil)))))))))

abbrev tidy : Message
tidy =
    simple (core ask) (some (set ("@a" ∷ "@b" ∷ []))) (atom (str "q"))
      (atom (keyword "n") ∷ atom (num (pos 1)) ∷ []) (some "t") none
      (some (multiple ("h1" ∷ "h2" ∷ [])))

untidy_read : parse_message_scoped untidy unscoped ≡ ok tidy
unfolding parse_message_scoped wrapper_parse parse_simple
untidy_read = refl

parse_message_scoped_stable_example : parse_message_scoped (to_sexpr tidy) unscoped ≡ ok tidy
parse_message_scoped_stable_example = parse_message_scoped_stable untidy unscoped tidy untidy_read
