-- ===== src/Message/Read.antt =====
-- What the recognition of a message (crates/cbcl-core/src/message.rs) reads off the arguments: only
-- what the printing would write.
use cbcl_rs.Prelude.{
  Bool, List, Option, String, [], and_both, and_intro, ap, arith, false, if_cases, none, not, refl,
  some, true, ◌++◌, ◌==◌, ◌∷◌, ◌≡◌,
}
use cbcl_rs.Sexpr.{symbol, str, num, bool, keyword, SExpr, Items, atom, list, nil, cons}
use cbcl_rs.Message.{CausedBy}
use cbcl_rs.Message.Args.{
  Recognised, ok, err, Args, parse_args, read_keyword, read_positional, parse_caused_by,
  is_address_group, next_args, with_caused_by, address_in_content,
}
use cbcl_rs.Message.Arguments.{is_reserved, is_keyword, is_content, are_params, is_cause}
use cbcl_rs.Message.Causes.{CauseRead, parse_caused_by-CauseRead}

params_one :
    (e : SExpr)
    → is_content e ≡ true
    → (ps : List SExpr) → are_params ps ≡ true
    → are_params (e ∷ ps) ≡ true
params_one (atom (symbol s)) h ps g = and_intro _ (are_params ps) h g
params_one (atom (str s)) h ps g = g
params_one (atom (num n)) h ps g = g
params_one (atom (bool b)) h ps g = g
params_one (atom (keyword k)) h ps g = absurd (ground arith)
params_one (list l) h ps g = and_intro _ (are_params ps) h g

are_params-append :
    (ps qs : List SExpr)
    → are_params ps ≡ true
    → are_params qs ≡ true
    → are_params (ps ++ qs) ≡ true
are_params-append [] qs h g = g
are_params-append (atom (keyword k) ∷ []) qs h g = absurd (ground arith)
are_params-append (atom (keyword k) ∷ v ∷ ps) qs h g =
    let (free, rest) = and_both (not (is_reserved k)) (are_params ps) h in
    and_intro (not (is_reserved k)) (are_params (ps ++ qs)) free (are_params-append ps qs rest g)
are_params-append (atom (symbol s) ∷ ps) qs h g =
    let (here, rest) = and_both (is_content (atom (symbol s))) (are_params ps) h in
    and_intro (is_content (atom (symbol s))) (are_params (ps ++ qs)) here
      (are_params-append ps qs rest g)
are_params-append (atom (str s) ∷ ps) qs h g = are_params-append ps qs h g
are_params-append (atom (num n) ∷ ps) qs h g = are_params-append ps qs h g
are_params-append (atom (bool b) ∷ ps) qs h g = are_params-append ps qs h g
are_params-append (list l ∷ ps) qs h g =
    let (here, rest) = and_both (is_content (list l)) (are_params ps) h in
    and_intro (is_content (list l)) (are_params (ps ++ qs)) here (are_params-append ps qs rest g)

abbrev pub is_read_content : Option SExpr → Bool
is_read_content none = true
is_read_content (some c) = is_content c

-- What the loop has read can be written.
abbrev pub ArgsRead : Args → Type 0
ArgsRead a =
    (is_read_content a.content ≡ true)
    × ((are_params a.params ≡ true) × (is_cause a.caused_by ≡ true))

abbrev pub LoopRead : Recognised Args → Type 0
LoopRead (ok a) = ArgsRead a
LoopRead (err x) = Unit

with_caused_by-LoopRead :
    (a : Args) (r : Recognised CausedBy) → ArgsRead a → CauseRead r → LoopRead (with_caused_by a r)
with_caused_by-LoopRead a (ok cb) (c, (p, _)) h = (c, (p, h))
with_caused_by-LoopRead a (err x) g h = tt

read_keyword-LoopRead :
    (k : String) (v : SExpr) (a : Args) → ArgsRead a → LoopRead (read_keyword k v a)
unfolding read_keyword
read_keyword-LoopRead k v a (c, (p, b)) =
    if_cases LoopRead (k == "thread") _ _ (λ e. (c, (p, b)))
      (λ n1.
        if_cases LoopRead (k == "sender") _ _ (λ e. (c, (p, b)))
          (λ n2.
            if_cases LoopRead (k == "caused-by") _ _
              (λ e.
                with_caused_by-LoopRead a (parse_caused_by v) (c, (p, b))
                  (parse_caused_by-CauseRead v))
              (λ n3.
                (c, (are_params-append a.params (atom (keyword k) ∷ v ∷ []) p (ground arith), b)))))

read_positional-ArgsRead :
    (e : SExpr) (a : Args) → is_content e ≡ true → ArgsRead a → ArgsRead (read_positional e a)
unfolding read_positional
read_positional-ArgsRead e a h (c, (p, b)) =
    elim a.content
      as (λ (o : Option SExpr). ArgsRead (elim o as (λ _. Args) [
        | none ↦ record a { content = some e }
        | some c ↦ record a { params = a.params ++ e ∷ [] }
      ])) [
        | none ↦ (h, (p, b))
        | some d ↦ (c, (are_params-append a.params (e ∷ []) p (params_one e h [] refl), b))
      ]

next_args-LoopRead :
    (further : Args → Recognised Args) (r : Recognised Args)
    → ((a : Args) → ArgsRead a → LoopRead (further a))
    → LoopRead r
    → LoopRead (next_args further r)
next_args-LoopRead further (ok a) k g = k a g
next_args-LoopRead further (err x) k g = tt

positional-LoopRead :
    (e : SExpr) (es : Items) (a : Args)
    → is_keyword e ≡ false
    → ((a' : Args) → ArgsRead a' → LoopRead (parse_args es a'))
    → ArgsRead a
    → LoopRead (elim (is_address_group e) as (λ _. Recognised Args) [
      | true ↦ err (address_in_content e)
      | false ↦ parse_args es (read_positional e a)
    ])
positional-LoopRead e es a n k g =
    elim (is_address_group e)
        as (λ (b : Bool).
          (b ≡ false → is_content e ≡ true)
          → LoopRead (elim b as (λ _. Recognised Args) [
            | true ↦ err (address_in_content e)
            | false ↦ parse_args es (read_positional e a)
          ])) [
            | true ↦ λ c. tt
            | false ↦ λ c. k (read_positional e a) (read_positional-ArgsRead e a (c refl) g)
          ]
      (λ b. and_intro (not (is_keyword e)) (not (is_address_group e)) (ap not n) (ap not b))

-- The loop reads only what can be written.
pub parse_args-LoopRead : (es : Items) (a : Args) → ArgsRead a → LoopRead (parse_args es a)
unfolding parse_args
parse_args-LoopRead nil a g = g
parse_args-LoopRead (cons (atom (keyword k)) nil) a g = tt
parse_args-LoopRead (cons (atom (keyword k)) (cons v es)) a g =
    next_args-LoopRead (parse_args es) (read_keyword k v a) (λ a' g'. parse_args-LoopRead es a' g')
      (read_keyword-LoopRead k v a g)
parse_args-LoopRead (cons (atom (symbol s)) es) a g =
    positional-LoopRead (atom (symbol s)) es a refl (λ a' g'. parse_args-LoopRead es a' g') g
parse_args-LoopRead (cons (atom (str s)) es) a g =
    positional-LoopRead (atom (str s)) es a refl (λ a' g'. parse_args-LoopRead es a' g') g
parse_args-LoopRead (cons (atom (num n)) es) a g =
    positional-LoopRead (atom (num n)) es a refl (λ a' g'. parse_args-LoopRead es a' g') g
parse_args-LoopRead (cons (atom (bool b)) es) a g =
    positional-LoopRead (atom (bool b)) es a refl (λ a' g'. parse_args-LoopRead es a' g') g
parse_args-LoopRead (cons (list l) es) a g =
    positional-LoopRead (list l) es a refl (λ a' g'. parse_args-LoopRead es a' g') g
