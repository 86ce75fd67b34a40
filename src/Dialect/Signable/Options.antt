-- ===== src/Dialect/Signable/Options.antt =====
-- The single options of a bounded counter determine what they are written for, and can be told
-- apart by their heads (crates/cbcl-core/src/escrow.rs).
use cbcl_rs.Prelude.{
  List, Option, String, String-cases, [], ap, arith, eq_iff, false, inl, inr, ne_of_test, none,
  refl, some, sym, ◌==◌, ◌∙◌, ◌∷◌, ◌≡◌, ◌≢◌,
}
use cbcl_rs.Sexpr.{SExpr, Items, ℤ, atom, cons, keyword, list, num, symbol}
use cbcl_rs.Message.Print.{word}
use cbcl_rs.Certification.{Certification, host_gate, quorum_budget, canonical_option}
use cbcl_rs.Dialect.Signable.Forms.{form, option_map, segment}
use cbcl_rs.Dialect.Signable.Segments.{head_symbol}
use cbcl_rs.Dialect.Signable.State.{
  Ownership, account, collective, of_verb, of_transfer, limit, ownership_part, issuer_part,
}

-- The list does not start with a form of the head.
abbrev pub NotFirst : String → List SExpr → Type 0
NotFirst t [] = Unit
NotFirst t (e ∷ es) = head_symbol e ≢ t

abbrev pub HasHead : String → Option SExpr → Type 0
HasHead t o = (e : SExpr) → o ≡ some e → head_symbol e ≡ t

pub first_cancel :
    (t : String) (o p : Option SExpr) (r s : List SExpr)
    → HasHead t o
    → HasHead t p
    → NotFirst t r
    → NotFirst t s
    → segment o r ≡ segment p s
    → (o ≡ p) × (r ≡ s)
first_cancel t none none r s a b nr ns h = (refl, h)
first_cancel t none (some e) [] s a b nr ns h = cc h
first_cancel t none (some e) (x ∷ r) s a b nr ns h = absurd (nr (ap head_symbol (cc h) ∙ b e refl))
first_cancel t (some e) none r [] a b nr ns h = cc h
first_cancel t (some e) none r (x ∷ s) a b nr ns h = absurd (ns (ap head_symbol (cc h) ∙ a e refl))
first_cancel t (some e) (some f) r s a b nr ns h = (cc h, cc h)

pub NotFirst-segment :
    (t u : String) (o : Option SExpr) (r : List SExpr)
    → (u == t) ≡ false
    → HasHead u o
    → NotFirst t r
    → NotFirst t (segment o r)
NotFirst-segment t u none r n a nr = nr
NotFirst-segment t u (some e) r n a nr = λ q. ne_of_test u t n (sym (a e refl) ∙ q)

of_form : (t : String) (es : List SExpr) (e : SExpr) → some (form t es) ≡ some e → head_symbol e ≡ t
unfolding head_symbol
of_form t es e h = let q : form t es ≡ e = cc h in ap head_symbol (sym q)

headed :
    {t : String} {items : Items} {e : SExpr}
    → some (list (cons (atom (symbol t)) items)) ≡ some e
    → head_symbol e ≡ t
unfolding head_symbol
headed {t} {items} {e} h =
    let q : list (cons (atom (symbol t)) items) ≡ e = cc h in ap head_symbol (sym q)

pub limit_head : (t : String) (o : Option ℤ) → HasHead t (option_map (limit t) o)
limit_head t none e h = cc h
limit_head t (some n) e h = of_form t (atom (num n) ∷ []) e h

pub certification_head : (c : Certification) → HasHead "certification" (canonical_option c)
unfolding canonical_option head_symbol
certification_head host_gate e h = cc h
certification_head (quorum_budget (some validators) faults) e h = headed h
certification_head (quorum_budget none faults) e h = headed h

pub ownership_head : (o : Ownership) → HasHead "ownership" (ownership_part o)
ownership_head account e h = cc h
ownership_head collective e h = of_form "ownership" (word "collective" ∷ []) e h

pub ownership_determines : (x y : Ownership) → ownership_part x ≡ ownership_part y → x ≡ y
ownership_determines account account h = refl
ownership_determines account collective h = cc h
ownership_determines collective account h = cc h
ownership_determines collective collective h = refl

abbrev pub headroom : String → Option String → Option SExpr
headroom verb o = option_map (λ k. of_verb "initial-headroom" (verb, k)) o

pub headroom_head :
    (verb : String) (o : Option String) → HasHead "initial-headroom" (headroom verb o)
headroom_head verb none e h = cc h
headroom_head verb (some k) e h = of_form "initial-headroom" (word verb ∷ atom (keyword k) ∷ []) e h

pub headroom_determines : (v w : String) (x y : Option String) → headroom v x ≡ headroom w y → x ≡ y
headroom_determines v w none none h = refl
headroom_determines v w none (some y) h = cc h
headroom_determines v w (some x) none h = cc h
headroom_determines v w (some x) (some y) h = cc h

pub transfer_head :
    (t : String) (o : Option (String × String × String)) → HasHead t (option_map (of_transfer t) o)
transfer_head t none e h = cc h
transfer_head t (some (v, j, k)) e h =
    of_form t (word v ∷ atom (keyword j) ∷ atom (keyword k) ∷ []) e h

pub transfer_determines :
    (t : String) (x y : Option (String × String × String))
    → option_map (of_transfer t) x ≡ option_map (of_transfer t) y
    → x ≡ y
transfer_determines t none none h = refl
transfer_determines t none (some y) h = cc h
transfer_determines t (some x) none h = cc h
transfer_determines t (some (a, b, c)) (some (d, e, f)) h = cc h

pub verb_determines : (t : String) (x y : String × String) → of_verb t x ≡ of_verb t y → x ≡ y
verb_determines t (a, b) (c, d) h = cc h

pub issuer_determines : (x y : String) → issuer_part x ≡ issuer_part y → x ≡ y
issuer_determines x y h = elim (String-cases x "") [
  | inl p ↦ elim (String-cases y "") [
    | inl q ↦ p ∙ sym q
    | inr q ↦ ground (arith, h, q, p, eq_iff x "")
  ]
  | inr p ↦ elim (String-cases y "") [
    | inl q ↦ ground (arith, h, q, p, eq_iff y "")
    | inr q ↦ let e : word x ≡ word y = ground (arith, h, q, p) in cc e
  ]
]
