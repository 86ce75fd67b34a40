-- ===== src/Message/Heads.antt =====
-- The head of a message (crates/cbcl-core/src/message.rs): what the printing writes of a performative
-- is read as that performative.
use cbcl_rs.Prelude.{
  Bool, Option, String, and_both, ap, arith, false, none, not, refl, some, true, ◌&&◌, ◌==◌, ◌||◌,
  ◌≡◌, ◌≢◌,
}
use cbcl_rs.Message.{
  CorePerformative, tell, ask, reply, error, cancel, hello, bye, Performative, core, custom, name,
  as_str,
}
use cbcl_rs.Message.Args.{
  Recognised, ok, core_parse, wrapper_parse, LangScope, unscoped, scoped, lax,
}
use cbcl_rs.Message.Parse.{head_of}

abbrev pub is_unscoped : LangScope → Bool
is_unscoped unscoped = true
is_unscoped _ = false

abbrev pub is_none {ℓ} : {A : Type ℓ} → Option A → Bool
is_none none = true
is_none (some _) = false

-- A head that no other form of message has.
abbrev pub is_head : String → Bool
is_head s = not (s == "meta" || s == "lang") && is_none (wrapper_parse s)

-- A performative that the scope admits.
abbrev pub is_performative : Performative → LangScope → Bool
is_performative (core c) place = true
is_performative (custom s) place = is_none (core_parse s) && is_head s && not (is_unscoped place)

pub is_none→none {ℓ} : {A : Type ℓ} (o : Option A) → is_none o ≡ true → o ≡ none
is_none→none none h = refl
is_none→none (some a) h = absurd (ground arith)

custom_parts :
    (s : String) (place : LangScope)
    → is_performative (custom s) place ≡ true
    → (is_none (core_parse s) ≡ true) × (is_head s ≡ true)
custom_parts s place h =
    and_both (is_none (core_parse s)) (is_head s)
      (and_both (is_none (core_parse s) && is_head s) (not (is_unscoped place)) h).0

unscoped_core : (s : String) → is_performative (custom s) unscoped ≢ true
unscoped_core s h =
    absurd (ground (arith, (and_both (is_none (core_parse s) && is_head s) false h).1))

custom_head :
    (s : String) (place : LangScope)
    → is_performative (custom s) place ≡ true
    → head_of s place ≡ ok (custom s)
custom_head s unscoped h = absurd (unscoped_core s h)
custom_head s scoped h =
    ap
      (λ o. elim o as (λ _. Recognised Performative) [
        | some c ↦ ok (core c)
        | none ↦ ok (custom s)
      ])
      (is_none→none (core_parse s) (custom_parts s scoped h).0)
custom_head s lax h =
    ap
      (λ o. elim o as (λ _. Recognised Performative) [
        | some c ↦ ok (core c)
        | none ↦ ok (custom s)
      ])
      (is_none→none (core_parse s) (custom_parts s lax h).0)

core_head :
    (c : CorePerformative) (place : LangScope)
    → (is_head (as_str c) ≡ true) × (head_of (as_str c) place ≡ ok (core c))
unfolding core_parse wrapper_parse
core_head tell place = (refl, refl)
core_head ask place = (refl, refl)
core_head reply place = (refl, refl)
core_head error place = (refl, refl)
core_head CorePerformative.ok place = (refl, refl)
core_head cancel place = (refl, refl)
core_head hello place = (refl, refl)
core_head bye place = (refl, refl)

pub head_of-name :
    (p : Performative) (place : LangScope)
    → is_performative p place ≡ true
    → (is_head (name p) ≡ true) × (head_of (name p) place ≡ ok p)
head_of-name (core c) place h = core_head c place
head_of-name (custom s) place h = ((custom_parts s place h).1, custom_head s place h)
