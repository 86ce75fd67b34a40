-- ===== src/Dialect/Signable/Counters.antt =====
-- The options of a bounded counter determine it, up to the normal form of its certification
-- (crates/cbcl-core/src/escrow.rs).
use cbcl_rs.Prelude.{List, Option, String, [], false, ne_of_test, refl, ◌==◌, ◌∷◌, ◌≡◌}
use cbcl_rs.Dialect.Signable.Options.{
  NotFirst, NotFirst-segment, certification_head, first_cancel, headroom, headroom_determines,
  headroom_head, issuer_determines, limit_head, ownership_determines, ownership_head,
  transfer_determines, transfer_head, verb_determines,
}
use cbcl_rs.Sexpr.{SExpr, ℤ}
use cbcl_rs.Certification.{canonical_option}
use cbcl_rs.Dialect.Signable.Forms.{form, option_map, segment}
use cbcl_rs.Dialect.Signable.Parts.{option_map_injective}
use cbcl_rs.Dialect.Signable.Segments.{head_symbol}
use cbcl_rs.Dialect.Signable.State.{
  Ownership, account, collective, CounterRule, of_verb, of_transfer, limit, ownership_part,
  initial_name, issuer_part, canonical_options,
}

-- A bounded counter with its certification as it is written: the validators in order, and the
-- faults of a committee.
pub record CounterForm : Type 0 where
  pub ownership : Ownership
  pub certified : Option SExpr
  pub floor : ℤ
  pub ceiling : Option ℤ
  pub initial_verb : String
  pub initial_key : String
  pub headroom_key : Option String
  pub issuer : String
  pub increment : String × String
  pub decrement : String × String
  pub transfer : Option (String × String × String)
  pub transfer_headroom : Option (String × String × String)

unfoldable pub counter_form : CounterRule → CounterForm
counter_form c = record {
  ownership = c.ownership;
  certified = canonical_option c.certification;
  floor = c.floor;
  ceiling = c.ceiling;
  initial_verb = c.initial_verb;
  initial_key = c.initial_key;
  headroom_key = c.headroom_key;
  issuer = c.issuer;
  increment = c.increment;
  decrement = c.decrement;
  transfer = c.transfer;
  transfer_headroom = c.transfer_headroom;
}

not_initial :
    (t : String) (o : Ownership) (x : String × String) (r : List SExpr)
    → ("initial-rights" == t) ≡ false
    → ("initial" == t) ≡ false
    → NotFirst t (of_verb (initial_name o) x ∷ r)
unfolding head_symbol
not_initial t account (a, b) r p q = ne_of_test "initial-rights" t p
not_initial t collective (a, b) r p q = ne_of_test "initial" t q

module _ (c : CounterRule) where
  abbrev spare_transfer : List SExpr
  spare_transfer = segment (option_map (of_transfer "transfer-headroom") c.transfer_headroom) []

  abbrev transfers : List SExpr
  transfers =
      segment (option_map (of_transfer "transfer") c.transfer)
        (segment (option_map (of_transfer "transfer-headroom") c.transfer_headroom) [])

  abbrev from_issuers : List SExpr
  from_issuers =
      form "issuers" (issuer_part c.issuer ∷ [])
      ∷ of_verb "increment" c.increment
      ∷ of_verb "decrement" c.decrement
      ∷ transfers

  abbrev from_initial : List SExpr
  from_initial =
      of_verb (initial_name c.ownership) (c.initial_verb, c.initial_key)
      ∷ segment (headroom c.initial_verb c.headroom_key) from_issuers

  abbrev from_ownership : List SExpr
  from_ownership = segment (ownership_part c.ownership) from_initial

  abbrev from_certification : List SExpr
  from_certification = segment (canonical_option c.certification) from_ownership

  no_ownership : NotFirst "ownership" from_initial
  no_ownership =
      not_initial "ownership" c.ownership (c.initial_verb, c.initial_key)
        (segment (headroom c.initial_verb c.headroom_key) from_issuers) refl refl

  no_certification : NotFirst "certification" from_ownership
  no_certification =
      NotFirst-segment "certification" "ownership" (ownership_part c.ownership) from_initial refl
        (ownership_head c.ownership)
        (not_initial "certification" c.ownership (c.initial_verb, c.initial_key)
          (segment (headroom c.initial_verb c.headroom_key) from_issuers) refl refl)

  no_ceiling : NotFirst "ceiling" from_certification
  no_ceiling =
      NotFirst-segment "ceiling" "certification" (canonical_option c.certification) from_ownership
        refl (certification_head c.certification)
        (NotFirst-segment "ceiling" "ownership" (ownership_part c.ownership) from_initial refl
          (ownership_head c.ownership)
          (not_initial "ceiling" c.ownership (c.initial_verb, c.initial_key)
            (segment (headroom c.initial_verb c.headroom_key) from_issuers) refl refl))

  no_headroom : NotFirst "initial-headroom" from_issuers
  unfolding head_symbol
  no_headroom = ne_of_test "issuers" "initial-headroom" refl

  no_transfer : NotFirst "transfer" spare_transfer
  no_transfer =
      NotFirst-segment "transfer" "transfer-headroom"
        (option_map (of_transfer "transfer-headroom") c.transfer_headroom) [] refl
        (transfer_head "transfer-headroom" c.transfer_headroom) tt

pub counter_determines :
    (c d : CounterRule)
    → canonical_options c ≡ canonical_options d
    → counter_form c ≡ counter_form d
unfolding canonical_options counter_form
counter_determines c d h =
    let tails : segment (option_map (limit "ceiling") c.ceiling) (from_certification c)
        ≡ segment (option_map (limit "ceiling") d.ceiling) (from_certification d) =
      cc h in
    let floor : c.floor ≡ d.floor = cc h in
    let (ceiling, h1) =
      first_cancel "ceiling" _ _ (from_certification c) (from_certification d)
        (limit_head "ceiling" c.ceiling) (limit_head "ceiling" d.ceiling) (no_ceiling c)
        (no_ceiling d) tails in
    let (certified, h2) =
      first_cancel "certification" _ _ (from_ownership c) (from_ownership d)
        (certification_head c.certification) (certification_head d.certification)
        (no_certification c) (no_certification d) h1 in
    let (owned, h3) =
      first_cancel "ownership" _ _ (from_initial c) (from_initial d) (ownership_head c.ownership)
        (ownership_head d.ownership) (no_ownership c) (no_ownership d) h2 in
    let verb : c.initial_verb ≡ d.initial_verb = cc h3 in
    let key : c.initial_key ≡ d.initial_key = cc h3 in
    let (room, h4) =
      first_cancel "initial-headroom" _ _ (from_issuers c) (from_issuers d)
        (headroom_head c.initial_verb c.headroom_key) (headroom_head d.initial_verb d.headroom_key)
        (no_headroom c) (no_headroom d) (cc h3) in
    let (moved, h5) =
      first_cancel "transfer" (option_map (of_transfer "transfer") c.transfer)
        (option_map (of_transfer "transfer") d.transfer) (spare_transfer c) (spare_transfer d)
        (transfer_head "transfer" c.transfer) (transfer_head "transfer" d.transfer) (no_transfer c)
        (no_transfer d) (cc h4) in
    let (spare, h6) =
      first_cancel "transfer-headroom"
        (option_map (of_transfer "transfer-headroom") c.transfer_headroom)
        (option_map (of_transfer "transfer-headroom") d.transfer_headroom) [] []
        (transfer_head "transfer-headroom" c.transfer_headroom)
        (transfer_head "transfer-headroom" d.transfer_headroom) tt tt h5 in
    let owner = ownership_determines c.ownership d.ownership owned in
    let ceilings =
      option_map_injective (limit "ceiling") (λ x y q. cc q) c.ceiling d.ceiling ceiling in
    let rooms =
      headroom_determines c.initial_verb d.initial_verb c.headroom_key d.headroom_key room in
    let issuer = issuer_determines c.issuer d.issuer (cc h4) in
    let inc = verb_determines "increment" c.increment d.increment (cc h4) in
    let dec = verb_determines "decrement" c.decrement d.decrement (cc h4) in
    let out = transfer_determines "transfer" c.transfer d.transfer moved in
    let out_room =
      transfer_determines "transfer-headroom" c.transfer_headroom d.transfer_headroom spare in
    cc (owner, certified, floor, ceilings, verb, key, rooms, issuer, inc, dec, out, out_room)
