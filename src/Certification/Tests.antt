-- ===== src/Certification/Tests.antt =====
-- Tests of the committee, and instances of its theorems.
use cbcl_rs.Prelude.{
  Bool, List, String, [], any, arith, none, not, refl, some, true, ◌&&◌, ◌==◌, ◌∷◌, ◌≡◌,
}
use cbcl_rs.Certification.{
  Certification, quorum_budget, Committee, ok, err, roster, new_committee, declare, resolve,
  not_three_f_plus_one, duplicate_validator, roster_differs,
}
use cbcl_rs.Certification.Quorum.{quorums_meet}

abbrev four : List String
four = "@d" ∷ "@b" ∷ "@a" ∷ "@c" ∷ []

abbrev committee : Committee
committee = record { validators = "@a" ∷ "@b" ∷ "@c" ∷ "@d" ∷ []; faults = 1; quorum = 3 }

four_made : new_committee four none ≡ ok committee
unfolding new_committee
four_made = refl

three_keys : new_committee ("@a" ∷ "@b" ∷ "@c" ∷ []) none ≡ err not_three_f_plus_one
unfolding new_committee
three_keys = refl

double_key : new_committee ("@a" ∷ "@b" ∷ "@a" ∷ []) none ≡ err duplicate_validator
unfolding new_committee
double_key = refl

abbrev declared_four : Certification
declared_four = quorum_budget (some ("@a" ∷ "@b" ∷ "@c" ∷ "@d" ∷ [])) (some 1)

four_declared : declare (some four) none ≡ ok declared_four
unfolding declare
four_declared = refl

other_roster : resolve declared_four (some ("@a" ∷ "@b" ∷ "@c" ∷ "@e" ∷ [])) ≡ err roster_differs
unfolding resolve roster
other_roster = refl

abbrev but_a : String → Bool
but_a x = not ("@a" == x)

abbrev but_b : String → Bool
but_b x = not ("@b" == x)

abbrev only_c : String → Bool
only_c x = "@c" == x

quorums_meet_example : any (λ k. (but_a k && but_b k) && not (only_c k)) committee.validators ≡ true
quorums_meet_example =
    quorums_meet four none committee but_a but_b only_c four_made (omega arith) (omega arith)
      (omega arith)
