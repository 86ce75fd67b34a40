-- ===== src/Certification.antt =====
-- The declaration of who certifies a counter, and the committee that it resolves to
-- (crates/cbcl-core/src/certification.rs), on a machine with 64-bit words. The committee has no state.
mod Sorted
pub mod Quorum
mod Tests
use cbcl_rs.Prelude.{
  Bool, List, Option, String, [], all, eqb, false, if◌then◌else◌, is_empty, keys, leb, length, none,
  not, some, true, ℕ, ◌&&◌, ◌*◌, ◌+◌, ◌-◌, ◌/◌, ◌==◌, ◌||◌, ◌∷◌,
}
use cbcl_rs.Sexpr.{SExpr, Items, num, pos, atom, list, nil, cons}
use cbcl_rs.Text.{chars_of, byte_len}
use cbcl_rs.Text.Leaf.{is_symbol_char}
use cbcl_rs.Message.Print.{word, symbols}
use cbcl_rs.Message.Args.{sort, starts_with_at}
use cbcl_rs.Hlc.{u32_max}

-- `quorum_budget` has the validators and the faults.
pub data Certification : Type 0 where
  host_gate : Certification
  quorum_budget : Option (List String) → Option ℕ → Certification

pub record Committee : Type 0 where
  pub validators : List String
  pub faults : ℕ
  pub quorum : ℕ

pub data CertificationError : Type 0 where
  empty_roster not_whole_key duplicate_validator committee_too_large not_three_f_plus_one :
      CertificationError
  host_gate_certification no_instance_roster roster_differs : CertificationError

pub data Resolved (A : Type 0) : Type 0 where
  ok : A → Resolved A
  err : CertificationError → Resolved A

unfoldable pub is_key : String → Bool
unfolding is_symbol_char
is_key k =
    starts_with_at (chars_of k) && leb 2 (byte_len (chars_of k)) && all is_symbol_char (chars_of k)

-- Two neighbours are equal.
abbrev pub has_double : List String → Bool
has_double [] = false
has_double (x ∷ []) = false
has_double (x ∷ y ∷ ys) = x == y || has_double (y ∷ ys)

unfoldable pub roster : List String → Resolved (List String)
unfolding is_key sort
roster keys =
    if is_empty keys
    then err empty_roster
    else if not (all is_key keys)
    then err not_whole_key
    else if has_double (sort keys)
    then err duplicate_validator
    else ok (sort keys)

abbrev pub fault_bound : Option ℕ → ℕ → Option ℕ
fault_bound (some f) n = some f
fault_bound none n = if leb ((n - 1) / 3) u32_max then some ((n - 1) / 3) else none

abbrev pub with_bound : List String → Option ℕ → Resolved Committee
with_bound keys none = err committee_too_large
with_bound keys (some f) =
    if eqb (f * 3 + 1) (length keys)
    then ok (record { validators = keys; faults = f; quorum = 2 * f + 1 })
    else err not_three_f_plus_one

abbrev pub with_roster : Option ℕ → Resolved (List String) → Resolved Committee
with_roster faults (ok keys) = with_bound keys (fault_bound faults (length keys))
with_roster faults (err x) = err x

unfoldable pub new_committee : List String → Option ℕ → Resolved Committee
unfolding roster
new_committee validators faults = with_roster faults (roster validators)

abbrev pub pinned : Resolved Committee → Resolved Certification
pinned (ok c) = ok (quorum_budget (some c.validators) (some c.faults))
pinned (err x) = err x

unfoldable pub declare : Option (List String) → Option ℕ → Resolved Certification
unfolding new_committee
declare (some keys) faults = pinned (new_committee keys faults)
declare none faults = ok (quorum_budget none faults)

abbrev pub checked : Resolved Committee → Option CertificationError
checked (ok c) = none
checked (err x) = some x

-- The error, if there is one.
unfoldable pub validate : Certification → Option CertificationError
unfolding new_committee
validate (quorum_budget (some keys) faults) = checked (new_committee keys faults)
validate (quorum_budget none faults) = none
validate host_gate = none

abbrev pub same_texts : List String → List String → Bool
same_texts [] [] = true
same_texts [] (y ∷ ys) = false
same_texts (x ∷ xs) [] = false
same_texts (x ∷ xs) (y ∷ ys) = x == y && same_texts xs ys

abbrev pub bound_to : Committee → Resolved (List String) → Resolved Committee
bound_to c (ok keys) = if same_texts keys c.validators then ok c else err roster_differs
bound_to c (err x) = err x

-- The committee of a declared roster, held against the roster of the instance.
abbrev pub against : Option (List String) → Resolved Committee → Resolved Committee
against none c = c
against (some bound) (ok c) = bound_to c (roster bound)
against (some bound) (err x) = err x

unfoldable pub resolve : Certification → Option (List String) → Resolved Committee
unfolding new_committee
resolve host_gate bound = err host_gate_certification
resolve (quorum_budget (some keys) faults) bound = against bound (new_committee keys faults)
resolve (quorum_budget none faults) (some bound) = new_committee bound faults
resolve (quorum_budget none faults) none = err no_instance_roster

abbrev pub is_quorum : Certification → Bool
is_quorum host_gate = false
is_quorum (quorum_budget vs fs) = true

abbrev pub faults_part : Option ℕ → Items
faults_part none = nil
faults_part (some f) = cons (list (cons (word "faults") (cons (atom (num (pos f))) nil))) nil

abbrev pub bound_of : Resolved Committee → Option ℕ
bound_of (ok c) = some c.faults
bound_of (err x) = none

unfoldable pub canonical_option : Certification → Option SExpr
unfolding new_committee sort
canonical_option host_gate = none
canonical_option (quorum_budget (some keys) faults) = some (
    list (
      cons (word "certification") (
        cons (word "quorum-budget") (
          cons (list (cons (word "validators") (symbols (sort keys))))
            (faults_part (bound_of (new_committee keys faults)))))))
canonical_option (quorum_budget none faults) =
    some (list (cons (word "certification") (cons (word "quorum-budget") (faults_part faults))))
