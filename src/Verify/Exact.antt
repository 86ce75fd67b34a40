-- ===== src/Verify/Exact.antt =====
-- When a fan-in is valid (`verify_causal` of crates/cbcl-core/src/protocol.rs).
use cbcl_rs.Prelude.{Bool, List, Option, String, all, any, contains, false, none, some, ◌&&◌, ◌==◌}
use cbcl_rs.Kernel

-- Is the type that a hash resolves to among the names?
abbrev pub is_among : List String → Option String → Bool
is_among names none = false
is_among names (some p) = contains names p

abbrev pub is_type : Option String → String → Bool
is_type none n = false
is_type (some p) n = p == n

-- Each hash resolves to a type of the clause, and each type of the clause is that of a hash.
abbrev pub covers : List String → (String → Option String) → List String → Bool
covers names f hs =
    all (λ h. is_among names (f h)) hs && all (λ n. any (λ h. is_type (f h) n) hs) names
