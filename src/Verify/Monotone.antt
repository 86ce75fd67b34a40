-- ===== src/Verify/Monotone.antt =====
-- A resolved verdict of `verify_causal` (crates/cbcl-core/src/protocol.rs) is permanent under growth
-- of the store.
use cbcl_rs.Prelude.{Option, String, some, ◌≡◌, ◌⊎◌}
use cbcl_rs.Protocol.{VerificationResult, Order, partial_cmp}
use cbcl_rs.Verify.{MessageStore, predecessor_type}
use cbcl_rs.Verify.Scan.{Extends}

-- The verdict order of the program: the second verdict knows at least as much as the first.
abbrev pub KnowsMore : Option VerificationResult → Option VerificationResult → Type 0
KnowsMore (some r) (some r') =
    (partial_cmp r r' ≡ some Order.less) ⊎ (partial_cmp r r' ≡ some Order.equal)
KnowsMore _ _ = ⊥

-- A later store that resolves at least the predecessors that an earlier one resolves.
abbrev pub Grows : MessageStore → MessageStore → String → Type 0
Grows store store' thread =
    Extends (λ h. predecessor_type store h thread) (λ h. predecessor_type store' h thread)
