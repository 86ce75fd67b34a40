-- ===== src/Protocol/Lattice.antt =====
-- The laws of `meet` and `join` (crates/cbcl-core/src/protocol.rs) on verdict classes, that is, with
-- the diagnostics forgotten.
use cbcl_rs.Prelude.{arith, if◌then◌else◌, leb, some, ℕ, ◌≡◌, ◌⊎◌}
use cbcl_rs.Protocol.{VerificationResult, unknown, valid, violation, meet, join, partial_cmp, Order}

-- The place of a verdict in the truth order: Violation < Unknown < Valid.
abbrev pub rank : VerificationResult → ℕ
rank (violation v) = 0
rank unknown = 1
rank valid = 2

abbrev pub min_rank : ℕ → ℕ → ℕ
min_rank a b = if leb a b then a else b

abbrev pub max_rank : ℕ → ℕ → ℕ
max_rank a b = if leb a b then b else a

-- meet is the least and join the greatest verdict in the truth order, and a diagnostic of the
-- result is one of an argument.
pub meet-join-rank :
    (a b : VerificationResult)
    → (rank (meet a b) ≡ min_rank (rank a) (rank b))
      × (rank (join a b) ≡ max_rank (rank a) (rank b))
      × ((meet a b ≡ a) ⊎ (meet a b ≡ b))
      × ((join a b ≡ a) ⊎ (join a b ≡ b))
unfolding meet join
meet-join-rank (violation v) (violation w) = ground arith
meet-join-rank (violation v) unknown = ground arith
meet-join-rank (violation v) valid = ground arith
meet-join-rank unknown (violation w) = ground arith
meet-join-rank unknown unknown = ground arith
meet-join-rank unknown valid = ground arith
meet-join-rank valid (violation w) = ground arith
meet-join-rank valid unknown = ground arith
meet-join-rank valid valid = ground arith

-- The knowledge order.
abbrev pub Below : VerificationResult → VerificationResult → Type 0
Below r r' = (partial_cmp r r' ≡ some Order.less) ⊎ (partial_cmp r r' ≡ some Order.equal)

-- meet and join are monotone in the knowledge order, in both arguments.
pub meet-join_monotone :
    (a a' b b' : VerificationResult)
    → Below a a'
    → Below b b'
    → Below (meet a b) (meet a' b') × Below (join a b) (join a' b')
unfolding meet join partial_cmp
meet-join_monotone unknown a' unknown b' h k = ground arith
meet-join_monotone unknown a' valid b' h k = ground arith
meet-join_monotone unknown a' (violation v) b' h k = ground arith
meet-join_monotone valid a' unknown b' h k = ground arith
meet-join_monotone valid a' valid b' h k = ground arith
meet-join_monotone valid a' (violation v) b' h k = ground arith
meet-join_monotone (violation v) a' unknown b' h k = ground arith
meet-join_monotone (violation v) a' valid b' h k = ground arith
meet-join_monotone (violation v) a' (violation w) b' h k = ground arith
