-- ===== src/Hlc/Order.antt =====
-- What `advance` issues (crates/cbcl-core/src/hlc.rs).
use cbcl_rs.Prelude.{Option, arith, max, none, some, ℕ, ◌<◌, ◌≡◌, ◌≤◌, ◌⊎◌}
use cbcl_rs.Hlc.{Hlc, u64_max, u32_max, advance, physical_of}

-- The order of timestamps: physical time first.
abbrev pub Before : Hlc → Hlc → Type 0
Before a b =
    (a.physical_ms < b.physical_ms) ⊎ ((a.physical_ms ≡ b.physical_ms) × (a.logical < b.logical))

abbrev pub After : Option Hlc → Hlc → Type 0
After none b = Unit {0}
After (some r) b = Before r b

abbrev pub Fits : Hlc → Type 0
Fits h = (h.physical_ms ≤ u64_max) × (h.logical ≤ u32_max)

-- A timestamp that is issued is after the clock's own and after the remote one, not before the
-- physical time that was read, and within the fixed widths.
pub advance_lem :
    (self : Hlc) (now : ℕ) (remote : Option Hlc) (next : Hlc)
    → advance self now remote ≡ some next
    → now ≤ u64_max
    → self.physical_ms ≤ u64_max
    → physical_of remote ≤ u64_max
    → Before self next × After remote next × (now ≤ next.physical_ms) × Fits next
unfolding advance
advance_lem self now none next e b c d = ground arith
advance_lem self now (some r) next e b c d = ground arith

-- Among the timestamps that are after both and not before the physical time, the one issued is the
-- least in physical time, and the least in logical time at that physical time; when none is issued,
-- every such timestamp at the least physical time is too large for a u32.
pub advance_least :
    (self : Hlc) (now : ℕ) (remote : Option Hlc) (other : Hlc)
    → Before self other
    → After remote other
    → now ≤ other.physical_ms
    → ((next : Hlc)
        → advance self now remote ≡ some next
        → (next.physical_ms < other.physical_ms)
          ⊎ ((next.physical_ms ≡ other.physical_ms) × (next.logical ≤ other.logical)))
      × (advance self now remote ≡ none
          → (max (max self.physical_ms now) (physical_of remote) < other.physical_ms)
            ⊎ (u32_max < other.logical))
unfolding advance
advance_least self now none other p q r = (λ next e. ground arith, λ e. ground arith)
advance_least self now (some x) other p q r = (λ next e. ground arith, λ e. ground arith)
