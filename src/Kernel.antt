-- ===== src/Kernel.antt =====
-- The causal decisions (crates/cbcl-core/src/causal_kernel.rs).
use cbcl_rs.Prelude.{Bool, false, if◌then◌else◌, true}

pub data Lookup : Type 0 where
  missing allowed wrong : Lookup

pub data FanIn : Type 0 where
  clear missing wrong : FanIn

pub data Decision : Type 0 where
  valid unknown missing_caused_by invalid_predecessor extraneous_predecessor : Decision
  fan_in_without_all_decl incomplete_fan_in : Decision

unfoldable pub absent : Bool → Decision
absent has_predecessors = if has_predecessors then Decision.missing_caused_by else Decision.valid

unfoldable pub literal_begin : Bool → Decision
literal_begin is_allowed = if is_allowed then Decision.valid else Decision.invalid_predecessor

unfoldable pub single : Bool → Lookup → Decision
single has_predecessors Lookup.missing = Decision.unknown
single has_predecessors Lookup.allowed = Decision.valid
single has_predecessors Lookup.wrong =
    if has_predecessors then Decision.invalid_predecessor else Decision.extraneous_predecessor

unfoldable pub observe : FanIn → Lookup → FanIn
observe FanIn.wrong _ = FanIn.wrong
observe _ Lookup.wrong = FanIn.wrong
observe FanIn.missing _ = FanIn.missing
observe _ Lookup.missing = FanIn.missing
observe FanIn.clear Lookup.allowed = FanIn.clear

unfoldable pub finish : Bool → FanIn → Bool → Decision
finish false _ _ = Decision.fan_in_without_all_decl
finish true FanIn.wrong _ = Decision.invalid_predecessor
finish true FanIn.missing _ = Decision.unknown
finish true FanIn.clear complete = if complete then Decision.valid else Decision.incomplete_fan_in
