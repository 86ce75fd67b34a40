-- ===== src/Hlc/Tests.antt =====
-- The clock at concrete timestamps (crates/cbcl-core/src/hlc.rs).
use cbcl_rs.Prelude.{List, [], arith, max, none, refl, some, ℕ, ◌<◌, ◌∷◌, ◌≡◌, ◌≤◌, ◌⊎◌}
use cbcl_rs.Hlc.{Hlc, advance, render, parse, physical_of, u32_max}
use cbcl_rs.Hlc.Order.{advance_lem, advance_least, Before, After, Fits}
use cbcl_rs.Hlc.Text.{parse-render}

abbrev clock : Hlc
clock = record { physical_ms = 10; logical = 3 }

abbrev remote_clock : Hlc
remote_clock = record { physical_ms = 12; logical = 7 }

abbrev next_clock : Hlc
next_clock = record { physical_ms = 12; logical = 8 }

advanced : advance clock 11 (some remote_clock) ≡ some next_clock
unfolding advance
advanced = refl

advance_lem_example :
    Before clock next_clock
    × After (some remote_clock) next_clock
    × (11 ≤ next_clock.physical_ms)
    × Fits next_clock
unfolding physical_of
advance_lem_example =
    advance_lem clock 11 (some remote_clock) next_clock advanced (omega arith) (omega arith)
      (omega arith)

advance_least_example :
    ((next : Hlc)
      → advance clock 11 (some remote_clock) ≡ some next
      → (next.physical_ms < 12) ⊎ ((next.physical_ms ≡ 12) × (next.logical ≤ 9)))
    × (advance clock 11 (some remote_clock) ≡ none → (max (max 10 11) 12 < 12) ⊎ (u32_max < 9))
unfolding physical_of
advance_least_example =
    advance_least clock 11 (some remote_clock) (record { physical_ms = 12; logical = 9 })
      (ground arith) (ground arith) (omega arith)

parse-render_example : parse (render clock) ≡ some clock
parse-render_example = parse-render clock (omega arith, omega arith)

-- "hlc-000000000000000a-00000003"
abbrev clock_text : List ℕ
clock_text =
    104 ∷ 108 ∷ 99 ∷ 45 ∷ 48 ∷ 48 ∷ 48 ∷ 48 ∷ 48 ∷ 48 ∷ 48 ∷ 48 ∷ 48 ∷ 48 ∷ 48 ∷ 48 ∷ 48 ∷ 48 ∷ 48
    ∷ 97 ∷ 45 ∷ 48 ∷ 48 ∷ 48 ∷ 48 ∷ 48 ∷ 48 ∷ 48 ∷ 51 ∷ []

clock_text-parsed : parse clock_text ≡ some clock
unfolding parse
clock_text-parsed = refl
