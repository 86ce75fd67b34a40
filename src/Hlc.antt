-- ===== src/Hlc.antt =====
-- Hybrid logical clocks (crates/cbcl-core/src/hlc.rs). A u64 or a u32 is a number with its bound
-- written out, a text is the list of its bytes.
pub mod Order
pub mod Digits
pub mod Text
mod Tests
use cbcl_rs.Prelude.{
  Bool, List, Option, [], all, drop, eqb, false, get_elem?, if◌then◌else◌, leb, length, ltb, max,
  none, some, suc, take, true, zero, ℕ, ◌%◌, ◌&&◌, ◌*◌, ◌+◌, ◌-◌, ◌/◌, ◌||◌, ◌∷◌,
}

pub record Hlc : Type 0 where
  pub physical_ms : ℕ
  pub logical : ℕ

abbrev pub u64_max : ℕ
u64_max = 18446744073709551615

abbrev pub u32_max : ℕ
u32_max = 4294967295

abbrev pub wire_len : ℕ
wire_len = 29

-- `logical.checked_add(1)`
unfoldable pub checked_add_one : ℕ → Option ℕ
checked_add_one n = if ltb n u32_max then some (n + 1) else none

unfoldable pub physical_of : Option Hlc → ℕ
physical_of none = 0
physical_of (some r) = r.physical_ms

-- The arms of the `match` on the remote evidence, in their order.
unfoldable pub next_logical : Hlc → ℕ → Option Hlc → Option ℕ
unfolding checked_add_one
next_logical self physical (some r) =
    if eqb physical self.physical_ms && eqb physical r.physical_ms
    then checked_add_one (max self.logical r.logical)
    else if eqb physical self.physical_ms
    then checked_add_one self.logical
    else if eqb physical r.physical_ms
    then checked_add_one r.logical
    else some 0
next_logical self physical none =
    if eqb physical self.physical_ms then checked_add_one self.logical else some 0

unfoldable pub advance : Hlc → ℕ → Option Hlc → Option Hlc
unfolding next_logical physical_of
advance self now_ms remote =
    let physical = max (max self.physical_ms now_ms) (physical_of remote) in
    elim (next_logical self physical remote) [
      | none ↦ none
      | some l ↦ some (record { physical_ms = physical; logical = l })
    ]

unfoldable pub hex_digit : ℕ → ℕ
hex_digit d = if ltb d 10 then d + 48 else d + 87

-- The lowest `w` hexadecimal digits of a number, before the text `rest`.
unfoldable pub hex : ℕ → ℕ → List ℕ → List ℕ
unfolding hex_digit
hex zero n rest = rest
hex (suc w) n rest = hex w (n / 16) (hex_digit (n % 16) ∷ rest)

unfoldable pub render : Hlc → List ℕ
render h = b'h' ∷ b'l' ∷ b'c' ∷ b'-' ∷ hex 16 h.physical_ms (b'-' ∷ hex 8 h.logical [])

unfoldable pub lower_hex : ℕ → Bool
lower_hex b = (leb b'0' b && leb b b'9') || (leb b'a' b && leb b b'f')

unfoldable pub digit_value : ℕ → ℕ
digit_value b = if leb b b'9' then b - 48 else b - 87

unfoldable pub hex_value : ℕ → List ℕ → ℕ
unfolding digit_value
hex_value acc [] = acc
hex_value acc (b ∷ bs) = hex_value (acc * 16 + digit_value b) bs

-- `from_str_radix` on hexadecimal digits.
unfoldable pub from_radix : ℕ → List ℕ → Option ℕ
unfolding hex_value
from_radix bound bs = let v = hex_value 0 bs in if leb v bound then some v else none

unfoldable pub starts_with : List ℕ → List ℕ → Bool
starts_with [] bs = true
starts_with (p ∷ ps) [] = false
starts_with (p ∷ ps) (b ∷ bs) = if eqb p b then starts_with ps bs else false

abbrev pub is_byte : ℕ → Option ℕ → Bool
is_byte b none = false
is_byte b (some c) = eqb c b

abbrev pub hlc_prefix : List ℕ
hlc_prefix = b'h' ∷ b'l' ∷ b'c' ∷ b'-' ∷ []

-- The two numbers of a text whose frame has been recognised.
unfoldable pub read_fields : List ℕ → List ℕ → Option Hlc
unfolding lower_hex from_radix
read_fields physical logical =
    if all lower_hex physical && all lower_hex logical
    then elim (from_radix u64_max physical) [
      | none ↦ none
      | some p ↦ elim (from_radix u32_max logical) [
        | none ↦ none
        | some l ↦ some (record { physical_ms = p; logical = l })
      ]
    ]
    else none

unfoldable pub is_framed : List ℕ → Bool
unfolding starts_with
is_framed text =
    eqb (length text) wire_len && starts_with hlc_prefix text && is_byte b'-' (get_elem? text 20)

unfoldable pub parse : List ℕ → Option Hlc
unfolding read_fields is_framed
parse text =
    if is_framed text then read_fields (take 16 (drop 4 text)) (take 8 (drop 21 text)) else none
