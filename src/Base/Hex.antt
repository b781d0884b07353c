-- ===== src/Base/Hex.antt =====
-- Hexadecimal output, `std::hex` with std::setw and std::setfill.
use Prim.Native.Nat.{ℕ, zero, suc, ◌+◌, ◌-◌, ◌/◌, ◌%◌}
use mathlib.Core.List.{[], ◌∷◌, ◌++◌}
use risc_e.Base.Tests.{ltb, if◌then◌else◌}
use risc_e.Base.Lists.{length, replicate}
use risc_e.Base.Text.{Text}

-- A hexadecimal digit, in lower case.
unfoldable pub hex_digit : ℕ → ℕ
hex_digit d = if ltb d 10 then 48 + d else 87 + d

unfoldable pub hex_from : ℕ → ℕ → Text → Text
hex_from zero n acc = acc
hex_from (suc fuel) n acc =
    let more = hex_from fuel (n / 16) (hex_digit (n % 16) ∷ acc) in
    if ltb n 16 then hex_digit n ∷ acc else more

-- `std::hex << n`.
unfoldable pub to_hex : ℕ → Text
unfolding hex_from hex_digit
to_hex n = hex_from (suc n) n []

-- `std::setw(width) << std::setfill('0')` before a text.
unfoldable pub pad : ℕ → Text → Text
pad width t = replicate (width - length t) 48 ++ t
