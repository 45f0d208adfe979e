-- ===== src/Prelude/Text.antt =====
-- `write!` of texts and numbers.
use Prim.Native.Nat.{ℕ, zero, suc, ◌+◌, ◌/◌, ◌%◌}
pub use Prim.Native.String.{String, ◌++◌ as ◌<>◌}
use bluesdp.Prelude.Tests.{◌==◌, ltb, if◌then◌else◌}

abbrev digit : ℕ → String
digit d =
    if d == 0
    then "0"
    else if d == 1
    then "1"
    else if d == 2
    then "2"
    else if d == 3
    then "3"
    else if d == 4
    then "4"
    else if d == 5
    then "5"
    else if d == 6
    then "6"
    else if d == 7
    then "7"
    else if d == 8
    then "8"
    else "9"

decimal_loop : ℕ → ℕ → String
decimal_loop zero n = ""
decimal_loop (suc fuel) n =
    let front = decimal_loop fuel (n / 10) in
    let back = digit (n % 10) in if ltb n 10 then digit n else front <> back

-- The decimal digits of a number, which has fewer than `n + 1`.
unfoldable pub decimal : ℕ → String
unfolding decimal_loop
decimal n = decimal_loop (n + 1) n
