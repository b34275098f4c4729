-- ===== src/Base/Text.antt =====
-- Text as lists of character codes, and what `sprintf` prints for `%d` at a number that is not
-- negative.
use Prim.Native.Nat.{ℕ, zero, suc, ◌+◌, ◌/◌, ◌%◌, ◌<◌}
use mathlib.Core.Path.{◌≡◌}
use mathlib.Core.List.{List, [], ◌∷◌, ◌++◌}
use multi_threaded_tic_tac_t.Base.Tests.{ltb, if◌then◌else◌, lt→ltb}

-- The digits of `n` from the highest on; a number has fewer digits than the fuel `n + 1`.
unfoldable pub decimal_digits : ℕ → ℕ → List ℕ
decimal_digits zero n = []
decimal_digits (suc fuel) n =
    let rest = decimal_digits fuel (n / 10) in
    if ltb n 10 then (b'0' + n) ∷ [] else rest ++ (b'0' + n % 10) ∷ []

unfoldable pub decimal : ℕ → List ℕ
unfolding decimal_digits
decimal n = decimal_digits (suc n) n

pub decimal_one_digit : (n : ℕ) → n < 10 → decimal n ≡ (b'0' + n) ∷ []
unfolding decimal
decimal_one_digit n h = rw (lt→ltb n 10 h)
