-- ===== src/Base/Texts.antt =====
-- Texts that the program prints: concatenation and the decimal form of a number.
use Prim.Native.Nat.{ℕ, zero, suc, ◌/◌, ◌%◌}
use Prim.Native.String
use Prim.Native.String.{String, char_at}
use mathlib.Core.List.{List, [], ◌∷◌}
use cali_go_stack.Base.Tests.{ltb, if◌then◌else◌}

unfoldable pub concat : List String → String
concat [] = ""
concat (t ∷ ts) = String.◌++◌ t (concat ts)

digit : ℕ → String
digit d = String.◌∷◌ (char_at "0123456789" d) ""

-- The digits of `n`; each step divides by ten, so that `n` steps and one more are enough.
digits : (fuel n : ℕ) → String
unfolding digit
digits zero n = ""
digits (suc fuel) n =
    let rest = digits fuel (n / 10) in
    if ltb n 10 then digit n else String.◌++◌ rest (digit (n % 10))

-- fmt's "%d" of a number that is not negative.
unfoldable pub decimal : ℕ → String
unfolding digits
decimal n = digits (suc n) n
