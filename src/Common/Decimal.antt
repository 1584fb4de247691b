-- ===== src/Common/Decimal.antt =====
-- `str(n)` of a whole number.
use Prim.Native.Nat.{ℕ, zero, suc, ◌/◌, ◌%◌}
use Prim.Native.String.{String, [], ◌∷◌, ◌++◌}
use lftpweb.Common.Tests.{ltb, if◌then◌else◌}
use lftpweb.Common.Search.{drop_chars}

abbrev first_char : String → String
first_char [] = ""
first_char (c ∷ s) = c ∷ ""

unfoldable digit : ℕ → String
unfolding drop_chars
digit n = first_char (drop_chars n "0123456789")

unfoldable decimal_from : ℕ → ℕ → String → String
unfolding digit
decimal_from zero n acc = acc
decimal_from (suc f) n acc =
    let more = decimal_from f (n / 10) (digit (n % 10) ++ acc) in
    if ltb n 10 then digit n ++ acc else more

-- `str(n)`: a number has no more digits than its value and one.
unfoldable pub decimal : ℕ → String
unfolding decimal_from
decimal n = decimal_from (suc n) n ""
