-- ===== src/Prelude/Digits.antt =====
-- Numbers as printf writes them.
use Prim.Native.Nat.{ℕ, zero, suc, ◌+◌, ◌/◌, ◌%◌}
use mathlib.Core.List.{[], ◌∷◌, ◌++◌}
use php_flame.Prelude.Tests.{ltb, if◌then◌else◌}
use php_flame.Prelude.Lists.{Bytes}

-- A digit below 16, in lower case.
unfoldable pub digit_char : ℕ → ℕ
digit_char d = if ltb d 10 then 48 + d else 87 + d

-- At most `k` digits, those of least weight.
unfoldable pub digits_in : ℕ → ℕ → ℕ → Bytes
digits_in base zero n = []
digits_in base (suc k) n =
    let rest = digits_in base k (n / base) in
    (if ltb n base then [] else rest) ++ digit_char (n % base) ∷ []

-- `%x` of an `unsigned int`, `%d` of a number of 32 bits, and `%03d`.
abbrev pub hex : ℕ → Bytes
hex n = digits_in 16 8 n

abbrev pub decimal : ℕ → Bytes
decimal n = digits_in 10 10 n

abbrev pub decimal_3 : ℕ → Bytes
decimal_3 n =
    if ltb n 10 then 48 ∷ 48 ∷ decimal n else if ltb n 100 then 48 ∷ decimal n else decimal n

-- `%ld`, where it is not negative.
abbrev pub decimal_20 : ℕ → Bytes
decimal_20 n = digits_in 10 20 n
