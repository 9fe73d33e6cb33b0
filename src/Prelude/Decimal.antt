-- ===== src/Prelude/Decimal.antt =====
-- Decimal numbers as `printf` writes them. Twenty digits are enough for 64 bits.
use Prim.Native.Nat.{ℕ, zero, suc, ◌+◌, ◌/◌, ◌%◌, ◌≤◌, ◌<◌}
use mathlib.Core.Path.{◌≡◌, refl}
use mathlib.Core.List.{List, [], ◌∷◌, ◌++◌}
use native.Mathlib.Omega.{arith}
use dawnshell.Prelude.Int.{ℤ, pos, negsuc}
use dawnshell.Prelude.Tests.{ltb, if◌then◌else◌}
use dawnshell.Prelude.Lists.{length, length-append}

unfoldable pub decimal_digits : ℕ → ℕ → List ℕ
decimal_digits zero n = []
decimal_digits (suc fuel) n =
    let rest = decimal_digits fuel (n / 10) in
    if ltb n 10 then (b'0' + n) ∷ [] else rest ++ (b'0' + n % 10) ∷ []

length-decimal_digits : (fuel n : ℕ) → length (decimal_digits fuel n) ≤ fuel
unfolding decimal_digits
length-decimal_digits zero n = omega arith
length-decimal_digits (suc fuel) n = ground (
  arith,
  length-decimal_digits fuel (n / 10),
  length-append (decimal_digits fuel (n / 10)) ((b'0' + n % 10) ∷ []),
)

unfoldable pub decimal : ℕ → List ℕ
unfolding decimal_digits
decimal n = decimal_digits 20 n

pub decimal_lem : (n : ℕ) → decimal n ≡ decimal_digits 20 n
unfolding decimal
decimal_lem n = refl

pub length-decimal : (n : ℕ) → length (decimal n) ≤ 20
length-decimal n = unfold decimal in length-decimal_digits 20 n

-- A number of `suc k` digits at most.
abbrev pub HasDigits : ℕ → ℕ → Type 0
HasDigits zero n = n < 10
HasDigits (suc k) n = HasDigits k (n / 10)

length-decimal_digits-HasDigits :
    (fuel k n : ℕ) → HasDigits k n → length (decimal_digits fuel n) ≤ suc k
unfolding decimal_digits
length-decimal_digits-HasDigits zero k n h = omega arith
length-decimal_digits-HasDigits (suc fuel) zero n h = ground arith
length-decimal_digits-HasDigits (suc fuel) (suc k) n h = ground (
  arith,
  length-decimal_digits-HasDigits fuel k (n / 10) h,
  length-append (decimal_digits fuel (n / 10)) ((b'0' + n % 10) ∷ []),
)

pub length-decimal-HasDigits : (k n : ℕ) → HasDigits k n → length (decimal n) ≤ suc k
length-decimal-HasDigits k n h = unfold decimal in length-decimal_digits-HasDigits 20 k n h

-- `%d` and `%lld`.
abbrev pub decimal_ℤ : ℤ → List ℕ
decimal_ℤ (pos n) = decimal n
decimal_ℤ (negsuc n) = b'-' ∷ decimal (n + 1)

decimal_runs :
    decimal 18446744073709551615
    ≡ b'1' ∷ b'8' ∷ b'4' ∷ b'4' ∷ b'6' ∷ b'7' ∷ b'4' ∷ b'4' ∷ b'0' ∷ b'7' ∷ b'3' ∷ b'7' ∷ b'0'
      ∷ b'9' ∷ b'5' ∷ b'5' ∷ b'1' ∷ b'6' ∷ b'1' ∷ b'5' ∷ []
unfolding decimal
decimal_runs = refl
