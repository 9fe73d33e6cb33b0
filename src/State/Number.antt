-- ===== src/State/Number.antt =====
-- Numbers in the state file: `parse_u64`, `parse_pid_value`, and what they and `read_state` use of
-- `strtoull`, `strtoll` and `atoi`, for a `long` of 64 bits.
use Prim.Native.Nat.{min}
use dawnshell.Prelude.{
  ℕ, zero, suc, ◌+◌, ◌-◌, ◌*◌, ◌%◌, ◌^◌, Bool, true, false, ◌&&◌, ◌||◌, Option, none, some, List,
  [], ◌∷◌, ltb, leb, ◌==◌, if◌then◌else◌, ◌>>=◌, ℤ, pos, negsuc, to_u32, to_i32,
}

abbrev pub is_space : ℕ → Bool
is_space x = x == 32 || (leb 9 x && leb x 13)

abbrev pub is_digit : ℕ → Bool
is_digit x = leb b'0' x && leb x b'9'

unfoldable pub skip_spaces : List ℕ → List ℕ
skip_spaces [] = []
skip_spaces (x ∷ xs) = if is_space x then skip_spaces xs else x ∷ xs

-- The sign, true for a minus, and what follows it.
unfoldable pub take_sign : List ℕ → Bool × List ℕ
take_sign [] = (false, [])
take_sign (x ∷ xs) =
    if x == b'-' then (true, xs) else if x == b'+' then (false, xs) else (false, x ∷ xs)

-- The digits at the head, behind those that `value` stands for, and what follows them.
unfoldable pub digits_value : ℕ → List ℕ → ℕ × List ℕ
digits_value value [] = (value, [])
digits_value value (x ∷ xs) =
    let rest = digits_value (value * 10 + (x - b'0')) xs in
    if is_digit x then rest else (value, x ∷ xs)

abbrev pub starts_with_digit : List ℕ → Bool
starts_with_digit [] = false
starts_with_digit (x ∷ xs) = is_digit x

-- The sign, the digits and what follows them, `none` if there is no digit.
unfoldable pub read_number : List ℕ → Option (Bool × (ℕ × List ℕ))
read_number text =
    let (minus, digits) = take_sign (skip_spaces text) in
    if starts_with_digit digits then some (minus, digits_value 0 digits) else none

abbrev pub is_empty : List ℕ → Bool
is_empty [] = true
is_empty (x ∷ xs) = false

-- `strtoull` negates behind a minus, and fails above 64 bits.
unfoldable pub parse_u64 : List ℕ → Option ℕ
parse_u64 text = do
  (minus, (value, rest)) ← read_number text
  (if ltb value (2 ^ 64) && is_empty rest
      then some (if minus then (2 ^ 64 - value) % 2 ^ 64 else value)
      else none)

-- Up to `INT_MAX`.
unfoldable pub parse_pid_value : List ℕ → Option ℕ
parse_pid_value text = do value ← parse_u64 text; (if ltb value (2 ^ 31) then some value else none)

abbrev pub negate : ℕ → ℤ
negate zero = pos 0
negate (suc n) = negsuc n

-- The nearest value of 64 bits, 0 without a digit.
unfoldable pub strtoll : List ℕ → ℤ
strtoll text = elim (read_number text) [
  | none ↦ pos 0
  | some (minus, (value, rest)) ↦
      if minus then negate (min value (2 ^ 63)) else pos (min value (2 ^ 63 - 1))
]

unfoldable pub atoi : List ℕ → ℤ
atoi text = to_i32 (to_u32 (strtoll text))
