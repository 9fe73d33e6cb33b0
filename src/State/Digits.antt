-- ===== src/State/Digits.antt =====
-- A number that was written in decimal is read back.
use Prim.Native.Nat.{min}
use mathlib.Core.List.{append-nil, append_assoc}
use dawnshell.Prelude.{
  ℕ, zero, suc, ◌+◌, ◌-◌, ◌*◌, ◌/◌, ◌%◌, ◌^◌, ◌<◌, ◌≡◌, refl, sym, ap, ◌∙◌, inl, inr, true, false,
  some, List, [], ◌∷◌, ◌++◌, arith, ltb, ◌==◌, ltb→lt, lt→ltb, Bool-cases, decimal_digits, decimal,
  decimal_lem, decimal_ℤ, ℤ, pos, negsuc, to_u32, to_i32, IsI32, to_i32-to_u32,
}
use dawnshell.State.Number.{
  is_space, is_digit, skip_spaces, take_sign, digits_value, starts_with_digit, read_number,
  parse_u64, parse_pid_value, negate, strtoll, atoi,
}

digit-IsDigit : (d : ℕ) → d < 10 → is_digit (b'0' + d) ≡ true
digit-IsDigit d h = ground arith

digits_value-digit :
    (value d : ℕ) (rest : List ℕ)
    → d < 10
    → digits_value value ((b'0' + d) ∷ rest) ≡ digits_value (value * 10 + d) rest
unfolding digits_value
digits_value-digit value d rest h =
    let same_digit : b'0' + d - b'0' ≡ d = omega arith in
    rw (digit-IsDigit d h) (ap (λ k. digits_value (value * 10 + k) rest) same_digit)

digits_value-decimal_digits :
    (fuel n : ℕ) (rest : List ℕ)
    → n < 10 ^ fuel
    → digits_value 0 (decimal_digits fuel n ++ rest) ≡ digits_value n rest
unfolding decimal_digits
digits_value-decimal_digits zero n rest h =
    let nothing : 0 ≡ n = omega (arith, h) in ap (λ k. digits_value k rest) nothing
digits_value-decimal_digits (suc fuel) n rest h = elim (Bool-cases (ltb n 10)) [
  | inl e ↦
      let alone : 0 * 10 + n ≡ n = omega arith in
      rw (e, decimal_digits)
        (digits_value-digit 0 n rest (ltb→lt n 10 e) ∙ ap (λ k. digits_value k rest) alone)
  | inr e ↦
      let last = (b'0' + n % 10) ∷ [] in
      let shorter : n / 10 < 10 ^ fuel = omega (arith, h) in
      let whole : n / 10 * 10 + n % 10 ≡ n = omega arith in
      rw (e, decimal_digits)
        (ap (λ t. digits_value 0 t) (append_assoc (decimal_digits fuel (n / 10)) last rest)
          ∙ digits_value-decimal_digits fuel (n / 10) (last ++ rest) shorter
          ∙ digits_value-digit (n / 10) (n % 10) rest (omega arith)
          ∙ ap (λ k. digits_value k rest) whole)
]

starts-append : (xs ys : List ℕ) → starts_with_digit xs ≡ true → starts_with_digit (xs ++ ys) ≡ true
starts-append [] ys h = cc
starts-append (x ∷ xs) ys h = h

starts-decimal_digits :
    (fuel n : ℕ) → n < 10 ^ suc fuel → starts_with_digit (decimal_digits (suc fuel) n) ≡ true
unfolding decimal_digits
starts-decimal_digits zero n h =
    let small : ltb n 10 ≡ true = ground (arith, h) in
    rw (small, decimal_digits) (digit-IsDigit n (ltb→lt n 10 small))
starts-decimal_digits (suc fuel) n h = elim (Bool-cases (ltb n 10)) [
  | inl e ↦ rw (e, decimal_digits) (digit-IsDigit n (ltb→lt n 10 e))
  | inr e ↦
      let shorter : n / 10 < 10 ^ suc fuel = omega (arith, h) in
      rw (e, decimal_digits)
        (starts-append (decimal_digits (suc fuel) (n / 10)) ((b'0' + n % 10) ∷ [])
          (starts-decimal_digits fuel (n / 10) shorter))
]

read_number-digits :
    (text : List ℕ)
    → starts_with_digit text ≡ true
    → read_number text ≡ some (false, digits_value 0 text)
unfolding read_number skip_spaces take_sign
read_number-digits [] h = cc
read_number-digits (x ∷ xs) h =
    let no_space : is_space x ≡ false = ground (arith, h) in
    let no_minus : (x == b'-') ≡ false = ground (arith, h) in
    let no_plus : (x == b'+') ≡ false = ground (arith, h) in
    rw (no_space, no_minus, no_plus, h) refl

read_number-minus :
    (text : List ℕ)
    → starts_with_digit text ≡ true
    → read_number (b'-' ∷ text) ≡ some (true, digits_value 0 text)
unfolding read_number skip_spaces take_sign
read_number-minus text h = rw h refl

-- Numbers that fit 20 digits.
decimal_value : (n : ℕ) → n < 10 ^ 20 → digits_value 0 (decimal n) ≡ (n, [])
unfolding digits_value
decimal_value n h =
    ap (λ t. digits_value 0 t) (decimal_lem n ∙ sym (append-nil (decimal_digits 20 n)))
    ∙ digits_value-decimal_digits 20 n [] h

starts-decimal : (n : ℕ) → n < 10 ^ 20 → starts_with_digit (decimal n) ≡ true
starts-decimal n h = ap starts_with_digit (decimal_lem n) ∙ starts-decimal_digits 19 n h

pub read_number-decimal : (n : ℕ) → n < 10 ^ 20 → read_number (decimal n) ≡ some (false, (n, []))
read_number-decimal n h =
    read_number-digits (decimal n) (starts-decimal n h)
    ∙ ap (λ p. some (false, p)) (decimal_value n h)

read_number-negative : (n : ℕ) → n < 10 ^ 20 → read_number (b'-' ∷ decimal n) ≡ some (true, (n, []))
read_number-negative n h =
    read_number-minus (decimal n) (starts-decimal n h)
    ∙ ap (λ p. some (true, p)) (decimal_value n h)

pub parse_u64-decimal : (n : ℕ) → n < 2 ^ 64 → parse_u64 (decimal n) ≡ some n
unfolding parse_u64
parse_u64-decimal n h =
    let small : ltb n (2 ^ 64) ≡ true = lt→ltb n (2 ^ 64) h in
    rw (read_number-decimal n (omega (arith, h)), small) refl

pub parse_pid_value-decimal : (n : ℕ) → n < 2 ^ 31 → parse_pid_value (decimal n) ≡ some n
unfolding parse_pid_value
parse_pid_value-decimal n h = rw (parse_u64-decimal n (omega (arith, h)), lt→ltb n (2 ^ 31) h) refl

-- The values of `int64_t`.
abbrev pub IsI64 : ℤ → Type 0
IsI64 (pos n) = n < 2 ^ 63
IsI64 (negsuc n) = n < 2 ^ 63

pub strtoll-decimal_ℤ : (z : ℤ) → IsI64 z → strtoll (decimal_ℤ z) ≡ z
unfolding strtoll
strtoll-decimal_ℤ (pos n) h =
    let inside : min n (2 ^ 63 - 1) ≡ n = omega (arith, h) in
    rw (read_number-decimal n (omega (arith, h)), strtoll) (ap pos inside)
strtoll-decimal_ℤ (negsuc n) h =
    let inside : min (n + 1) (2 ^ 63) ≡ suc n = omega (arith, h) in
    rw (read_number-negative (n + 1) (omega (arith, h)), strtoll) (ap negate inside)

wide : (z : ℤ) → IsI32 z → IsI64 z
wide (pos n) h = omega (arith, h)
wide (negsuc n) h = omega (arith, h)

pub atoi-decimal_ℤ : (z : ℤ) → IsI32 z → atoi (decimal_ℤ z) ≡ z
unfolding atoi
atoi-decimal_ℤ z h =
    ap (λ y. to_i32 (to_u32 y)) (strtoll-decimal_ℤ z (wide z h)) ∙ to_i32-to_u32 z h
