-- ===== src/State/Lines.antt =====
-- The lines of the state file are split where they were put together.
use mathlib.Core.List.{append-nil, append_assoc}
use dawnshell.Prelude.{
  ℕ, zero, suc, ◌+◌, ◌/◌, ◌%◌, ◌<◌, ◌≡◌, refl, sym, ap, ◌∙◌, inl, inr, Bool, true, false, ◌&&◌,
  some, List, [], ◌∷◌, ◌++◌, arith, ltb, ◌==◌, ◌!=◌, Bool-cases, decimal_digits, decimal,
  decimal_lem, decimal_ℤ, ℤ, pos, negsuc,
}
use dawnshell.State.File.{state_line, line_end, split_lines, split_equal}

-- `c` is not among the bytes.
unfoldable pub lacks : ℕ → List ℕ → Bool
lacks c [] = true
lacks c (x ∷ xs) = x != c && lacks c xs

lacks-append :
    (c : ℕ) (xs ys : List ℕ) → lacks c xs ≡ true → lacks c ys ≡ true → lacks c (xs ++ ys) ≡ true
unfolding lacks
lacks-append c [] ys h h' = h'
lacks-append c (x ∷ xs) ys h h' = ground (arith, lacks-append c xs ys)

lacks-digit : (c d : ℕ) → c < b'0' → lacks c ((b'0' + d) ∷ []) ≡ true
unfolding lacks
lacks-digit c d h = ground (arith, h)

lacks-decimal_digits : (c fuel n : ℕ) → c < b'0' → lacks c (decimal_digits fuel n) ≡ true
unfolding decimal_digits
lacks-decimal_digits c zero n h = unfold lacks in refl
lacks-decimal_digits c (suc fuel) n h = elim (Bool-cases (ltb n 10)) [
  | inl e ↦ rw (e, decimal_digits) (lacks-digit c n h)
  | inr e ↦
      rw (e, decimal_digits)
        (lacks-append c (decimal_digits fuel (n / 10)) ((b'0' + n % 10) ∷ [])
          (lacks-decimal_digits c fuel (n / 10) h) (lacks-digit c (n % 10) h))
]

pub lacks-decimal : (c n : ℕ) → c < b'0' → lacks c (decimal n) ≡ true
lacks-decimal c n h = ap (lacks c) (decimal_lem n) ∙ lacks-decimal_digits c 20 n h

pub lacks-decimal_ℤ : (z : ℤ) → lacks 10 (decimal_ℤ z) ≡ true
lacks-decimal_ℤ (pos n) = lacks-decimal 10 n (omega arith)
lacks-decimal_ℤ (negsuc n) = unfold lacks in lacks-decimal 10 (n + 1) (omega arith)

-- A name and a value are split at the first equals sign.
pub split_equal-append :
    (name value : List ℕ)
    → lacks b'=' name ≡ true
    → split_equal (name ++ b'=' ∷ value) ≡ some (name, value)
unfolding split_equal lacks
split_equal-append [] value h = refl
split_equal-append (x ∷ xs) value h =
    let other : (x == b'=') ≡ false = ground (arith, h) in
    let rest : lacks b'=' xs ≡ true = ground (arith, h) in
    rw (other, split_equal-append xs value rest) refl

-- A line is split off at its end.
split_lines-append :
    (line text rest : List ℕ)
    → lacks 10 text ≡ true
    → split_lines line (text ++ 10 ∷ rest) ≡ line_end (line ++ text) ++ split_lines [] rest
unfolding split_lines lacks
split_lines-append line [] rest h =
    ap (λ l. line_end l ++ split_lines [] rest) (sym (append-nil line))
split_lines-append line (x ∷ xs) rest h =
    let other : (x == 10) ≡ false = ground (arith, h) in
    let others : lacks 10 xs ≡ true = ground (arith, h) in
    rw other (
      split_lines-append (line ++ x ∷ []) xs rest others
      ∙ ap (λ l. line_end l ++ split_lines [] rest) (append_assoc line (x ∷ []) xs))

lacks-value : (value : List ℕ) → lacks 10 value ≡ true → lacks 10 (b'=' ∷ value) ≡ true
unfolding lacks
lacks-value value h = h

line_end-append :
    (name value : List ℕ) → line_end (name ++ b'=' ∷ value) ≡ (name ++ b'=' ∷ value) ∷ []
line_end-append [] value = refl
line_end-append (x ∷ xs) value = refl

-- One line of the file, behind which the rest is split.
pub split_lines-state_line :
    (name value rest : List ℕ)
    → lacks 10 name ≡ true
    → lacks 10 value ≡ true
    → split_lines [] (state_line name value ++ rest) ≡ (name ++ b'=' ∷ value) ∷ split_lines [] rest
unfolding state_line
split_lines-state_line name value rest h h' =
    let text = name ++ b'=' ∷ value in
    let whole : state_line name value ++ rest ≡ text ++ 10 ∷ rest =
      append_assoc name (b'=' ∷ value ++ 10 ∷ []) rest
      ∙ ap (λ t. name ++ b'=' ∷ t) (append_assoc value (10 ∷ []) rest)
      ∙ sym (append_assoc name (b'=' ∷ value) (10 ∷ rest)) in
    ap (split_lines []) whole
    ∙ split_lines-append [] text rest (lacks-append 10 name (b'=' ∷ value) h (lacks-value value h'))
    ∙ ap (λ l. l ++ split_lines [] rest) (line_end-append name value)
