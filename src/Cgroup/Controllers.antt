-- ===== src/Cgroup/Controllers.antt =====
-- Texts on cgroup controllers: the list in cgroup.controllers, and the table /proc/cgroups. Contents
-- are without a zero byte; a number of the table that `int` cannot hold is not reduced.
use dawnshell.Prelude.{
  ℕ, zero, suc, ◌+◌, ◌-◌, ◌*◌, Bool, false, ◌&&◌, ◌||◌, Option, none, some, List, [], ◌∷◌, ◌++◌,
  leb, ◌==◌, ◌!=◌, if◌then◌else◌, ◌>>=◌, codes, str_eq, length,
}

-- White space of `isspace`, and the separators of the controllers.
abbrev pub is_white : ℕ → Bool
is_white c = c == 32 || leb 9 c && leb c 13

abbrev pub is_separator : ℕ → Bool
is_separator c = c == 32 || (c == 9 || (c == 13 || c == 10))

abbrev pub token_end : List ℕ → List (List ℕ)
token_end [] = []
token_end (c ∷ token) = (c ∷ token) ∷ []

-- `strtok_r`: the tokens that are not empty, with `token` before the rest.
unfoldable pub tokens_from : (ℕ → Bool) → List ℕ → List ℕ → List (List ℕ)
tokens_from separates token [] = token_end token
tokens_from separates token (c ∷ rest) =
    if separates c
    then token_end token ++ tokens_from separates [] rest
    else tokens_from separates (token ++ c ∷ []) rest

abbrev pub tokens : (ℕ → Bool) → List ℕ → List (List ℕ)
tokens separates contents = tokens_from separates [] contents

-- `"+%s\n"` in a buffer of 96 bytes.
unfoldable pub enable_operation : List ℕ → Option (List ℕ)
enable_operation name =
    let operation = b'+' ∷ (name ++ 10 ∷ []) in
    if leb 96 (length operation) then none else some operation

unfoldable pub skip_space : List ℕ → List ℕ
skip_space [] = []
skip_space (c ∷ rest) = let later = skip_space rest in if is_white c then later else c ∷ rest

-- At most so many bytes that are not white space, and what is behind them.
unfoldable pub take_word : ℕ → List ℕ → List ℕ × List ℕ
take_word zero text = ([], text)
take_word (suc n) [] = ([], [])
take_word (suc n) (c ∷ rest) =
    let later = take_word n rest in if is_white c then ([], c ∷ rest) else (c ∷ later.0, later.1)

-- `%63s`.
unfoldable pub scan_word : List ℕ → Option (List ℕ × List ℕ)
scan_word text =
    let (word, rest) = take_word 63 (skip_space text) in
    if length word == 0 then none else some (word, rest)

abbrev pub is_decimal : ℕ → Bool
is_decimal c = leb 48 c && leb c 57

-- The digits ahead are read behind the value so far.
unfoldable pub take_digits : ℕ → List ℕ → ℕ × List ℕ
take_digits value [] = (value, [])
take_digits value (c ∷ rest) =
    let later = take_digits (value * 10 + (c - 48)) rest in
    if is_decimal c then later else (value, c ∷ rest)

unfoldable pub scan_digits : List ℕ → Option (ℕ × List ℕ)
scan_digits [] = none
scan_digits (c ∷ rest) = if is_decimal c then some (take_digits 0 (c ∷ rest)) else none

abbrev pub after_sign : List ℕ → List ℕ
after_sign [] = []
after_sign (c ∷ rest) = if c == b'-' || c == b'+' then rest else c ∷ rest

-- `%d`, less its sign.
unfoldable pub scan_int : List ℕ → Option (ℕ × List ℕ)
scan_int text = scan_digits (after_sign (skip_space text))

-- `sscanf(line, "%63s %d %d %d", …) == 4`: the name, and whether `enabled` is not 0.
unfoldable pub scan_row : List ℕ → Option (List ℕ × Bool)
scan_row line = do
  (name, rest) ← scan_word line
  (hierarchy, rest1) ← scan_int rest
  (cgroups, rest2) ← scan_int rest1
  (enabled, rest3) ← scan_int rest2
  some (name, enabled != 0)

-- The loop of `devices_controller_available` over the lines.
unfoldable pub devices_enabled : List (List ℕ) → Bool
devices_enabled [] = false
devices_enabled (line ∷ lines) =
    let later = devices_enabled lines in
    elim (scan_row line) [
      | none ↦ later
      | some (name, enabled) ↦ if str_eq name (codes "devices") then enabled else later
    ]

-- What is read of the table decides.
unfoldable pub devices_available : List ℕ → Bool
devices_available contents = devices_enabled (tokens (λ c. c == 10) contents)
