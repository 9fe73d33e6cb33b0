-- ===== src/Client/Stream.antt =====
-- The access units of an Annex B stream: `find_aud` and the loop of `load_access_units`.
use dawnshell.Prelude.{
  ℕ, zero, suc, ◌+◌, ◌-◌, ◌%◌, Bool, ◌&&◌, ◌||◌, Option, none, some, List, [], ◌∷◌, ◌++◌, ltb, ◌==◌,
  ◌!=◌, if◌then◌else◌, length, get_or,
}

-- The length of the start code at `index`, 0 if there is none.
unfoldable pub start_code : List ℕ → ℕ → ℕ
start_code bytes index =
    let first_two = get_or bytes index 0 == 0 && get_or bytes (index + 1) 0 == 0 in
    if first_two && get_or bytes (index + 2) 0 == 1
    then 3
    else if ltb (index + 5) (length bytes)
        && (first_two && (get_or bytes (index + 2) 0 == 0 && get_or bytes (index + 3) 0 == 1))
    then 4
    else 0

-- A start code that an access unit delimiter follows.
unfoldable pub is_aud : List ℕ → ℕ → Bool
is_aud bytes index =
    let prefix = start_code bytes index in ltb 0 prefix && get_or bytes (index + prefix) 0 % 32 == 9

-- The loop of `find_aud`, with `left` rounds at most.
unfoldable pub find_aud_from : ℕ → List ℕ → ℕ → Option ℕ
find_aud_from zero bytes index = none
find_aud_from (suc left) bytes index =
    let rest = find_aud_from left bytes (index + 1) in
    if ltb (index + 4) (length bytes) then if is_aud bytes index then some index else rest else none

unfoldable pub find_aud : List ℕ → ℕ → Option ℕ
find_aud bytes from = find_aud_from (length bytes - from) bytes from

-- The loop over the units, with `left` places left in `boundaries`.
unfoldable pub aud_positions : ℕ → List ℕ → ℕ → List ℕ
aud_positions zero bytes search = []
aud_positions (suc left) bytes search = elim (find_aud bytes search) [
  | none ↦ []
  | some aud ↦ aud ∷ aud_positions left bytes (aud + 4)
]

abbrev pub from_start : List ℕ → List ℕ
from_start [] = []
from_start (x ∷ xs) = 0 ∷ xs

-- The boundaries, the first of them 0 and the end of the stream behind them; `none` where their number
-- is not the expected one.
unfoldable pub load_access_units : List ℕ → ℕ → Option (List ℕ)
load_access_units bytes expected_frames =
    let positions = aud_positions 1024 bytes 0 in
    if length positions == 0 || length positions != expected_frames
    then none
    else some (from_start positions ++ length bytes ∷ [])
