-- ===== src/Client/Units.antt =====
-- The access units that the client finds.
use mathlib.Core.Option.{some-injective}
use mathlib.Core.Path.{subst}
use dawnshell.Prelude.{
  ℕ, zero, suc, ◌+◌, ◌-◌, ◌≤◌, ◌<◌, ◌≡◌, refl, ◌≢◌, ◌⊎◌, inl, inr, true, false, none, some, List,
  [], ◌∷◌, arith, ltb, ◌==◌, if◌then◌else◌, Bool-cases, Option-cases, if-cases, length,
}
use dawnshell.Client.Stream.{is_aud, find_aud_from, find_aud, aud_positions}

-- What is not at `index` and not behind it.
from_next :
    (bytes : List ℕ) (index j : ℕ)
    → is_aud bytes index ≡ false
    → (index + 1 ≤ j → is_aud bytes j ≡ false)
    → index ≤ j
    → is_aud bytes j ≡ false
from_next bytes index j here behind h = elim (Bool-cases (index == j)) [
  | inl e ↦
      let same : index ≡ j = ground (arith, e) in subst (λ k. is_aud bytes k ≡ false) same here
  | inr e ↦ behind (ground (arith, e))
]

find_aud_from-IsFirst :
    (left : ℕ) (bytes : List ℕ) (index p : ℕ)
    → find_aud_from left bytes index ≡ some p
    → (index ≤ p)
      × (p + 4 < length bytes)
      × (is_aud bytes p ≡ true)
      × ((j : ℕ) → index ≤ j → j < p → is_aud bytes j ≡ false)
unfolding find_aud_from
find_aud_from-IsFirst zero bytes index p h = cc
find_aud_from-IsFirst (suc left) bytes index p h =
    let rest = find_aud_from left bytes (index + 1) in
    elim (if-cases (ltb (index + 4) (length bytes))
      (if is_aud bytes index then some index else rest) none (some p) h) [
        | inr (_, h1) ↦ cc
        | inl (inside, h1) ↦ elim (if-cases (is_aud bytes index) (some index) rest (some p) h1) [
          | inl (here, h2) ↦
              let same = some-injective index p h2 in
              (
                omega (arith, same),
                ground (arith, inside, same),
                subst (λ k. is_aud bytes k ≡ true) same here,
                λ j h3 h4. absurd (omega (arith, same, h3, h4)),
              )
          | inr (other, h2) ↦
              let (after, below, found, none_before) =
                find_aud_from-IsFirst left bytes (index + 1) p h2 in
              (
                omega (arith, after),
                below,
                found,
                λ j h3 h4. from_next bytes index j other (λ h5. none_before j h5 h4) h3,
              )
        ]
      ]

find_aud_from-IsLast :
    (left : ℕ) (bytes : List ℕ) (index j : ℕ)
    → find_aud_from left bytes index ≡ none
    → length bytes ≤ index + left
    → index ≤ j
    → j + 4 < length bytes
    → is_aud bytes j ≡ false
unfolding find_aud_from
find_aud_from-IsLast zero bytes index j h enough after below =
    absurd (omega (arith, enough, after, below))
find_aud_from-IsLast (suc left) bytes index j h enough after below =
    let rest = find_aud_from left bytes (index + 1) in
    elim (if-cases (ltb (index + 4) (length bytes))
      (if is_aud bytes index then some index else rest) none none h) [
        | inr (outside, _) ↦ absurd (ground (arith, outside))
        | inl (inside, h1) ↦ elim (if-cases (is_aud bytes index) (some index) rest none h1) [
          | inl (here, h2) ↦ cc
          | inr (other, h2) ↦
              from_next bytes index j other
                (λ h3.
                  find_aud_from-IsLast left bytes (index + 1) j h2 (omega (arith, enough)) h3 below)
                after
        ]
      ]

-- A position is that of the first delimiter from `search` on, and the next ones are sought four bytes
-- behind it; the positions end where there is no other delimiter, or no place for one.
abbrev pub IsScan : List ℕ → ℕ → ℕ → List ℕ → Type 0
IsScan bytes left search [] =
    (left ≡ 0) ⊎ ((j : ℕ) → search ≤ j → j + 4 < length bytes → is_aud bytes j ≡ false)
IsScan bytes left search (p ∷ ps) =
    (search ≤ p)
    × (p + 4 < length bytes)
    × (is_aud bytes p ≡ true)
    × ((j : ℕ) → search ≤ j → j < p → is_aud bytes j ≡ false)
    × (left ≢ 0)
    × IsScan bytes (left - 1) (p + 4) ps

-- The positions that the client finds are those of the access unit delimiters, in their order, none
-- left out but those that begin within the four bytes behind another, until there are no more of them
-- or as many as there is place for.
pub aud_positions-IsScan :
    (left : ℕ) (bytes : List ℕ) (search : ℕ)
    → IsScan bytes left search (aud_positions left bytes search)
unfolding aud_positions find_aud
aud_positions-IsScan zero bytes search = inl refl
aud_positions-IsScan (suc left) bytes search =
    let rounds = length bytes - search in
    elim (Option-cases (find_aud bytes search)) [
      | inl e ↦
          rw (e, aud_positions)
            (inr (λ j h h'. find_aud_from-IsLast rounds bytes search j e (omega arith) h h'))
      | inr (p, e) ↦
          let (after, below, found, none_before) = find_aud_from-IsFirst rounds bytes search p e in
          let fewer : suc left - 1 ≡ left = omega arith in
          let some_left : suc left ≢ 0 = λ z. omega (arith, z) in
          rw (e, aud_positions)
            (
              after,
              below,
              found,
              none_before,
              some_left,
              rw fewer (aud_positions-IsScan left bytes (p + 4)),
            )
    ]
