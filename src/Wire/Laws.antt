-- ===== src/Wire/Laws.antt =====
-- What a `get` reads from a buffer that the matching `put` has written.
use dawnshell.Prelude.{
  ℕ, ◌+◌, ◌/◌, ◌%◌, ◌^◌, ◌≤◌, ◌<◌, ◌≡◌, List, length, get_or, get_or-set_self, get_or-set_ne,
  length-set, arith, ◌⊎◌, inr,
}
use dawnshell.Wire.Bytes.{put_u16, put_u32, put_u64, get_u16, get_u32, get_u64}

pub length-put_u32 : (buf : List ℕ) (at v : ℕ) → length (put_u32 buf at v) ≡ length buf
unfolding put_u32
length-put_u32 buf at v = simp length-set

put_u32_bytes :
    (buf : List ℕ) (at v : ℕ)
    → at + 4 ≤ length buf
    → (get_or (put_u32 buf at v) at 0 ≡ v / 2 ^ 24 % 2 ^ 8)
      × (get_or (put_u32 buf at v) (at + 1) 0 ≡ v / 2 ^ 16 % 2 ^ 8)
      × (get_or (put_u32 buf at v) (at + 2) 0 ≡ v / 2 ^ 8 % 2 ^ 8)
      × (get_or (put_u32 buf at v) (at + 3) 0 ≡ v % 2 ^ 8)
unfolding put_u32
put_u32_bytes buf at v h = grind (arith, get_or-set_self, get_or-set_ne, length-set)

pub get_u32-put_u32 :
    (buf : List ℕ) (at v : ℕ) → at + 4 ≤ length buf → v < 2 ^ 32 → get_u32 (put_u32 buf at v) at ≡ v
unfolding get_u32
get_u32-put_u32 buf at v h lt = omega (arith, put_u32_bytes buf at v h)

pub get_u32-put_u32_ne :
    (buf : List ℕ) (at to v : ℕ)
    → (at + 4 ≤ to) ⊎ (to + 4 ≤ at)
    → get_u32 (put_u32 buf at v) to ≡ get_u32 buf to
unfolding get_u32 put_u32
get_u32-put_u32_ne buf at to v h = grind (arith, get_or-set_ne)

pub get_u16-put_u16 :
    (buf : List ℕ) (at v : ℕ) → at + 2 ≤ length buf → v < 2 ^ 16 → get_u16 (put_u16 buf at v) at ≡ v
unfolding get_u16 put_u16
get_u16-put_u16 buf at v h lt = grind (arith, get_or-set_self, get_or-set_ne, length-set)

-- A 64-bit word that is written where eight bytes are left is read back.
pub get_u64-put_u64 :
    (buf : List ℕ) (at v : ℕ) → at + 8 ≤ length buf → v < 2 ^ 64 → get_u64 (put_u64 buf at v) at ≡ v
unfolding get_u64 put_u64
get_u64-put_u64 buf at v h lt =
    let hi = v / 2 ^ 32 % 2 ^ 32 in
    let lo = v % 2 ^ 32 in
    let first = put_u32 buf at hi in
    omega (
      arith,
      length-put_u32 buf at hi,
      get_u32-put_u32 first (at + 4) lo (omega (arith, length-put_u32 buf at hi)) (omega arith),
      get_u32-put_u32_ne first (at + 4) at lo (inr (omega arith)),
      get_u32-put_u32 buf at hi (omega arith) (omega arith),
    )
