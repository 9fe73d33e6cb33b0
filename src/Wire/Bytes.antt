-- ===== src/Wire/Bytes.antt =====
-- `put_u16`, `put_u32`, `put_u64` and their readers, which app/src/main/cpp/dawnshell_codec_worker.c
-- and app/src/main/cpp/dawnshell_codec_client.c both define. `htons` and `htonl` followed by `memcpy`
-- store the high byte first on every host. A buffer is the list of its bytes and `destination + n`
-- is an offset into it.
use dawnshell.Prelude.{ℕ, ◌+◌, ◌*◌, ◌/◌, ◌%◌, ◌^◌, List, get_or, set}

unfoldable pub put_u16 : List ℕ → ℕ → ℕ → List ℕ
put_u16 buf at value = set (set buf at (value / 2 ^ 8 % 2 ^ 8)) (at + 1) (value % 2 ^ 8)

unfoldable pub put_u32 : List ℕ → ℕ → ℕ → List ℕ
put_u32 buf at value =
    let b0 = set buf at (value / 2 ^ 24 % 2 ^ 8) in
    let b1 = set b0 (at + 1) (value / 2 ^ 16 % 2 ^ 8) in
    let b2 = set b1 (at + 2) (value / 2 ^ 8 % 2 ^ 8) in set b2 (at + 3) (value % 2 ^ 8)

unfoldable pub put_u64 : List ℕ → ℕ → ℕ → List ℕ
put_u64 buf at value = put_u32 (put_u32 buf at (value / 2 ^ 32 % 2 ^ 32)) (at + 4) (value % 2 ^ 32)

unfoldable pub get_u16 : List ℕ → ℕ → ℕ
get_u16 buf at = get_or buf at 0 * 2 ^ 8 + get_or buf (at + 1) 0

unfoldable pub get_u32 : List ℕ → ℕ → ℕ
get_u32 buf at =
    get_or buf at 0 * 2 ^ 24
    + get_or buf (at + 1) 0 * 2 ^ 16
    + get_or buf (at + 2) 0 * 2 ^ 8
    + get_or buf (at + 3) 0

-- The two halves share no bit, so `|` is a sum.
unfoldable pub get_u64 : List ℕ → ℕ → ℕ
get_u64 buf at = get_u32 buf at * 2 ^ 32 + get_u32 buf (at + 4)
