-- ===== src/Wire/Header.antt =====
-- The 32-byte protocol header: `make_request_header` and the constants of
-- app/src/main/cpp/dawnshell_codec_client.c, and `write_response_header` of
-- app/src/main/cpp/dawnshell_codec_worker.c.
use dawnshell.Prelude.{ℕ, ◌++◌, ◌^◌, ◌%◌, List, ℤ, to_u32, drop, replicate, or_bit}
use dawnshell.Wire.Bytes.{put_u16, put_u32, put_u64}

abbrev pub dscb_magic : ℕ
dscb_magic = 0x44534342

abbrev pub dscb_version : ℕ
dscb_version = 1

abbrev pub dscb_response_bit : ℕ
dscb_response_bit = 0x8000

abbrev pub header_bytes : ℕ
header_bytes = 32

abbrev pub max_payload : ℕ
max_payload = 8388608

-- `memset(header, 0, 32)` on the slot that the header begins.
abbrev clear_header : List ℕ → List ℕ
clear_header slot = replicate header_bytes 0 ++ drop header_bytes slot

unfoldable pub make_request_header : List ℕ → ℕ → ℕ → ℕ → ℕ → List ℕ
make_request_header slot type session_id payload_length request_id =
    let h0 = put_u32 (clear_header slot) 0 dscb_magic in
    let h1 = put_u16 h0 4 dscb_version in
    let h2 = put_u16 h1 6 type in
    let h3 = put_u64 h2 12 session_id in
    let h4 = put_u32 h3 20 payload_length in put_u32 h4 24 request_id

unfoldable pub write_response_header : List ℕ → ℕ → ℕ → ℕ → ℕ → ℤ → List ℕ
write_response_header slot type session_id payload_length request_id status =
    let h0 = put_u32 (clear_header slot) 0 dscb_magic in
    let h1 = put_u16 h0 4 dscb_version in
    let h2 = put_u16 h1 6 (or_bit type dscb_response_bit % 2 ^ 16) in
    let h3 = put_u64 h2 12 session_id in
    let h4 = put_u32 h3 20 payload_length in
    let h5 = put_u32 h4 24 request_id in put_u32 h5 28 (to_u32 status)
