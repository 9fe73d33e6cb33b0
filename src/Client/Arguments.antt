-- ===== src/Client/Arguments.antt =====
-- The arguments of the client and the requests that it makes of them.
use dawnshell.Prelude.{
  ℕ, ◌&&◌, ◌||◌, Option, none, some, List, leb, if◌then◌else◌, ◌>>=◌, codes, str_eq, replicate,
}
use dawnshell.State.Number.{parse_u64}
use dawnshell.Wire.Bytes.{put_u32}

abbrev pub mode_decode : ℕ
mode_decode = 1

abbrev pub mode_encode : ℕ
mode_encode = 2

unfoldable pub parse_mode : List ℕ → Option ℕ
parse_mode value =
    if str_eq value (codes "decode")
    then some mode_decode
    else if str_eq value (codes "encode")
    then some mode_encode
    else none

abbrev pub codec_avc : ℕ
codec_avc = 1

abbrev pub codec_hevc : ℕ
codec_hevc = 2

unfoldable pub parse_codec : List ℕ → Option ℕ
parse_codec value =
    if str_eq value (codes "avc") || str_eq value (codes "h264")
    then some codec_avc
    else if str_eq value (codes "hevc") || str_eq value (codes "h265")
    then some codec_hevc
    else none

-- For an `unsigned long` of 64 bits.
unfoldable pub parse_u32 : List ℕ → ℕ → ℕ → Option ℕ
parse_u32 value minimum maximum = do
  parsed ← parse_u64 value
  (if leb minimum parsed && leb parsed maximum then some parsed else none)

-- The payload of `create_session`.
unfoldable pub create_session_payload : ℕ → ℕ → ℕ → ℕ → ℕ → ℕ → List ℕ
create_session_payload mode codec width height frame_rate bitrate =
    let b0 = put_u32 (replicate 28 0) 0 mode in
    let b1 = put_u32 b0 4 codec in
    let b2 = put_u32 b1 8 width in
    let b3 = put_u32 b2 12 height in
    let b4 = put_u32 b3 16 frame_rate in let b5 = put_u32 b4 20 bitrate in put_u32 b5 24 0

-- The payload of `create_transcode_session`.
unfoldable pub transcode_session_payload : ℕ → ℕ → ℕ → ℕ → ℕ → ℕ → List ℕ
transcode_session_payload input_codec output_codec width height frame_rate bitrate =
    let b0 = put_u32 (replicate 24 0) 0 input_codec in
    let b1 = put_u32 b0 4 output_codec in
    let b2 = put_u32 b1 8 width in
    let b3 = put_u32 b2 12 height in let b4 = put_u32 b3 16 frame_rate in put_u32 b4 20 bitrate
