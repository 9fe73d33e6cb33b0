-- ===== src/Client/Agreement.antt =====
-- What the client asks for is what the worker reads.
use dawnshell.Prelude.{ℕ, ◌+◌, ◌*◌, ◌/◌, ◌%◌, ◌^◌, ◌<◌, ◌≡◌, refl, arith}
use dawnshell.Client.Arguments.{create_session_payload, transcode_session_payload}
use dawnshell.Wire.Bytes.{put_u32, get_u32}
use dawnshell.Worker.Platform.{Platform}
use dawnshell.Worker.Session.{create_args, transcode_args}

word :
    (n : ℕ)
    → n < 2 ^ 32
    → n / 2 ^ 24 % 2 ^ 8 * 2 ^ 24
        + n / 2 ^ 16 % 2 ^ 8 * 2 ^ 16
        + n / 2 ^ 8 % 2 ^ 8 * 2 ^ 8
        + n % 2 ^ 8
      ≡ n
word n h = omega (arith, h)

-- The worker reads the arguments of a session from the payload that the client makes of them, and no
-- color format, if each fits 32 bits.
pub create_args-create_session_payload :
    (P : Platform) (mode codec width height frame_rate bitrate : ℕ)
    → mode < 2 ^ 32
    → codec < 2 ^ 32
    → width < 2 ^ 32
    → height < 2 ^ 32
    → frame_rate < 2 ^ 32
    → bitrate < 2 ^ 32
    → create_args P (create_session_payload mode codec width height frame_rate bitrate) ≡ record {
      mode = mode;
      codec = codec;
      width = width;
      height = height;
      frame_rate = frame_rate;
      bitrate = bitrate;
      color_format = 0;
    }
unfolding create_session_payload put_u32 get_u32
create_args-create_session_payload P mode codec width height frame_rate bitrate h1 h2 h3 h4 h5 h6 =
    rw
      (
        word mode h1,
        word codec h2,
        word width h3,
        word height h4,
        word frame_rate h5,
        word bitrate h6,
      )
      refl

-- The same for the payload of a transcoder.
pub transcode_args-transcode_session_payload :
    (P : Platform) (input_codec output_codec width height frame_rate bitrate : ℕ)
    → input_codec < 2 ^ 32
    → output_codec < 2 ^ 32
    → width < 2 ^ 32
    → height < 2 ^ 32
    → frame_rate < 2 ^ 32
    → bitrate < 2 ^ 32
    → transcode_args P
        (transcode_session_payload input_codec output_codec width height frame_rate bitrate)
      ≡ record {
        input_codec = input_codec;
        output_codec = output_codec;
        width = width;
        height = height;
        frame_rate = frame_rate;
        bitrate = bitrate;
      }
unfolding transcode_session_payload put_u32 get_u32
transcode_args-transcode_session_payload P input_codec output_codec width height frame_rate bitrate
      h1 h2 h3 h4 h5 h6 =
    rw
      (
        word input_codec h1,
        word output_codec h2,
        word width h3,
        word height h4,
        word frame_rate h5,
        word bitrate h6,
      )
      refl
