-- ===== src/Tests/Client.antt =====
-- The theorems on the client at small inputs.
use dawnshell.Prelude.{ℕ, ◌≡◌, refl, some, List, [], ◌∷◌, arith, get_or}
use dawnshell.Client.Agreement.{create_args-create_session_payload}
use dawnshell.Client.Arguments.{create_session_payload}
use dawnshell.Client.Interleaved.{convert_i420_for_encoder-semiplanar}
use dawnshell.Client.Picture.{interleave, convert_i420_for_encoder}
use dawnshell.Client.Stream.{
  start_code, is_aud, find_aud_from, find_aud, aud_positions, load_access_units,
}
use dawnshell.Client.Units.{IsScan, aud_positions-IsScan}
use dawnshell.Tests.Fixtures.{desk}
use dawnshell.Worker.Session.{create_args}

create_args-create_session_payload_example :
    create_args desk (create_session_payload 2 1 1280 720 30 2000000) ≡ record {
      mode = 2;
      codec = 1;
      width = 1280;
      height = 720;
      frame_rate = 30;
      bitrate = 2000000;
      color_format = 0;
    }
create_args-create_session_payload_example =
    create_args-create_session_payload desk 2 1 1280 720 30 2000000 (omega arith) (omega arith)
      (omega arith) (omega arith) (omega arith) (omega arith)

-- Two delimiters, with a start code of three bytes and one of four.
abbrev stream : List ℕ
stream = 0 ∷ 0 ∷ 1 ∷ 9 ∷ 16 ∷ 7 ∷ 0 ∷ 0 ∷ 0 ∷ 1 ∷ 9 ∷ 16 ∷ []

stream_units : load_access_units stream 2 ≡ some (0 ∷ 6 ∷ 12 ∷ [])
unfolding load_access_units aud_positions find_aud find_aud_from is_aud start_code
stream_units = refl

aud_positions-IsScan_example : IsScan stream 1024 0 (aud_positions 1024 stream 0)
aud_positions-IsScan_example = aud_positions-IsScan 1024 stream 0

-- A picture of 4 by 2.
abbrev picture : List ℕ
picture = 1 ∷ 2 ∷ 3 ∷ 4 ∷ 5 ∷ 6 ∷ 7 ∷ 8 ∷ 10 ∷ 11 ∷ 20 ∷ 21 ∷ []

abbrev semiplanar : List ℕ
semiplanar = 1 ∷ 2 ∷ 3 ∷ 4 ∷ 5 ∷ 6 ∷ 7 ∷ 8 ∷ 10 ∷ 20 ∷ 11 ∷ 21 ∷ []

picture_converted : convert_i420_for_encoder 21 4 2 picture ≡ some semiplanar
unfolding convert_i420_for_encoder interleave
picture_converted = refl

convert_i420_for_encoder-semiplanar_example :
    (get_or semiplanar 3 0 ≡ 4) × (get_or semiplanar 10 0 ≡ 11) × (get_or semiplanar 11 0 ≡ 21)
convert_i420_for_encoder-semiplanar_example =
    convert_i420_for_encoder-semiplanar 4 2 3 1 picture semiplanar (omega arith) (omega arith)
      (omega arith) picture_converted
