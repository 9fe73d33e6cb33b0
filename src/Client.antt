-- ===== src/Client.antt =====
-- The codec client, app/src/main/cpp/dawnshell_codec_client.c: what it makes of its arguments, of a
-- video stream and of a picture.
pub mod Arguments
pub mod Stream
pub mod Picture
pub mod Agreement
pub mod Units
pub mod Interleaved
