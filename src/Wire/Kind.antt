-- ===== src/Wire/Kind.antt =====
-- The message types of the protocol, which app/src/main/cpp/dawnshell_codec_client.c and
-- app/src/main/cpp/dawnshell_codec_worker.c define alike.
use dawnshell.Prelude.{ℕ}

abbrev pub hello : ℕ
hello = 1

abbrev pub capabilities : ℕ
capabilities = 2

abbrev pub create : ℕ
create = 3

abbrev pub input : ℕ
input = 4

abbrev pub output : ℕ
output = 5

abbrev pub flush : ℕ
flush = 6

abbrev pub eos : ℕ
eos = 7

abbrev pub close : ℕ
close = 8

abbrev pub input_shared_memory : ℕ
input_shared_memory = 9

abbrev pub output_shared_memory : ℕ
output_shared_memory = 10

abbrev pub create_transcoder : ℕ
create_transcoder = 11

abbrev pub request_keyframe : ℕ
request_keyframe = 12

abbrev pub health : ℕ
health = 13

abbrev pub session_stats : ℕ
session_stats = 14
