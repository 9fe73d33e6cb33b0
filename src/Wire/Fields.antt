-- ===== src/Wire/Fields.antt =====
-- What the header fields read back as, on both sides of the transport.
use dawnshell.Prelude.{
  ℕ, ◌%◌, ◌^◌, ◌≤◌, ◌<◌, ◌≡◌, refl, List, arith, or_bit, length, drop, ℤ, to_u32, to_u32-lt,
}
use dawnshell.Wire.Bytes.{put_u16, put_u32, put_u64, get_u16, get_u32, get_u64}
use dawnshell.Wire.Header.{
  dscb_magic, dscb_version, dscb_response_bit, header_bytes, write_response_header,
}

-- Every field of a request header, and what stands behind it.
pub record RequestFields (h : List ℕ) (type session_id payload_length request_id : ℕ)
    (rest : List ℕ) : Type 0 where
  pub magic : get_u32 h 0 ≡ dscb_magic
  pub version : get_u16 h 4 ≡ dscb_version
  pub type_field : get_u16 h 6 ≡ type
  pub flags : get_u32 h 8 ≡ 0
  pub session_field : get_u64 h 12 ≡ session_id
  pub length_field : get_u32 h 20 ≡ payload_length
  pub id_field : get_u32 h 24 ≡ request_id
  pub reserved : get_u32 h 28 ≡ 0
  pub behind : drop header_bytes h ≡ rest

pub record ResponseFields (h : List ℕ) (type session_id payload_length request_id : ℕ) (status : ℤ)
    (rest : List ℕ) : Type 0 where
  pub magic : get_u32 h 0 ≡ dscb_magic
  pub version : get_u16 h 4 ≡ dscb_version
  pub type_field : get_u16 h 6 ≡ or_bit type dscb_response_bit % 2 ^ 16
  pub flags : get_u32 h 8 ≡ 0
  pub session_field : get_u64 h 12 ≡ session_id
  pub length_field : get_u32 h 20 ≡ payload_length
  pub id_field : get_u32 h 24 ≡ request_id
  pub status_field : get_u32 h 28 ≡ to_u32 status
  pub behind : drop header_bytes h ≡ rest

module _ (slot : List ℕ) (type session_id payload_length request_id : ℕ) where
  pub write_response_header-ResponseFields :
      (status : ℤ)
      → session_id < 2 ^ 64
      → payload_length < 2 ^ 32
      → request_id < 2 ^ 32
      → ResponseFields
          (write_response_header slot type session_id payload_length request_id status)
          type
          session_id
          payload_length
          request_id
          status
          (drop header_bytes slot)
  unfolding write_response_header put_u16 put_u32 put_u64 get_u16 get_u32 get_u64
  write_response_header-ResponseFields status hs hp hr = record {
    magic = refl;
    version = refl;
    type_field = omega arith;
    flags = refl;
    session_field = omega arith;
    length_field = omega arith;
    id_field = omega arith;
    status_field = omega (arith, to_u32-lt status);
    behind = refl;
  }

  pub length-write_response_header :
      (status : ℤ)
      → header_bytes
        ≤ length (write_response_header slot type session_id payload_length request_id status)
  unfolding write_response_header put_u16 put_u32 put_u64
  length-write_response_header status = omega arith
