-- ===== src/Media.antt =====
-- The codec sessions of app/src/main/cpp/dawnshell_codec_ndk.c over the NDK's codecs and images.
pub mod Ndk
pub mod Session
pub mod Input
pub mod Image
pub mod Rows
pub mod Pixels
pub mod Frame
pub mod Pending
pub mod Output
pub mod Control
pub mod Cases
pub mod Waiting
pub mod Pumped
pub mod Kept
pub mod Run
pub mod Order
pub mod Stamps
pub mod Ended
pub mod Increasing
pub mod Candidates
pub mod Proven
pub mod Fits
pub mod Capacity
