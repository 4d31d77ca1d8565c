-- ===== src/Bitstream.antt =====
-- src/gpu/bitstream_metadata.cpp: what is read from encoded packets.
pub mod Rbsp
pub mod Leb128
pub mod Reader
pub mod Golomb
pub mod Metadata
pub mod Sei
pub mod Messages
pub mod Hdr10Messages
pub mod Parser
pub mod Vui
pub mod Validation
pub mod H264
pub mod ColorRoundTrip
mod Tests
