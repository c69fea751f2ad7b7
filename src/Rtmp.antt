-- ===== src/Rtmp.antt =====
-- core/src/rtmp: the RTMP publisher.
pub mod Amf0
pub mod Handshake
pub mod FlvTags
pub mod Chunks
pub mod Publisher
pub mod Connect
