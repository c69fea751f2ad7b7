-- ===== src/Codecs.antt =====
-- core/src/codecs: the byte formats of the two codecs.
pub mod Aac
pub mod H264
