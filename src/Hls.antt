-- ===== src/Hls.antt =====
-- core/src/hls: HLS output, fragmented MP4 segments and the playlist over them.
pub mod Mp4
pub mod Storage
pub mod Samples
pub mod Playlist
pub mod Output
