-- ===== src/Pipeline.antt =====
-- The muxer, the tag parser and the tag decoder joined: what a packet becomes on its way.
pub mod Output
pub mod Packet
pub mod Written
pub mod History
pub mod RoundTrip
pub mod Recording
