-- ===== src/Examples.antt =====
-- Runs of the definitions, and the theorems at concrete inputs.
mod Buffer
mod Media
mod Wire
mod Chunks
mod Live
mod Publish
mod Amf0
mod Handshake
mod Connect
mod Telemetry
mod Hls
