-- ===== src/Lib.antt =====
-- The verification library of strym-core, the streaming core under core/src: packets from an
-- encoder go through a bounded buffer and a muxer to a sink, a file or an RTMP publisher.
--
-- The parts, and the files that model them (paths of the code from the repository's root):
--   Common        lists, bytes and machine words, 64-bit signed integers, results and the
--                 state-and-error monad `Action` in which `&mut self` methods that return `Result`
--                 are written; no code of the repository.
--   Models        core/src/models.rs: `MediaPacket`, `MediaKind`, `StreamConfig`.
--   Backpressure  core/src/backpressure.rs: `BoundedBuffer`, every method.
--   Codecs        core/src/codecs/aac.rs and core/src/codecs/h264.rs: ADTS and AudioSpecificConfig,
--                 Annex-B units, length-prefixed units, the avcC record; H264/Sps has the bit reader
--                 and the dimensions in a parameter set.
--   Io            the `Write` trait as a record of operations; `vec_write` is the one of `Vec<u8>`.
--   Mux           core/src/mux.rs: `FlvMuxer` over any `Write`, with `on_metadata`.
--   Flv           core/src/flv.rs: `decode_tag`, which reads a tag back into a packet.
--   Rtmp          core/src/rtmp/mod.rs. FlvTags: `FlvTagParser`, which cuts the muxer's bytes into
--                 tags again. Chunks: `frame_message` and `ChunkReader`. Amf0 is
--                 core/src/rtmp/amf0.rs and Handshake core/src/rtmp/handshake.rs. Connect: `connect`, from
--                 the handshake to the answer to `publish`, and `shutdown`. Publisher: `RtmpTransport`
--                 while it publishes, the tags it sends, the control messages it answers and the
--                 watchdog of `maintain`.
--   Sha256        core/src/sha256.rs: the hash of the handshake.
--   Transport     core/src/transport.rs: the `Transport` trait as a record, and `Fanout`.
--   Sink          core/src/sink.rs: the `PacketSink` trait as a record, and `RecordingOutput`.
--   Engine        core/src/engine.rs: `Inner` and the methods of `Engine`; Batch has `tick` and
--                 `finish`. It drains the buffer of Backpressure into the muxer of Mux, whose sink is
--                 a Transport, and feeds the outputs of Sink.
--   Session       core/src/session.rs: `Session`, which replaces the engine's transport when it fails.
--                 `Session::tick` is `step` and `Session::finish` is `end`.
--   Hls           core/src/hls/mp4.rs in Mp4: the boxes of a segment. core/src/hls/mod.rs in the rest:
--                 Storage (`HlsStorage` as a record, the storage in memory), Samples (the timebase and
--                 the samples of a fragment), Playlist, and Output (`HlsOutput`; Close is
--                 `close_segment` with `ensure_init` and `write_playlist`, Packets the packets and the
--                 calls of `PacketSink`).
--   Telemetry     core/src/telemetry.rs: `QosRing`, `Qos` and its summary, and the filter of the log.
--   Pipeline      how `FlvMuxer`, `FlvTagParser` and `decode_tag` fit together.
--   Examples      tests on concrete inputs.
--
-- State and operations. A struct is a record, an enum a data type, and `&mut self` a state that
-- goes in and comes out; an error is a value and leaves the state as the code had changed it. `i64`
-- is a two-constructor integer whose arithmetic wraps at 64 bits (a release build), unsigned words
-- are natural numbers with the modulus written out, and a byte is a number below 256.
--
-- Loops. `FlvTagParser::feed` runs on fuel twice the length of its buffer and two more, since every
-- two rounds take a byte at least; an outcome of its own says that the fuel ran out. `read_message`
-- runs on one more than the bytes that are left, since a round takes one at least; the drain of
-- `maintain` and the wait for a command are bounded in the same way, and the drain of the engine by
-- the packets that are buffered. An AMF0 value of `n` bytes is read on fuel `2 * n + 2`, since a
-- value and its list of entries take turns and each takes bytes. The zeros of a hash's padding take
-- 63 rounds at most. The scans of H.264 run on the length of what they read, which shrinks.
--
-- Sockets. What a server sends over a connection is a finite list of bytes and the error that ends
-- it. A read that meets the end of the list comes back with that error, or, where the error is a
-- silence and `RtmpConfig::timeout` is not set, not at all, as the blocking socket of `connect_tcp`
-- does. The loops over what is received run on such a list; control messages without end, which
-- keep `read_command` going, are outside of the model.
--
-- Threads. The engine's methods hold one lock from start to end, so each is one step of its state,
-- and any interleaving of threads is a list of calls.
--
-- Parameters. A sink is any implementation of `Write`, a transport of `Transport`, an output of
-- `PacketSink`, a connection comes from any `Connector`, and time is an argument. Where a theorem
-- needs to know what a sink does, it is a vector, as in the code's tests. The jittered delay of
-- `ReconnectPolicy` is computed in floating point and is a parameter, `Backoff`, and so are the
-- decoding of UTF-8 (`lossy`), the socket's read timeout (`ReadTimeoutControl`), the arithmetic of
-- the summary (`F64`) and the calls of a telemetry sink.
--
-- Not modelled: sockets but for that, the call sites of logging and telemetry, the foreign-function
-- interface, the files of `DirStorage`, the RTMP server, the probe of the round trip, and floating
-- point but for the bit patterns of the metadata numbers, which are whole, and the durations of HLS
-- segments, which are kept in whole milliseconds.
pub mod Common
pub mod Models
pub mod Backpressure
pub mod Codecs
pub mod Io
pub mod Mux
pub mod Rtmp
pub mod Flv
pub mod Transport
pub mod Sha256
pub mod Sink
pub mod Telemetry
pub mod Engine
pub mod Session
pub mod Hls
pub mod Pipeline
mod Examples
