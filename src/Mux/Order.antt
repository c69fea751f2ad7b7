-- ===== src/Mux/Order.antt =====
-- Timestamps: each track's high-water mark never falls, and what is refused.
use strym_core.Common.{ℕ, ◌≡◌, arith, Bytes}
use strym_core.Common.Int.{ℤ, ◌≤ℤ◌}
use strym_core.Io.{Write}
use strym_core.Models.{MediaKind, MediaPacket}
use strym_core.Mux.{
  FlvMuxer, get_dts, set_dts, sink_write, ensure_header, write_tag, write_video_sequence,
  write_audio_sequence, sniff_video, sniff_audio, normalize, order, write_media, before_media,
  write_timed, write_packet,
}

module _ {W : Type 0} (w : Write W) where
  -- What the writing steps leave alone.
  abbrev pub Keeps : FlvMuxer W → FlvMuxer W → Type 0
  Keeps m n = (n.origin ≡ m.origin) × (n.last_dts ≡ m.last_dts)

  sink_write-Keeps : (b : Bytes) (m : FlvMuxer W) → Keeps m (sink_write w b m).1
  unfolding sink_write
  sink_write-Keeps b m = ground arith

  ensure_header-Keeps : (m : FlvMuxer W) → Keeps m (ensure_header w m).1
  unfolding ensure_header sink_write
  ensure_header-Keeps m = ground arith

  write_tag-Keeps : (k : ℕ) (ts : ℤ) (b : Bytes) (m : FlvMuxer W) → Keeps m (write_tag w k ts b m).1
  unfolding write_tag sink_write
  write_tag-Keeps k ts b m = ground arith

  write_video_sequence-Keeps : (b : Bytes) (m : FlvMuxer W) → Keeps m (write_video_sequence w b m).1
  unfolding write_video_sequence
  write_video_sequence-Keeps b m = grind (arith, ensure_header-Keeps, write_tag-Keeps)

  write_audio_sequence-Keeps : (b : Bytes) (m : FlvMuxer W) → Keeps m (write_audio_sequence w b m).1
  unfolding write_audio_sequence
  write_audio_sequence-Keeps b m = grind (arith, ensure_header-Keeps, write_tag-Keeps)

  sniff_video-Keeps : (pkt : MediaPacket) (m : FlvMuxer W) → Keeps m (sniff_video w pkt m).1
  unfolding sniff_video
  sniff_video-Keeps pkt m = grind (arith, write_video_sequence-Keeps)

  sniff_audio-Keeps : (pkt : MediaPacket) (m : FlvMuxer W) → Keeps m (sniff_audio w pkt m).1
  unfolding sniff_audio
  sniff_audio-Keeps pkt m = grind (arith, write_audio_sequence-Keeps)

  write_media-Keeps :
      (pkt : MediaPacket) (ts cts : ℤ) (m : FlvMuxer W) → Keeps m (write_media w pkt ts cts m).1
  unfolding write_media
  write_media-Keeps pkt ts cts m = grind (arith, write_tag-Keeps)

  pub before_media-Keeps : (pkt : MediaPacket) (m : FlvMuxer W) → Keeps m (before_media w pkt m).1
  unfolding before_media
  before_media-Keeps pkt m =
      grind (arith, ensure_header-Keeps, sniff_video-Keeps, sniff_audio-Keeps)

  timed_marks :
      (pkt : MediaPacket) (m : FlvMuxer W) (kind : MediaKind)
      → get_dts m.last_dts kind ≤ℤ get_dts (write_timed w pkt m).1.last_dts kind
  unfolding write_timed normalize order get_dts set_dts
  timed_marks pkt m kind = grind (arith, write_media-Keeps)

  -- Whatever the outcome of `write_packet`, no track's high-water mark falls.
  pub write_packet_marks :
      (pkt : MediaPacket) (m : FlvMuxer W) (kind : MediaKind)
      → get_dts m.last_dts kind ≤ℤ get_dts (write_packet w pkt m).1.last_dts kind
  unfolding write_packet
  write_packet_marks pkt m kind =
      ground (arith, timed_marks pkt (before_media w pkt m).1 kind, before_media-Keeps pkt m)
