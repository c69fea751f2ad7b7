-- ===== src/Models.antt =====
-- core/src/models.rs: media packets and the stream's static parameters.
use strym_core.Common.{ℕ, Bool, false, Bytes}
use strym_core.Common.Int.{ℤ}

pub data MediaKind : Type 0 where
  video audio : MediaKind

-- Timestamps are milliseconds, i64.
pub record MediaPacket : Type 0 where
  pub kind : MediaKind
  pub pts : ℤ
  pub dts : ℤ
  pub is_key : Bool
  pub payload : Bytes

unfoldable pub video_packet : ℤ → Bool → Bytes → MediaPacket
video_packet pts is_key payload = record {
  kind = video;
  pts = pts;
  dts = pts;
  is_key = is_key;
  payload = payload;
}

unfoldable pub audio_packet : ℤ → Bytes → MediaPacket
audio_packet pts payload = record {
  kind = audio;
  pts = pts;
  dts = pts;
  is_key = false;
  payload = payload;
}

-- `framerate` is an f64, kept as its 64-bit pattern.
pub record StreamConfig : Type 0 where
  pub width : ℕ
  pub height : ℕ
  pub framerate : ℕ
  pub video_bitrate : ℕ
  pub audio_bitrate : ℕ
  pub sample_rate : ℕ
