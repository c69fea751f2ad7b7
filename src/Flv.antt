-- ===== src/Flv.antt =====
-- core/src/flv.rs: FLV tag bodies back to packets and codec configurations.
use strym_core.Common.{
  ℕ, ◌-◌, ◌/◌, ◌%◌, ◌^◌, Bool, false, Option, none, some, List, [], ◌∷◌, ltb, ◌==◌, if◌then◌else◌,
  Bytes, from_be24,
}
use strym_core.Common.Int.{ℤ, pos, negsuc, add_i64}
use strym_core.Models.{video, audio, MediaPacket}
use strym_core.Codecs.H264.{from_length_prefixed, to_annex_b}

pub data Decoded : Type 0 where
  video_config audio_config : Bytes → Decoded
  packet : MediaPacket → Decoded

-- `(raw << 8).cast_signed() >> 8`: 24 bits read as a two's complement number.
abbrev pub sign_extend24 : ℕ → ℤ
sign_extend24 raw = if ltb raw (2 ^ 23) then pos raw else negsuc (2 ^ 24 - raw - 1)

-- The payload of a sequence header must not be empty.
abbrev pub some_payload : (Bytes → Decoded) → Bytes → Option Decoded
some_payload f [] = none
some_payload f (x ∷ xs) = some (f (x ∷ xs))

-- A frame of at least one unit.
unfoldable pub video_frame : ℕ → Bool → ℕ → Option (List Bytes) → Option Decoded
video_frame ts is_key raw none = none
video_frame ts is_key raw (some []) = none
video_frame ts is_key raw (some (nal ∷ nals)) = some (
    packet (record {
      kind = video;
      dts = pos ts;
      pts = add_i64 (pos ts) (sign_extend24 raw);
      is_key = is_key;
      payload = to_annex_b (nal ∷ nals);
    }))

unfoldable pub decode_video : ℕ → Bytes → Option Decoded
unfolding video_frame
decode_video ts (b0 ∷ b1 ∷ b2 ∷ b3 ∷ b4 ∷ payload) =
    if b0 % 16 == 7
    then if b1 == 0
      then some_payload video_config payload
      else if b1 == 1
      then video_frame ts (b0 / 16 == 1) (from_be24 b2 b3 b4) (from_length_prefixed payload)
      else none
    else none
decode_video ts _ = none

unfoldable pub decode_audio : ℕ → Bytes → Option Decoded
decode_audio ts (b0 ∷ b1 ∷ payload) =
    if b0 / 16 == 10
    then if b1 == 0
      then some_payload audio_config payload
      else if b1 == 1
      then some (
          packet (record {
            kind = audio;
            dts = pos ts;
            pts = pos ts;
            is_key = false;
            payload = payload;
          }))
      else none
    else none
decode_audio ts _ = none

unfoldable pub decode_tag : ℕ → ℕ → Bytes → Option Decoded
unfolding decode_video decode_audio
decode_tag mtype ts body =
    if mtype == 9 then decode_video ts body else if mtype == 8 then decode_audio ts body else none
