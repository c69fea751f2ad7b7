-- ===== src/Pipeline/RoundTrip.antt =====
-- A packet muxed into a tag body, and decoded.
use strym_core.Common.{
  ℕ, ◌/◌, ◌%◌, ◌^◌, ◌<◌, ◌≡◌, ◌≢◌, refl, false, some, [], arith, Bytes, length, from_be24, inl, inr,
}
use strym_core.Common.Int.{ℤ, pos, negsuc, clamp_ℤ, add_i64, sub_i64, saturating_sub_i64}
use strym_core.Models.{video, audio, MediaPacket}
use strym_core.Codecs.Aac.{strip_adts}
use strym_core.Codecs.H264.{split_annex_b, to_annex_b, annexb_to_length_prefixed}
use strym_core.Codecs.H264.Prefixed.{from_length_prefixed-to_length_prefixed}
use strym_core.Codecs.H264.Units.{split_annex_b-IsUnit}
use strym_core.Mux.{video_body, audio_body, low24, FlvMuxer, get_dts, origin_or, clamp_ts}
use strym_core.Pipeline.Packet.{media_tag, MediaKind-cases}
use strym_core.Flv.{packet, decode_tag, video_frame, sign_extend24}

-- What 24 bits can carry of a composition offset.
abbrev pub clamp24 : ℤ → ℤ
clamp24 cts = clamp_ℤ cts (negsuc 8388607) (pos 8388607)

-- The three bytes read back and sign-extended.
composition_time-read :
    (c : ℤ)
    → let v = low24 (clamp24 c) in
      sign_extend24 (from_be24 (v / 65536 % 256) (v / 256 % 256) (v % 256)) ≡ clamp24 c
unfolding clamp_ℤ
composition_time-read (pos n) = ground arith
composition_time-read (negsuc n) = ground arith

-- A video body decodes to its packet: the time of its tag, the composition offset clamped to 24
-- bits, the key flag, and the units behind four-byte start codes.
decode-video_body :
    (pkt : MediaPacket) (ts : ℕ) (cts : ℤ)
    → length pkt.payload < 2 ^ 32
    → split_annex_b pkt.payload ≢ []
    → decode_tag 9 ts (video_body pkt cts)
      ≡ some (
          packet (record {
            kind = video;
            dts = pos ts;
            pts = add_i64 (pos ts) (clamp24 cts);
            is_key = pkt.is_key;
            payload = to_annex_b (split_annex_b pkt.payload);
          }))
unfolding decode_tag video_body video_frame annexb_to_length_prefixed
decode-video_body pkt ts cts h k =
    let us = split_annex_b pkt.payload in
    ground (
      arith,
      composition_time-read cts,
      from_length_prefixed-to_length_prefixed us (split_annex_b-IsUnit pkt.payload h),
    )

decode-audio_body :
    (pkt : MediaPacket) (ts : ℕ)
    → decode_tag 8 ts (audio_body pkt)
      ≡ some (
          packet (record {
            kind = audio;
            dts = pos ts;
            pts = pos ts;
            is_key = false;
            payload = strip_adts pkt.payload;
          }))
unfolding decode_tag audio_body
decode-audio_body pkt ts = refl

-- The packet that a decoder makes of a muxed one: the track's mark as its DTS, the composition
-- offset clamped to 24 bits, and the payload in its normal form. Audio has no composition offset.
abbrev pub received : MediaPacket → FlvMuxer Bytes → MediaPacket
received pkt n =
    let ts = get_dts n.last_dts pkt.kind in
    let cts = saturating_sub_i64 (sub_i64 pkt.pts (origin_or n.origin pkt.pts)) ts in
    elim pkt.kind [
      | video ↦ record {
        kind = video;
        dts = pos (clamp_ts ts);
        pts = add_i64 (pos (clamp_ts ts)) (clamp24 cts);
        is_key = pkt.is_key;
        payload = to_annex_b (split_annex_b pkt.payload);
      }
      | audio ↦ record {
        kind = audio;
        dts = pos (clamp_ts ts);
        pts = pos (clamp_ts ts);
        is_key = false;
        payload = strip_adts pkt.payload;
      }
    ]

-- The tag that `write_packet` writes for a packet is decoded by `decode_tag` to that packet: its
-- kind, a video packet's key flag (an audio packet comes back without one), the time at which it was
-- muxed, clamped to 32 bits, the composition offset clamped to 24 bits, and the video units behind
-- four-byte start codes or the audio frame without its ADTS header. The payload is shorter than
-- 2 ^ 32 bytes, and that of a video packet holds a unit at least.
pub decode-media_tag :
    (pkt : MediaPacket) (n : FlvMuxer Bytes)
    → length pkt.payload < 2 ^ 32
    → (pkt.kind ≡ video → split_annex_b pkt.payload ≢ [])
    → decode_tag (media_tag pkt n).mtype (media_tag pkt n).ts (media_tag pkt n).body
      ≡ some (packet (received pkt n))
unfolding media_tag
decode-media_tag pkt n h k =
    let ts = get_dts n.last_dts pkt.kind in
    let cts = saturating_sub_i64 (sub_i64 pkt.pts (origin_or n.origin pkt.pts)) ts in
    elim (MediaKind-cases pkt.kind) [
      | inl v ↦ ground (arith, v, decode-video_body pkt (clamp_ts ts) cts h (k v))
      | inr a ↦ ground (arith, a, decode-audio_body pkt (clamp_ts ts))
    ]
