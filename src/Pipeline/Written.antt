-- ===== src/Pipeline/Written.antt =====
-- What a `write_packet` that succeeds adds, told from the muxer as it was before.
use strym_core.Common.{
  ◌≡◌, refl, ap, sym, ◌∙◌, true, false, not, ◌&&◌, Option, none, some, List, [], ◌∷◌, ◌++◌, arith,
  Bytes, Bool-cases, Option-cases, inl, inr, if◌then◌else◌,
}
use strym_core.Common.Int.{ℤ, saturating_sub_i64, sub_i64, ltb_ℤ}
use strym_core.Common.Result.{ok}
use strym_core.Io.{vec_write}
use strym_core.Models.{video, audio, MediaPacket}
use strym_core.Codecs.Aac.{adts_to_asc}
use strym_core.Codecs.H264.{annexb_to_avcc}
use strym_core.Rtmp.FlvTags.{FlvTag}
use strym_core.Mux.{
  get_dts, set_dts, clamp_ts, tag_video, tag_audio, video_body, audio_body, sniff_video,
  sniff_audio, normalize, order, origin_or, write_media, before_media, write_timed, write_packet,
  header_ts, write_video_sequence, write_audio_sequence,
}
use strym_core.Mux.Order.{before_media-Keeps}
use strym_core.Pipeline.Output.{
  Vec, tagged, write_tag_vec, opened, Adds, Adds-trans, video_header, audio_header,
  ensure_header_vec, write_video_sequence_vec, write_audio_sequence_vec, opened-Adds, tagged-Adds,
  Adds-same,
}
use strym_core.Pipeline.Packet.{
  media_tag, MediaKind-cases, timed_tag, write_packet_rest, write_packet_ok,
}

-- A header for a configuration that the packet itself carries.
abbrev carried : Option Bytes → (Bytes → FlvTag) → List FlvTag
carried none f = []
carried (some c) f = f c ∷ []

-- The sequence header that is still missing before a packet: for video that of a keyframe, for audio
-- that of any packet.
unfoldable pub missing : MediaPacket → Vec → List FlvTag
missing pkt m = elim pkt.kind [
  | video ↦
      if not m.state.video_seq_written && pkt.is_key
      then carried (annexb_to_avcc pkt.payload) (λ c. video_header c m)
      else []
  | audio ↦
      if not m.state.audio_seq_written
      then carried (adts_to_asc pkt.payload) (λ c. audio_header c m)
      else []
]

-- The track's high-water mark behind the packet: the higher one of the mark before it and the
-- packet's own time.
unfoldable pub mark : MediaPacket → Vec → ℤ
mark pkt m =
    let last = get_dts m.last_dts pkt.kind in
    let own = sub_i64 pkt.dts (origin_or m.origin pkt.dts) in if ltb_ℤ own last then last else own

unfoldable pub packet_tag : MediaPacket → Vec → FlvTag
packet_tag pkt m =
    let cts = saturating_sub_i64 (sub_i64 pkt.pts (origin_or m.origin pkt.dts)) (mark pkt m) in
    elim pkt.kind [
      | video ↦ record { mtype = tag_video; ts = clamp_ts (mark pkt m); body = video_body pkt cts }
      | audio ↦ record { mtype = tag_audio; ts = clamp_ts (mark pkt m); body = audio_body pkt }
    ]

timed_packet :
    (pkt : MediaPacket) (m : Vec)
    → (write_timed vec_write pkt m).0 ≡ ok tt
    → let n = (write_timed vec_write pkt m).1 in
      (media_tag pkt n ≡ packet_tag pkt m) × (get_dts n.last_dts pkt.kind ≡ mark pkt m)
unfolding write_timed normalize order write_media media_tag packet_tag mark get_dts set_dts
timed_packet pkt m e = grind (arith, write_tag_vec)

-- A packet's tag and mark hang on the timestamps alone.
packet_Keeps :
    (pkt : MediaPacket) (m n : Vec)
    → (n.origin ≡ m.origin) × (n.last_dts ≡ m.last_dts)
    → (packet_tag pkt n ≡ packet_tag pkt m) × (mark pkt n ≡ mark pkt m)
unfolding packet_tag mark
packet_Keeps pkt m n k = rw (k.0, k.1) (refl, refl)

-- The packet with its sequence header, in a muxer whose FLV header is out.
video_missing :
    (c : Bytes) (m : Vec)
    → m.state.video_seq_written ≡ false
    → let r = write_video_sequence vec_write c (opened m) in
      (r.0 ≡ ok tt) × Adds m r.1 (video_header c m ∷ [])
unfolding header_ts
video_missing c m h =
    let t = video_header c m in
    let e : write_video_sequence vec_write c (opened m) ≡ (
      ok tt,
      record (tagged (opened m) t) {
        state = record ((opened m).state) { video_seq_written = true };
        avcc = some c;
      },
    ) =
      elim (Bool-cases (m.state.header_written)) [
        | inl o ↦ rw (write_video_sequence_vec, o, h) refl
        | inr o ↦ rw (write_video_sequence_vec, o, h) refl
      ] in
    rw e (refl, Adds-same m (tagged (opened m) t) _ _ (tagged-Adds m t) refl refl)

audio_missing :
    (c : Bytes) (m : Vec)
    → m.state.audio_seq_written ≡ false
    → let r = write_audio_sequence vec_write c (opened m) in
      (r.0 ≡ ok tt) × Adds m r.1 (audio_header c m ∷ [])
unfolding header_ts
audio_missing c m h =
    let t = audio_header c m in
    let e : write_audio_sequence vec_write c (opened m) ≡ (
      ok tt,
      record (tagged (opened m) t) {
        state = record ((opened m).state) { audio_seq_written = true };
        asc = some c;
      },
    ) =
      elim (Bool-cases (m.state.header_written)) [
        | inl o ↦ rw (write_audio_sequence_vec, o, h) refl
        | inr o ↦ rw (write_audio_sequence_vec, o, h) refl
      ] in
    rw e (refl, Adds-same m (tagged (opened m) t) _ _ (tagged-Adds m t) refl refl)

opened_keeps :
    (m : Vec)
    → ((opened m).state.video_seq_written ≡ m.state.video_seq_written)
      × ((opened m).state.audio_seq_written ≡ m.state.audio_seq_written)
opened_keeps m = ground arith

-- The headers before a video packet are those of `sniff_video`.
before_video :
    (pkt : MediaPacket) (m : Vec)
    → pkt.kind ≡ video
    → before_media vec_write pkt m ≡ sniff_video vec_write pkt (opened m)
unfolding before_media sniff_audio
before_video pkt m v = ground (arith, v, ensure_header_vec m)

before_audio :
    (pkt : MediaPacket) (m : Vec)
    → pkt.kind ≡ audio
    → before_media vec_write pkt m ≡ sniff_audio vec_write pkt (opened m)
unfolding before_media sniff_video
before_audio pkt m v = ground (arith, v, ensure_header_vec m)

video_before :
    (pkt : MediaPacket) (m : Vec)
    → pkt.kind ≡ video
    → (sniff_video vec_write pkt (opened m)).0 ≡ ok tt
    → Adds m (sniff_video vec_write pkt (opened m)).1 (missing pkt m)
unfolding sniff_video missing
video_before pkt m v e =
    let flag = ap (λ b. not b && pkt.is_key) ((opened_keeps m).0) in
    elim (Bool-cases (not m.state.video_seq_written && pkt.is_key)) [
      | inl t ↦ elim (Option-cases (annexb_to_avcc pkt.payload)) [
        | inl n ↦ ground (arith, v, t, n, e, flag)
        | inr (c, n) ↦ rw (v, flag ∙ t, t, n) ((video_missing c m (ground (arith, t))).1)
      ]
      | inr t ↦ rw (v, flag ∙ t, t) (opened-Adds m)
    ]

audio_before :
    (pkt : MediaPacket) (m : Vec)
    → pkt.kind ≡ audio
    → (sniff_audio vec_write pkt (opened m)).0 ≡ ok tt
    → Adds m (sniff_audio vec_write pkt (opened m)).1 (missing pkt m)
unfolding sniff_audio missing
audio_before pkt m v e =
    let flag = ap not ((opened_keeps m).1) in
    elim (Bool-cases (not m.state.audio_seq_written)) [
      | inl t ↦ elim (Option-cases (adts_to_asc pkt.payload)) [
        | inl n ↦ ground (arith, v, t, n, e, flag)
        | inr (c, n) ↦ rw (v, flag ∙ t, t, n) ((audio_missing c m (ground (arith, t))).1)
      ]
      | inr t ↦ rw (v, flag ∙ t, t) (opened-Adds m)
    ]

-- Before a packet that `write_packet` takes, `before_media` adds the sequence header that is
-- missing.
before_missing :
    (pkt : MediaPacket) (m : Vec)
    → (before_media vec_write pkt m).0 ≡ ok tt
    → Adds m (before_media vec_write pkt m).1 (missing pkt m)
before_missing pkt m e = elim (MediaKind-cases (pkt.kind)) [
  | inl v ↦
      rw (before_video pkt m v)
        (video_before pkt m v (ap (λ r. r.0) (sym (before_video pkt m v)) ∙ e))
  | inr v ↦
      rw (before_audio pkt m v)
        (audio_before pkt m v (ap (λ r. r.0) (sym (before_audio pkt m v)) ∙ e))
]

-- A packet that `write_packet` takes adds to the sink: the FLV header, if it is not there; the
-- sequence header, if the track's one is still missing (for video at a keyframe) and made from the
-- packet's own bytes; and the packet's tag, whose time is the track's high-water mark, clamped to
-- 32 bits. That mark is the higher one of the mark before and of the packet's time from the origin,
-- and it is what the muxer keeps for the track.
pub write_packet_tag :
    (pkt : MediaPacket) (m : Vec)
    → (write_packet vec_write pkt m).0 ≡ ok tt
    → let n = (write_packet vec_write pkt m).1 in
      Adds m n (missing pkt m ++ (packet_tag pkt m ∷ []))
      × (get_dts n.last_dts pkt.kind ≡ mark pkt m)
write_packet_tag pkt m e =
    let b = write_packet_ok pkt m e in
    let k = (before_media vec_write pkt m).1 in
    let rest = write_packet_rest pkt m b in
    let n = (write_timed vec_write pkt k).1 in
    let t : (write_timed vec_write pkt k).0 ≡ ok tt = ap (λ r. r.0) (sym rest) ∙ e in
    let h = before_missing pkt m b in
    let same = packet_Keeps pkt m k (before_media-Keeps vec_write pkt m) in
    let (tag, top) = timed_packet pkt k t in
    let own : Adds k n (packet_tag pkt m ∷ []) =
      rw (sym (tag ∙ same.0)) (timed_tag pkt k (h.is_open) t) in
    rw rest (Adds-trans m k n _ _ h own, top ∙ same.1)
