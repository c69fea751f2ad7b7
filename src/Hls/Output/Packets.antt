-- ===== src/Hls/Output/Packets.antt =====
-- core/src/hls/mod.rs: `HlsOutput`, the packets that come in and the calls of `PacketSink`.
use strym_core.Common.{
  Bool, true, ◌&&◌, not, Option, none, some, [], ◌∷◌, ◌++◌, if◌then◌else◌, Bytes,
}
use strym_core.Common.Int.{ℤ, pos, sub_i64, ltb_ℤ}
use strym_core.Common.Result.{Result, ok, ◌>>◌, pure, modify}
use strym_core.Io.{IoError}
use strym_core.Models.{MediaPacket, MediaKind, video, audio}
use strym_core.Codecs.Aac.{adts_to_asc, strip_adts}
use strym_core.Codecs.H264.{annexb_to_avcc, annexb_to_length_prefixed}
use strym_core.Sink.{PacketSink}
use strym_core.Hls.Storage.{HlsStorage}
use strym_core.Hls.Samples.{AudioParams, parse_audio_params, normalize}
use strym_core.Hls.Output.{HlsOutput, Hls, is_some, span_ms, target_ms, has_samples, start_or}
use strym_core.Hls.Output.Close.{close_segment, write_playlist}

module _ {S : Type 0} (st : HlsStorage S) where
  abbrev start_at : ℤ → HlsOutput S → HlsOutput S
  start_at dts o = record o { seg_start = some (start_or o.seg_start dts) }

  unfoldable pub push_video : MediaPacket → ℤ → HlsOutput S → HlsOutput S
  push_video pkt dts o = record (start_at dts o) {
    video_samples =
        o.video_samples
        ++ record {
          payload = annexb_to_length_prefixed pkt.payload;
          dts = dts;
          cts = sub_i64 pkt.pts pkt.dts;
          is_sync = pkt.is_key;
        }
          ∷ [];
  }

  unfoldable pub push_audio : MediaPacket → ℤ → HlsOutput S → HlsOutput S
  push_audio pkt dts o = record (start_at dts o) {
    audio_samples =
        o.audio_samples
        ++ record { payload = strip_adts pkt.payload; dts = dts; cts = pos 0; is_sync = true } ∷ [];
  }

  abbrev pub is_due : HlsOutput S → Bool
  is_due o = has_samples o && not (ltb_ℤ (span_ms o) (target_ms o))

  -- The rest of `video_packet` once the segmenter has started.
  unfoldable pub add_video : MediaPacket → Hls S (Unit {0})
  add_video pkt o =
      let (dts, t) = normalize pkt.dts o.timebase in
      let o' = record o { timebase = t } in
      ((if pkt.is_key && is_due o' then close_segment st else pure tt)
          >> modify (push_video pkt dts))
        o'

  unfoldable pub sniff_avcc : MediaPacket → HlsOutput S → HlsOutput S
  sniff_avcc pkt o = record o {
    avcc = if is_some o.avcc then o.avcc else annexb_to_avcc pkt.payload;
  }

  unfoldable pub video_packet : MediaPacket → Hls S (Unit {0})
  video_packet pkt o0 =
      let o = sniff_avcc pkt (record o0 { saw_video = true }) in
      if not (is_some o.avcc)
      then (ok tt, o)
      else if o.init_written && not o.init_has_video
      then (ok tt, o)
      else if not o.started && not pkt.is_key
      then (ok tt, o)
      else add_video pkt (record o { started = true })

  unfoldable pub add_audio : MediaPacket → Hls S (Unit {0})
  add_audio pkt o =
      let (dts, t) = normalize pkt.dts o.timebase in
      let o' = record o { timebase = t } in
      ((if not o.saw_video && is_due o' then close_segment st else pure tt)
          >> modify (push_audio pkt dts))
        o'

  abbrev sniffed_params : Bytes → Option AudioParams
  sniffed_params payload = elim (adts_to_asc payload) [
    | none ↦ none
    | some asc ↦ parse_audio_params asc
  ]

  unfoldable pub sniff_audio : MediaPacket → HlsOutput S → HlsOutput S
  sniff_audio pkt o = record o {
    audio = if is_some o.audio then o.audio else sniffed_params pkt.payload;
  }

  unfoldable pub audio_packet : MediaPacket → Hls S (Unit {0})
  audio_packet pkt o0 =
      let o = sniff_audio pkt o0 in
      if not (is_some o.audio)
      then (ok tt, o)
      else if o.init_written && not o.init_has_audio
      then (ok tt, o)
      else if not o.started && o.saw_video
      then (ok tt, o)
      else add_audio pkt (record o { started = true })

  abbrev take_avcc : Option Bytes → HlsOutput S → HlsOutput S
  take_avcc none o = o
  take_avcc (some v) o = record o { avcc = if is_some o.avcc then o.avcc else some v }

  abbrev take_asc : Option Bytes → HlsOutput S → HlsOutput S
  take_asc none o = o
  take_asc (some a) o = record o {
    audio = if is_some o.audio then o.audio else parse_audio_params a;
  }

  unfoldable pub codecs : HlsOutput S → Option Bytes → Option Bytes → HlsOutput S
  codecs o avcc asc = take_asc asc (take_avcc avcc o)

  abbrev pub of_kind : MediaKind → MediaPacket → Hls S (Unit {0})
  of_kind video pkt = video_packet pkt
  of_kind audio pkt = audio_packet pkt

  unfoldable pub packet : HlsOutput S → MediaPacket → Result IoError (Unit {0}) × HlsOutput S
  packet o pkt = if o.finished then (ok tt, o) else of_kind pkt.kind pkt o

  unfoldable pub finish : HlsOutput S → Result IoError (Unit {0}) × HlsOutput S
  finish o =
      if o.finished
      then (ok tt, o)
      else (close_segment st >> write_playlist st true) (record o { finished = true })

  abbrev pub hls_output : PacketSink (HlsOutput S)
  hls_output = record { codecs = codecs; packet = packet; finish = finish }
