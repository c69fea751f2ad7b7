-- ===== src/Hls/Output.antt =====
-- core/src/hls/mod.rs: `HlsOutput`, the segmenter. Its warnings are only logged and are left out.
pub mod Close
pub mod Packets
pub mod Stored
pub mod Filed
pub mod Calls
pub mod History
use strym_core.Common.{
  ℕ, zero, suc, ◌+◌, ◌-◌, ◌*◌, ◌/◌, ◌%◌, ◌^◌, Bool, true, false, ◌&&◌, ◌||◌, not, Option, none,
  some, List, [], ◌∷◌, ◌++◌, if◌then◌else◌, ltb, leb, length, min, max, Bytes, add_u32, add_u64,
}
use strym_core.Common.Int.{ℤ, pos, negsuc, i64_min, sub_i64, max_ℤ, ltb_ℤ, pos_part}
use strym_core.Common.Result.{Result, ok, err, Action, ◌>>=◌, ◌>>◌, pure, raise, modify}
use strym_core.Io.{IoError, other}
use strym_core.Models.{MediaPacket, MediaKind, video, audio}
use strym_core.Codecs.Aac.{adts_to_asc, strip_adts}
use strym_core.Codecs.H264.{annexb_to_avcc, annexb_to_length_prefixed, extract_sps_pps_from_avcc}
use strym_core.Codecs.H264.Sps.{parse_sps_dimensions}
use strym_core.Sink.{PacketSink}
use strym_core.Hls.Mp4.{FragmentSample, Fragment, media_segment, video_track_id, audio_track_id}
use strym_core.Hls.Mp4.Init.{VideoTrack, AudioTrack, init_segment}
use strym_core.Hls.Playlist.{HlsConfig, segment_name, target_duration, playlist}
use strym_core.Hls.Storage.{HlsStorage}
use strym_core.Hls.Samples.{
  AudioParams, parse_audio_params, PendingSample, Timebase, new_timebase, normalize, video_ticks,
  audio_ticks, video_out, video_end, audio_out, audio_end, frame_ms, span, base_tick,
  saturating_add_u64, fragment, aac_frame_samples,
}

pub record HlsOutput (S : Type 0) : Type 0 where
  pub cfg : HlsConfig
  pub storage : S
  pub timebase : Timebase
  pub avcc : Option Bytes
  pub audio : Option AudioParams
  pub init_written : Bool
  pub init_has_video : Bool
  pub init_has_audio : Bool
  pub saw_video : Bool
  pub started : Bool
  pub video_samples : List PendingSample
  pub audio_samples : List PendingSample
  pub seg_start : Option ℤ
  pub video_next_tick : Option ℕ
  pub audio_next_tick : Option ℕ
  pub sequence : ℕ
  pub window : List (Bytes × ℕ)
  pub max_segment_ms : ℕ
  pub finished : Bool

abbrev pub is_some {ℓ} : {A : Type ℓ} → Option A → Bool
is_some none = false
is_some (some a) = true

abbrev pub is_empty {ℓ} : {A : Type ℓ} → List A → Bool
is_empty [] = true
is_empty (x ∷ xs) = false

-- `last().map_or(i64::MIN, |s| s.dts)`.
unfoldable pub last_dts : List PendingSample → ℤ
last_dts [] = i64_min
last_dts (s ∷ []) = s.dts
last_dts (s ∷ t ∷ rest) = last_dts (t ∷ rest)

abbrev pub Hls : Type 0 → Type 0 → Type 0
Hls S A = Action (HlsOutput S) IoError A

-- The dimensions in the configuration's parameter set, or none.
abbrev pub dimensions_of : Bytes → ℕ × ℕ
dimensions_of avcc = elim (extract_sps_pps_from_avcc avcc) [
  | none ↦ (0, 0)
  | some (sps, pps) ↦ elim (parse_sps_dimensions sps) [ none ↦ (0, 0) | some d ↦ d ]
]

abbrev pub start_or : Option ℤ → ℤ → ℤ
start_or none d = d
start_or (some s) d = s

module _ {S : Type 0} where
  unfoldable pub new : HlsConfig → S → HlsOutput S
  new cfg storage = record {
    cfg = cfg;
    storage = storage;
    timebase = new_timebase;
    avcc = none;
    audio = none;
    init_written = false;
    init_has_video = false;
    init_has_audio = false;
    saw_video = false;
    started = false;
    video_samples = [];
    audio_samples = [];
    seg_start = none;
    video_next_tick = none;
    audio_next_tick = none;
    sequence = 0;
    window = [];
    max_segment_ms = 0;
    finished = false;
  }

  unfoldable pub span_ms : HlsOutput S → ℤ
  span_ms o = elim o.seg_start [
    | none ↦ pos 0
    | some start ↦
        sub_i64 (max_ℤ (max_ℤ (last_dts o.video_samples) (last_dts o.audio_samples)) start) start
  ]

  abbrev pub target_ms : HlsOutput S → ℤ
  target_ms o = pos (o.cfg.target_duration_secs * 1000)

  abbrev pub has_samples : HlsOutput S → Bool
  has_samples o = not (is_empty o.video_samples) || not (is_empty o.audio_samples)

  abbrev pub video_track : HlsOutput S → Option VideoTrack
  video_track o = elim o.avcc [
    | none ↦ none
    | some avcc ↦
        let (w, h) = dimensions_of avcc in some (record { avcc = avcc; width = w; height = h })
  ]

  abbrev pub audio_track : HlsOutput S → Option AudioTrack
  audio_track o = elim o.audio [
    | none ↦ none
    | some a ↦ some (record {
      asc = a.asc;
      sample_rate = a.sample_rate;
      channels = a.channels;
      bitrate = o.cfg.audio_bitrate;
    })
  ]

  -- `mem::take` of the video samples: their fragment, if there are any.
  unfoldable pub take_video : HlsOutput S → List Fragment × HlsOutput S
  take_video o = elim o.video_samples [
    | [] ↦ ([], o)
    | first ∷ rest ↦
        let out = video_out (first ∷ rest) in
        let base = base_tick o.video_next_tick (video_ticks first.dts) in
        (
          fragment video_track_id base out ∷ [],
          record o {
            video_samples = [];
            video_next_tick = some (saturating_add_u64 base (span out));
          },
        )
  ]

  unfoldable pub take_audio : HlsOutput S → List Fragment × HlsOutput S
  take_audio o = elim o.audio_samples [
    | [] ↦ ([], o)
    | first ∷ rest ↦
        let out = audio_out (first ∷ rest) in
        let base = base_tick o.audio_next_tick (audio_ticks o.audio first.dts) in
        (
          fragment audio_track_id base out ∷ [],
          record o {
            audio_samples = [];
            audio_next_tick = some (saturating_add_u64 base (aac_frame_samples * length out));
          },
        )
  ]

  -- How long the open segment is, in milliseconds.
  unfoldable pub segment_ms : HlsOutput S → ℕ
  segment_ms o =
      let end =
        audio_end (pos (frame_ms o.audio))
          (video_end (start_or o.seg_start (pos 0)) o.video_samples) o.audio_samples in
      pos_part (sub_i64 end (start_or o.seg_start end))
