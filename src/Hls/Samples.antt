-- ===== src/Hls/Samples.antt =====
-- core/src/hls/mod.rs: the stream's time, and the samples of a segment as fragments.
use strym_core.Common.{
  ℕ, ◌+◌, ◌-◌, ◌*◌, ◌/◌, ◌^◌, Bool, true, Option, none, some, List, [], ◌∷◌, if◌then◌else◌,
  get_elem?, min, max, Bytes, add_u64,
}
use strym_core.Common.Int.{
  ℤ, pos, i64_min, sub_i64, add_i64, max_ℤ, ltb_ℤ, ◌*ℤ◌, wrap_i64, wrap_i32, div_ℤ, pos_part,
}
use strym_core.Codecs.Aac.{parse_asc, sample_rates}
use strym_core.Hls.Mp4.{FragmentSample, Fragment, sample_flags, video_timescale}

abbrev pub reorder_tolerance_ms : ℕ
reorder_tolerance_ms = 100

abbrev pub default_video_frame_ms : ℕ
default_video_frame_ms = 33

abbrev pub aac_frame_samples : ℕ
aac_frame_samples = 1024

pub record AudioParams : Type 0 where
  pub asc : Bytes
  pub sample_rate : ℕ
  pub channels : ℕ

unfoldable pub parse_audio_params : Bytes → Option AudioParams
parse_audio_params asc = elim (parse_asc asc) [
  | none ↦ none
  | some parsed ↦ elim (get_elem? sample_rates parsed.sampling_frequency_index) [
    | none ↦ none
    | some rate ↦
        some (record { asc = asc; sample_rate = rate; channels = max parsed.channel_config 1 })
  ]
]

pub record PendingSample : Type 0 where
  pub payload : Bytes
  pub dts : ℤ
  pub cts : ℤ
  pub is_sync : Bool

pub record Timebase : Type 0 where
  pub origin : Option ℤ
  pub last_dts : ℤ

abbrev pub new_timebase : Timebase
new_timebase = record { origin = none; last_dts = i64_min }

abbrev pub origin_or : Option ℤ → ℤ → ℤ
origin_or none dts = dts
origin_or (some o) dts = o

unfoldable pub normalize : ℤ → Timebase → ℤ × Timebase
normalize dts t =
    let o = origin_or t.origin dts in
    let ts = sub_i64 dts o in
    let mark = max_ℤ t.last_dts (pos 0) in
    if ltb_ℤ ts t.last_dts
    then (if ltb_ℤ (pos reorder_tolerance_ms) (sub_i64 t.last_dts ts)
        then (mark, record { origin = some (sub_i64 dts mark); last_dts = mark })
        else (t.last_dts, record { origin = some o; last_dts = t.last_dts }))
    else (ts, record { origin = some o; last_dts = ts })

-- Milliseconds to ticks of a clock, with the multiplication saturating.
unfoldable pub ticks : ℕ → ℤ → ℕ
ticks rate ms = min (pos_part ms * rate) (2 ^ 64 - 1) / 1000

abbrev pub video_ticks : ℤ → ℕ
video_ticks = ticks video_timescale

unfoldable pub audio_ticks : Option AudioParams → ℤ → ℕ
audio_ticks none ms = 0
audio_ticks (some a) ms = ticks a.sample_rate ms

-- How far the next sample lies behind one.
unfoldable pub gap : PendingSample → List PendingSample → ℤ
gap s [] = pos default_video_frame_ms
gap s (t ∷ rest) = max_ℤ (sub_i64 t.dts s.dts) (pos 0)

unfoldable pub video_sample : PendingSample → ℤ → FragmentSample
video_sample s next = record {
  duration = min (video_ticks next) (2 ^ 32 - 1);
  payload = s.payload;
  flags = sample_flags (if s.is_sync then 2 else 1) s.is_sync;
  composition_offset = wrap_i32 (div_ℤ (wrap_i64 (s.cts *ℤ pos video_timescale)) 1000);
}

unfoldable pub video_out : List PendingSample → List FragmentSample
video_out [] = []
video_out (s ∷ rest) = video_sample s (gap s rest) ∷ video_out rest

unfoldable pub video_end : ℤ → List PendingSample → ℤ
video_end end [] = end
video_end end (s ∷ rest) = video_end (max_ℤ end (add_i64 s.dts (gap s rest))) rest

unfoldable pub audio_out : List PendingSample → List FragmentSample
audio_out [] = []
audio_out (s ∷ rest) =
    record {
      duration = aac_frame_samples;
      payload = s.payload;
      flags = sample_flags 2 true;
      composition_offset = pos 0;
    }
    ∷ audio_out rest

unfoldable pub audio_end : ℤ → ℤ → List PendingSample → ℤ
audio_end frame end [] = end
audio_end frame end (s ∷ rest) = audio_end frame (max_ℤ end (add_i64 s.dts frame)) rest

abbrev pub frame_ms : Option AudioParams → ℕ
frame_ms none = 23
frame_ms (some a) = aac_frame_samples * 1000 / a.sample_rate

-- The sum of the durations.
unfoldable pub span : List FragmentSample → ℕ
span [] = 0
span (s ∷ samples) = add_u64 s.duration (span samples)

-- The grid's next tick, never before what the time says.
abbrev pub base_tick : Option ℕ → ℕ → ℕ
base_tick none ms_base = ms_base
base_tick (some t) ms_base = max t ms_base

abbrev pub saturating_add_u64 : ℕ → ℕ → ℕ
saturating_add_u64 a b = min (a + b) (2 ^ 64 - 1)

abbrev pub fragment : ℕ → ℕ → List FragmentSample → Fragment
fragment track base samples = record {
  track_id = track;
  base_decode_time = base;
  samples = samples;
}
