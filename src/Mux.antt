-- ===== src/Mux.antt =====
-- core/src/mux.rs: packets to FLV tags.
pub mod Metadata
pub mod Order
pub mod Refusal
use strym_core.Common.{
  ℕ, zero, suc, ◌+◌, ◌-◌, ◌*◌, ◌/◌, ◌%◌, ◌^◌, Bool, true, false, Option, none, some, List, [], ◌∷◌,
  ◌++◌, ◌&&◌, not, if◌then◌else◌, length, Bytes, be24, be32, as_u32, add_u32, add_u64,
}
use strym_core.Common.Int.{
  ℤ, pos, negsuc, i64_min, sub_i64, add_i64, saturating_sub_i64, max_ℤ, clamp_ℤ, ltb_ℤ, ◌-ℤ◌,
  wrap_i64,
}
use strym_core.Common.Result.{
  Result, ok, err, map_err, ok_or, Action, ◌>>=◌, ◌>>◌, pure, raise, modify, from_result,
}
use strym_core.Io.{IoError, Write}
use strym_core.Models.{MediaKind, video, audio, MediaPacket, StreamConfig}
use strym_core.Codecs.Aac.{adts_to_asc, strip_adts}
use strym_core.Codecs.H264.{annexb_to_avcc, annexb_to_length_prefixed}
use Metadata.{on_metadata}

abbrev pub tag_audio : ℕ
tag_audio = 8

abbrev pub tag_video : ℕ
tag_video = 9

abbrev pub tag_script : ℕ
tag_script = 18

abbrev pub reorder_tolerance_ms : ℕ
reorder_tolerance_ms = 100

pub data MuxError : Type 0 where
  io : IoError → MuxError
  config ordering : MuxError

pub record InitState : Type 0 where
  pub header_written : Bool
  pub video_seq_written : Bool
  pub audio_seq_written : Bool

-- The high-water marks of the two decode timelines; `i64_min` before a track's first packet.
pub record TrackDts : Type 0 where
  pub last_video : ℤ
  pub last_audio : ℤ

unfoldable pub get_dts : TrackDts → MediaKind → ℤ
get_dts t video = t.last_video
get_dts t audio = t.last_audio

unfoldable pub set_dts : TrackDts → MediaKind → ℤ → TrackDts
set_dts t video v = record t { last_video = v }
set_dts t audio v = record t { last_audio = v }

pub record FlvMuxer (W : Type 0) : Type 0 where
  pub sink : W
  pub state : InitState
  pub origin : Option ℤ
  pub last_dts : TrackDts
  pub avcc : Option Bytes
  pub asc : Option Bytes
  pub bytes_written : ℕ

-- Timestamps are clamped to u32.
unfoldable pub clamp_ts : ℤ → ℕ
clamp_ts (pos n) = if ltb_ℤ (pos 0xffff_ffff) (pos n) then 0xffff_ffff else n
clamp_ts (negsuc n) = 0

-- The low 24 bits of a two's complement number.
abbrev pub low24 : ℤ → ℕ
low24 (pos n) = n % 2 ^ 24
low24 (negsuc n) = 2 ^ 24 - 1 - n % 2 ^ 24

unfoldable pub composition_time : ℤ → Bytes
composition_time cts = be24 (low24 (clamp_ℤ cts (negsuc 8388607) (pos 8388607)))

unfoldable pub tag_header : ℕ → ℕ → ℕ → Bytes
tag_header tag_type ts len =
    tag_type ∷ be24 (as_u32 len) ++ (be24 ts ++ (ts / 16777216 % 256 ∷ 0 ∷ 0 ∷ 0 ∷ []))

unfoldable pub video_body : MediaPacket → ℤ → Bytes
unfolding composition_time
video_body pkt cts =
    (if pkt.is_key then 0x17 else 0x27) ∷ 1 ∷ composition_time cts
    ++ annexb_to_length_prefixed pkt.payload

unfoldable pub audio_body : MediaPacket → Bytes
audio_body pkt = 0xaf ∷ 1 ∷ strip_adts pkt.payload

abbrev pub flv_header : Bytes
flv_header = 0x46 ∷ 0x4c ∷ 0x56 ∷ 0x01 ∷ 0x05 ∷ 0 ∷ 0 ∷ 0 ∷ 9 ∷ 0 ∷ 0 ∷ 0 ∷ 0 ∷ []

abbrev pub Mux : Type 0 → Type 0 → Type 0
Mux W A = Action (FlvMuxer W) MuxError A

-- The origin after `origin.get_or_insert(ts)`.
abbrev pub origin_or : Option ℤ → ℤ → ℤ
origin_or none ts = ts
origin_or (some o) ts = o

module _ {W : Type 0} where
  unfoldable pub new : W → FlvMuxer W
  new sink = record {
    sink = sink;
    state = record { header_written = false; video_seq_written = false; audio_seq_written = false };
    origin = none;
    last_dts = record { last_video = i64_min; last_audio = i64_min };
    avcc = none;
    asc = none;
    bytes_written = 0;
  }

  unfoldable pub restore_timebase : FlvMuxer W → Option ℤ → ℤ → ℤ → FlvMuxer W
  restore_timebase m origin last_video last_audio = record m {
    origin = origin;
    last_dts = record { last_video = last_video; last_audio = last_audio };
  }

  unfoldable pub rebase : FlvMuxer W → MediaKind → ℤ → FlvMuxer W
  rebase m kind dts = record m {
    origin = some (sub_i64 dts (max_ℤ (get_dts m.last_dts kind) (pos 0)));
  }

  unfoldable pub normalize : ℤ → Mux W ℤ
  normalize ts m =
      let o = origin_or m.origin ts in (ok (sub_i64 ts o), record m { origin = some o })

  unfoldable pub header_ts : FlvMuxer W → ℤ
  header_ts m = max_ℤ (max_ℤ m.last_dts.last_video m.last_dts.last_audio) (pos 0)

module _ {W : Type 0} (w : Write W) where
  unfoldable pub sink_write : Bytes → Mux W (Unit {0})
  sink_write bytes m =
      let (r, s) = w.write_all m.sink bytes in (map_err io r, record m { sink = s })

  unfoldable pub flush_sink : Mux W (Unit {0})
  flush_sink m = let (r, s) = w.flush m.sink in (map_err io r, record m { sink = s })

  abbrev count_bytes : ℕ → FlvMuxer W → FlvMuxer W
  count_bytes n m = record m { bytes_written = add_u64 m.bytes_written n }

  unfoldable pub ensure_header : Mux W (Unit {0})
  ensure_header m =
      if m.state.header_written
      then (ok tt, m)
      else (do
        sink_write flv_header
        modify (count_bytes 13)
        modify (λ m. record m { state = record (m.state) { header_written = true } }))
          m

  unfoldable pub write_tag : ℕ → ℤ → Bytes → Mux W (Unit {0})
  write_tag tag_type ts body = do
    sink_write (tag_header tag_type (clamp_ts ts) (length body))
    sink_write body
    sink_write (be32 (add_u32 11 (as_u32 (length body))))
    modify (count_bytes (15 + length body))

  unfoldable pub write_metadata : StreamConfig → Mux W (Unit {0})
  write_metadata c = do ensure_header; λ m. write_tag tag_script (header_ts m) (on_metadata c) m

  unfoldable pub write_video_sequence : Bytes → Mux W (Unit {0})
  write_video_sequence avcc = do
    ensure_header
    λ m.
        if m.state.video_seq_written
        then (ok tt, m)
        else (do
          write_tag tag_video (header_ts m) (0x17 ∷ 0 ∷ 0 ∷ 0 ∷ 0 ∷ avcc)
          modify (λ m. record m {
            state = record (m.state) { video_seq_written = true };
            avcc = some avcc;
          }))
            m

  unfoldable pub write_audio_sequence : Bytes → Mux W (Unit {0})
  write_audio_sequence asc = do
    ensure_header
    λ m.
        if m.state.audio_seq_written
        then (ok tt, m)
        else (do
          write_tag tag_audio (header_ts m) (0xaf ∷ 0 ∷ asc)
          modify (λ m. record m {
            state = record (m.state) { audio_seq_written = true };
            asc = some asc;
          }))
            m

  abbrev on_some : Option Bytes → (Bytes → Mux W (Unit {0})) → Mux W (Unit {0})
  on_some none f = pure tt
  on_some (some b) f = f b

  unfoldable pub init_codecs : Option Bytes → Option Bytes → Mux W (Unit {0})
  init_codecs avcc asc = do on_some avcc write_video_sequence; on_some asc write_audio_sequence

  -- The sequence headers that the packet itself must supply.
  unfoldable pub sniff_video : MediaPacket → Mux W (Unit {0})
  sniff_video pkt m = elim pkt.kind [
    | video ↦
        if not m.state.video_seq_written && pkt.is_key
        then (from_result (ok_or (annexb_to_avcc pkt.payload) config) >>= write_video_sequence) m
        else (ok tt, m)
    | audio ↦ (ok tt, m)
  ]

  unfoldable pub sniff_audio : MediaPacket → Mux W (Unit {0})
  sniff_audio pkt m = elim pkt.kind [
    | video ↦ (ok tt, m)
    | audio ↦
        if not m.state.audio_seq_written
        then (from_result (ok_or (adts_to_asc pkt.payload) config) >>= write_audio_sequence) m
        else (ok tt, m)
  ]

  -- The normalized DTS: clamped to the track's last one within the tolerance, refused beyond it.
  unfoldable pub order : MediaKind → ℤ → Mux W ℤ
  order kind ts m =
      let last = get_dts m.last_dts kind in
      if ltb_ℤ ts last
      then if ltb_ℤ (pos reorder_tolerance_ms) (sub_i64 last ts)
        then (err ordering, m)
        else (ok last, m)
      else (ok ts, m)

  unfoldable pub write_media : MediaPacket → ℤ → ℤ → Mux W (Unit {0})
  write_media pkt ts cts m = elim pkt.kind [
    | video ↦ write_tag tag_video ts (video_body pkt cts) m
    | audio ↦ write_tag tag_audio ts (audio_body pkt) m
  ]

  -- The headers that must stand before the packet.
  unfoldable pub before_media : MediaPacket → Mux W (Unit {0})
  before_media pkt = do ensure_header; sniff_video pkt; sniff_audio pkt

  -- The packet itself: its timestamps, then its tag.
  unfoldable pub write_timed : MediaPacket → Mux W (Unit {0})
  write_timed pkt = do
    raw ← normalize pkt.dts
    ts ← order pkt.kind raw
    modify (λ m. record m { last_dts = set_dts m.last_dts pkt.kind ts })
    pts ← normalize pkt.pts
    write_media pkt ts (saturating_sub_i64 pts ts)

  unfoldable pub write_packet : MediaPacket → Mux W (Unit {0})
  write_packet pkt = do before_media pkt; write_timed pkt

  unfoldable pub finish : Mux W (Unit {0})
  finish m = let (r, s) = w.flush m.sink in (map_err io r, record m { sink = s })
