-- ===== src/Engine.antt =====
-- core/src/engine.rs: packets into the buffer, and from it through the muxer to the transport and
-- the outputs. Every method holds the lock from its start to its end, so a call is one step of the
-- shared state.
pub mod Batch
pub mod Account
pub mod Drains
pub mod Sound
pub mod Resume
pub mod Restart
use strym_core.Common.{
  ℕ, zero, suc, ◌+◌, ◌-◌, ◌*◌, ◌/◌, Bool, true, false, ◌&&◌, not, Option, none, some, List, [], ◌∷◌,
  ◌++◌, if◌then◌else◌, leb, ltb, length, take, drop, Bytes, add_u64,
}
use strym_core.Common.Int.{ℤ, ltb_ℤ}
use strym_core.Common.Result.{Result, ok, err, map_err, Action, ◌>>=◌, ◌>>◌, modify}
use strym_core.Io.{IoError}
use strym_core.Models.{MediaKind, video, audio, MediaPacket, StreamConfig}
use strym_core.Backpressure.{
  BoundedBuffer, pop_oldest, restore_front, resync_keep_latest_keyframe, front, record_drop, len,
}
use strym_core.Backpressure
use strym_core.Mux.{
  FlvMuxer, MuxError, ordering, rebase, restore_timebase, write_metadata, init_codecs, write_packet,
  flush_sink, get_dts,
}
use strym_core.Mux
use strym_core.Transport.{Transport}
use strym_core.Sink.{PacketSink}

pub data LatencyProfile : Type 0 where
  aggressive balanced lenient : LatencyProfile

unfoldable pub packet_budget : LatencyProfile → ℕ
packet_budget aggressive = 30
packet_budget balanced = 120
packet_budget lenient = 480

unfoldable pub cut_threshold : LatencyProfile → Option ℕ
cut_threshold aggressive = some (packet_budget aggressive / 2)
cut_threshold balanced = some (packet_budget balanced)
cut_threshold lenient = none

-- Times are nanoseconds.
pub record EngineConfig : Type 0 where
  pub stream : StreamConfig
  pub profile : LatencyProfile
  pub qos_interval : ℕ

pub data EngineError : Type 0 where
  mux : MuxError → EngineError
  transport : IoError → EngineError

pub record Timebase : Type 0 where
  pub origin : Option ℤ
  pub last_video : ℤ
  pub last_audio : ℤ

pub record Inner (W O : Type 0) : Type 0 where
  pub config : EngineConfig
  pub buffer : BoundedBuffer MediaPacket
  pub muxer : Option (FlvMuxer W)
  pub metadata_written : Bool
  pub muxed : ℕ
  pub avcc : Option Bytes
  pub asc : Option Bytes
  pub timebase : Option Timebase
  pub awaiting_keyframe : Bool
  pub last_sample_at : ℕ
  pub last_media_bytes : ℕ
  pub last_wire_bytes : ℕ
  pub outputs : List O
  pub output_codecs : Option Bytes × Option Bytes

abbrev pub is_keyframe : MediaPacket → Bool
is_keyframe p = elim p.kind [ video ↦ p.is_key | audio ↦ false ]

abbrev pub is_inter_frame : MediaPacket → Bool
is_inter_frame p = elim p.kind [ video ↦ not p.is_key | audio ↦ false ]

abbrev pub is_some : {A : Type 0} → Option A → Bool
is_some none = false
is_some (some a) = true

abbrev pub or_else : {A : Type 0} → Option A → Option A → Option A
or_else none b = b
or_else (some a) b = some a

-- `sort_by_key(|p| p.dts)`, which is stable.
unfoldable pub insert_by_dts : MediaPacket → List MediaPacket → List MediaPacket
insert_by_dts p [] = p ∷ []
insert_by_dts p (q ∷ qs) = if ltb_ℤ q.dts p.dts then q ∷ insert_by_dts p qs else p ∷ q ∷ qs

unfoldable pub sort_by_dts : List MediaPacket → List MediaPacket
sort_by_dts [] = []
sort_by_dts (p ∷ ps) = insert_by_dts p (sort_by_dts ps)

unfoldable pub starts_with_keyframe : BoundedBuffer MediaPacket → Bool
starts_with_keyframe b = elim (front b) [ none ↦ false | some p ↦ is_keyframe p ]

unfoldable pub push_each : List MediaPacket → BoundedBuffer MediaPacket → BoundedBuffer MediaPacket
push_each [] b = b
push_each (p ∷ ps) b = push_each ps (Backpressure.push b p)

module _ {W O : Type 0} where
  unfoldable pub new : EngineConfig → ℕ → Inner W O
  new config now = record {
    config = config;
    buffer = Backpressure.new (packet_budget config.profile);
    muxer = none;
    metadata_written = false;
    muxed = 0;
    avcc = none;
    asc = none;
    timebase = none;
    awaiting_keyframe = false;
    last_sample_at = now;
    last_media_bytes = 0;
    last_wire_bytes = 0;
    outputs = [];
    output_codecs = (none, none);
  }

  -- The transport that was attached comes back too.
  unfoldable pub attach_transport : W → ℕ → Inner W O → Option W × Inner W O
  attach_transport w now e = (
    elim e.muxer [ none ↦ none | some m ↦ some m.sink ],
    record e {
      muxer = some (elim e.timebase [
        | none ↦ Mux.new w
        | some t ↦ restore_timebase (Mux.new w) t.origin t.last_video t.last_audio
      ]);
      timebase = none;
      metadata_written = false;
      last_sample_at = now;
      last_media_bytes = 0;
      last_wire_bytes = 0;
    },
  )

  -- What a dead transport leaves for the next one.
  unfoldable pub snapshot : Inner W O → Inner W O
  snapshot e = elim e.muxer [
    | none ↦ e
    | some m ↦ record e {
      timebase = some (record {
        origin = m.origin;
        last_video = get_dts m.last_dts video;
        last_audio = get_dts m.last_dts audio;
      });
      avcc = or_else e.avcc m.avcc;
      asc = or_else e.asc m.asc;
    }
  ]

  unfoldable pub detach_transport : Inner W O → Inner W O
  detach_transport e =
      let s = snapshot e in
      let b = (resync_keep_latest_keyframe is_keyframe s.buffer).0 in
      record s {
        muxer = none;
        buffer = b;
        awaiting_keyframe = is_some s.avcc && not (starts_with_keyframe b);
      }

  unfoldable pub enforce_drop_policy : Inner W O → Inner W O
  enforce_drop_policy e = elim (cut_threshold e.config.profile) [
    | none ↦ e
    | some threshold ↦
        if leb threshold (len e.buffer)
        then record e { buffer = (resync_keep_latest_keyframe is_keyframe e.buffer).0 }
        else e
  ]

  unfoldable pub push : MediaPacket → Inner W O → Inner W O
  push pkt e = enforce_drop_policy (record e { buffer = Backpressure.push e.buffer pkt })

  unfoldable pub push_all : List MediaPacket → Inner W O → Inner W O
  push_all pkts e = enforce_drop_policy (record e { buffer = push_each pkts e.buffer })

  -- The loop of `drain_for_mux`, on as much fuel as the buffer holds packets.
  unfoldable pub drain_loop : ℕ → Inner W O → List MediaPacket × Inner W O
  drain_loop zero e = ([], e)
  drain_loop (suc fuel) e =
      let (popped, b) = pop_oldest e.buffer in
      elim popped [
        | none ↦ ([], e)
        | some pkt ↦ elim (e.awaiting_keyframe && is_inter_frame pkt) [
          | true ↦ drain_loop fuel (record e { buffer = record_drop b })
          | false ↦
              let (batch, e') = drain_loop fuel (record e {
                buffer = b;
                awaiting_keyframe = e.awaiting_keyframe && not (is_keyframe pkt);
              }) in
              (pkt ∷ batch, e')
        ]
      ]

  unfoldable pub drain_for_mux : Inner W O → List MediaPacket × Inner W O
  drain_for_mux e = let (batch, e') = drain_loop (len e.buffer) e in (sort_by_dts batch, e')

  unfoldable pub resync : Inner W O → ℕ × Inner W O
  resync e =
      let (b, n) = resync_keep_latest_keyframe is_keyframe e.buffer in (n, record e { buffer = b })

  unfoldable pub reset : ℕ → Inner W O → Inner W O
  reset now e = record e {
    buffer = Backpressure.new (packet_budget e.config.profile);
    metadata_written = false;
    muxed = 0;
    muxer = none;
    avcc = none;
    asc = none;
    timebase = none;
    awaiting_keyframe = false;
    last_sample_at = now;
    last_media_bytes = 0;
    last_wire_bytes = 0;
    output_codecs = (none, none);
  }
