-- ===== src/Telemetry/Collector.antt =====
-- `Qos` of core/src/telemetry.rs: the collector that the engine writes and the host reads. A float is
-- its 64-bit pattern, and its arithmetic is a record of operations; a text is its characters. A sink
-- is known by a number, and a call of it, with what other threads do meanwhile, is any change of the
-- collector.
use strym_core.Common.{ℕ, Option, none, some, List, take, add_u64}
use strym_core.Common.Int.{ℤ}
use strym_core.Telemetry.Ring.{QosRing, new, push, len, clear, iter}

abbrev pub Text : Type 0
Text = List ℕ

abbrev pub max_error_len : ℕ
max_error_len = 512

pub record QosConfig : Type 0 where
  pub interval_ms : ℕ
  pub capacity : ℕ

abbrev pub default_config : QosConfig
default_config = record { interval_ms = 1000; capacity = 4096 }

pub record QosSample : Type 0 where
  pub wall_ms : ℕ
  pub uptime_ms : ℕ
  pub bitrate_out_bps : ℕ
  pub throughput_bps : ℕ
  pub drop_ratio : ℕ
  pub buffer_ms : ℤ
  pub buffered_count : ℕ
  pub rtt_ms : Option ℕ
  pub reconnects : ℕ
  pub reconnect_attempts : ℕ
  pub pushed : ℕ
  pub muxed : ℕ
  pub dropped : ℕ
  pub last_error : Option Text

pub data QosEvent : Type 0 where
  started connected : QosEvent
  disconnected : Option Text → QosEvent
  reconnect_attempt : ℕ → Option Text → QosEvent
  reconnected : QosEvent
  gave_up : ℕ → Option Text → QosEvent
  finished : QosEvent

pub record Qos : Type 0 where
  pub ring : QosRing QosSample
  pub sample_sink : Option ℕ
  pub event_sink : Option ℕ
  pub reconnects : ℕ
  pub reconnect_attempts : ℕ
  pub last_error : Option Text

unfoldable pub new_qos : QosConfig → Qos
new_qos config = record {
  ring = new config.capacity;
  sample_sink = none;
  event_sink = none;
  reconnects = 0;
  reconnect_attempts = 0;
  last_error = none;
}

unfoldable pub set_sink : Option ℕ → Qos → Qos
set_sink sink q = record q { sample_sink = sink }

unfoldable pub set_event_sink : Option ℕ → Qos → Qos
set_event_sink sink q = record q { event_sink = sink }

unfoldable pub set_last_error : Text → Qos → Qos
set_last_error error q = record q { last_error = some (take max_error_len error) }

abbrev pub note_error : Option Text → Qos → Qos
note_error none q = q
note_error (some error) q = set_last_error error q

-- The counters of an event.
unfoldable pub count : QosEvent → Qos → Qos
count reconnected q = record q { reconnects = add_u64 q.reconnects 1 }
count (reconnect_attempt attempt error) q =
    note_error error (record q { reconnect_attempts = add_u64 q.reconnect_attempts 1 })
count (disconnected error) q = note_error error q
count (gave_up attempts error) q = note_error error q
count started q = q
count connected q = q
count finished q = q

-- A sink goes back unless another one was installed while it ran.
unfoldable pub restore_sink : ℕ → Qos → Qos
restore_sink sink q = elim q.sample_sink [
  | none ↦ record q { sample_sink = some sink }
  | some other ↦ q
]

unfoldable pub restore_event_sink : ℕ → Qos → Qos
restore_event_sink sink q = elim q.event_sink [
  | none ↦ record q { event_sink = some sink }
  | some other ↦ q
]

module _ (call : ℕ → QosSample → Qos → Qos) (notify : ℕ → QosEvent → Qos → Qos) where
  -- `none` is a panic of the ring.
  unfoldable pub emit_sample : QosSample → Qos → Option Qos
  emit_sample sample q = elim (push q.ring sample) [
    | none ↦ none
    | some ring ↦
        (let taken = record q { ring = ring; sample_sink = none } in
          elim q.sample_sink [
            | none ↦ some taken
            | some sink ↦ some (restore_sink sink (call sink sample taken))
          ])
  ]

  unfoldable pub record_event : QosEvent → Qos → Qos
  record_event event q =
      let counted = count event q in
      elim counted.event_sink [
        | none ↦ counted
        | some sink ↦
            restore_event_sink sink (notify sink event (record counted { event_sink = none }))
      ]

unfoldable pub sample_count : Qos → ℕ
sample_count q = len q.ring

unfoldable pub samples : Qos → Option (List QosSample)
samples q = iter q.ring

unfoldable pub reset : Qos → Qos
reset q = record q {
  ring = clear q.ring;
  reconnects = 0;
  reconnect_attempts = 0;
  last_error = none;
}
