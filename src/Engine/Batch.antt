-- ===== src/Engine/Batch.antt =====
-- core/src/engine.rs, `tick`, `finish` and `configure_codecs`: a drained batch to the muxer, the
-- transport and the outputs.
use strym_core.Common.{
  ℕ, suc, ◌-◌, Bool, true, false, ◌&&◌, Option, none, some, List, [], ◌∷◌, ◌++◌, if◌then◌else◌, leb,
  ltb, ◌==◌, length, take, drop, Bytes, add_u64,
}
use strym_core.Common.Result.{Result, ok, err, map_err, ◌>>◌, pure}
use strym_core.Models.{MediaPacket}
use strym_core.Backpressure.{restore_front, len}
use strym_core.Mux.{
  FlvMuxer, MuxError, Mux, ordering, rebase, write_metadata, init_codecs, write_packet, flush_sink,
}
use strym_core.Mux
use strym_core.Transport.{Transport}
use strym_core.Sink.{PacketSink}
use strym_core.Engine.{Inner, EngineError, mux, transport, drain_for_mux, or_else}

abbrev max_sample_gap : ℕ
max_sample_gap = 30_000_000_000

-- What a sample is computed from: the rates are the two differences by the time that has passed,
-- and zero after too long a gap.
pub record QosSample : Type 0 where
  pub elapsed : ℕ
  pub gap_ok : Bool
  pub media_bytes : ℕ
  pub wire_bytes : ℕ
  pub buffered_count : ℕ
  pub pushed : ℕ
  pub muxed : ℕ
  pub dropped : ℕ

module _ {W O : Type 0} (tr : Transport W) (out : PacketSink O) where
  -- One packet; when it is too late, once more behind a new origin.
  unfoldable pub write_or_rebase : MediaPacket → Mux W (Unit {0})
  write_or_rebase pkt m =
      let (r, m') = write_packet tr.write pkt m in
      elim r [
        | ok _ ↦ (ok tt, m')
        | err ordering ↦ write_packet tr.write pkt (rebase m' pkt.kind pkt.dts)
        | err e ↦ (err e, m')
      ]

  -- How many packets were sent, and the failure that ended the batch.
  unfoldable pub write_batch : List MediaPacket → FlvMuxer W → (ℕ × Option MuxError) × FlvMuxer W
  write_batch [] m = ((0, none), m)
  write_batch (p ∷ ps) m =
      let (r, m') = write_or_rebase p m in
      elim r [
        | ok _ ↦ (let ((sent, failure), m'') = write_batch ps m' in ((suc sent, failure), m''))
        | err e ↦ ((0, some e), m')
      ]

  -- The headers of a connection that has not had them.
  unfoldable pub prologue : Inner W O → Mux W (Unit {0})
  prologue e =
      (if e.metadata_written then pure tt else write_metadata tr.write e.config.stream)
      >> init_codecs tr.write e.avcc e.asc

  -- The muxer's part of a tick.
  unfoldable pub send :
      Inner W O → List MediaPacket → FlvMuxer W → (ℕ × Option MuxError) × FlvMuxer W
  send e batch m =
      let (r, m') = prologue e m in
      elim r [
        | err x ↦ ((0, some x), m')
        | ok _ ↦
            let ((sent, failure), m'') = write_batch batch m' in
            elim failure [
              | some x ↦ ((sent, some x), m'')
              | none ↦
                  let (q, m3) = flush_sink tr.write m'' in
                  ((sent, elim q [ ok _ ↦ none | err x ↦ some x ]), m3)
            ]
      ]

  -- Every output takes the packet; one that fails is removed.
  unfoldable pub feed_outputs : List O → MediaPacket → List O
  feed_outputs [] pkt = []
  feed_outputs (o ∷ os) pkt =
      let (r, o') = out.packet o pkt in
      let rest = feed_outputs os pkt in elim r [ ok _ ↦ o' ∷ rest | err _ ↦ rest ]

  unfoldable pub feed_each : List O → List MediaPacket → List O
  feed_each os [] = os
  feed_each os (p ∷ ps) = feed_each (feed_outputs os p) ps

  abbrev same_bytes : Bytes → Bytes → Bool
  same_bytes [] [] = true
  same_bytes (x ∷ xs) (y ∷ ys) = (x == y) && same_bytes xs ys
  same_bytes _ _ = false

  abbrev same_config : Option Bytes → Option Bytes → Bool
  same_config none none = true
  same_config (some a) (some b) = same_bytes a b
  same_config _ _ = false

  abbrev configure_each : List O → Option Bytes → Option Bytes → List O
  configure_each [] avcc asc = []
  configure_each (o ∷ os) avcc asc = out.codecs o avcc asc ∷ configure_each os avcc asc

  unfoldable pub sync_output_codecs : Inner W O → Inner W O
  sync_output_codecs e =
      if same_config e.output_codecs.0 e.avcc && same_config e.output_codecs.1 e.asc
      then e
      else record e {
        output_codecs = (e.avcc, e.asc);
        outputs = configure_each e.outputs e.avcc e.asc;
      }

  unfoldable pub attach_output : O → Inner W O → ℕ × Inner W O
  attach_output o e =
      let outputs = e.outputs ++ (out.codecs o e.avcc e.asc ∷ []) in
      (length outputs, record e { output_codecs = (e.avcc, e.asc); outputs = outputs })

  -- The state behind a batch that was sent whole, and behind one that was not.
  unfoldable pub settle : List MediaPacket → FlvMuxer W → Inner W O → Inner W O
  settle batch m e = sync_output_codecs (record e {
    metadata_written = true;
    avcc = or_else e.avcc m.avcc;
    asc = or_else e.asc m.asc;
  })

  unfoldable pub conclude :
      List MediaPacket
      → ℕ × Option MuxError
      → FlvMuxer W
      → Inner W O
      → Result EngineError ℕ × Inner W O
  conclude batch (sent, none) m e =
      let e' = settle batch m e in
      (ok (length batch), record e' { muxed = add_u64 e'.muxed (length batch) })
  conclude batch (sent, some x) m e = (
    err (mux x),
    record e { buffer = restore_front e.buffer (drop sent batch); muxed = add_u64 e.muxed sent },
  )

  abbrev media_bytes : Option (FlvMuxer W) → ℕ
  media_bytes none = 0
  media_bytes (some m) = m.bytes_written

  abbrev wire_bytes : Option (FlvMuxer W) → ℕ
  wire_bytes none = 0
  wire_bytes (some m) = tr.bytes_written m.sink

  unfoldable pub sample_qos : ℕ → Inner W O → Option QosSample × Inner W O
  sample_qos now e =
      let elapsed = now - e.last_sample_at in
      if ltb elapsed e.config.qos_interval then (none, e) else (
        some (record {
          elapsed = elapsed;
          gap_ok = leb elapsed max_sample_gap;
          media_bytes = media_bytes e.muxer - e.last_media_bytes;
          wire_bytes = wire_bytes e.muxer - e.last_wire_bytes;
          buffered_count = len e.buffer;
          pushed = e.buffer.pushed;
          muxed = e.muxed;
          dropped = e.buffer.dropped;
        }),
        record e {
          last_sample_at = now;
          last_media_bytes = media_bytes e.muxer;
          last_wire_bytes = wire_bytes e.muxer;
        },
      )

  -- `tick` behind the transport's health check.
  unfoldable pub tick_batch : FlvMuxer W → Inner W O → Result EngineError ℕ × Inner W O
  tick_batch m e =
      let (batch, e1) = drain_for_mux e in
      let (sent, m') = send e1 batch m in
      conclude batch sent m'
        (record e1 { muxer = some m'; outputs = feed_each e1.outputs (take sent.0 batch) })

  unfoldable pub tick : ℕ → Inner W O → (Result EngineError ℕ × Option QosSample) × Inner W O
  tick now e = elim e.muxer [
    | none ↦ ((ok 0, none), e)
    | some m ↦
        let (r, w) = tr.maintain m.sink in
        let m' = record m { sink = w } in
        let e' = record e { muxer = some m' } in
        elim r [
          | err x ↦ ((err (transport x), none), e')
          | ok _ ↦
              let (outcome, e2) = tick_batch m' e' in
              let (sample, e3) = sample_qos now e2 in ((outcome, sample), e3)
        ]
  ]

  unfoldable pub configure_codecs :
      Option Bytes → Option Bytes → Inner W O → Result EngineError (Unit {0}) × Inner W O
  configure_codecs avcc asc e =
      let e' = record e { avcc = or_else avcc e.avcc; asc = or_else asc e.asc } in
      elim e.muxer [
        | none ↦ (ok tt, e')
        | some m ↦
            let (r, m') = init_codecs tr.write avcc asc m in
            (map_err mux r, record e' { muxer = some m' })
      ]

  -- Packet by packet, each to the outputs when the muxer took it; the first failure ends `finish`.
  unfoldable pub finish_batch :
      List MediaPacket → FlvMuxer W → List O → (Option MuxError × FlvMuxer W) × List O
  finish_batch [] m os = ((none, m), os)
  finish_batch (p ∷ ps) m os =
      let (r, m') = write_packet tr.write p m in
      elim r [ ok _ ↦ finish_batch ps m' (feed_outputs os p) | err x ↦ ((some x, m'), os) ]

  abbrev finish_each : List O → List O
  finish_each [] = []
  finish_each (o ∷ os) = (out.finish o).1 ∷ finish_each os

  unfoldable pub finish : Inner W O → Result EngineError (Unit {0}) × Inner W O
  finish e = elim e.muxer [
    | none ↦ (ok tt, e)
    | some m ↦
        let (batch, e1) = drain_for_mux e in
        let ((failure, m1), os) = finish_batch batch m e1.outputs in
        let e2 = record e1 { muxer = some m1; outputs = os } in
        elim failure [
          | some x ↦ (err (mux x), e2)
          | none ↦
              let (r, m2) = Mux.finish tr.write m1 in
              elim r [
                | err x ↦ (err (mux x), record e2 { muxer = some m2 })
                | ok _ ↦
                    let e3 = record e2 { muxer = none; muxed = add_u64 e2.muxed (length batch) } in
                    elim ((tr.shutdown m2.sink).0) [
                      | err x ↦ (err (transport x), e3)
                      | ok _ ↦ (ok tt, record e3 { outputs = finish_each e3.outputs })
                    ]
              ]
        ]
  ]
