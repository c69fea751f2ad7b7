-- ===== src/Sink.antt =====
-- core/src/sink.rs: outputs that take packets. `PacketSink` is the trait's record of operations,
-- `RecordingOutput` an FLV recording with a muxer of its own.
use strym_core.Common.{Bool, true, false, Option, Bytes, if◌then◌else◌}
use strym_core.Common.Result.{Result, ok, err, map_err, Action, ◌>>◌, modify}
use strym_core.Io.{IoError, other}
use strym_core.Models.{MediaPacket, StreamConfig}
use strym_core.Mux.{
  FlvMuxer, MuxError, io, ordering, rebase, write_metadata, init_codecs, write_packet,
}
use strym_core.Mux
use strym_core.Transport.{Transport}

pub record PacketSink (O : Type 0) : Type 0 where
  pub codecs : O → Option Bytes → Option Bytes → O
  pub packet : O → MediaPacket → Result IoError (Unit {0}) × O
  pub finish : O → Result IoError (Unit {0}) × O

pub record RecordingOutput (W : Type 0) : Type 0 where
  pub muxer : FlvMuxer W
  pub metadata : StreamConfig
  pub metadata_written : Bool
  pub finished : Bool

unfoldable pub new : {W : Type 0} → W → StreamConfig → RecordingOutput W
new transport metadata = record {
  muxer = Mux.new transport;
  metadata = metadata;
  metadata_written = false;
  finished = false;
}

-- `io::Error::other` of an error's text; `packet` keeps an I/O error as it is.
abbrev pub other_error : MuxError → IoError
other_error e = other

abbrev pub io_error : MuxError → IoError
io_error e = elim e [ io x ↦ x | _ ↦ other ]

module _ {W : Type 0} (tr : Transport W) where
  -- A muxer's call, in the recording.
  abbrev pub on_muxer :
      (FlvMuxer W → Result MuxError (Unit {0}) × FlvMuxer W)
      → (MuxError → IoError)
      → Action (RecordingOutput W) IoError (Unit {0})
  on_muxer call f o = let (r, m) = call o.muxer in (map_err f r, record o { muxer = m })

  unfoldable pub ensure_metadata : Action (RecordingOutput W) IoError (Unit {0})
  ensure_metadata o =
      if o.metadata_written
      then (ok tt, o)
      else (on_muxer (write_metadata tr.write o.metadata) other_error
            >> modify (λ o. record o { metadata_written = true }))
          o

  -- The failure is logged only.
  unfoldable pub codecs : RecordingOutput W → Option Bytes → Option Bytes → RecordingOutput W
  codecs o avcc asc =
      if o.finished
      then o
      else ((ensure_metadata >> on_muxer (init_codecs tr.write avcc asc) other_error) o).1

  -- A packet that comes too late moves the origin, and is written then.
  unfoldable pub write_or_rebase :
      MediaPacket → FlvMuxer W → Result MuxError (Unit {0}) × FlvMuxer W
  write_or_rebase pkt m =
      let (r, m') = write_packet tr.write pkt m in
      elim r [
        | ok _ ↦ (ok tt, m')
        | err ordering ↦ write_packet tr.write pkt (rebase m' pkt.kind pkt.dts)
        | err e ↦ (err e, m')
      ]

  unfoldable pub packet :
      RecordingOutput W → MediaPacket → Result IoError (Unit {0}) × RecordingOutput W
  packet o pkt =
      if o.finished
      then (ok tt, o)
      else (ensure_metadata >> on_muxer (write_or_rebase pkt) io_error) o

  unfoldable pub finish : RecordingOutput W → Result IoError (Unit {0}) × RecordingOutput W
  finish o =
      if o.finished
      then (ok tt, o)
      else (on_muxer (Mux.finish tr.write) other_error >> λ o.
            let (r, w) = tr.shutdown o.muxer.sink in
            (r, record o { muxer = record (o.muxer) { sink = w } }))
          (record o { finished = true })

  abbrev pub recording : PacketSink (RecordingOutput W)
  recording = record { codecs = codecs; packet = packet; finish = finish }
