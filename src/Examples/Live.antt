-- ===== src/Examples/Live.antt =====
-- Tests and witnesses of the engine, its outputs and the session.
use strym_core.Common.{ℕ, ◌≡◌, refl, true, false, some, none, List, [], ◌∷◌, arith, length, Bytes}
use strym_core.Common.Int.{pos}
use strym_core.Common.Result.{ok, err}
use strym_core.Io.{vec_write, broken_pipe}
use strym_core.Models.{MediaPacket, StreamConfig, audio, video}
use strym_core.Backpressure.{len, resync_keep_latest_keyframe, rposition}
use strym_core.Transport.{Transport}
use strym_core.Sink.{RecordingOutput, PacketSink, recording}
use strym_core.Engine
use strym_core.Engine.{
  Inner, EngineConfig, balanced, detach_transport, attach_transport, push, drain_loop, is_some,
  snapshot,
}
use strym_core.Engine.Sound.{IsSound, Call, pushes, attaches, ticks, detaches, run, run-new-IsSound}
use strym_core.Engine.Resume.{decodable}
use strym_core.Engine.Restart.{pushed_in_turn, detach-push-drain-decodable}
use strym_core.Session.{Connector, Backoff, Session, reconnecting, exhausted}
use strym_core.Session.Retries.{run-new-IsFitting, starts, steps, ends, IsFitting}
use strym_core.Session.Retries
use strym_core.Session
use strym_core.Sink
use strym_core.Pipeline.Recording
use strym_core.Pipeline.Recording.{IsRecorded, configures, packets, finishes, run-new-IsRecorded}
use strym_core.Session.Attempts.{pump, dial, pump-exhausted}

abbrev vec : Transport Bytes
vec = record {
  write = vec_write;
  shutdown = λ v. (ok tt, v);
  maintain = λ v. (ok tt, v);
  bytes_written = length;
  last_progress = λ v. none;
}

abbrev files : PacketSink (RecordingOutput Bytes)
files = recording vec

abbrev stream : StreamConfig
stream = record {
  width = 1280;
  height = 720;
  framerate = 0;
  video_bitrate = 2000;
  audio_bitrate = 128;
  sample_rate = 44100;
}

abbrev config : EngineConfig
config = record { stream = stream; profile = balanced; qos_interval = 1_000_000_000 }

abbrev sound_bite : ℕ → MediaPacket
sound_bite t = record {
  kind = audio;
  pts = pos t;
  dts = pos t;
  is_key = false;
  payload = 0xff ∷ 0xf1 ∷ 0x50 ∷ 0x80 ∷ 0x01 ∷ 0x7f ∷ 0xfc ∷ 0x21 ∷ [];
}

abbrev day : List (Call Bytes (RecordingOutput Bytes))
day =
    pushes (sound_bite 0)
    ∷ attaches [] 5
    ∷ ticks 10
    ∷ pushes (sound_bite 20)
    ∷ detaches
    ∷ attaches [] 30
    ∷ ticks 40
    ∷ []

run-new-IsSound_example : IsSound (run vec files (Engine.new config 0) day)
run-new-IsSound_example = run-new-IsSound vec files config 0 day

-- A stream with a configuration, and an inter-frame first in the buffer.
abbrev waiting : Inner Bytes (RecordingOutput Bytes)
waiting = record (Engine.new config 0) {
  avcc = some (1 ∷ []);
  buffer = record {
    queue = record { kind = video; pts = pos 0; dts = pos 0; is_key = false; payload = [] } ∷ [];
    capacity = 120;
    dropped = 0;
    pushed = 1;
  };
}

detach-push-drain-decodable_example :
    let s =
      (attach_transport [] 7 (pushed_in_turn (sound_bite 20 ∷ []) (detach_transport waiting))).1 in
    decodable (drain_loop (len s.buffer) s).0 ≡ true
detach-push-drain-decodable_example =
    detach-push-drain-decodable waiting (sound_bite 20 ∷ []) [] 7
      (unfold detach_transport in unfold snapshot in unfold Engine.new in refl)
      (unfold detach_transport in
        unfold snapshot in
        unfold Engine.new in unfold resync_keep_latest_keyframe in unfold rposition in omega arith)

abbrev nowhere : Connector ℕ Bytes
nowhere = record { connect = λ n. (err broken_pipe, n) }

abbrev linear : Backoff ℕ
linear = record { delay = λ attempt r. (attempt, r) }

abbrev lost : Session ℕ Bytes (RecordingOutput Bytes) ℕ
lost = record {
  engine = waiting;
  connector = 0;
  policy = record { max_attempts = some 3; stall_timeout = 10 };
  rng = 0;
  state = reconnecting;
  attempt = 0;
  next_attempt_at = none;
  reconnects = 0;
  last_error = none;
}

pump-exhausted_example :
    ((pump nowhere vec files linear 3 lost).connector ≡ dial nowhere vec files linear 3 0)
    × ((pump nowhere vec files linear 3 lost).attempt ≡ 3)
    × ((pump nowhere vec files linear 3 lost).state ≡ exhausted)
pump-exhausted_example =
    pump-exhausted nowhere vec files linear (λ c. (broken_pipe, refl)) 3 3 lost refl refl
      (omega arith) (omega arith) (omega arith)

run-new-IsFitting_example : IsFitting (
    Retries.run nowhere vec files linear
      (Session.new config 0 7 lost.policy 0)
      (starts 1 ∷ steps 2 ∷ ends ∷ []))
run-new-IsFitting_example =
    run-new-IsFitting nowhere vec files linear config 0 7 lost.policy 0
      (starts 1 ∷ steps 2 ∷ ends ∷ [])

run-new-IsRecorded_example : IsRecorded (
    Recording.run
      (Sink.new [] stream)
      (configures none (some (0x12 ∷ 0x10 ∷ [])) ∷ packets (sound_bite 7) ∷ finishes ∷ []))
run-new-IsRecorded_example =
    run-new-IsRecorded stream
      (configures none (some (0x12 ∷ 0x10 ∷ [])) ∷ packets (sound_bite 7) ∷ finishes ∷ [])
