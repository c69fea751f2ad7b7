-- ===== src/Session.antt =====
-- core/src/session.rs: a stream that outlives its connections. Time is a number of nanoseconds that
-- each call is given; within a call the clock stands still.
pub mod Attempts
pub mod Retries
use strym_core.Common.{
  ℕ, zero, suc, ◌+◌, ◌-◌, Bool, true, false, Option, none, some, List, [], ◌∷◌, if◌then◌else◌, leb,
  ltb, add_u64, add_u32, Bytes,
}
use strym_core.Common.Result.{Result, ok, err, map_err}
use strym_core.Io.{IoError}
use strym_core.Models.{MediaPacket}
use strym_core.Transport.{Transport}
use strym_core.Sink.{PacketSink}
use strym_core.Engine.{
  Inner, EngineConfig, EngineError, push, push_all, attach_transport, detach_transport,
}
use strym_core.Engine
use strym_core.Engine.Batch.{tick, finish, configure_codecs}
use strym_core.Engine.Batch

-- `Connector`: where transports come from.
pub record Connector (C W : Type 0) : Type 0 where
  pub connect : C → Result IoError W × C

-- `ReconnectPolicy::delay`, for a 1-based attempt: it computes with floating point, and is a
-- parameter here, with the state of the jitter's generator.
pub record Backoff (R : Type 0) : Type 0 where
  pub delay : ℕ → R → ℕ × R

pub record SessionPolicy : Type 0 where
  pub max_attempts : Option ℕ
  pub stall_timeout : ℕ

pub data SessionState : Type 0 where
  idle connected reconnecting exhausted finished : SessionState

-- The description of the last failure, of which the kind is kept.
pub data Failure : Type 0 where
  stall : Failure
  engine_failed : EngineError → Failure
  connect_failed : IoError → Failure

pub data SessionError : Type 0 where
  engine : EngineError → SessionError
  connect : IoError → SessionError
  give_up : ℕ → Option Failure → SessionError
  not_started already_finished : SessionError

pub record Session (C W O R : Type 0) : Type 0 where
  pub engine : Inner W O
  pub connector : C
  pub policy : SessionPolicy
  pub rng : R
  pub state : SessionState
  pub attempt : ℕ
  pub next_attempt_at : Option ℕ
  pub reconnects : ℕ
  pub last_error : Option Failure

-- The backoff of the next attempt has not elapsed.
abbrev pub too_early : ℕ → Option ℕ → Bool
too_early now none = false
too_early now (some at) = ltb now at

-- The retry budget is used up.
abbrev pub spent : Option ℕ → ℕ → Bool
spent none attempt = false
spent (some max) attempt = leb max attempt

module _ {C W O R : Type 0} where
  unfoldable pub new : EngineConfig → ℕ → C → SessionPolicy → R → Session C W O R
  new config now connector policy rng = record {
    engine = Engine.new config now;
    connector = connector;
    policy = policy;
    rng = rng;
    state = idle;
    attempt = 0;
    next_attempt_at = none;
    reconnects = 0;
    last_error = none;
  }

  unfoldable pub disconnect : Failure → Session C W O R → Session C W O R
  disconnect why s = record s {
    engine = detach_transport s.engine;
    state = reconnecting;
    attempt = 0;
    next_attempt_at = none;
    last_error = some why;
  }

  unfoldable pub retry : Session C W O R → Session C W O R
  retry s = elim s.state [
    | exhausted ↦ record s { state = reconnecting; attempt = 0; next_attempt_at = none }
    | _ ↦ s
  ]

module _ {C W O R : Type 0} (cn : Connector C W) (tr : Transport W) (out : PacketSink O)
    (bo : Backoff R) where
  unfoldable pub start : ℕ → Session C W O R → Result SessionError (Unit {0}) × Session C W O R
  start now s =
      let (r, c) = cn.connect s.connector in
      elim r [
        | ok w ↦ (
          ok tt,
          record s {
            engine = (attach_transport w now s.engine).1;
            connector = c;
            state = connected;
          },
        )
        | err x ↦
            (err (connect x), record s { connector = c; last_error = some (connect_failed x) })
      ]

  -- A connection came up: the engine drains into it at once.
  unfoldable pub reconnected : ℕ → W → C → Session C W O R → Result SessionError ℕ × Session C W O R
  reconnected now w c s =
      let ((outcome, sample), e) = tick tr out now (attach_transport w now s.engine).1 in
      (
        map_err engine outcome,
        record s {
          engine = e;
          connector = c;
          state = connected;
          attempt = 0;
          next_attempt_at = none;
          reconnects = add_u64 s.reconnects 1;
        },
      )

  -- An attempt failed: the next one is scheduled, or there is none.
  unfoldable pub attempt_failed :
      ℕ → IoError → C → Session C W O R → Result SessionError ℕ × Session C W O R
  attempt_failed now x c s =
      let attempt = add_u32 s.attempt 1 in
      let s' = record s {
        connector = c;
        attempt = attempt;
        last_error = some (connect_failed x);
      } in
      if spent s.policy.max_attempts attempt
      then (err (give_up attempt (some (connect_failed x))), record s' { state = exhausted })
      else (let (delay, rng) = bo.delay attempt s.rng in
          (ok 0, record s' { rng = rng; next_attempt_at = some (now + delay) }))

  unfoldable pub reconnect_phase : ℕ → Session C W O R → Result SessionError ℕ × Session C W O R
  reconnect_phase now s =
      if too_early now s.next_attempt_at
      then (ok 0, s)
      else (let (r, c) = cn.connect s.connector in
          elim r [ ok w ↦ reconnected now w c s | err x ↦ attempt_failed now x c s ])

  unfoldable pub stalled : ℕ → Session C W O R → Bool
  stalled now s = elim s.engine.muxer [
    | none ↦ false
    | some m ↦ elim (tr.last_progress m.sink) [
      | none ↦ false
      | some last ↦ leb s.policy.stall_timeout (now - last)
    ]
  ]

  unfoldable pub tick_connected : ℕ → Session C W O R → Result SessionError ℕ × Session C W O R
  tick_connected now s =
      if stalled now s
      then reconnect_phase now (disconnect stall s)
      else (let ((outcome, sample), e) = tick tr out now s.engine in
          elim outcome [
            | ok n ↦ (ok n, record s { engine = e })
            | err x ↦ reconnect_phase now (disconnect (engine_failed x) (record s { engine = e }))
          ])

  unfoldable pub step : ℕ → Session C W O R → Result SessionError ℕ × Session C W O R
  step now s = elim s.state [
    | idle ↦ (err not_started, s)
    | finished ↦ (err already_finished, s)
    | exhausted ↦ (err (give_up s.attempt s.last_error), s)
    | connected ↦ tick_connected now s
    | reconnecting ↦ reconnect_phase now s
  ]

  unfoldable pub end : Session C W O R → Result SessionError (Unit {0}) × Session C W O R
  end s = elim s.state [
    | connected ↦
        let (r, e) = finish tr out s.engine in
        elim r [
          | ok _ ↦ (ok tt, record s { engine = e; state = finished })
          | err x ↦ (err (engine x), record s { engine = e })
        ]
    | _ ↦ (ok tt, record s { state = finished })
  ]
