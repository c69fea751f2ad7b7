-- ===== src/Session/Retries.antt =====
-- What holds of a session between any two calls.
use strym_core.Common.{
  ℕ, ◌≡◌, ◌⊎◌, inl, inr, refl, true, false, Option, none, List, [], ◌∷◌, arith, Bytes, add_u32,
  Bool-cases,
}
use strym_core.Common.Result.{Result-cases}
use strym_core.Io.{IoError}
use strym_core.Models.{MediaPacket}
use strym_core.Mux.{FlvMuxer}
use strym_core.Transport.{Transport}
use strym_core.Sink.{PacketSink}
use strym_core.Engine
use strym_core.Engine.{Inner, EngineConfig, detach_transport, push_all, enforce_drop_policy}
use strym_core.Engine.Batch.{tick, finish, configure_codecs}
use strym_core.Session.{
  new, Connector, Backoff, SessionPolicy, Session, SessionState, idle, connected, reconnecting,
  exhausted, finished, Failure, start, step, end, retry, reconnect_phase, tick_connected,
  reconnected, attempt_failed, disconnect, stalled, stall, engine_failed, too_early, spent,
}

-- A session that has no connection has given its transport up; while it tries again it has either
-- just begun or made fewer attempts than its budget, and it gives up when the budget is used up.
abbrev pub Fits : {W : Type 0} → SessionState → Option (FlvMuxer W) → Option ℕ → ℕ → Type 0
Fits idle muxer max attempt = muxer ≡ none
Fits connected muxer max attempt = Unit {0}
Fits reconnecting muxer max attempt = (muxer ≡ none) × ((attempt ≡ 0) ⊎ (spent max attempt ≡ false))
Fits exhausted muxer max attempt = (muxer ≡ none) × (spent max attempt ≡ true)
Fits finished muxer max attempt = Unit {0}

module _ {C W O R : Type 0} where
  abbrev pub IsFitting : Session C W O R → Type 0
  IsFitting s = Fits s.state s.engine.muxer s.policy.max_attempts s.attempt

  disconnect-IsFitting :
      (why : Failure) (s : Session C W O R)
      → ((disconnect why s).state ≡ reconnecting) × IsFitting (disconnect why s)
  unfolding disconnect detach_transport
  disconnect-IsFitting why s = (refl, (refl, inl refl))

module _ {C W O R : Type 0} (cn : Connector C W) (tr : Transport W) (out : PacketSink O)
    (bo : Backoff R) where
  attempt_failed-IsFitting :
      (now : ℕ) (x : IoError) (c : C) (s : Session C W O R)
      → s.state ≡ reconnecting
      → s.engine.muxer ≡ none
      → IsFitting (attempt_failed cn tr out bo now x c s).1
  unfolding attempt_failed
  attempt_failed-IsFitting now x c s r n =
      elim (Bool-cases (spent s.policy.max_attempts (add_u32 s.attempt 1))) [
        | inl y ↦ rw (attempt_failed, y) (n, y)
        | inr m ↦ rw (attempt_failed, m) (rw r (n, inr m))
      ]

  reconnected-IsFitting :
      (now : ℕ) (w : W) (c : C) (s : Session C W O R)
      → IsFitting (reconnected cn tr out bo now w c s).1
  unfolding reconnected
  reconnected-IsFitting now w c s = tt

  reconnect_phase-IsFitting :
      (now : ℕ) (s : Session C W O R)
      → s.state ≡ reconnecting
      → IsFitting s
      → IsFitting (reconnect_phase cn tr out bo now s).1
  unfolding reconnect_phase
  reconnect_phase-IsFitting now s r h = elim (Bool-cases (too_early now s.next_attempt_at)) [
    | inl y ↦ rw (reconnect_phase, y) h
    | inr m ↦ elim (Result-cases (cn.connect s.connector).0) [
      | inl (w, q) ↦ rw (reconnect_phase, m, q) (reconnected-IsFitting now w _ s)
      | inr (x, q) ↦
          let f : Fits reconnecting s.engine.muxer s.policy.max_attempts s.attempt = rw r at h in
          rw (reconnect_phase, m, q) (attempt_failed-IsFitting now x _ s r f.0)
    ]
  ]

  lost-IsFitting :
      (now : ℕ) (why : Failure) (s : Session C W O R)
      → IsFitting (reconnect_phase cn tr out bo now (disconnect why s)).1
  lost-IsFitting now why s =
      let (r, h) = disconnect-IsFitting why s in
      reconnect_phase-IsFitting now (disconnect why s) r h

  tick_connected-IsFitting :
      (now : ℕ) (s : Session C W O R)
      → s.state ≡ connected
      → IsFitting (tick_connected cn tr out bo now s).1
  unfolding tick_connected
  tick_connected-IsFitting now s r = elim (Bool-cases (stalled cn tr out bo now s)) [
    | inl y ↦ rw (tick_connected, y) (lost-IsFitting now stall s)
    | inr m ↦ elim (Result-cases (tick tr out now s.engine).0.0) [
      | inl (n, q) ↦ rw (tick_connected, m, q) (rw r tt)
      | inr (x, q) ↦ rw (tick_connected, m, q) (lost-IsFitting now (engine_failed x) _)
    ]
  ]

  step-IsFitting :
      (now : ℕ) (s : Session C W O R) → IsFitting s → IsFitting (step cn tr out bo now s).1
  unfolding step
  step-IsFitting now s h = go s.state refl
    where
      go : (st : SessionState) → s.state ≡ st → IsFitting (step cn tr out bo now s).1
      go idle e = rw (step, e) h
      go connected e = rw (step, e) (tick_connected-IsFitting now s e)
      go reconnecting e = rw (step, e) (reconnect_phase-IsFitting now s e h)
      go exhausted e = rw (step, e) h
      go finished e = rw (step, e) h

  start-IsFitting :
      (now : ℕ) (s : Session C W O R) → IsFitting s → IsFitting (start cn tr out bo now s).1
  unfolding start
  start-IsFitting now s h = elim (Result-cases (cn.connect s.connector).0) [
    | inl (w, q) ↦ rw (start, q) tt
    | inr (x, q) ↦ rw (start, q) h
  ]

  end-IsFitting : (s : Session C W O R) → IsFitting s → IsFitting (end cn tr out bo s).1
  unfolding end
  end-IsFitting s h = go s.state refl
    where
      go : (st : SessionState) → s.state ≡ st → IsFitting (end cn tr out bo s).1
      go connected e = elim (Result-cases (finish tr out s.engine).0) [
        | inl (u, q) ↦ rw (end, e, q) tt
        | inr (x, q) ↦ rw (end, e, q) (rw e tt)
      ]
      go idle e = rw (end, e) tt
      go reconnecting e = rw (end, e) tt
      go exhausted e = rw (end, e) tt
      go finished e = rw (end, e) tt

  retry-IsFitting : (s : Session C W O R) → IsFitting s → IsFitting (retry s)
  unfolding retry
  retry-IsFitting s h = go s.state refl
    where
      go : (st : SessionState) → s.state ≡ st → IsFitting (retry s)
      go exhausted e =
          let f : Fits exhausted s.engine.muxer s.policy.max_attempts s.attempt = rw e at h in
          rw (retry, e) (f.0, inl refl)
      go idle e = rw (retry, e) h
      go connected e = rw (retry, e) h
      go reconnecting e = rw (retry, e) h
      go finished e = rw (retry, e) h

  -- The engine under a session changes only by such calls.
  with_engine :
      (s : Session C W O R) (e : Inner W O)
      → (s.engine.muxer ≡ none → e.muxer ≡ none)
      → IsFitting s
      → IsFitting (record s { engine = e })
  with_engine s e k h = go s.state refl
    where
      go : (st : SessionState) → s.state ≡ st → IsFitting (record s { engine = e })
      go idle r =
          let f : Fits idle s.engine.muxer s.policy.max_attempts s.attempt = rw r at h in rw r (k f)
      go connected r = rw r tt
      go reconnecting r =
          let f : Fits reconnecting s.engine.muxer s.policy.max_attempts s.attempt = rw r at h in
          rw r (k f.0, f.1)
      go exhausted r =
          let f : Fits exhausted s.engine.muxer s.policy.max_attempts s.attempt = rw r at h in
          rw r (k f.0, f.1)
      go finished r = rw r tt

  push_all-muxer :
      (ps : List MediaPacket) (e : Inner W O) → e.muxer ≡ none → (push_all ps e).muxer ≡ none
  unfolding push_all enforce_drop_policy
  push_all-muxer ps e n = ground (arith, n)

  configure-muxer :
      (avcc asc : Option Bytes) (e : Inner W O)
      → e.muxer ≡ none
      → (configure_codecs tr out avcc asc e).1.muxer ≡ none
  unfolding configure_codecs
  configure-muxer avcc asc e n = rw (configure_codecs, n) n

  pub data Call : Type 0 where
    starts steps : ℕ → Call
    ends retries : Call
    pushes : List MediaPacket → Call
    configures : Option Bytes → Option Bytes → Call

  unfoldable pub call : Session C W O R → Call → Session C W O R
  call s (starts now) = (start cn tr out bo now s).1
  call s (steps now) = (step cn tr out bo now s).1
  call s ends = (end cn tr out bo s).1
  call s retries = retry s
  call s (pushes ps) = record s { engine = push_all ps s.engine }
  call s (configures avcc asc) = record s { engine = (configure_codecs tr out avcc asc s.engine).1 }

  unfoldable pub run : Session C W O R → List Call → Session C W O R
  run s [] = s
  run s (c ∷ cs) = run (call s c) cs

  call-IsFitting : (s : Session C W O R) (c : Call) → IsFitting s → IsFitting (call s c)
  unfolding call
  call-IsFitting s (starts now) h = start-IsFitting now s h
  call-IsFitting s (steps now) h = step-IsFitting now s h
  call-IsFitting s ends h = end-IsFitting s h
  call-IsFitting s retries h = retry-IsFitting s h
  call-IsFitting s (pushes ps) h =
      with_engine s (push_all ps s.engine) (push_all-muxer ps s.engine) h
  call-IsFitting s (configures avcc asc) h =
      with_engine s (configure_codecs tr out avcc asc s.engine).1
        (configure-muxer avcc asc s.engine) h

  run-IsFitting : (s : Session C W O R) (cs : List Call) → IsFitting s → IsFitting (run s cs)
  unfolding run
  run-IsFitting s [] h = h
  run-IsFitting s (c ∷ cs) h = run-IsFitting (call s c) cs (call-IsFitting s c h)

  new-IsFitting :
      (config : EngineConfig) (now : ℕ) (c : C) (policy : SessionPolicy) (rng : R)
      → IsFitting (new {W = W} {O = O} config now c policy rng)
  unfolding new Engine.new
  new-IsFitting config now c policy rng = refl

  -- After any calls on a new session: while it is reconnecting or exhausted it holds no transport;
  -- while it is reconnecting it has just begun or has made fewer attempts than its budget allows,
  -- and it is exhausted only when the budget is used up.
  pub run-new-IsFitting :
      (config : EngineConfig) (now : ℕ) (c : C) (policy : SessionPolicy) (rng : R) (cs : List Call)
      → IsFitting (run (new config now c policy rng) cs)
  run-new-IsFitting config now c policy rng cs =
      run-IsFitting _ cs (new-IsFitting config now c policy rng)
