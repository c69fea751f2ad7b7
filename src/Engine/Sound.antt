-- ===== src/Engine/Sound.antt =====
-- Over any calls of the engine no packet is lost without being counted.
use strym_core.Common.{
  ℕ, suc, ◌+◌, ◌-◌, ◌≤◌, ◌≡◌, refl, ap, List, [], ◌∷◌, Option, some, none, arith, length,
  length-drop, drop, Option-cases, Bool-cases, inl, inr, leb, ltb, Bytes,
}
use strym_core.Common.Result.{Result-cases}
use strym_core.Models.{MediaPacket}
use strym_core.Backpressure.{BoundedBuffer, len, restore_front, resync_keep_latest_keyframe}
use strym_core.Backpressure
use strym_core.Mux.{FlvMuxer, MuxError}
use strym_core.Transport.{Transport}
use strym_core.Sink.{PacketSink}
use strym_core.Engine
use strym_core.Engine.{
  Inner, EngineConfig, EngineError, LatencyProfile, packet_budget, cut_threshold, push, push_all,
  push_each, enforce_drop_policy, attach_transport, detach_transport, snapshot, resync, reset,
  drain_for_mux, is_keyframe,
}
use strym_core.Engine.Batch.{
  write_or_rebase, write_batch, prologue, send, conclude, settle, sync_output_codecs, sample_qos,
  tick_batch, tick, configure_codecs, attach_output,
}
use strym_core.Engine.Account.{
  Accounts, push-Accounts, push_each-Accounts, resync-Accounts, restore-Accounts, Accounts-add_u64,
}
use strym_core.Engine.Drains.{drain_for_mux-Drains}

fresh :
    (config : EngineConfig)
    → Accounts (packet_budget config.profile) 0 (Backpressure.new (packet_budget config.profile))
unfolding Backpressure.new
fresh config = record {
  budget = refl;
  room = unfold packet_budget in ground arith;
  bound = omega arith;
  balance = omega arith;
}

module _ {W O : Type 0} where
  -- What was pushed is held, muxed or dropped, modulo the counters' 2 ^ 64; and the buffer keeps
  -- to the profile's budget.
  abbrev pub IsSound : Inner W O → Type 0
  IsSound e = Accounts (packet_budget e.config.profile) e.muxed e.buffer

  enforce-IsSound : (e : Inner W O) → IsSound e → IsSound (enforce_drop_policy e)
  unfolding enforce_drop_policy
  enforce-IsSound e h = elim (Option-cases (cut_threshold e.config.profile)) [
    | inl q ↦ rw (enforce_drop_policy, q) h
    | inr (t, q) ↦ elim (Bool-cases (leb t (len e.buffer))) [
      | inl y ↦ rw (enforce_drop_policy, q, y) (resync-Accounts is_keyframe _ _ e.buffer h)
      | inr n ↦ rw (enforce_drop_policy, q, n) h
    ]
  ]

  snapshot-IsSound : (e : Inner W O) → IsSound e → IsSound (snapshot e)
  unfolding snapshot
  snapshot-IsSound e h = elim (Option-cases e.muxer) [
    | inl q ↦ rw (snapshot, q) h
    | inr (m, q) ↦ rw (snapshot, q) h
  ]

  pub detach-IsSound : (e : Inner W O) → IsSound e → IsSound (detach_transport e)
  unfolding detach_transport
  detach-IsSound e h = resync-Accounts is_keyframe _ _ (snapshot e).buffer (snapshot-IsSound e h)

  pub push-IsSound : (p : MediaPacket) (e : Inner W O) → IsSound e → IsSound (push p e)
  unfolding push
  push-IsSound p e h = enforce-IsSound _ (push-Accounts _ _ e.buffer p h)

  pub push_all-IsSound :
      (ps : List MediaPacket) (e : Inner W O) → IsSound e → IsSound (push_all ps e)
  unfolding push_all
  push_all-IsSound ps e h = enforce-IsSound _ (push_each-Accounts _ _ ps e.buffer h)

  pub attach-IsSound :
      (w : W) (now : ℕ) (e : Inner W O) → IsSound e → IsSound (attach_transport w now e).1
  unfolding attach_transport
  attach-IsSound w now e h = h

  pub resync-IsSound : (e : Inner W O) → IsSound e → IsSound (resync e).1
  unfolding resync
  resync-IsSound e h = resync-Accounts is_keyframe _ _ e.buffer h

  pub new-IsSound :
      (config : EngineConfig) (now : ℕ) (e : Inner W O) → e ≡ Engine.new config now → IsSound e
  unfolding Engine.new
  new-IsSound config now e q = rw q (fresh config)

  pub reset-IsSound : (now : ℕ) (e : Inner W O) → IsSound (reset now e)
  unfolding reset
  reset-IsSound now e = fresh e.config

module _ {W O : Type 0} (tr : Transport W) (out : PacketSink O) where
  write_batch-sent :
      (ps : List MediaPacket) (m : FlvMuxer W)
      → let r = (write_batch tr out ps m).0 in (r.0 ≤ length ps) × (r.1 ≡ none → r.0 ≡ length ps)
  unfolding write_batch
  write_batch-sent [] m = (omega arith, λ e. refl)
  write_batch-sent (p ∷ ps) m = elim (Result-cases (write_or_rebase tr out p m).0) [
    | inl (u, q) ↦
        let (l, all) = write_batch-sent ps (write_or_rebase tr out p m).1 in
        rw (write_batch, q) (omega (arith, l), λ n. ap suc (all n))
    | inr (x, q) ↦ rw (write_batch, q) (omega arith, λ n. cc n)
  ]

  send-sent :
      (e : Inner W O) (ps : List MediaPacket) (m : FlvMuxer W)
      → let r = (send tr out e ps m).0 in (r.0 ≤ length ps) × (r.1 ≡ none → r.0 ≡ length ps)
  unfolding send
  send-sent e ps m = elim (Result-cases (prologue tr out e m).0) [
    | inr (x, q) ↦ rw (send, q) (omega arith, λ n. cc n)
    | inl (u, q) ↦
        let m' = (prologue tr out e m).1 in
        let (l, all) = write_batch-sent ps m' in
        elim (Option-cases (write_batch tr out ps m').0.1) [
          | inr (x, f) ↦ rw (send, q, f) (l, λ n. cc n)
          | inl f ↦ rw (send, q, f) (l, λ n. all f)
        ]
  ]

  sync-same :
      (e : Inner W O)
      → ((sync_output_codecs tr out e).buffer ≡ e.buffer)
        × ((sync_output_codecs tr out e).muxed ≡ e.muxed)
        × ((sync_output_codecs tr out e).config ≡ e.config)
  unfolding sync_output_codecs
  sync-same e = ground arith

  settle-same :
      (ps : List MediaPacket) (m : FlvMuxer W) (e : Inner W O)
      → ((settle tr out ps m e).buffer ≡ e.buffer)
        × ((settle tr out ps m e).muxed ≡ e.muxed)
        × ((settle tr out ps m e).config ≡ e.config)
  unfolding settle
  settle-same ps m e = sync-same _

  conclude-IsSound :
      (ps : List MediaPacket) (sent : ℕ) (failure : Option MuxError) (m : FlvMuxer W)
      (e : Inner W O)
      → Accounts (packet_budget e.config.profile) (e.muxed + length ps) e.buffer
      → e.buffer.queue ≡ []
      → length ps ≤ e.buffer.capacity
      → sent ≤ length ps
      → IsSound (conclude tr out ps (sent, failure) m e).1
  unfolding conclude
  conclude-IsSound ps sent none m e h q l s =
      let (b, k, c) = settle-same ps m e in
      rw (b, k, c) (Accounts-add_u64 _ e.muxed (length ps) e.buffer h)
  conclude-IsSound ps sent (some x) m e h q l s =
      restore-Accounts _ _ e.buffer (drop sent ps)
        (record {
          budget = h.budget;
          room = h.room;
          bound = h.bound;
          balance = omega (arith, h.balance, length-drop sent ps);
        })
        (omega (arith, length-drop sent ps, ap length q))

  tick_batch-IsSound :
      (m : FlvMuxer W) (e : Inner W O) → IsSound e → IsSound (tick_batch tr out m e).1
  unfolding tick_batch
  tick_batch-IsSound m e h =
      let d = drain_for_mux-Drains _ _ e h in
      let (batch, e1) = drain_for_mux e in
      conclude-IsSound batch _ _ _ _ (rw (d.muxed, d.config) d.accounts) d.empty
        (omega (arith, d.fits, d.accounts.budget, h.budget, h.bound)) (send-sent e1 batch m).0

  sample-IsSound : (now : ℕ) (e : Inner W O) → IsSound e → IsSound (sample_qos tr out now e).1
  unfolding sample_qos
  sample-IsSound now e h = elim (Bool-cases (ltb (now - e.last_sample_at) e.config.qos_interval)) [
    | inl y ↦ rw (sample_qos, y) h
    | inr n ↦ rw (sample_qos, n) h
  ]

  tick-IsSound : (now : ℕ) (e : Inner W O) → IsSound e → IsSound (tick tr out now e).1
  unfolding tick
  tick-IsSound now e h = elim (Option-cases e.muxer) [
    | inl q ↦ rw (tick, q) h
    | inr (m, q) ↦ elim (Result-cases (tr.maintain m.sink).0) [
      | inr (x, r) ↦ rw (tick, q, r) h
      | inl (u, r) ↦
          let m' = record m { sink = (tr.maintain m.sink).1 } in
          rw (tick, q, r)
            (sample-IsSound now (tick_batch tr out m' (record e { muxer = some m' })).1
              (tick_batch-IsSound m' (record e { muxer = some m' }) h))
    ]
  ]

  configure-IsSound :
      (avcc asc : Option Bytes) (e : Inner W O)
      → IsSound e
      → IsSound (configure_codecs tr out avcc asc e).1
  unfolding configure_codecs
  configure-IsSound avcc asc e h = elim (Option-cases e.muxer) [
    | inl q ↦ rw (configure_codecs, q) h
    | inr (m, q) ↦ rw (configure_codecs, q) h
  ]

  attach_output-IsSound : (o : O) (e : Inner W O) → IsSound e → IsSound (attach_output tr out o e).1
  unfolding attach_output
  attach_output-IsSound o e h = h

-- The calls of an engine's life up to its end, which is `finish`.
pub data Call (W O : Type 0) : Type 0 where
  pushes : MediaPacket → Call W O
  pushes_all : List MediaPacket → Call W O
  attaches : W → ℕ → Call W O
  detaches resyncs : Call W O
  resets ticks : ℕ → Call W O
  configures : Option Bytes → Option Bytes → Call W O
  attaches_output : O → Call W O

module _ {W O : Type 0} (tr : Transport W) (out : PacketSink O) where
  unfoldable pub call : Inner W O → Call W O → Inner W O
  call e (pushes p) = push p e
  call e (pushes_all ps) = push_all ps e
  call e (attaches w now) = (attach_transport w now e).1
  call e detaches = detach_transport e
  call e resyncs = (resync e).1
  call e (resets now) = reset now e
  call e (ticks now) = (tick tr out now e).1
  call e (configures avcc asc) = (configure_codecs tr out avcc asc e).1
  call e (attaches_output o) = (attach_output tr out o e).1

  unfoldable pub run : Inner W O → List (Call W O) → Inner W O
  run e [] = e
  run e (c ∷ cs) = run (call e c) cs

  call-IsSound : (e : Inner W O) (c : Call W O) → IsSound e → IsSound (call e c)
  unfolding call
  call-IsSound e (pushes p) h = push-IsSound p e h
  call-IsSound e (pushes_all ps) h = push_all-IsSound ps e h
  call-IsSound e (attaches w now) h = attach-IsSound w now e h
  call-IsSound e detaches h = detach-IsSound e h
  call-IsSound e resyncs h = resync-IsSound e h
  call-IsSound e (resets now) h = reset-IsSound now e
  call-IsSound e (ticks now) h = tick-IsSound tr out now e h
  call-IsSound e (configures avcc asc) h = configure-IsSound tr out avcc asc e h
  call-IsSound e (attaches_output o) h = attach_output-IsSound tr out o e h

  run-IsSound : (e : Inner W O) (cs : List (Call W O)) → IsSound e → IsSound (run e cs)
  unfolding run
  run-IsSound e [] h = h
  run-IsSound e (c ∷ cs) h = run-IsSound (call e c) cs (call-IsSound e c h)

  -- Over any calls short of `finish`, failed ticks and lost transports included, the packets that
  -- a new engine was given are those that were muxed, were dropped or are in the buffer, modulo
  -- the counters' 2 ^ 64, and the buffer never holds more packets than the profile's budget.
  pub run-new-IsSound :
      (config : EngineConfig) (now : ℕ) (cs : List (Call W O))
      → IsSound (run (Engine.new config now) cs)
  run-new-IsSound config now cs = run-IsSound _ cs (new-IsSound config now _ refl)
