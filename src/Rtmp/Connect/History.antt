-- ===== src/Rtmp/Connect/History.antt =====
-- A connection (core/src/rtmp/mod.rs) from `connect` on: the probes that go without an answer.
use strym_core.Common.{ℕ, ◌≤◌, ◌≡◌, ◌≢◌, refl, Option, none, some, List, [], ◌∷◌, arith, Bytes}
use strym_core.Common.Result.{Result, ok}
use strym_core.Io.{IoError, Write}
use strym_core.Rtmp.Chunks.{Inbound}
use strym_core.Rtmp.Publisher.{
  RtmpTransport, ReadTimeoutControl, max_unanswered_pings, maintain, write,
}
use strym_core.Rtmp.Publisher.Probes.{Probed, send_message-pings, maintain-Probed, write-Probed}
use strym_core.Rtmp.Publisher.Drain.{maintain-total, write-total}
use strym_core.Rtmp.Connect.{RtmpConfig}
use strym_core.Rtmp.Connect.Open.{connect, shutdown}
use strym_core.Rtmp.Connect.Opening.{connect-Probed}

-- What happens to a connection: bytes come in, tags are written, it is kept up, it is shut down. The
-- numbers are the time of the call and, for `maintain`, the clock in milliseconds as well.
pub data Call : Type 0 where
  arrives : Inbound → Call
  writes : ℕ → Bytes → Call
  maintains : ℕ → ℕ → Call
  shuts_down : ℕ → Call

-- The transport that a call leaves, if it comes back.
abbrev left_by :
    {W A : Type 0} → Option (Result IoError A × RtmpTransport W) → Option (RtmpTransport W)
left_by none = none
left_by (some (r, u)) = some u

module _ (lossy : Bytes → Bytes) {W : Type 0} (w : Write W) (c : ReadTimeoutControl W)
    (cfg : RtmpConfig) where
  unfoldable pub after : Call → RtmpTransport W → Option (RtmpTransport W)
  after (arrives i) t = some (record t { inbound = i })
  after (writes now buf) t = left_by (write w now buf t)
  after (maintains now sent) t = left_by (maintain w now c sent t)
  after (shuts_down now) t = some (shutdown lossy w now cfg t).1

  unfoldable pub run : List Call → RtmpTransport W → Option (RtmpTransport W)
  run [] t = some t
  run (call ∷ calls) t = elim (after call t) [ none ↦ none | some u ↦ run calls u ]

  -- A call that comes back within the bounds.
  WithinProbes : Option (RtmpTransport W) → Type 0
  WithinProbes o =
      (u : RtmpTransport W) × (o ≡ some u) × (u.pings_without_reply ≤ max_unanswered_pings)

  left_by-WithinProbes :
      {A : Type 0} (o : Option (Result IoError A × RtmpTransport W))
      → o ≢ none
      → Probed o
      → WithinProbes (left_by o)
  unfolding WithinProbes
  left_by-WithinProbes none n p = absurd (n refl)
  left_by-WithinProbes (some (r, u)) n p = (u, refl, p)

  shutdown-pings :
      (now : ℕ) (t : RtmpTransport W)
      → (shutdown lossy w now cfg t).1.pings_without_reply ≡ t.pings_without_reply
  unfolding shutdown
  shutdown-pings now t = grind (arith, send_message-pings)

  after-WithinProbes :
      (call : Call) (t : RtmpTransport W)
      → t.pings_without_reply ≤ max_unanswered_pings
      → WithinProbes (after call t)
  unfolding after WithinProbes
  after-WithinProbes (arrives i) t h = (record t { inbound = i }, refl, h)
  after-WithinProbes (writes now buf) t h =
      left_by-WithinProbes (write w now buf t) (write-total w now buf t)
        (write-Probed w now buf t h)
  after-WithinProbes (maintains now sent) t h =
      left_by-WithinProbes (maintain w now c sent t) (maintain-total w now c sent t)
        (maintain-Probed w now c sent t h)
  after-WithinProbes (shuts_down now) t h = (_, refl, omega (arith, shutdown-pings now t))

  run-WithinProbes :
      (calls : List Call) (t : RtmpTransport W)
      → t.pings_without_reply ≤ max_unanswered_pings
      → WithinProbes (run calls t)
  unfolding run WithinProbes
  run-WithinProbes [] t h = (t, refl, h)
  run-WithinProbes (call ∷ calls) t h =
      let (u, e, k) = after-WithinProbes call t h in
      let (v, f, l) = run-WithinProbes calls u k in (v, rw (run, e) f, l)

  -- From a transport that `connect` returned on, whatever the server sends and in whatever order tags
  -- are written, the connection is kept up and it is shut down, every call comes back, and never are
  -- more than three probes without an answer.
  pub run-connect-pings :
      (now time : ℕ) (sock : W) (inbound : Inbound) (t : RtmpTransport W) (calls : List Call)
      → connect lossy w now cfg time sock inbound ≡ some (ok tt, t)
      → (u : RtmpTransport W) × (run calls t ≡ some u)
        × (u.pings_without_reply ≤ max_unanswered_pings)
  unfolding WithinProbes
  run-connect-pings now time sock inbound t calls e =
      run-WithinProbes calls t (rw e at (connect-Probed lossy w now cfg time sock inbound))
