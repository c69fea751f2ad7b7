-- ===== src/Rtmp/Publisher/Watch.antt =====
-- Acknowledgements and the watch over a silent server.
use strym_core.Common.{ℕ, ◌+◌, ◌-◌, ◌^◌, ◌≤◌, ◌<◌, ◌≡◌, ◌⊎◌, ◌↔◌, some, arith, Bytes}
use strym_core.Common.Result.{ok, err}
use strym_core.Io.{Write, invalid_data, vec_write}
use strym_core.Rtmp.Publisher.{
  RtmpTransport, send_message, maybe_send_ack, watch, send_ping_probe, max_unanswered_pings,
}

module _ {W : Type 0} (w : Write W) (now : ℕ) where
  send_message-same :
      (cid mtype sid ts : ℕ) (p : Bytes) (t : RtmpTransport W)
      → let u = (send_message w now cid mtype sid ts p t).1 in
        (u.reader ≡ t.reader)
        × (u.window_ack ≡ t.window_ack)
        × (u.pings_without_reply ≡ t.pings_without_reply)
        × (u.last_ack_at ≡ t.last_ack_at)
  unfolding send_message
  send_message-same cid mtype sid ts p t = ground arith

  -- When `maybe_send_ack` has succeeded, the server set no window, or less than a window has been
  -- received since the last acknowledgement; the counters are assumed far from 2 ^ 64.
  pub maybe_send_ack-window :
      (t : RtmpTransport W)
      → t.window_ack < 2 ^ 32
      → t.last_ack_at ≤ t.reader.bytes_read
      → t.reader.bytes_read + 2 ^ 32 ≤ 2 ^ 64
      → (maybe_send_ack w now t).0 ≡ ok tt
      → let u = (maybe_send_ack w now t).1 in
        (u.window_ack ≡ 0) ⊎ (u.reader.bytes_read < u.last_ack_at + u.window_ack)
  unfolding maybe_send_ack
  maybe_send_ack-window t a b c e = grind (arith, send_message-same)

  -- Where no more than three probes were without an answer, the watch leaves it at that.
  pub watch-pings :
      (sent : ℕ) (t : RtmpTransport W)
      → t.pings_without_reply ≤ max_unanswered_pings
      → (watch w now sent t).1.pings_without_reply ≤ max_unanswered_pings
  unfolding watch send_ping_probe
  watch-pings sent t h = grind (arith, send_message-same)

-- Over a socket that takes every byte, the watch gives the connection up exactly when three probes
-- have gone unanswered and nothing has been heard for the whole budget.
pub watch-invalid_data :
    (now sent budget : ℕ) (t : RtmpTransport Bytes)
    → t.watchdog_idle ≡ some budget
    → ((watch vec_write now sent t).0 ≡ err invalid_data)
      ↔ ((max_unanswered_pings ≤ t.pings_without_reply) × (budget ≤ now - t.last_inbound))
unfolding watch send_ping_probe send_message
watch-invalid_data now sent budget t e = rw (watch, e) (ground arith)
