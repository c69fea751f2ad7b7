-- ===== src/Rtmp/Publisher/Probes.antt =====
-- The probes without an answer, through the calls on `RtmpTransport` (core/src/rtmp/mod.rs).
use strym_core.Common.{
  ℕ, zero, suc, ◌+◌, ◌≤◌, ◌≡◌, refl, none, some, Option, List, [], ◌∷◌, arith, length, Bytes,
  Option-cases, inl, inr,
}
use strym_core.Common.Result.{Result, ok, err, Result-cases, ◌>>◌, pure}
use strym_core.Io.{Write, IoError, invalid_data}
use strym_core.Rtmp.Chunks.{Message, read_message}
use strym_core.Rtmp.FlvTags.{FlvTag, Feed, feed, tags, refused, stuck}
use strym_core.Rtmp.Publisher.{
  RtmpTransport, ReadTimeoutControl, max_unanswered_pings, send_message, send_ping_response,
  maybe_send_ack, note_inbound, receive, handle_control, handle_event, drain, after_drain, maintain,
  emit_data, emit_tag, emit_tags, write,
}
use strym_core.Rtmp.Publisher.Watch.{watch-pings}

-- No more probes are without an answer than the source allows, if the call comes back.
abbrev pub Probed : {W A : Type 0} → Option (Result IoError A × RtmpTransport W) → Type 0
Probed none = Unit {0}
Probed (some (r, u)) = u.pings_without_reply ≤ max_unanswered_pings

module _ {W : Type 0} (w : Write W) (now : ℕ) where
  pub send_message-pings :
      (cid mtype sid ts : ℕ) (p : Bytes) (t : RtmpTransport W)
      → (send_message w now cid mtype sid ts p t).1.pings_without_reply ≡ t.pings_without_reply
  unfolding send_message
  send_message-pings cid mtype sid ts p t = ground arith

  pub maybe_send_ack-pings :
      (t : RtmpTransport W) → (maybe_send_ack w now t).1.pings_without_reply ≡ t.pings_without_reply
  unfolding maybe_send_ack
  maybe_send_ack-pings t = grind (arith, send_message-pings)

  handle_event-pings :
      (p : Bytes) (t : RtmpTransport W)
      → (handle_event w now p t).1.pings_without_reply ≡ t.pings_without_reply
  unfolding handle_event send_ping_response
  handle_event-pings p t = grind (arith, send_message-pings)

  pub handle_control-pings :
      (m : Message) (t : RtmpTransport W)
      → (handle_control w now m t).1.pings_without_reply ≡ t.pings_without_reply
  unfolding handle_control
  handle_control-pings m t = grind (arith, handle_event-pings)

  receive-pings :
      (m : Message) (t : RtmpTransport W) → (receive w now m t).1.pings_without_reply ≡ 0
  unfolding receive note_inbound
  receive-pings m t = grind (arith, maybe_send_ack-pings, handle_control-pings)

  drain-Probed :
      (fuel : ℕ) (t : RtmpTransport W)
      → t.pings_without_reply ≤ max_unanswered_pings
      → Probed (drain w now fuel t)
  unfolding drain
  drain-Probed zero t h = tt
  drain-Probed (suc fuel) t h =
      elim (Option-cases (read_message (record { reader = t.reader; sock = t.inbound }))) [
        | inl q ↦ rw (Probed, q) tt
        | inr ((err e, s), q) ↦ rw (Probed, q) h
        | inr ((ok msg, s), q) ↦
            let t' = record t { reader = s.reader; inbound = s.sock } in
            elim (Result-cases (receive w now msg t').0) [
              | inr (e, r) ↦ rw (Probed, q, r) (omega (arith, receive-pings msg t'))
              | inl (u, r) ↦
                  rw (Probed, q, r)
                    (drain-Probed fuel (receive w now msg t').1
                      (omega (arith, receive-pings msg t')))
            ]
      ]

  after_drain-pings :
      (c : ReadTimeoutControl W) (sent : ℕ) (d : Result IoError (Unit {0})) (t : RtmpTransport W)
      → t.pings_without_reply ≤ max_unanswered_pings
      → (after_drain w now c sent d t).1.pings_without_reply ≤ max_unanswered_pings
  unfolding after_drain
  after_drain-pings c sent d t h =
      let (r, s) = c.apply_read_timeout t.sock t.timeout in
      ground (arith, watch-pings w now sent (record t { sock = s }) h)

  pub maintain-Probed :
      (c : ReadTimeoutControl W) (sent : ℕ) (t : RtmpTransport W)
      → t.pings_without_reply ≤ max_unanswered_pings
      → Probed (maintain w now c sent t)
  unfolding maintain
  maintain-Probed c sent t h =
      let (r, s) = c.apply_read_timeout t.sock (some 0) in
      let t' = record t { sock = s } in
      elim (Result-cases r) [
        | inr (e, q) ↦ rw (Probed, q) h
        | inl (u, q) ↦ rw (Probed, q) (drained _ (drain-Probed (length t.inbound.bytes + 1) t' h))
      ]
    where
      drained :
          (o : Option (Result IoError (Unit {0}) × RtmpTransport W))
          → Probed o
          → Probed (elim o [ none ↦ none | some (d, u) ↦ some (after_drain w now c sent d u) ])
      drained none p = tt
      drained (some (d, u)) p = after_drain-pings c sent d u p

  emit_data-pings :
      (ts : ℕ) (b : Bytes) (t : RtmpTransport W)
      → (emit_data w now ts b t).1.pings_without_reply ≡ t.pings_without_reply
  unfolding emit_data
  emit_data-pings ts b t = grind (arith, send_message-pings)

  emit_tag-pings :
      (tag : FlvTag) (t : RtmpTransport W)
      → (emit_tag w now tag t).1.pings_without_reply ≡ t.pings_without_reply
  unfolding emit_tag
  emit_tag-pings tag t = grind (arith, send_message-pings, emit_data-pings)

  emit_tags-pings :
      (ts : List FlvTag) (t : RtmpTransport W)
      → (emit_tags w now ts t).1.pings_without_reply ≡ t.pings_without_reply
  unfolding emit_tags
  emit_tags-pings [] t = refl
  emit_tags-pings (tag ∷ ts) t =
      ground (arith, emit_tag-pings tag t, emit_tags-pings ts (emit_tag w now tag t).1)

  pub write-Probed :
      (buf : Bytes) (t : RtmpTransport W)
      → t.pings_without_reply ≤ max_unanswered_pings
      → Probed (write w now buf t)
  unfolding write
  write-Probed buf t h = go (feed t.flv buf)
    where
      go :
          (f : Feed)
          → Probed (elim f [
            | stuck ↦ none
            | refused p ↦ some (err invalid_data, record t { flv = p })
            | tags ts p ↦ some ((emit_tags w now ts >> pure (length buf)) (record t { flv = p }))
          ])
      go stuck = tt
      go (refused p) = h
      go (tags ts p) = ground (arith, h, emit_tags-pings ts (record t { flv = p }))
