-- ===== src/Rtmp/Publisher/Drain.antt =====
-- The loops of the publisher end.
use strym_core.Common.{
  ℕ, zero, suc, ◌+◌, ◌<◌, ◌≡◌, ◌≢◌, ◌⊎◌, refl, ap, none, some, arith, length, Bytes, Option-cases,
  inl, inr,
}
use strym_core.Common.Result.{ok, err, Result-cases}
use strym_core.Io.{Write}
use strym_core.Rtmp.Chunks.{Message, read_message}
use strym_core.Rtmp.Chunks.Rounds.{read_message-total, read_message-left}
use strym_core.Rtmp.FlvTags.{Feed, feed, tags, refused, stuck}
use strym_core.Rtmp.FlvTags.Steps.{feed-ne-stuck}
use strym_core.Rtmp.Publisher.{
  RtmpTransport, ReadTimeoutControl, send_message, maybe_send_ack, note_inbound, receive,
  handle_control, handle_event, send_ping_response, drain, maintain, write,
}

Feed-cases :
    (f : Feed) → (f ≡ stuck) ⊎ ((p : _) × (f ≡ refused p)) ⊎ ((ts : _) × (p : _) × (f ≡ tags ts p))
Feed-cases stuck = inl refl
Feed-cases (refused p) = inr (inl (p, refl))
Feed-cases (tags ts p) = inr (inr (ts, p, refl))

module _ {W : Type 0} (w : Write W) (now : ℕ) where
  send_message-inbound :
      (cid mtype sid ts : ℕ) (p : Bytes) (t : RtmpTransport W)
      → (send_message w now cid mtype sid ts p t).1.inbound ≡ t.inbound
  unfolding send_message
  send_message-inbound cid mtype sid ts p t = ground arith

  pub maybe_send_ack-inbound :
      (t : RtmpTransport W) → (maybe_send_ack w now t).1.inbound ≡ t.inbound
  unfolding maybe_send_ack
  maybe_send_ack-inbound t = grind (arith, send_message-inbound)

  handle_event-inbound :
      (p : Bytes) (t : RtmpTransport W) → (handle_event w now p t).1.inbound ≡ t.inbound
  unfolding handle_event send_ping_response
  handle_event-inbound p t = grind (arith, send_message-inbound)

  pub handle_control-inbound :
      (m : Message) (t : RtmpTransport W) → (handle_control w now m t).1.inbound ≡ t.inbound
  unfolding handle_control
  handle_control-inbound m t = grind (arith, handle_event-inbound)

  receive-inbound : (m : Message) (t : RtmpTransport W) → (receive w now m t).1.inbound ≡ t.inbound
  unfolding receive note_inbound
  receive-inbound m t = grind (arith, maybe_send_ack-inbound, handle_control-inbound)

  drain-total :
      (fuel : ℕ) (t : RtmpTransport W) → length t.inbound.bytes < fuel → drain w now fuel t ≢ none
  unfolding drain
  drain-total zero t l = absurd (omega arith)
  drain-total (suc fuel) t l =
      elim (Option-cases (read_message (record { reader = t.reader; sock = t.inbound }))) [
        | inl q ↦ absurd (read_message-total _ q)
        | inr ((err e, s), q) ↦ rw (drain, q) (λ n. ground arith)
        | inr ((ok msg, s), q) ↦
            let t' = record t { reader = s.reader; inbound = s.sock } in
            elim (Result-cases (receive w now msg t').0) [
              | inr (e, r) ↦ rw (drain, q, r) (λ n. ground arith)
              | inl (u, r) ↦
                  rw (drain, q, r)
                    (drain-total fuel (receive w now msg t').1 (
                      omega (
                        arith,
                        ap (λ i. length i.bytes) (receive-inbound msg t'),
                        read_message-left _ s msg q,
                      )))
            ]
      ]

  -- `maintain` ends, whatever has come in from the server and whatever becomes of the timeouts.
  pub maintain-total :
      (c : ReadTimeoutControl W) (sent : ℕ) (t : RtmpTransport W) → maintain w now c sent t ≢ none
  unfolding maintain
  maintain-total c sent t =
      let (r, s) = c.apply_read_timeout t.sock (some 0) in
      let t' = record t { sock = s } in
      elim (Result-cases r) [
        | inr (e, q) ↦ rw (maintain, q) (λ n. ground arith)
        | inl (u, q) ↦ elim (Option-cases (drain w now (length t'.inbound.bytes + 1) t')) [
          | inl d ↦ absurd (drain-total _ t' (omega arith) d)
          | inr (d, p) ↦ rw (maintain, q, p) (λ n. ground arith)
        ]
      ]

  -- So does `write`, in every state of the parser.
  pub write-total : (buf : Bytes) (t : RtmpTransport W) → write w now buf t ≢ none
  unfolding write
  write-total buf t = elim (Feed-cases (feed t.flv buf)) [
    | inl q ↦ absurd (feed-ne-stuck t.flv buf q)
    | inr (inl (p, q)) ↦ rw (write, q) (λ n. ground arith)
    | inr (inr (ts, p, q)) ↦ rw (write, q) (λ n. ground arith)
  ]
