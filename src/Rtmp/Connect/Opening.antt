-- ===== src/Rtmp/Connect/Opening.antt =====
-- `connect` (core/src/rtmp/mod.rs) as a whole and the probes without an answer.
use strym_core.Common.{
  ℕ, refl, Bool, true, false, Option, List, [], ◌∷◌, if◌then◌else◌, arith, ◌==◌, leb, get_or,
  length, Bytes, Option-cases, inl, inr,
}
use strym_core.Common.Result.{Result}
use strym_core.Io.{IoError, invalid_data, Write}
use strym_core.Rtmp.Amf0.{Val}
use strym_core.Rtmp.Handshake.{build_c1_simple, build_c2}
use strym_core.Rtmp.Chunks.{Inbound}
use strym_core.Rtmp.Publisher.{RtmpTransport}
use strym_core.Rtmp.Publisher.Probes.{Probed, send_message-pings}
use strym_core.Rtmp.Connect.{
  RtmpConfig, command, waits_forever, negotiated_chunk_size, max_pending_messages, one, four,
}
use strym_core.Rtmp.Connect.Open.{
  connect_payload, connect_app, create_stream, create_stream_with_publish_setup, do_publish,
  open_stream, write_bytes, flush_socket, read_exact, answer, exchange, shake_hands, new_transport,
  connect, send_set_chunk_size, answered_stream, send_release_stream, send_fc_publish, set_chunk,
  set_pid, send_publish,
}
use strym_core.Rtmp.Connect.Probes.{
  Stays, Stays-bind, Stays-next, Stays-lift, Stays-ignore, Stays-pure, Stays-raise, Stays-if, Same,
  await_result-Stays, await_publish_status-Stays,
}

module _ (lossy : Bytes → Bytes) {W : Type 0} (w : Write W) (now : ℕ) (cfg : RtmpConfig) where
  connect_app-Stays : Stays (connect_app lossy w now cfg)
  unfolding connect_app
  connect_app-Stays =
      Stays-bind
        (Stays-next
          (Stays-lift (command lossy w now cfg (connect_payload lossy w now cfg))
            (send_message-pings w now 3 20 0 0 (connect_payload lossy w now cfg)))
          (await_result-Stays lossy w now cfg max_pending_messages one))
        (λ x. Stays-pure tt)

  answered_stream-Stays : (vals : List Val) → Stays (answered_stream lossy w now cfg vals)
  unfolding answered_stream
  answered_stream-Stays vals = record { stays = λ t b. b }

  create_stream-Stays : Stays (create_stream lossy w now cfg)
  unfolding create_stream
  create_stream-Stays =
      Stays-bind
        (Stays-next (Stays-lift _ (send_message-pings w now 3 20 0 0 _))
          (await_result-Stays lossy w now cfg max_pending_messages four))
        answered_stream-Stays

  send_release_stream-Same : Same (send_release_stream lossy w now cfg)
  unfolding send_release_stream
  send_release_stream-Same = send_message-pings w now 3 20 0 0 _

  send_fc_publish-Same : Same (send_fc_publish lossy w now cfg)
  unfolding send_fc_publish
  send_fc_publish-Same = send_message-pings w now 3 20 0 0 _

  create_stream_with_publish_setup-Stays : Stays (create_stream_with_publish_setup lossy w now cfg)
  unfolding create_stream_with_publish_setup
  create_stream_with_publish_setup-Stays =
      Stays-next
        (Stays-next (Stays-ignore (send_release_stream lossy w now cfg) send_release_stream-Same)
          (Stays-ignore (send_fc_publish lossy w now cfg) send_fc_publish-Same))
        create_stream-Stays

  send_publish-Same : (sid : ℕ) → Same (send_publish lossy w now cfg sid)
  unfolding send_publish
  send_publish-Same sid = send_message-pings w now 4 20 sid 0 _

  do_publish-Stays : (sid : ℕ) → Stays (do_publish lossy w now cfg sid)
  unfolding do_publish
  do_publish-Stays sid =
      Stays-next (Stays-lift (send_publish lossy w now cfg sid) (send_publish-Same sid))
        (await_publish_status-Stays lossy w now cfg max_pending_messages)

  -- The steps that write one message, or a field.
  send_set_chunk_size-Same : (n : ℕ) → Same (send_set_chunk_size lossy w now cfg n)
  unfolding send_set_chunk_size
  send_set_chunk_size-Same n = send_message-pings w now 3 1 0 0 _

  set_chunk-Same : Same (set_chunk lossy w now cfg)
  unfolding set_chunk
  set_chunk-Same t = refl

  set_pid-Same : (sid : ℕ) → Same (set_pid lossy w now cfg sid)
  unfolding set_pid
  set_pid-Same sid t = refl

  open_stream-Stays : Stays (open_stream lossy w now cfg)
  unfolding open_stream
  open_stream-Stays =
      Stays-bind
        (Stays-next
          (Stays-next
            (Stays-next
              (Stays-lift (send_set_chunk_size lossy w now cfg negotiated_chunk_size)
                (send_set_chunk_size-Same negotiated_chunk_size))
              (Stays-lift (set_chunk lossy w now cfg) set_chunk-Same))
            connect_app-Stays)
          create_stream_with_publish_setup-Stays)
        λ sid.
          Stays-next (do_publish-Stays sid)
            (Stays-lift (set_pid lossy w now cfg sid) (set_pid-Same sid))

  read_exact-Stays : (n : ℕ) → Stays (read_exact lossy w now cfg n)
  unfolding read_exact
  read_exact-Stays n = record {
    stays = λ t b.
        either (leb n (length t.inbound.bytes)) _ _ b
          (either (waits_forever cfg t.inbound.at_end) _ _ tt b);
  }
    where
      either :
          (c : Bool) (x y : Option (Result IoError Bytes × RtmpTransport W))
          → Probed x
          → Probed y
          → Probed (if c then x else y)
      either true x y p q = p
      either false x y p q = q

  write_bytes-Stays : (b : Bytes) → Stays (write_bytes lossy w now cfg b)
  unfolding write_bytes
  write_bytes-Stays b = record { stays = λ t h. h }

  flush_socket-Stays : Stays (flush_socket lossy w now cfg)
  unfolding flush_socket
  flush_socket-Stays = record { stays = λ t h. h }

  exchange-Stays : Stays (exchange lossy w now cfg)
  unfolding exchange answer
  exchange-Stays = Stays-bind (read_exact-Stays 1536) λ s1. Stays-bind (read_exact-Stays 1536) λ s2.
      record {
        stays = λ t b. elim (Option-cases (build_c2 s1)) [
          | inl q ↦ rw (Probed, q) tt
          | inr (c2, q) ↦
              rw (Probed, q) ((Stays-next (write_bytes-Stays c2) flush_socket-Stays).stays t b)
        ];
      }

  shake_hands-Stays : (time : ℕ) → Stays (shake_hands lossy w now cfg time)
  unfolding shake_hands
  shake_hands-Stays time =
      Stays-bind
        (Stays-next
          (Stays-next
            (Stays-next (write_bytes-Stays (3 ∷ [])) (write_bytes-Stays (build_c1_simple time).1))
            flush_socket-Stays)
          (read_exact-Stays 1))
        λ s0. Stays-if (get_or s0 0 0 == 3) exchange-Stays (Stays-raise invalid_data)

  pub connect-Probed :
      (time : ℕ) (sock : W) (inbound : Inbound) → Probed (connect lossy w now cfg time sock inbound)
  unfolding connect new_transport
  connect-Probed time sock inbound =
      (Stays-next (shake_hands-Stays time) open_stream-Stays).stays
        (new_transport lossy w now cfg sock inbound) (omega arith)
