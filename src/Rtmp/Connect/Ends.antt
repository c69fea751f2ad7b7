-- ===== src/Rtmp/Connect/Ends.antt =====
-- `RtmpTransport::connect` (core/src/rtmp/mod.rs) as a whole comes to an end.
use strym_core.Common.{
  ℕ, ◌≡◌, ◌≢◌, Bool, true, false, Option, none, some, List, [], ◌∷◌, if◌then◌else◌, leb, ◌==◌,
  length, get_or, get_elem?, Bytes, Option-cases, inl, inr,
}
use strym_core.Common.Result.{Result, ok, err}
use strym_core.Io.{IoError, Write}
use strym_core.Rtmp.Amf0.{Val}
use strym_core.Rtmp.Handshake.{build_c2}
use strym_core.Rtmp.Chunks.{Inbound}
use strym_core.Rtmp.Publisher.{RtmpTransport, Rtmp}
use strym_core.Rtmp.Connect.{
  RtmpConfig, Conn, ◌>>=◌, ◌>>◌, lift, raise, ignore, command, max_pending_messages, one, four,
}
use strym_core.Rtmp.Connect.Open.{
  connect_payload, connect_app, create_stream, create_stream_with_publish_setup, do_publish,
  open_stream, write_bytes, flush_socket, read_exact, answer, exchange, shake_hands, new_transport,
  connect,
}
use strym_core.Io.{invalid_data}
use strym_core.Rtmp.Handshake.{build_c1_simple}
use strym_core.Rtmp.Connect.{negotiated_chunk_size, id_in}
use strym_core.Rtmp.Connect.Open.{
  send_set_chunk_size, answered_stream, send_release_stream, send_fc_publish, set_chunk, set_pid,
  send_publish,
}
use strym_core.Rtmp.Connect.Answers.{
  Gives, Any, Gives-bind, lift-Gives, build_c2-ne-none, read_exact-Gives, await_result-Gives,
  await_publish_status-Gives, if-Gives,
}

-- A call that comes back in every state.
record Ends {W A : Type 0} (m : Conn W A) : Type 0 where
  ends : (t : RtmpTransport W) → Gives Any (m t)

Ends-next : {W B : Type 0} {m : Conn W (Unit {0})} {k : Conn W B} → Ends m → Ends k → Ends (m >> k)
Ends-next {m = m} {k = k} h h' = record {
  ends = λ t. Gives-bind Any Any m (λ x. k) t (h.ends t) λ a u p. h'.ends u;
}

Ends-bind :
    {W A B : Type 0} {m : Conn W A} {f : A → Conn W B}
    → Ends m
    → ((a : A) → Ends (f a))
    → Ends (m >>= f)
Ends-bind {m = m} {f = f} h h' = record {
  ends = λ t. Gives-bind Any Any m f t (h.ends t) λ a u p. (h' a).ends u;
}

Ends-lift : {W A : Type 0} (m : Rtmp W A) → Ends (lift m)
Ends-lift m = record { ends = lift-Gives m }

Gives-Any : {W A : Type 0} (r : Result IoError A) (u : RtmpTransport W) → Gives Any (some (r, u))
Gives-Any (ok a) u = tt
Gives-Any (err e) u = tt

if-Any :
    {W A : Type 0} (b : Bool) (x y : Option (Result IoError A × RtmpTransport W))
    → Gives Any x
    → Gives Any y
    → Gives Any (if b then x else y)
if-Any true x y p q = p
if-Any false x y p q = q

module _ (lossy : Bytes → Bytes) {W : Type 0} (w : Write W) (now : ℕ) (cfg : RtmpConfig) (limit : ℕ)
    (limited : cfg.timeout ≡ some limit) where
  connect_app-Ends : Ends (connect_app lossy w now cfg)
  unfolding connect_app
  connect_app-Ends =
      Ends-bind
        (Ends-next (Ends-lift (command lossy w now cfg (connect_payload lossy w now cfg))) record {
          ends = await_result-Gives lossy w now cfg limit limited max_pending_messages one;
        })
        (λ x. record { ends = λ t. tt })

  answered_stream-Ends : (vals : List Val) → Ends (answered_stream lossy w now cfg vals)
  unfolding answered_stream
  answered_stream-Ends vals = record { ends = λ t. Gives-Any (id_in (get_elem? vals 3)) t }

  create_stream-Ends : Ends (create_stream lossy w now cfg)
  unfolding create_stream
  create_stream-Ends =
      Ends-bind
        (Ends-next (Ends-lift _) record {
          ends = await_result-Gives lossy w now cfg limit limited max_pending_messages four;
        })
        (answered_stream-Ends)

  -- `let _ = call`.
  Ends-ignore : (m : Rtmp W (Unit {0})) → Ends (ignore m)
  Ends-ignore m = record { ends = λ t. tt }

  create_stream_with_publish_setup-Ends : Ends (create_stream_with_publish_setup lossy w now cfg)
  unfolding create_stream_with_publish_setup
  create_stream_with_publish_setup-Ends =
      Ends-next
        (Ends-next (Ends-ignore (send_release_stream lossy w now cfg))
          (Ends-ignore (send_fc_publish lossy w now cfg)))
        create_stream-Ends

  do_publish-Ends : (sid : ℕ) → Ends (do_publish lossy w now cfg sid)
  unfolding do_publish
  do_publish-Ends sid = Ends-next (Ends-lift (send_publish lossy w now cfg sid)) record {
    ends = await_publish_status-Gives lossy w now cfg limit limited max_pending_messages;
  }

  open_stream-Ends : Ends (open_stream lossy w now cfg)
  unfolding open_stream
  open_stream-Ends =
      Ends-bind
        (Ends-next
          (Ends-next
            (Ends-next (Ends-lift (send_set_chunk_size lossy w now cfg negotiated_chunk_size))
              (Ends-lift (set_chunk lossy w now cfg)))
            connect_app-Ends)
          create_stream_with_publish_setup-Ends)
        λ sid. Ends-next (do_publish-Ends sid) (Ends-lift (set_pid lossy w now cfg sid))

  write_bytes-Ends : (b : Bytes) → Ends (write_bytes lossy w now cfg b)
  unfolding write_bytes
  write_bytes-Ends b = record { ends = λ t. Gives-Any ((w.write_all t.sock b).0) _ }

  flush_socket-Ends : Ends (flush_socket lossy w now cfg)
  unfolding flush_socket
  flush_socket-Ends = record { ends = λ t. Gives-Any ((w.flush t.sock).0) _ }

  answer-Gives :
      (s1 : Bytes) (t : RtmpTransport W)
      → length s1 ≡ 1536
      → Gives Any (answer lossy w now cfg s1 t)
  unfolding answer
  answer-Gives s1 t e = elim (Option-cases (build_c2 s1)) [
    | inl q ↦ absurd (build_c2-ne-none s1 e q)
    | inr (c2, q) ↦ rw (Gives, q) ((Ends-next (write_bytes-Ends c2) flush_socket-Ends).ends t)
  ]

  exchange-Ends : Ends (exchange lossy w now cfg)
  unfolding exchange
  exchange-Ends = record {
    ends = λ t.
        Gives-bind (λ s1 u. length s1 ≡ 1536) Any (read_exact lossy w now cfg 1536)
          (λ s1. read_exact lossy w now cfg 1536 >>= λ s2. answer lossy w now cfg s1) t
          (read_exact-Gives lossy w now cfg limit limited 1536 t)
          λ s1 u p.
            Gives-bind (λ s2 v. length s2 ≡ 1536) Any (read_exact lossy w now cfg 1536)
              (λ s2. answer lossy w now cfg s1) u
              (read_exact-Gives lossy w now cfg limit limited 1536 u) λ s2 v q. answer-Gives s1 v p;
  }

  read_version-Ends : Ends (read_exact lossy w now cfg 1)
  unfolding read_exact
  read_version-Ends = record {
    ends = λ t. rw limited (if-Any (leb 1 (length t.inbound.bytes)) _ _ tt tt);
  }

  shake_hands-Ends : (time : ℕ) → Ends (shake_hands lossy w now cfg time)
  unfolding shake_hands
  shake_hands-Ends time =
      Ends-bind
        (Ends-next
          (Ends-next
            (Ends-next (write_bytes-Ends (3 ∷ [])) (write_bytes-Ends (build_c1_simple time).1))
            flush_socket-Ends)
          read_version-Ends)
        λ s0. record {
          ends = λ t.
              if-Gives lossy w now cfg limit limited (get_or s0 0 0 == 3) (exchange lossy w now cfg)
                (raise invalid_data) t (exchange-Ends.ends t) tt;
        }

  -- Where a read timeout is configured, `connect` comes back with a transport or with an error, after
  -- any finite number of bytes from the server, whatever they are and whether it then closes or falls
  -- silent: no loop runs for ever and no block of the handshake makes it panic. Without a timeout a
  -- silent server keeps it waiting, and so do messages of control without end.
  pub connect-ne-none :
      (time : ℕ) (sock : W) (inbound : Inbound) → connect lossy w now cfg time sock inbound ≢ none
  unfolding connect
  connect-ne-none time sock inbound e = rw e at (
      Gives-bind Any Any (shake_hands lossy w now cfg time) (λ x. open_stream lossy w now cfg)
        (new_transport lossy w now cfg sock inbound)
        ((shake_hands-Ends time).ends (new_transport lossy w now cfg sock inbound))
        λ a u p. open_stream-Ends.ends u)
