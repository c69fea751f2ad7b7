-- ===== src/Rtmp/Connect/Open.antt =====
-- `RtmpTransport::connect` and `shutdown` (core/src/rtmp/mod.rs): the commands that open a stream, the
-- handshake in front of them, and the farewell.
use strym_core.Common.{
  ℕ, false, Option, none, some, List, [], ◌∷◌, ◌++◌, if◌then◌else◌, leb, ◌==◌, length, get_elem?,
  get_or, take, drop, Bytes, be32,
}
use strym_core.Common.Result.{Result, ok, err}
use strym_core.Common.Text.{codes}
use strym_core.Io.{IoError, invalid_data, Write}
use strym_core.Rtmp.Chunks.{Inbound, default_chunk_size}
use strym_core.Rtmp.Chunks
use strym_core.Rtmp.FlvTags
use strym_core.Rtmp.Amf0.{Val, num, bool, str, write_number, write_string, write_null, write_object}
use strym_core.Rtmp.Handshake.{build_c1_simple, build_c2}
use strym_core.Rtmp.Publisher.{RtmpTransport, Rtmp, send_message}
use strym_core.Rtmp.Connect.{
  RtmpConfig, waits_forever, max_pending_messages, negotiated_chunk_size, one, two, three, four,
  five, id_in, Conn, ◌>>=◌, ◌>>◌, lift, pure, raise, ignore, command, await_result,
  await_publish_status,
}

module _ (lossy : Bytes → Bytes) {W : Type 0} (w : Write W) (now : ℕ) (cfg : RtmpConfig) where
  unfoldable pub send_set_chunk_size : ℕ → Rtmp W (Unit {0})
  send_set_chunk_size size = send_message w now 3 1 0 0 (be32 size)

  unfoldable pub connect_payload : Bytes
  connect_payload =
      write_string (codes "connect")
      ++ (write_number one
          ++ write_object (
              (codes "app", str cfg.app)
              ∷ (codes "flashVer", str (codes "FMLE/3.0 (compatible; FMSc/1.0)"))
              ∷ (codes "tcUrl", str cfg.tc_url)
              ∷ (codes "fpad", bool false)
              ∷ (codes "capabilities", num 0x402e_0000_0000_0000)
              ∷ (codes "audioCodecs", num 0x40af_ce00_0000_0000)
              ∷ (codes "videoCodecs", num 0x406f_8000_0000_0000)
              ∷ (codes "videoFunction", num one)
              ∷ []))

  unfoldable pub connect_app : Conn W (Unit {0})
  connect_app =
      lift (command lossy w now cfg connect_payload)
      >> await_result lossy w now cfg max_pending_messages one
      >>= λ _. pure tt

  unfoldable pub send_release_stream : Rtmp W (Unit {0})
  send_release_stream = command lossy w now cfg (
      write_string (codes "releaseStream")
      ++ (write_number two ++ (write_null ++ write_string cfg.key)))

  unfoldable pub send_fc_publish : Rtmp W (Unit {0})
  send_fc_publish = command lossy w now cfg (
      write_string (codes "FCPublish")
      ++ (write_number three ++ (write_null ++ write_string cfg.key)))

  unfoldable pub answered_stream : List Val → Conn W ℕ
  answered_stream vals t = some (id_in (get_elem? vals 3), t)

  unfoldable pub create_stream : Conn W ℕ
  create_stream =
      lift (
        command lossy w now cfg
          (write_string (codes "createStream") ++ (write_number four ++ write_null)))
      >> await_result lossy w now cfg max_pending_messages four
      >>= λ vals. answered_stream vals

  unfoldable pub create_stream_with_publish_setup : Conn W ℕ
  create_stream_with_publish_setup =
      ignore send_release_stream >> ignore send_fc_publish >> create_stream

  unfoldable pub send_publish : ℕ → Rtmp W (Unit {0})
  send_publish sid = send_message w now 4 20 sid 0 (
      write_string (codes "publish")
      ++ (write_number five
          ++ (write_null ++ (write_string cfg.key ++ write_string (codes "live")))))

  unfoldable pub do_publish : ℕ → Conn W (Unit {0})
  do_publish sid =
      lift (send_publish sid) >> await_publish_status lossy w now cfg max_pending_messages

  -- `t.chunk = …` and `t.pid = sid`.
  unfoldable pub set_chunk : Rtmp W (Unit {0})
  set_chunk t = (ok tt, record t { chunk = negotiated_chunk_size })

  unfoldable pub set_pid : ℕ → Rtmp W (Unit {0})
  set_pid sid t = (ok tt, record t { pid = sid })

  -- What `connect` does once both sides have shaken hands.
  unfoldable pub open_stream : Conn W (Unit {0})
  open_stream =
      lift (send_set_chunk_size negotiated_chunk_size)
      >> lift set_chunk
      >> connect_app
      >> create_stream_with_publish_setup
      >>= λ sid. do_publish sid >> lift (set_pid sid)

  abbrev farewell : Bytes → Rtmp W (Unit {0})
  farewell payload t = send_message w now 3 20 t.pid 0 payload t

  unfoldable pub shutdown : RtmpTransport W → Result IoError (Unit {0}) × RtmpTransport W
  shutdown t =
      let unpublish =
        write_string (codes "FCUnpublish")
        ++ (write_number four
            ++ (write_null ++ (write_string cfg.key ++ write_string (codes "live")))) in
      let u = (farewell unpublish t).1 in
      let v =
        (farewell (write_string (codes "closeStream") ++ (write_number five ++ write_null)) u).1 in
      (ok tt, record v { sock = (w.flush v.sock).1 })

  -- The socket of the transport, before anything else is done with it.
  unfoldable pub write_bytes : Bytes → Conn W (Unit {0})
  write_bytes bytes t = let (r, s) = w.write_all t.sock bytes in some (r, record t { sock = s })

  unfoldable pub flush_socket : Conn W (Unit {0})
  flush_socket t = let (r, s) = w.flush t.sock in some (r, record t { sock = s })

  unfoldable pub read_exact : ℕ → Conn W Bytes
  read_exact n t =
      if leb n (length t.inbound.bytes)
      then some (
        ok (take n t.inbound.bytes),
        record t { inbound = record (t.inbound) { bytes = drop n t.inbound.bytes } },
      )
      else if waits_forever cfg t.inbound.at_end
      then none
      else some (err t.inbound.at_end, record t { inbound = record (t.inbound) { bytes = [] } })

  -- `copy_from_slice` panics in `build_c2` on a block that is too long.
  unfoldable pub answer : Bytes → Conn W (Unit {0})
  answer s1 t = elim (build_c2 s1) [ none ↦ none | some c2 ↦ (write_bytes c2 >> flush_socket) t ]

  unfoldable pub exchange : Conn W (Unit {0})
  exchange = read_exact 1536 >>= λ s1. read_exact 1536 >>= λ s2. answer s1

  unfoldable pub shake_hands : ℕ → Conn W (Unit {0})
  shake_hands time =
      write_bytes (3 ∷ [])
      >> write_bytes (build_c1_simple time).1
      >> flush_socket
      >> read_exact 1
      >>= λ s0. (if get_or s0 0 0 == 3 then exchange else raise invalid_data)

  unfoldable pub new_transport : W → Inbound → RtmpTransport W
  new_transport sock inbound = record {
    sock = sock;
    inbound = inbound;
    reader = Chunks.new;
    flv = FlvTags.new;
    pid = 0;
    timeout = cfg.timeout;
    watchdog_idle = cfg.watchdog_idle;
    chunk = default_chunk_size;
    window_ack = 0;
    last_ack_at = 0;
    last_activity = now;
    bytes_written = 0;
    peer_acked = 0;
    last_inbound = now;
    pings_without_reply = 0;
    next_probe_at = now;
  }

  -- The transport is made first and shakes hands over its socket; no other part of it is touched.
  unfoldable pub connect : ℕ → W → Inbound → Option (Result IoError (Unit {0}) × RtmpTransport W)
  connect time sock inbound = (shake_hands time >> open_stream) (new_transport sock inbound)
