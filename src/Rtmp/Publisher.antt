-- ===== src/Rtmp/Publisher.antt =====
-- core/src/rtmp/mod.rs, `RtmpTransport` once it publishes: tags out, control messages in, and the
-- watch over the connection. The socket's two directions are a sink and what has come in; a time is
-- a number of nanoseconds that each call is given.
pub mod Watch
pub mod Tags
pub mod Drain
pub mod Probes
use strym_core.Common.{
  ℕ, zero, suc, ◌+◌, ◌-◌, ◌*◌, ◌/◌, ◌%◌, ◌^◌, Bool, true, false, ◌&&◌, not, Option, none, some,
  List, [], ◌∷◌, ◌++◌, if◌then◌else◌, leb, ltb, ◌==◌, length, get_or, drop, Bytes, as_u32, add_u32,
  add_u64, be16, be32, from_be16, from_be32,
}
use strym_core.Common.Result.{Result, ok, err, Action, ◌>>=◌, ◌>>◌, pure, raise, modify}
use strym_core.Io.{IoError, would_block, timed_out, invalid_data, Write}
use strym_core.Rtmp.Chunks.{
  Message, ChunkReader, Inbound, Reading, read_message, frame_message, set_chunk_size, abort,
}
use strym_core.Rtmp.FlvTags.{FlvTag, FlvTagParser, Feed, feed, tags, refused, stuck}

abbrev pub max_unanswered_pings : ℕ
max_unanswered_pings = 3

pub record RtmpTransport (W : Type 0) : Type 0 where
  pub sock : W
  pub inbound : Inbound
  pub reader : ChunkReader
  pub flv : FlvTagParser
  pub pid : ℕ
  pub timeout : Option ℕ
  pub watchdog_idle : Option ℕ
  pub chunk : ℕ
  pub window_ack : ℕ
  pub last_ack_at : ℕ
  pub last_activity : ℕ
  pub bytes_written : ℕ
  pub peer_acked : ℕ
  pub last_inbound : ℕ
  pub pings_without_reply : ℕ
  pub next_probe_at : ℕ

-- The socket's read timeout: a number of nanoseconds, 0 for what is there already, or none.
pub record ReadTimeoutControl (W : Type 0) : Type 0 where
  pub apply_read_timeout : W → Option ℕ → Result IoError (Unit {0}) × W

abbrev pub Rtmp : Type 0 → Type 0 → Type 0
Rtmp W A = Action (RtmpTransport W) IoError A

-- The first four bytes, and the four from the third on.
abbrev pub word : Bytes → ℕ
word p = from_be32 (get_or p 0 0) (get_or p 1 0) (get_or p 2 0) (get_or p 3 0)

abbrev pub budget_or_zero : Option ℕ → ℕ
budget_or_zero none = 0
budget_or_zero (some b) = b

-- `Writer::string` of AMF0.
abbrev pub amf_string : Bytes → Bytes
amf_string s = 2 ∷ be16 (length s) ++ s

abbrev pub set_data_frame : Bytes
set_data_frame =
    0x40 ∷ 0x73 ∷ 0x65 ∷ 0x74 ∷ 0x44 ∷ 0x61 ∷ 0x74 ∷ 0x61 ∷ 0x46 ∷ 0x72 ∷ 0x61 ∷ 0x6d ∷ 0x65 ∷ []

abbrev pub on_meta_data : Bytes
on_meta_data = 0x6f ∷ 0x6e ∷ 0x4d ∷ 0x65 ∷ 0x74 ∷ 0x61 ∷ 0x44 ∷ 0x61 ∷ 0x74 ∷ 0x61 ∷ []

-- What a read says that finds nothing.
abbrev pub quiet : IoError → Bool
quiet would_block = true
quiet timed_out = true
quiet e = false

module _ {W : Type 0} (w : Write W) (now : ℕ) where
  unfoldable pub send_message : ℕ → ℕ → ℕ → ℕ → Bytes → Rtmp W (Unit {0})
  send_message cid mtype stream_id ts payload t =
      let out = frame_message cid mtype stream_id ts payload t.chunk in
      let (r, s) = w.write_all t.sock out in
      let t' = record t { sock = s; bytes_written = add_u64 t.bytes_written (length out) } in
      elim r [
        | err e ↦ (err e, t')
        | ok _ ↦
            let (q, s') = w.flush s in
            elim q [
              | err e ↦ (err e, record t' { sock = s' })
              | ok _ ↦ (ok tt, record t' { sock = s'; last_activity = now })
            ]
      ]

  unfoldable pub send_ping_response : ℕ → Rtmp W (Unit {0})
  send_ping_response ts = send_message 3 4 0 0 (be16 1 ++ be32 ts)

  unfoldable pub note_inbound : RtmpTransport W → RtmpTransport W
  note_inbound t = record t {
    last_inbound = now;
    pings_without_reply = 0;
    next_probe_at = now + budget_or_zero t.watchdog_idle / 4;
  }

  unfoldable pub maybe_send_ack : Rtmp W (Unit {0})
  maybe_send_ack t =
      if not (t.window_ack == 0) && leb (add_u64 t.last_ack_at t.window_ack) t.reader.bytes_read
      then (send_message 3 3 0 0 (be32 (as_u32 t.reader.bytes_read))
            >> modify (λ u. record u { last_ack_at = t.reader.bytes_read }))
          t
      else (ok tt, t)

  -- User control events: a ping request is answered, the peer's counter is noted.
  unfoldable pub handle_event : Bytes → Rtmp W (Unit {0})
  handle_event p t =
      if leb 6 (length p) && (from_be16 (get_or p 0 0) (get_or p 1 0) == 0)
      then send_ping_response (word (drop 2 p)) t
      else if leb 6 (length p) && (from_be16 (get_or p 0 0) (get_or p 1 0) == 3)
      then (ok tt, record t { peer_acked = word (drop 2 p) })
      else (ok tt, t)

  unfoldable pub handle_control : Message → Rtmp W (Unit {0})
  handle_control msg t =
      if (msg.mtype == 1) && leb 4 (length msg.payload)
      then (let (r, reader) = set_chunk_size (word msg.payload) t.reader in
          (r, record t { reader = reader }))
      else if (msg.mtype == 2) && leb 4 (length msg.payload)
      then (ok tt, record t { reader = abort (word msg.payload) t.reader })
      else if ((msg.mtype == 5) && leb 4 (length msg.payload))
      then (ok tt, record t { window_ack = word msg.payload })
      else if ((msg.mtype == 6) && leb 4 (length msg.payload))
      then (ok tt, record t { window_ack = word msg.payload })
      else if (msg.mtype == 4) && leb 2 (length msg.payload)
      then handle_event msg.payload t
      else (ok tt, t)

  -- What a message from the server does.
  unfoldable pub receive : Message → Rtmp W (Unit {0})
  receive msg =
      modify (λ t. note_inbound (record t { last_activity = now }))
      >> maybe_send_ack
      >> handle_control msg

  -- The drain of `maintain`; each message takes a byte at least, and `none` says that the fuel ran
  -- out.
  unfoldable pub drain : ℕ → RtmpTransport W → Option (Result IoError (Unit {0}) × RtmpTransport W)
  drain zero t = none
  drain (suc fuel) t = elim (read_message (record { reader = t.reader; sock = t.inbound })) [
    | none ↦ none
    | some (r, s) ↦
        let t' = record t { reader = s.reader; inbound = s.sock } in
        elim r [
          | err e ↦ some (if quiet e then ok tt else err e, t')
          | ok msg ↦
              let (q, u) = receive msg t' in
              elim q [ err e ↦ some (err e, u) | ok _ ↦ drain fuel u ]
        ]
  ]

  -- `sent` is the clock's value, in milliseconds; it is reduced modulo `u32::MAX`.
  unfoldable pub send_ping_probe : ℕ → Rtmp W (Unit {0})
  send_ping_probe sent t =
      send_message 3 4 0 0 (be16 0 ++ be32 (sent % (2 ^ 32 - 1)))
        (record t { pings_without_reply = add_u32 t.pings_without_reply 1 })

  -- The second half of `maintain`.
  unfoldable pub watch : ℕ → Rtmp W (Unit {0})
  watch sent t = elim t.watchdog_idle [
    | none ↦ (ok tt, t)
    | some budget ↦
        let silent_for = now - t.last_inbound in
        if ltb silent_for (budget / 4)
        then (ok tt, t)
        else if leb max_unanswered_pings t.pings_without_reply && leb budget silent_for
        then (err invalid_data, t)
        else if ltb t.pings_without_reply max_unanswered_pings && leb t.next_probe_at now
        then (send_ping_probe sent >> modify (λ u. record u { next_probe_at = now + budget / 4 })) t
        else (ok tt, t)
  ]

  -- What `maintain` does with its result of the drain, once the timeout is put back.
  unfoldable pub after_drain :
      ReadTimeoutControl W → ℕ → Result IoError (Unit {0}) → Rtmp W (Unit {0})
  after_drain c sent drained t =
      let (r, s) = c.apply_read_timeout t.sock t.timeout in
      let t' = record t { sock = s } in
      elim r [
        | err e ↦ (err e, t')
        | ok _ ↦ elim drained [ err e ↦ (err e, t') | ok _ ↦ watch sent t' ]
      ]

  unfoldable pub maintain :
      ReadTimeoutControl W
      → ℕ
      → RtmpTransport W
      → Option (Result IoError (Unit {0}) × RtmpTransport W)
  maintain c sent t =
      let (r, s) = c.apply_read_timeout t.sock (some 0) in
      let t' = record t { sock = s } in
      elim r [
        | err e ↦ some (err e, t')
        | ok _ ↦ elim (drain (length t'.inbound.bytes + 1) t') [
          | none ↦ none
          | some (drained, u) ↦ some (after_drain c sent drained u)
        ]
      ]

  -- The metadata tag as a data message; its name is replaced by the publisher's.
  unfoldable pub emit_data : ℕ → Bytes → Rtmp W (Unit {0})
  emit_data ts body t =
      if ltb 3 (length body) && (get_or body 0 0 == 2)
      then (let rest = 3 + from_be16 (get_or body 1 0) (get_or body 2 0) in
          if ltb rest (length body)
          then send_message 3 18 t.pid ts
              (amf_string set_data_frame ++ (amf_string on_meta_data ++ drop rest body)) t
          else (ok tt, t))
      else (ok tt, t)

  unfoldable pub emit_tag : FlvTag → Rtmp W (Unit {0})
  emit_tag tag t =
      if tag.mtype == 9
      then send_message 7 9 t.pid tag.ts tag.body t
      else if tag.mtype == 8
      then send_message 6 8 t.pid tag.ts tag.body t
      else if tag.mtype == 18
      then emit_data tag.ts tag.body t
      else (ok tt, t)

  unfoldable pub emit_tags : List FlvTag → Rtmp W (Unit {0})
  emit_tags [] = pure tt
  emit_tags (tag ∷ rest) = emit_tag tag >> emit_tags rest

  -- `io::Write::write`: how much was taken; `none` says that the parser's fuel ran out.
  unfoldable pub write : Bytes → RtmpTransport W → Option (Result IoError ℕ × RtmpTransport W)
  write buf t = elim (feed t.flv buf) [
    | stuck ↦ none
    | refused p ↦ some (err invalid_data, record t { flv = p })
    | tags ts p ↦ some ((emit_tags ts >> pure (length buf)) (record t { flv = p }))
  ]
