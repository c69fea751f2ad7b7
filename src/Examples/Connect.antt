-- ===== src/Examples/Connect.antt =====
-- Tests and witnesses of the connection to a server.
use strym_core.Common.{
  ℕ, ◌≡◌, ◌≢◌, ◌≤◌, refl, none, some, Option, List, [], ◌∷◌, ◌++◌, replicate, Bytes,
}
use strym_core.Common.Result.{Result, ok, err}
use strym_core.Common.Text.{codes}
use strym_core.Io.{IoError, vec_write, unexpected_eof, would_block}
use strym_core.Rtmp.Amf0.{num, str}
use strym_core.Rtmp.Amf0.Writer.{Call, value, nothing, fields, into_bytes}
use strym_core.Rtmp.Chunks.{Inbound, frame_message}
use strym_core.Rtmp.Publisher.{RtmpTransport, ReadTimeoutControl, max_unanswered_pings}
use strym_core.Rtmp.Connect.{RtmpConfig, one, four, as_stream_id}
use strym_core.Rtmp.Connect.Open.{connect, new_transport}
use strym_core.Rtmp.Connect.History
use strym_core.Rtmp.Connect.History.{arrives, writes, maintains, shuts_down, run, run-connect-pings}
use strym_core.Rtmp.Connect.Ends.{connect-ne-none}

abbrev as_it_is : Bytes → Bytes
as_it_is s = s

abbrev account : RtmpConfig
account = record {
  app = codes "live";
  key = codes "secret";
  tc_url = codes "rtmp://host/live";
  timeout = some 10_000_000_000;
  watchdog_idle = none;
}

-- A server that shakes hands, accepts the connection and the stream, and starts the publishing.
abbrev dialogue : Bytes
dialogue =
    3 ∷ replicate 3072 0
    ++ (frame_message 3 20 0 0 (into_bytes (value (str (codes "_result")) ∷ value (num one) ∷ []))
          128
        ++ (frame_message 3 20 0 0
              (into_bytes
                (value (str (codes "_result")) ∷ value (num four) ∷ nothing ∷ value (num one) ∷ []))
              128
            ++ frame_message 3 20 0 0
                (into_bytes (
                  value (str (codes "onStatus"))
                  ∷ value (num one)
                  ∷ nothing
                  ∷ fields ((codes "code", str (codes "NetStream.Publish.Start")) ∷ [])
                  ∷ []))
                128))

abbrev server : Inbound
server = record { bytes = dialogue; at_end = unexpected_eof }

connect-ne-none_example : connect as_it_is vec_write 0 account 1700000000 [] server ≢ none
connect-ne-none_example =
    connect-ne-none as_it_is vec_write 0 account 10_000_000_000 refl 1700000000 [] server

-- The double 7.9 names the stream 7.
as_stream_id_fraction : as_stream_id 0x401f_9999_9999_999a ≡ some 7
unfolding as_stream_id
as_stream_id_fraction = refl

-- The stream that was opened.
abbrev stream_opened : Option (Result IoError (Unit {0}) × RtmpTransport Bytes) → Option ℕ
stream_opened (some (ok x, t)) = some t.pid
stream_opened _ = none

-- The whole dialogue, with the digests of the handshake.
connect_opens : stream_opened (connect as_it_is vec_write 0 account 1700000000 [] server) ≡ some 1
unfolding strym_core.Rtmp.Amf0.Writer.into_bytes strym_core.Rtmp.Amf0.Writer.written
    strym_core.Rtmp.Amf0.object_entries strym_core.Rtmp.Amf0.raw_string
    strym_core.Rtmp.Amf0.read_all strym_core.Rtmp.Amf0.read_bytes strym_core.Rtmp.Amf0.read_entries
    strym_core.Rtmp.Amf0.read_entry strym_core.Rtmp.Amf0.read_f64 strym_core.Rtmp.Amf0.read_marked
    strym_core.Rtmp.Amf0.read_u16 strym_core.Rtmp.Amf0.read_u8 strym_core.Rtmp.Amf0.read_utf8
    strym_core.Rtmp.Amf0.read_val strym_core.Rtmp.Amf0.read_value strym_core.Rtmp.Amf0.read_values
    strym_core.Rtmp.Amf0.write_null strym_core.Rtmp.Amf0.write_number
    strym_core.Rtmp.Amf0.write_object strym_core.Rtmp.Amf0.write_string
    strym_core.Rtmp.Amf0.write_value strym_core.Rtmp.Chunks.continuations
    strym_core.Rtmp.Chunks.fill strym_core.Rtmp.Chunks.extended strym_core.Rtmp.Chunks.frame_message
    strym_core.Rtmp.Chunks.header0 strym_core.Rtmp.Chunks.message_header strym_core.Rtmp.Chunks.new
    strym_core.Rtmp.Chunks.open_slot strym_core.Rtmp.Chunks.put_slot
    strym_core.Rtmp.Chunks.read_chunk strym_core.Rtmp.Chunks.read_cid
    strym_core.Rtmp.Chunks.read_counted strym_core.Rtmp.Chunks.read_header
    strym_core.Rtmp.Chunks.read_message strym_core.Rtmp.Chunks.read_messages_loop
    strym_core.Rtmp.Chunks.read_payload strym_core.Rtmp.Chunks.read_rest
    strym_core.Rtmp.Chunks.read_u32be strym_core.Rtmp.Chunks.slot
    strym_core.Rtmp.Connect.Open.answer strym_core.Rtmp.Connect.as_stream_id
    strym_core.Rtmp.Connect.await_publish_status strym_core.Rtmp.Connect.await_result
    strym_core.Rtmp.Connect.code_of strym_core.Rtmp.Connect.command_of
    strym_core.Rtmp.Connect.Open.connect strym_core.Rtmp.Connect.Open.connect_app
    strym_core.Rtmp.Connect.Open.connect_payload strym_core.Rtmp.Connect.contents
    strym_core.Rtmp.Connect.Open.create_stream
    strym_core.Rtmp.Connect.Open.create_stream_with_publish_setup
    strym_core.Rtmp.Connect.Open.do_publish strym_core.Rtmp.Connect.Open.exchange
    strym_core.Rtmp.Connect.Open.flush_socket strym_core.Rtmp.Connect.Open.new_transport
    strym_core.Rtmp.Connect.id_in strym_core.Rtmp.Connect.info_of strym_core.Rtmp.Connect.named
    strym_core.Rtmp.Connect.Open.open_stream strym_core.Rtmp.Connect.read_command
    strym_core.Rtmp.Connect.read_commands strym_core.Rtmp.Connect.Open.read_exact
    strym_core.Rtmp.Connect.receive_message strym_core.Rtmp.Connect.Open.send_fc_publish
    strym_core.Rtmp.Connect.Open.send_publish strym_core.Rtmp.Connect.Open.send_release_stream
    strym_core.Rtmp.Connect.Open.send_set_chunk_size strym_core.Rtmp.Connect.Open.set_chunk
    strym_core.Rtmp.Connect.Open.set_pid strym_core.Rtmp.Connect.Open.shake_hands
    strym_core.Rtmp.Connect.str_field strym_core.Rtmp.Connect.Open.answered_stream
    strym_core.Rtmp.Connect.take_message strym_core.Rtmp.Connect.txn_of
    strym_core.Rtmp.Connect.Open.write_bytes strym_core.Rtmp.FlvTags.new
    strym_core.Rtmp.Handshake.build_c1_simple strym_core.Rtmp.Handshake.build_c2
    strym_core.Rtmp.Handshake.copy_to strym_core.Rtmp.Handshake.digest_slot
    strym_core.Rtmp.Handshake.echo strym_core.Rtmp.Handshake.fill_random
    strym_core.Rtmp.Handshake.find_digest_offset strym_core.Rtmp.Handshake.find_offset
    strym_core.Rtmp.Handshake.fms_key1 strym_core.Rtmp.Handshake.fms_key2
    strym_core.Rtmp.Handshake.random strym_core.Rtmp.Handshake.slot_digest
    strym_core.Rtmp.Handshake.slot_is_valid strym_core.Rtmp.Publisher.maybe_send_ack
    strym_core.Rtmp.Publisher.note_inbound strym_core.Rtmp.Publisher.send_message
    strym_core.Sha256.blocks strym_core.Sha256.compress strym_core.Sha256.digest
    strym_core.Sha256.fill_zeros strym_core.Sha256.hmac_sha256 strym_core.Sha256.key_block
    strym_core.Sha256.next_word strym_core.Sha256.one_round strym_core.Sha256.padded
    strym_core.Sha256.rotr strym_core.Sha256.rounds strym_core.Sha256.schedule
    strym_core.Sha256.sha256 strym_core.Sha256.words strym_core.Common.eq_bytes
connect_opens = refl

-- The transport that a call leaves.
abbrev transport_of : Option (Result IoError (Unit {0}) × RtmpTransport Bytes) → RtmpTransport Bytes
transport_of none = new_transport as_it_is vec_write 0 account [] server
transport_of (some (r, t)) = t

transport_of-stream_opened :
    (o : Option (Result IoError (Unit {0}) × RtmpTransport Bytes))
    → stream_opened o ≡ some 1
    → o ≡ some (ok tt, transport_of o)
transport_of-stream_opened none e = cc
transport_of-stream_opened (some (ok x, t)) e = refl
transport_of-stream_opened (some (err x, t)) e = cc

abbrev takes_timeouts : ReadTimeoutControl Bytes
takes_timeouts = record { apply_read_timeout = λ v d. (ok tt, v) }

abbrev quiet_server : List History.Call
quiet_server = writes 5 [] ∷ arrives server ∷ maintains 9 7 ∷ shuts_down 11 ∷ []

run-connect-pings_example :
    (u : RtmpTransport Bytes) × (run as_it_is vec_write takes_timeouts account quiet_server
        (transport_of (connect as_it_is vec_write 0 account 1700000000 [] server))
      ≡ some u)
    × (u.pings_without_reply ≤ max_unanswered_pings)
run-connect-pings_example =
    run-connect-pings as_it_is vec_write takes_timeouts account 0 1700000000 [] server
      (transport_of (connect as_it_is vec_write 0 account 1700000000 [] server)) quiet_server
      (transport_of-stream_opened (connect as_it_is vec_write 0 account 1700000000 [] server)
        connect_opens)

-- Without a timeout a silent server keeps `connect` waiting.
connect_waits :
    connect as_it_is vec_write 0
      (record account { timeout = none })
      1700000000
      []
      (record { bytes = []; at_end = would_block })
    ≡ none
unfolding strym_core.Rtmp.Connect.Open.connect strym_core.Rtmp.Connect.Open.shake_hands
    strym_core.Rtmp.Connect.Open.write_bytes strym_core.Rtmp.Connect.Open.flush_socket
    strym_core.Rtmp.Connect.Open.read_exact strym_core.Rtmp.Connect.Open.new_transport
connect_waits = refl
