-- ===== src/Examples/Publish.antt =====
-- Tests and witnesses of the publisher and of the fanout.
use strym_core.Common.{
  ◌≡◌, ◌≢◌, ◌⊎◌, ◌↔◌, ◌≤◌, ◌<◌, ◌+◌, ◌-◌, inl, inr, refl, true, some, none, [], ◌∷◌, ◌++◌, map,
  arith, length, Bytes,
}
use strym_core.Common.Result.{ok, err}
use strym_core.Io.{vec_write, would_block, broken_pipe, unexpected_eof, invalid_data}
use strym_core.Mux.{flv_header}
use strym_core.Rtmp.Chunks
use strym_core.Rtmp.Chunks.{set_chunk_size, Message}
use strym_core.Rtmp.FlvTags
use strym_core.Rtmp.FlvTags.{FlvTag}
use strym_core.Rtmp.FlvTags.Stream.{stream}
use strym_core.Rtmp.Publisher.{
  ReadTimeoutControl, RtmpTransport, maybe_send_ack, send_message, watch, send_ping_probe,
  handle_control, handle_event, send_ping_response,
}
use strym_core.Rtmp.Publisher
use strym_core.Rtmp.Publisher.Tags.{write-Hears, Hears, message}
use strym_core.Rtmp.Publisher.Watch.{maybe_send_ack-window, watch-invalid_data}
use strym_core.Rtmp.Publisher.Drain.{maintain-total}
use strym_core.Transport.{Transport}
use strym_core.Transport.Fanout.{Fanout, FanoutSlot, write_slot}
use strym_core.Transport.Fanout
use strym_core.Transport.Fanout.Primary.{write-primary}

abbrev publisher : RtmpTransport Bytes
publisher = record {
  sock = [];
  inbound = record { bytes = []; at_end = would_block };
  reader = record { states = []; read_chunk_size = 128; bytes_read = 3000 };
  flv = FlvTags.new;
  pid = 1;
  timeout = some 10_000_000_000;
  watchdog_idle = some 12;
  chunk = 4;
  window_ack = 2500;
  last_ack_at = 0;
  last_activity = 0;
  bytes_written = 0;
  peer_acked = 0;
  last_inbound = 5;
  pings_without_reply = 2;
  next_probe_at = 8;
}

abbrev sound : FlvTag
sound = record { mtype = 8; ts = 0x100_0000; body = 0xaf ∷ 1 ∷ 0x21 ∷ 0x22 ∷ 0x23 ∷ [] }

abbrev picture : FlvTag
picture = record { mtype = 9; ts = 40; body = 0x17 ∷ 1 ∷ [] }

abbrev listener : Chunks.ChunkReader
listener = record { states = []; read_chunk_size = 4; bytes_read = 0 }

write-Hears_example :
    (u : RtmpTransport Bytes) × (Publisher.write vec_write 9
        (flv_header ++ stream (sound ∷ picture ∷ []))
        publisher
      ≡ some (ok (length (flv_header ++ stream (sound ∷ picture ∷ []))), u))
    × Hears
        (map message (sound ∷ picture ∷ []))
        (record { reader = listener; sock = record { bytes = u.sock; at_end = unexpected_eof } })
write-Hears_example =
    write-Hears 9 (sound ∷ picture ∷ []) publisher listener unexpected_eof
      (
        record {
          kind = inl refl;
          time = omega arith;
          some_body = omega arith;
          short = omega arith;
        },
        (
          record {
            kind = inr refl;
            time = omega arith;
            some_body = omega arith;
            short = omega arith;
          },
          tt,
        ),
      )
      refl refl (omega arith) (omega arith) refl

maybe_send_ack-window_example :
    ((maybe_send_ack vec_write 9 publisher).1.window_ack ≡ 0)
    ⊎ ((maybe_send_ack vec_write 9 publisher).1.reader.bytes_read
        < (maybe_send_ack vec_write 9 publisher).1.last_ack_at
          + (maybe_send_ack vec_write 9 publisher).1.window_ack)
maybe_send_ack-window_example =
    maybe_send_ack-window vec_write 9 publisher (omega arith) (omega arith) (omega arith)
      (unfold maybe_send_ack in unfold send_message in refl)

watch-invalid_data_example :
    ((watch vec_write 20 7 publisher).0 ≡ err invalid_data) ↔ ((3 ≤ 2) × (12 ≤ 20 - 5))
watch-invalid_data_example = watch-invalid_data 20 7 12 publisher refl

-- A ping request is answered with the server's time.
answers_ping :
    (handle_control vec_write 9
      (record { mtype = 4; ts = 0; payload = 0 ∷ 0 ∷ 1 ∷ 2 ∷ 3 ∷ 4 ∷ [] })
      publisher).0
    ≡ ok tt
unfolding handle_control handle_event send_ping_response send_message
answers_ping = refl

-- Bytes that arrive until the transport is full.
abbrev limited : Transport Bytes
limited = record {
  write = record {
    write_all = λ v b. elim v [ [] ↦ (err broken_pipe, []) | x ∷ rest ↦ (ok tt, rest) ];
    flush = λ v. (err broken_pipe, v);
  };
  shutdown = λ v. (ok tt, v);
  maintain = λ v. (ok tt, v);
  bytes_written = length;
  last_progress = λ v. none;
}

abbrev pair : Fanout Bytes
pair =
    record { transport = 1 ∷ 2 ∷ []; alive = true } ∷ record { transport = []; alive = true } ∷ []

write-primary_example :
    (Fanout.write limited pair (7 ∷ [])).0 ≡ (write_slot limited (7 ∷ []) (1 ∷ 2 ∷ [])).0
write-primary_example =
    write-primary limited (record { transport = 1 ∷ 2 ∷ []; alive = true })
      (record { transport = []; alive = true } ∷ []) (7 ∷ []) refl

-- A secondary whose flush fails makes the flush of the fanout fail.
flush_secondary :
    (Fanout.flush
      (record limited {
        write = record {
          write_all = λ v b. (ok tt, v);
          flush = λ v. elim v [ [] ↦ (err broken_pipe, []) | x ∷ rest ↦ (ok tt, x ∷ rest) ];
        };
      })
      pair).0
    ≡ err broken_pipe
unfolding Fanout.flush
flush_secondary = refl

abbrev takes_timeouts : ReadTimeoutControl Bytes
takes_timeouts = record { apply_read_timeout = λ v d. (ok tt, v) }

maintain-total_example : Publisher.maintain vec_write 9 takes_timeouts 7 publisher ≢ none
maintain-total_example = maintain-total vec_write 9 takes_timeouts 7 publisher
