-- ===== src/Examples/Chunks.antt =====
-- Tests and witnesses of the chunk stream.
use strym_core.Common.{◌≡◌, ◌≢◌, refl, some, none, [], ◌∷◌, ◌++◌, arith, length, take, Bytes}
use strym_core.Common.Result.{err}
use strym_core.Io.{would_block}
use strym_core.Rtmp.Chunks.{
  Reading, read_message, read_messages_loop, read_chunk, read_rest, read_counted, read_cid,
  open_slot, put_slot, slot, read_header, header0, extended, read_u32be, read_payload, fill,
  frame_message, message_header, continuations, new,
}
use strym_core.Rtmp.Chunks.Rounds.{read_message-total}
use strym_core.Rtmp.Chunks.Pieces.{Delivers}
use strym_core.Rtmp.Chunks.RoundTrip.{read_message-frame_message}

-- Three chunks of four bytes, at a time that does not fit 24 bits, and a byte behind them.
abbrev framed : Bytes
framed = frame_message 6 9 1 0x1234_5678 (1 ∷ 2 ∷ 3 ∷ 4 ∷ 5 ∷ 6 ∷ 7 ∷ 8 ∷ 9 ∷ []) 4

abbrev listening : Reading
listening = record {
  reader = record new { read_chunk_size = 4 };
  sock = record { bytes = framed ++ (3 ∷ []); at_end = would_block };
}

length-framed : length framed ≡ 27
unfolding frame_message message_header continuations
length-framed = refl

read_framed :
    Delivers 4
      (record { mtype = 9; ts = 0x1234_5678; payload = 1 ∷ 2 ∷ 3 ∷ 4 ∷ 5 ∷ 6 ∷ 7 ∷ 8 ∷ 9 ∷ [] })
      (3 ∷ [])
      (read_message listening)
unfolding read_message read_messages_loop read_chunk read_rest read_counted read_cid open_slot
    put_slot slot read_header header0 extended read_u32be read_payload fill frame_message
    message_header continuations new
read_framed = record { behind = _; result = refl; next = refl; size = refl }

-- Of a message that has arrived in part, a quiet connection keeps nothing.
read_part :
    (r : Reading) × (read_message
        (record listening { sock = record { bytes = take 14 framed; at_end = would_block } })
      ≡ some (err would_block, r))
    × (r.sock.bytes ≡ [])
unfolding read_message read_messages_loop read_chunk read_rest read_counted read_cid open_slot
    put_slot slot read_header header0 extended read_u32be read_payload fill frame_message
    message_header continuations new
read_part = (_, refl, refl)

read_message-total_example : read_message listening ≢ none
read_message-total_example = read_message-total listening

read_message-frame_message_example :
    Delivers 4
      (record { mtype = 9; ts = 0x1234_5678; payload = 1 ∷ 2 ∷ 3 ∷ 4 ∷ 5 ∷ 6 ∷ 7 ∷ 8 ∷ 9 ∷ [] })
      (3 ∷ [])
      (read_message listening)
read_message-frame_message_example =
    read_message-frame_message 6 4 9 1 0x1234_5678 (1 ∷ 2 ∷ 3 ∷ 4 ∷ 5 ∷ 6 ∷ 7 ∷ 8 ∷ 9 ∷ []) (3 ∷ [])
      listening (omega arith) (omega arith) (omega arith) (omega arith) (omega arith) (omega arith)
      (omega arith) (omega arith) refl refl
