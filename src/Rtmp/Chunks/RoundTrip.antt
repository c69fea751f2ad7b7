-- ===== src/Rtmp/Chunks/RoundTrip.antt =====
-- A framed message, read back by `read_message`.
use strym_core.Common.{
  Bool-cases, inl, inr, leb→le, ℕ, ◌+◌, ◌*◌, ◌^◌, ◌≤◌, ◌<◌, ◌≡◌, refl, ap, ◌∙◌, ◌∷◌, ◌++◌,
  append_assoc, leb, arith, length, take, drop, take_all, drop_all, Bytes,
}
use strym_core.Common.Result.{bind-ok}
use strym_core.Rtmp.Chunks.{
  Reading, slot, open_slot, read_header, read_payload, read_message, message_header, continuations,
  frame_message,
}
use strym_core.Rtmp.Chunks.Slots.{
  Holds, open_slot-room, open_slot-sock, open_slot-size, took, took-next, took-size,
}
use strym_core.Rtmp.Chunks.Frames.{read_chunk-cid, fields, extension}
use strym_core.Rtmp.Chunks.Header.{started, header}
use strym_core.Rtmp.Chunks.Pieces.{Delivers, pieces, continuations-nil}

-- What `frame_message` writes, cut where the reader cuts it.
frame_message-eq :
    (cid n mtype stream_id ts : ℕ) (payload tail : Bytes)
    → frame_message cid mtype stream_id ts payload n ++ tail ≡ (
        cid ∷ fields mtype stream_id ts (length payload)
        ++ (extension ts
            ++ (take n payload ++ (continuations (length payload) cid n (drop n payload) ++ tail))))
unfolding frame_message message_header
frame_message-eq cid n mtype stream_id ts payload tail =
    elim (Bool-cases (leb (length payload) n)) [
      | inl y ↦
          rw
            (
              y,
              take_all n payload (leb→le _ _ y),
              drop_all n payload (leb→le _ _ y),
              continuations-nil (length payload) cid n,
            )
            (ap (λ x. cid ∷ fields mtype stream_id ts (length payload) ++ x)
              (append_assoc (extension ts) payload tail))
      | inr m ↦ rw m (
          ap (λ x. cid ∷ fields mtype stream_id ts (length payload) ++ x)
            (append_assoc (extension ts) _ tail
              ∙ ap (λ x. extension ts ++ x) (append_assoc (take n payload) _ tail)))
    ]

-- What `frame_message` writes for a message that is not empty, shorter than 2 ^ 24 bytes and with
-- a 32-bit time, is what `read_message` gives back, whatever the reader held, with a chunk size
-- that both sides agree on and a chunk stream of the one-byte form; what comes behind the message
-- is still unread.
pub read_message-frame_message :
    (cid n mtype stream_id ts : ℕ) (payload tail : Bytes) (s : Reading)
    → 2 ≤ cid
    → cid < 64
    → 0 < n
    → mtype < 256
    → stream_id < 2 ^ 32
    → ts < 2 ^ 32
    → 0 < length payload
    → length payload < 2 ^ 24
    → s.reader.read_chunk_size ≡ n
    → s.sock.bytes ≡ frame_message cid mtype stream_id ts payload n ++ tail
    → Delivers n (record { mtype = mtype; ts = ts; payload = payload }) tail (read_message s)
unfolding read_message
read_message-frame_message cid n mtype stream_id ts payload tail s l h p m i u z w size e =
    let (t, read, holds) =
      header cid n mtype stream_id ts (length payload) body t0 m i u w opened in
    pieces (length payload) cid n (length s.sock.bytes + 1)
      (started mtype stream_id ts (length payload)) payload tail s t l h p w z (omega arith)
      (omega arith) (omega arith)
      (read_chunk-cid 0 cid rest s l h
          (e ∙ frame_message-eq cid n mtype stream_id ts payload tail ∙ ap (λ x. x ∷ rest) first)
        ∙ bind-ok (read_header 0 cid) (λ x t. read_payload cid (slot cid t) t) t0 t tt read
        ∙ ap (λ x. read_payload cid x t) holds.here)
      holds
  where
    body : Bytes
    body = take n payload ++ (continuations (length payload) cid n (drop n payload) ++ tail)

    rest : Bytes
    rest = fields mtype stream_id ts (length payload) ++ (extension ts ++ body)

    first : cid ≡ 0 * 64 + cid
    first = omega arith

    t0 : Reading
    t0 = open_slot cid (took 1 rest s)

    opened : Holds cid n (slot cid t0) rest t0
    opened = record {
      room = open_slot-room cid (took 1 rest s);
      here = refl;
      next = ap (λ x. x.bytes) (open_slot-sock cid (took 1 rest s)) ∙ took-next 1 rest s;
      size = open_slot-size cid (took 1 rest s) ∙ took-size 1 rest s ∙ size;
    }
