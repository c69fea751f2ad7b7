-- ===== src/Rtmp/Publisher/Tags.antt =====
-- What the server hears of the tags that are published.
use strym_core.Common.{
  ℕ, ◌^◌, ◌<◌, ◌≡◌, ◌⊎◌, inl, inr, refl, sym, ap, ◌∙◌, none, some, List, [], ◌∷◌, ◌++◌,
  append_assoc, append-nil, arith, length, map, All, Bytes, if◌then◌else◌, ◌==◌,
}
use strym_core.Common.Result.{Result, ok, pure, bind-ok}
use strym_core.Io.{IoError, vec_write}
use strym_core.Rtmp.Chunks.{Message, Reading, ChunkReader, read_message, frame_message}
use strym_core.Rtmp.Chunks.RoundTrip.{read_message-frame_message}
use strym_core.Rtmp.FlvTags
use strym_core.Rtmp.FlvTags.{FlvTag, tags, feed}
use strym_core.Rtmp.FlvTags.Stream.{Fits, stream, feed-stream}
use strym_core.Mux.{flv_header}
use strym_core.Rtmp.Publisher.{RtmpTransport, send_message, emit_tag, emit_tags, write}

-- An audio or a video tag that fits a message.
pub record IsMedia (tag : FlvTag) : Type 0 where
  pub kind : (tag.mtype ≡ 8) ⊎ (tag.mtype ≡ 9)
  pub time : tag.ts < 2 ^ 32
  pub some_body : 0 < length tag.body
  pub short : length tag.body < 2 ^ 24

abbrev stream_of : ℕ → ℕ
stream_of mtype = if mtype == 9 then 7 else 6

abbrev pub framed : ℕ → ℕ → FlvTag → Bytes
framed pid n tag = frame_message (stream_of tag.mtype) tag.mtype pid tag.ts tag.body n

abbrev pub framed_all : ℕ → ℕ → List FlvTag → Bytes
framed_all pid n [] = []
framed_all pid n (tag ∷ rest) = framed pid n tag ++ framed_all pid n rest

abbrev pub message : FlvTag → Message
message tag = record { mtype = tag.mtype; ts = tag.ts; payload = tag.body }

-- What `emit_tags` leaves: the socket has the frames, and the rest of the way is as it was.
pub record Emits (t : RtmpTransport Bytes) (bytes : Bytes)
    (r : Result IoError (Unit {0}) × RtmpTransport Bytes) : Type 0 where
  pub succeeds : r.0 ≡ ok tt
  pub sock : (r.1).sock ≡ t.sock ++ bytes
  pub pid : (r.1).pid ≡ t.pid
  pub chunk : (r.1).chunk ≡ t.chunk

send-Emits :
    (now cid mtype sid ts : ℕ) (body : Bytes) (t : RtmpTransport Bytes)
    → Emits t
        (frame_message cid mtype sid ts body t.chunk)
        (send_message vec_write now cid mtype sid ts body t)
unfolding send_message
send-Emits now cid mtype sid ts body t = record {
  succeeds = refl;
  sock = refl;
  pid = refl;
  chunk = refl;
}

emit_tag-Emits :
    (now : ℕ) (tag : FlvTag) (t : RtmpTransport Bytes)
    → IsMedia tag
    → Emits t (framed t.pid t.chunk tag) (emit_tag vec_write now tag t)
unfolding emit_tag
emit_tag-Emits now tag t h = elim (h.kind) [
  | inl a ↦ rw a (send-Emits now 6 8 t.pid tag.ts tag.body t)
  | inr v ↦ rw v (send-Emits now 7 9 t.pid tag.ts tag.body t)
]

emit_tags-Emits :
    (now : ℕ) (ts : List FlvTag) (t : RtmpTransport Bytes)
    → All IsMedia ts
    → Emits t (framed_all t.pid t.chunk ts) (emit_tags vec_write now ts t)
unfolding emit_tags
emit_tags-Emits now [] t h = record {
  succeeds = refl;
  sock = sym (append-nil t.sock);
  pid = refl;
  chunk = refl;
}
emit_tags-Emits now (tag ∷ ts) t (m, h) =
    let d = emit_tag-Emits now tag t m in
    let t1 = (emit_tag vec_write now tag t).1 in
    let r = emit_tags-Emits now ts t1 h in
    rw
      (bind-ok (emit_tag vec_write now tag) (λ u. emit_tags vec_write now ts) t t1 tt
        (ap (λ x. (x, t1)) d.succeeds))
      (record {
        succeeds = r.succeeds;
        sock =
            r.sock
            ∙ rw (d.sock, d.pid, d.chunk)
                (append_assoc t.sock (framed t.pid t.chunk tag) (framed_all t.pid t.chunk ts));
        pid = r.pid ∙ d.pid;
        chunk = r.chunk ∙ d.chunk;
      })

-- The server reads these messages, and then nothing is left.
abbrev pub Hears : List Message → Reading → Type 0
Hears [] s = s.sock.bytes ≡ []
Hears (m ∷ ms) s = (t : Reading) × (read_message s ≡ some (ok m, t)) × Hears ms t

kind-lt : {k : ℕ} → (k ≡ 8) ⊎ (k ≡ 9) → k < 256
kind-lt h = ground arith

frames-Hears :
    (pid n : ℕ) (ts : List FlvTag) (s : Reading)
    → pid < 2 ^ 32
    → 0 < n
    → All IsMedia ts
    → s.reader.read_chunk_size ≡ n
    → s.sock.bytes ≡ framed_all pid n ts
    → Hears (map message ts) s
frames-Hears pid n [] s p z h q e = e
frames-Hears pid n (tag ∷ ts) s p z (m, h) q e =
    let d =
      read_message-frame_message (stream_of tag.mtype) n tag.mtype pid tag.ts tag.body
        (framed_all pid n ts) s (ground arith) (ground arith) z (kind-lt m.kind) p m.time
        m.some_body m.short q e in
    (d.behind, d.result, frames-Hears pid n ts d.behind p z h d.size d.next)

IsMedia-Fits : (ts : List FlvTag) → All IsMedia ts → All Fits ts
IsMedia-Fits [] h = tt
IsMedia-Fits (tag ∷ ts) (m, h) = ((m.short, m.time), IsMedia-Fits ts h)

-- An FLV stream of audio and video tags, none of them empty, that is written to a new publisher
-- reaches the server: reading what came over the socket, with the publisher's chunk size, it gets
-- one message for each tag, in order, with its type, time and body, and nothing is left.
pub write-Hears :
    (now : ℕ) (ts : List FlvTag) (t : RtmpTransport Bytes) (reader : ChunkReader) (at_end : IoError)
    → All IsMedia ts
    → t.flv ≡ FlvTags.new
    → t.sock ≡ []
    → t.pid < 2 ^ 32
    → 0 < t.chunk
    → reader.read_chunk_size ≡ t.chunk
    → (u : RtmpTransport Bytes) × (write vec_write now (flv_header ++ stream ts) t
        ≡ some (ok (length (flv_header ++ stream ts)), u))
      × Hears
          (map message ts)
          (record { reader = reader; sock = record { bytes = u.sock; at_end = at_end } })
unfolding write
write-Hears now ts t reader at_end h f e p z q = (
  u,
  rw (write, fed)
      (ap some (
        bind-ok (emit_tags vec_write now ts) (λ x. pure (length (flv_header ++ stream ts))) t1 u tt
          (ap (λ x. (x, u)) d.succeeds))),
  frames-Hears t.pid t.chunk ts _ p z h q (d.sock ∙ ap (λ b. b ++ framed_all t.pid t.chunk ts) e),
)
  where
    rest : FlvTags.FlvTagParser
    rest = record { phase = FlvTags.tag_header; buf = []; cur = none }

    fed : feed t.flv (flv_header ++ stream ts) ≡ tags ts rest
    fed = ap (λ x. feed x (flv_header ++ stream ts)) f ∙ feed-stream ts (IsMedia-Fits ts h)

    t1 : RtmpTransport Bytes
    t1 = record t { flv = rest }

    d : Emits t1 (framed_all t.pid t.chunk ts) (emit_tags vec_write now ts t1)
    d = emit_tags-Emits now ts t1 h

    u : RtmpTransport Bytes
    u = (emit_tags vec_write now ts t1).1
