-- ===== src/Rtmp/Chunks/Rounds.antt =====
-- The reader's rounds: each takes a byte at least, and so the loop ends.
use strym_core.Common.{inl, inr, sym, ◌∙◌}
use strym_core.Common.Result.{Result-cases}
use strym_core.Common.{
  ℕ, zero, suc, ◌≤◌, ◌<◌, ◌≡◌, ◌≢◌, refl, Option, none, some, arith, length, length-drop, Bytes,
}
use strym_core.Common.Result.{Result, ok, err}
use strym_core.Io.{IoError}
use strym_core.Rtmp.Chunks.{
  Message, ChunkState, Reading, Reader, read_counted, read_u32be, read_cid, put_slot, open_slot,
  extended, read_header, fill, read_payload, read_rest, read_chunk, read_messages_loop,
  read_message,
}

abbrev pub left : Reading → ℕ
left s = length s.sock.bytes

-- A call that gives nothing back to the socket.
abbrev Takes : {A : Type 0} → Reader A → Type 0
Takes m = (s : Reading) → left (m s).1 ≤ left s

read_counted-Takes : (n : ℕ) → Takes (read_counted n)
unfolding read_counted
read_counted-Takes n s = ground (arith, length-drop n s.sock.bytes)

read_u32be-Takes : Takes read_u32be
unfolding read_u32be
read_u32be-Takes s = grind (arith, read_counted-Takes)

extended-Takes : (ts : ℕ) → Takes (extended ts)
unfolding extended
extended-Takes ts s = grind (arith, read_u32be-Takes)

read_cid-Takes : (low : ℕ) → Takes (read_cid low)
unfolding read_cid
read_cid-Takes low s = grind (arith, read_counted-Takes)

open_slot-left : (cid : ℕ) (s : Reading) → left (open_slot cid s) ≡ left s
unfolding open_slot put_slot
open_slot-left cid s = ground arith

read_header-Takes : (fmt cid : ℕ) → Takes (read_header fmt cid)
unfolding read_header put_slot
read_header-Takes zero cid s = grind (arith, read_counted-Takes, extended-Takes)
read_header-Takes (suc zero) cid s = grind (arith, read_counted-Takes, extended-Takes)
read_header-Takes (suc (suc zero)) cid s = grind (arith, read_counted-Takes, extended-Takes)
read_header-Takes (suc (suc (suc n))) cid s = omega arith

read_payload-Takes : (cid : ℕ) (st : ChunkState) → Takes (read_payload cid st)
unfolding read_payload fill put_slot
read_payload-Takes cid st s = grind (arith, read_counted-Takes)

-- What a chunk's first byte is read for.
read_first :
    (n : ℕ) (s : Reading)
    → (bs : Bytes) → (read_counted (suc n) s).0 ≡ ok bs
    → left (read_counted (suc n) s).1 < left s
unfolding read_counted
read_first n s bs e = ground (arith, length-drop (suc n) s.sock.bytes)

pub read_chunk-left :
    (s : Reading) (a : Option Message) → (read_chunk s).0 ≡ ok a → left (read_chunk s).1 < left s
unfolding read_chunk read_rest
read_chunk-left s a e =
    grind
      (arith, read_first 0 s, read_cid-Takes, open_slot-left, read_header-Takes, read_payload-Takes)

-- What the loop does after a round.
after : ℕ → Result IoError (Option Message) × Reading → Option (Result IoError Message × Reading)
after fuel r = elim (r.0) [
  | err e ↦ some (err e, r.1)
  | ok (some msg) ↦ some (ok msg, r.1)
  | ok none ↦ read_messages_loop fuel r.1
]

after-total :
    (fuel : ℕ) (r : Result IoError (Option Message) × Reading)
    → ((r.0 ≡ ok none) → read_messages_loop fuel r.1 ≢ none)
    → after fuel r ≢ none
unfolding after
after-total fuel (err e, t) l q = ground arith
after-total fuel (ok (some msg), t) l q = ground arith
after-total fuel (ok none, t) l q = l refl q

read_messages_loop-total :
    (fuel : ℕ) (s : Reading) → left s < fuel → read_messages_loop fuel s ≢ none
unfolding read_messages_loop after
read_messages_loop-total zero s h = absurd (omega arith)
read_messages_loop-total (suc fuel) s h =
    after-total fuel (read_chunk s) (λ e.
      read_messages_loop-total fuel (read_chunk s).1 (omega (arith, read_chunk-left s none e)))

-- `read_message` ends on every input and in every state of the reader.
pub read_message-total : (s : Reading) → read_message s ≢ none
unfolding read_message
read_message-total s = read_messages_loop-total _ s (omega arith)

-- The loop on a round that gave a message, and on one that gave none.
pub loop-message :
    (fuel : ℕ) (s : Reading) (msg : Message)
    → (read_chunk s).0 ≡ ok (some msg)
    → read_messages_loop (suc fuel) s ≡ some (ok msg, (read_chunk s).1)
unfolding read_messages_loop
loop-message fuel s msg e = rw (read_messages_loop, e) refl

pub loop-none :
    (fuel : ℕ) (s : Reading)
    → (read_chunk s).0 ≡ ok none
    → read_messages_loop (suc fuel) s ≡ read_messages_loop fuel (read_chunk s).1
unfolding read_messages_loop
loop-none fuel s e = rw (read_messages_loop, e) refl

loop-error :
    (fuel : ℕ) (s : Reading) (x : IoError)
    → (read_chunk s).0 ≡ err x
    → read_messages_loop (suc fuel) s ≡ some (err x, (read_chunk s).1)
unfolding read_messages_loop
loop-error fuel s x e = rw (read_messages_loop, e) refl

-- A message that was read took a byte at least.
loop-left :
    (fuel : ℕ) (s t : Reading) (msg : Message)
    → read_messages_loop fuel s ≡ some (ok msg, t)
    → left t < left s
loop-left zero s t msg e = unfold read_messages_loop in ground arith
loop-left (suc fuel) s t msg e = elim (Result-cases (read_chunk s).0) [
  | inr (x, q) ↦ ground (arith, sym (loop-error fuel s x q) ∙ e)
  | inl (none, q) ↦ omega (
    arith,
    loop-left fuel (read_chunk s).1 t msg (sym (loop-none fuel s q) ∙ e),
    read_chunk-left s none q,
  )
  | inl (some m, q) ↦
      ground (arith, sym (loop-message fuel s m q) ∙ e, read_chunk-left s (some m) q)
]

pub read_message-left :
    (s t : Reading) (msg : Message) → read_message s ≡ some (ok msg, t) → left t < left s
unfolding read_message
read_message-left s t msg e = loop-left _ s t msg e
