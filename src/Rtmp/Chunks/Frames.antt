-- ===== src/Rtmp/Chunks/Frames.antt =====
-- The reader's rounds on the chunks of a framed message.
use strym_core.Common.{
  Bool-cases, inl, inr, true, false, leb→le, from_be32, from_be32-be32, ℕ, ◌+◌, ◌-◌, ◌*◌, ◌/◌, ◌%◌,
  ◌^◌, ◌≤◌, ◌<◌, ◌≡◌, refl, ap, ◌∙◌, min, Option, none, some, [], ◌∷◌, ◌++◌, leb, if◌then◌else◌,
  arith, length, get_or, replicate, length-append, Bytes, as_u32, lt→leb, be24, be32, le32,
}
use strym_core.Common.Result.{Result, ok, ◌>>=◌, pure, bind-ok}
use strym_core.Io.{IoError}
use strym_core.Rtmp.Chunks.{
  Message, ChunkState, Reading, read_counted, read_u32be, read_cid, slot, put_slot, open_slot,
  extended, read_header, fill, read_payload, read_rest, read_chunk, max_chunk_streams,
}
use strym_core.Rtmp.Chunks.Slots.{
  Holds, put_slot-Holds, took, read_counted-append, took-Holds, open_slot-Holds,
}

-- A piece that does not complete the message, and one that does.
fill_more :
    (cid n k : ℕ) (st st' : ChunkState) (a b : Bytes) (s : Reading)
    → Holds cid n st' (a ++ b) s
    → length a ≡ k
    → length st.payload + k < st.length
    → st.length < 2 ^ 24
    → fill cid st k s
      ≡ (ok none, put_slot cid (record st { payload = st.payload ++ a }) (took k b s))
unfolding fill
fill_more cid n k st st' a b s h e l w =
    rw
      (
        ◌>>=◌,
        read_counted-append a b k s e h.next,
        ap (λ r. r.1) (read_counted-append a b k s e h.next),
      )
      (ground (arith, length-append st.payload a))

fill_done :
    (cid n k : ℕ) (st st' : ChunkState) (a b : Bytes) (s : Reading)
    → Holds cid n st' (a ++ b) s
    → length a ≡ k
    → length st.payload + k ≡ st.length
    → st.length < 2 ^ 24
    → fill cid st k s ≡ (
      ok (some (record { mtype = st.mtype; ts = st.ts; payload = st.payload ++ a })),
      put_slot cid (record st { payload = [] }) (took k b s),
    )
unfolding fill
fill_done cid n k st st' a b s h e l w =
    rw
      (
        ◌>>=◌,
        read_counted-append a b k s e h.next,
        ap (λ r. r.1) (read_counted-append a b k s e h.next),
      )
      (ground (arith, length-append st.payload a))

-- What comes of a piece of the payload that is not empty.
pub record Step (cid n : ℕ) (st : ChunkState) (a b : Bytes)
    (r : Result IoError (Option Message) × Reading) : Type 0 where
  pub more :
      length st.payload + length a < st.length
      → (r.0 ≡ ok none) × Holds cid n (record st { payload = st.payload ++ a }) b r.1
  pub done :
      length st.payload + length a ≡ st.length
      → (r.0 ≡ ok (some (record { mtype = st.mtype; ts = st.ts; payload = st.payload ++ a })))
        × Holds cid n (record st { payload = [] }) b r.1

-- The state with room for the piece.
unfoldable zeros : ℕ → ChunkState → ℕ → Reading → Reading
zeros cid st k s = put_slot cid (record st { payload = st.payload ++ replicate k 0 }) s

read_payload-fill :
    (cid n k : ℕ) (st : ChunkState) (s : Reading)
    → k ≡ min (st.length - length st.payload) s.reader.read_chunk_size
    → length st.payload < st.length
    → st.length < 2 ^ 24
    → read_payload cid st s ≡ fill cid st k (zeros cid st k s)
unfolding read_payload zeros
read_payload-fill cid n k st s e l w =
    rw (e, lt→leb st.length (as_u32 (length st.payload)) (omega arith), u32) refl
  where
    u32 : as_u32 (length st.payload) ≡ length st.payload
    u32 = omega arith

pub read_payload-Step :
    (cid n : ℕ) (st : ChunkState) (a b : Bytes) (s : Reading)
    → Holds cid n st (a ++ b) s
    → 0 < length a
    → length a ≡ min (st.length - length st.payload) n
    → st.length < 2 ^ 24
    → Step cid n st a b (read_payload cid st s)
unfolding read_payload
read_payload-Step cid n st a b s h p e w =
    rw (read_payload-fill cid n (length a) st s (rw (h.size) e) (omega arith) w) (record {
      more = λ l.
          rw (fill_more cid n _ st _ a b (zeros cid st (length a) s) held refl l w)
            (refl, put_slot-Holds cid n _ _ b _ (took-Holds cid n _ _ _ b _ held));
      done = λ l.
          rw (fill_done cid n _ st _ a b (zeros cid st (length a) s) held refl l w)
            (refl, put_slot-Holds cid n _ _ b _ (took-Holds cid n _ _ _ b _ held));
    })
  where
    held :
        Holds cid n
          (record st { payload = st.payload ++ replicate (length a) 0 })
          (a ++ b)
          (zeros cid st (length a) s)
    held = unfold zeros in put_slot-Holds cid n st _ (a ++ b) s h

-- A basic header of one byte.
pub read_chunk-cid :
    (fmt cid : ℕ) (rest : Bytes) (s : Reading)
    → 2 ≤ cid
    → cid < 64
    → s.sock.bytes ≡ (fmt * 64 + cid) ∷ rest
    → read_chunk s
      ≡ (read_header fmt cid >>= λ u t. read_payload cid (slot cid t) t)
          (open_slot cid (took 1 rest s))
unfolding read_chunk read_cid read_rest
read_chunk-cid fmt cid rest s l h e =
    bind-ok (read_counted 1)
      (λ bh. read_cid (get_or bh 0 0 % 64) >>= λ c. read_rest (get_or bh 0 0 / 64) c) s
      (took 1 rest s) ((fmt * 64 + cid) ∷ [])
      (read_counted-append ((fmt * 64 + cid) ∷ []) rest 1 s refl e)
    ∙ bind-ok (read_cid ((fmt * 64 + cid) % 64)) (λ c. read_rest ((fmt * 64 + cid) / 64) c)
        (took 1 rest s) (took 1 rest s) cid id
    ∙ rw (div, read_rest, lt→leb max_chunk_streams cid (omega arith)) refl
  where
    low : (fmt * 64 + cid) % 64 ≡ cid
    low = omega arith

    div : (fmt * 64 + cid) / 64 ≡ fmt
    div = omega arith

    id : read_cid ((fmt * 64 + cid) % 64) (took 1 rest s) ≡ (ok cid, took 1 rest s)
    id = rw low (ground arith)

-- A continuation changes nothing before its payload.
pub continuation :
    (cid n : ℕ) (st : ChunkState) (rest : Bytes) (s : Reading)
    → 2 ≤ cid
    → cid < 64
    → Holds cid n st ((192 + cid % 64) ∷ rest) s
    → (t : Reading) × Holds cid n st rest t × (read_chunk s ≡ read_payload cid st t)
unfolding read_header
continuation cid n st rest s l h k = (
  open_slot cid (took 1 rest s),
  held,
  read_chunk-cid 3 cid rest s l h (rw k.next (ground arith))
      ∙ ap (λ x. read_payload cid x (open_slot cid (took 1 rest s))) held.here,
)
  where
    held : Holds cid n st rest (open_slot cid (took 1 rest s))
    held = open_slot-Holds cid n st rest _ (took-Holds cid n 1 st _ rest s k)

-- The eleven bytes behind the basic header.
abbrev pub fields : ℕ → ℕ → ℕ → ℕ → Bytes
fields mtype stream_id ts len =
    be24 (min ts 0xff_ffff) ++ (be24 (as_u32 len) ++ (mtype ∷ le32 stream_id))

abbrev pub extension : ℕ → Bytes
extension ts = if leb 0xff_ffff ts then be32 ts else []

read_u32be-append :
    (v : ℕ) (tail : Bytes) (s : Reading)
    → v < 2 ^ 32
    → s.sock.bytes ≡ be32 v ++ tail
    → read_u32be s ≡ (ok v, took 4 tail s)
unfolding read_u32be
read_u32be-append v tail s w e =
    bind-ok (read_counted 4)
      (λ b. pure (from_be32 (get_or b 0 0) (get_or b 1 0) (get_or b 2 0) (get_or b 3 0))) s
      (took 4 tail s) (be32 v) (read_counted-append (be32 v) tail 4 s refl e)
    ∙ rw (from_be32-be32 v w) refl

-- What is left of the socket when the time has been read.
unfoldable pub after_time : ℕ → Bytes → Reading → Reading
after_time ts tail s = if leb 0xff_ffff ts then took 4 tail s else s

pub extended-append :
    (ts : ℕ) (tail : Bytes) (s : Reading)
    → ts < 2 ^ 32
    → s.sock.bytes ≡ extension ts ++ tail
    → extended (min ts 0xff_ffff) s ≡ (ok ts, after_time ts tail s)
unfolding extended after_time
extended-append ts tail s w e = elim (Bool-cases (leb 0xff_ffff ts)) [
  | inl y ↦ rw (y, top y) (read_u32be-append ts tail s w (rw y at e))
  | inr n ↦ rw (n, below n) (ground arith)
]
  where
    top : leb 0xff_ffff ts ≡ true → min ts 0xff_ffff ≡ 0xff_ffff
    top y = omega (arith, leb→le 0xff_ffff ts y)

    below : leb 0xff_ffff ts ≡ false → min ts 0xff_ffff ≡ ts
    below n = ground arith
