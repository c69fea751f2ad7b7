-- ===== src/Rtmp/Chunks/Slots.antt =====
-- The slot of a chunk stream, while the reader goes on.
use strym_core.Common.{
  ℕ, ◌+◌, ◌<◌, ◌≡◌, refl, le→leb, sym, ◌∙◌, none, some, ◌++◌, arith, length, resize, length-append,
  take-append, drop-append, length-set_at, get_or-set_at, length-resize, Bytes, add_u64, lt→leb,
}
use strym_core.Common.Result.{ok}
use strym_core.Rtmp.Chunks.{ChunkState, Reading, read_counted, slot, put_slot, open_slot}

-- The reader is in the midst of the message of `st` on stream `cid`, and `tail` comes next.
pub record Holds (cid n : ℕ) (st : ChunkState) (tail : Bytes) (s : Reading) : Type 0 where
  pub room : cid < length s.reader.states
  pub here : slot cid s ≡ st
  pub next : s.sock.bytes ≡ tail
  pub size : s.reader.read_chunk_size ≡ n

pub put_slot-Holds :
    (cid n : ℕ) (st st' : ChunkState) (tail : Bytes) (s : Reading)
    → Holds cid n st tail s
    → Holds cid n st' tail (put_slot cid st' s)
unfolding put_slot slot
put_slot-Holds cid n st st' tail s h = record {
  room = omega (arith, length-set_at s.reader.states cid (some st'), h.room);
  here = rw (get_or-set_at s.reader.states cid (some st') none h.room, slot, put_slot) refl;
  next = h.next;
  size = h.size;
}

-- The state after a read of `n` bytes before `b`.
unfoldable pub took : ℕ → Bytes → Reading → Reading
took n b s = record {
  reader = record (s.reader) { bytes_read = add_u64 s.reader.bytes_read n };
  sock = record (s.sock) { bytes = b };
}

pub read_counted-append :
    (a b : Bytes) (n : ℕ) (s : Reading)
    → length a ≡ n
    → s.sock.bytes ≡ a ++ b
    → read_counted n s ≡ (ok a, took n b s)
unfolding read_counted took
read_counted-append a b n s e q =
    rw
      (
        q,
        sym e,
        take-append a b,
        drop-append a b,
        le→leb (length a) (length (a ++ b)) (omega (arith, length-append a b)),
      )
      refl

pub took-next : (n : ℕ) (b : Bytes) (s : Reading) → (took n b s).sock.bytes ≡ b
unfolding took
took-next n b s = refl

pub took-size :
    (n : ℕ) (b : Bytes) (s : Reading)
    → (took n b s).reader.read_chunk_size ≡ s.reader.read_chunk_size
unfolding took
took-size n b s = refl

pub took-Holds :
    (cid k n : ℕ) (st : ChunkState) (a b : Bytes) (s : Reading)
    → Holds cid k st a s
    → Holds cid k st b (took n b s)
unfolding took slot
took-Holds cid k n st a b s h = record { room = h.room; here = h.here; next = refl; size = h.size }

pub open_slot-room : (cid : ℕ) (s : Reading) → cid < length (open_slot cid s).reader.states
unfolding open_slot put_slot
open_slot-room cid s = ground (
  arith,
  length-set_at s.reader.states cid (some (slot cid s)),
  length-resize s.reader.states (cid + 1) none,
  length-set_at (resize s.reader.states (cid + 1) none) cid (some (slot cid s)),
)

open_slot-slot :
    (cid : ℕ) (s : Reading) → cid < length s.reader.states → slot cid (open_slot cid s) ≡ slot cid s
unfolding open_slot put_slot slot
open_slot-slot cid s h =
    rw (lt→leb (length s.reader.states) cid h)
      (rw (slot, get_or-set_at s.reader.states cid (some (slot cid s)) none h) refl)

pub open_slot-sock : (cid : ℕ) (s : Reading) → (open_slot cid s).sock ≡ s.sock
unfolding open_slot put_slot
open_slot-sock cid s = ground arith

pub open_slot-size :
    (cid : ℕ) (s : Reading) → (open_slot cid s).reader.read_chunk_size ≡ s.reader.read_chunk_size
unfolding open_slot put_slot
open_slot-size cid s = ground arith

pub open_slot-Holds :
    (cid n : ℕ) (st : ChunkState) (tail : Bytes) (s : Reading)
    → Holds cid n st tail s
    → Holds cid n st tail (open_slot cid s)
open_slot-Holds cid n st tail s h = record {
  room = open_slot-room cid s;
  here = open_slot-slot cid s h.room ∙ h.here;
  next = ground (arith, h.next, open_slot-sock cid s);
  size = open_slot-size cid s ∙ h.size;
}
