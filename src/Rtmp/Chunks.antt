-- ===== src/Rtmp/Chunks.antt =====
-- core/src/rtmp/mod.rs, the chunk stream: `frame_message` cuts a message into chunks, and
-- `ChunkReader` puts messages together again.
pub mod Rounds
pub mod Slots
pub mod Frames
pub mod Header
pub mod Pieces
pub mod RoundTrip
use strym_core.Common.{
  ℕ, zero, suc, ◌+◌, ◌-◌, ◌*◌, ◌/◌, ◌%◌, ◌^◌, min, Bool, Option, none, some, List, [], ◌∷◌, ◌++◌,
  ltb, leb, ◌==◌, if◌then◌else◌, length, get_or, take, drop, replicate, set_at, resize, Bytes,
  as_u32, add_u32, add_u64, be24, be32, le32, from_be24, from_be32,
}
use strym_core.Common.Result.{Result, ok, err, Action, ◌>>=◌, ◌>>◌, pure, raise, modify}
use strym_core.Io.{IoError, invalid_data}

abbrev pub default_chunk_size : ℕ
default_chunk_size = 128

abbrev pub max_chunk_size : ℕ
max_chunk_size = 0xff_ffff

abbrev pub max_chunk_streams : ℕ
max_chunk_streams = 65600

pub record Message : Type 0 where
  pub mtype : ℕ
  pub ts : ℕ
  pub payload : Bytes

pub record ChunkState : Type 0 where
  pub ts : ℕ
  pub length : ℕ
  pub mtype : ℕ
  pub stream_id : ℕ
  pub payload : Bytes

abbrev pub blank : ChunkState
blank = record { ts = 0; length = 0; mtype = 0; stream_id = 0; payload = [] }

pub record ChunkReader : Type 0 where
  pub states : List (Option ChunkState)
  pub read_chunk_size : ℕ
  pub bytes_read : ℕ

unfoldable pub new : ChunkReader
new = record { states = replicate 64 none; read_chunk_size = default_chunk_size; bytes_read = 0 }

unfoldable pub set_chunk_size : ℕ → ChunkReader → Result IoError (Unit {0}) × ChunkReader
set_chunk_size size r =
    if size == 0
    then (err invalid_data, r)
    else (ok tt, record r { read_chunk_size = min size max_chunk_size })

unfoldable pub abort : ℕ → ChunkReader → ChunkReader
abort cid r = record r { states = set_at r.states cid none }

-- What a socket or a slice still has to give, and its answer when that is not enough: a slice and
-- a closed connection are at their end, a quiet connection has nothing yet.
pub record Inbound : Type 0 where
  pub bytes : Bytes
  pub at_end : IoError

pub record Reading : Type 0 where
  pub reader : ChunkReader
  pub sock : Inbound

abbrev pub Reader : Type 0 → Type 0
Reader A = Action Reading IoError A

-- `read_exact` takes what there is before it fails; the tally counts whole reads only.
unfoldable pub read_counted : ℕ → Reader Bytes
read_counted n s =
    if leb n (length s.sock.bytes)
    then (
      ok (take n s.sock.bytes),
      record {
        reader = record (s.reader) { bytes_read = add_u64 s.reader.bytes_read n };
        sock = record (s.sock) { bytes = drop n s.sock.bytes };
      },
    )
    else (err s.sock.at_end, record s { sock = record (s.sock) { bytes = [] } })

unfoldable pub read_u32be : Reader ℕ
read_u32be = read_counted 4 >>= λ b.
    pure (from_be32 (get_or b 0 0) (get_or b 1 0) (get_or b 2 0) (get_or b 3 0))

-- The chunk stream id, in one of its three forms.
unfoldable pub read_cid : ℕ → Reader ℕ
read_cid low =
    if low == 0
    then (read_counted 1 >>= λ ex. pure (64 + get_or ex 0 0))
    else if low == 1
    then (read_counted 2 >>= λ ex. pure (64 + get_or ex 0 0 + get_or ex 1 0 * 256))
    else pure low

-- `states[cid]`, of a vector that `open_slot` made long enough.
unfoldable pub slot : ℕ → Reading → ChunkState
slot cid s = elim (get_or s.reader.states cid none) [ none ↦ blank | some st ↦ st ]

unfoldable pub put_slot : ℕ → ChunkState → Reading → Reading
put_slot cid st s = record s {
  reader = record (s.reader) { states = set_at s.reader.states cid (some st) };
}

unfoldable pub open_slot : ℕ → Reading → Reading
open_slot cid s = put_slot cid (slot cid s) (
    if leb (length s.reader.states) cid
    then record s { reader = record (s.reader) { states = resize s.reader.states (cid + 1) none } }
    else s)

abbrev pub ts24 : Bytes → ℕ
ts24 h = from_be24 (get_or h 0 0) (get_or h 1 0) (get_or h 2 0)

-- A time of 0xffffff says that the time follows in four bytes.
unfoldable pub extended : ℕ → Reader ℕ
extended ts = if ts == 0xff_ffff then read_u32be else pure ts

abbrev pub from_le32 : ℕ → ℕ → ℕ → ℕ → ℕ
from_le32 a b c d = d * 16777216 + c * 65536 + b * 256 + a

unfoldable pub header0 : Bytes → ChunkState
header0 h = record {
  ts = ts24 h;
  length = from_be24 (get_or h 3 0) (get_or h 4 0) (get_or h 5 0);
  mtype = get_or h 6 0;
  stream_id = from_le32 (get_or h 7 0) (get_or h 8 0) (get_or h 9 0) (get_or h 10 0);
  payload = [];
}

-- The message header of each format, written into the slot as it is read.
unfoldable pub read_header : ℕ → ℕ → Reader (Unit {0})
read_header zero cid = read_counted 11 >>= λ h.
    modify (put_slot cid (header0 h)) >> extended (ts24 h) >>= λ ts.
    λ s. (ok tt, put_slot cid (record (slot cid s) { ts = ts }) s)
read_header (suc zero) cid =
    read_counted 7
    >>= (λ h s. (
      ok h,
      put_slot cid
          (record (slot cid s) {
            length = from_be24 (get_or h 3 0) (get_or h 4 0) (get_or h 5 0);
            mtype = get_or h 6 0;
            payload = [];
          })
          s,
    ))
    >>= λ h. extended (ts24 h) >>= λ d s.
        (ok tt, put_slot cid (record (slot cid s) { ts = add_u32 (slot cid s).ts d }) s)
read_header (suc (suc zero)) cid =
    read_counted 3
    >>= (λ h s. (ok h, put_slot cid (record (slot cid s) { payload = [] }) s))
    >>= λ h. extended (ts24 h) >>= λ d s.
        (ok tt, put_slot cid (record (slot cid s) { ts = add_u32 (slot cid s).ts d }) s)
read_header fmt cid = pure tt

-- `n` more bytes of the payload, and the message when they complete it.
unfoldable pub fill : ℕ → ChunkState → ℕ → Reader (Option Message)
fill cid st n = read_counted n >>= λ b s.
    if as_u32 (length (st.payload ++ b)) == st.length
    then (
      ok (some (record { mtype = st.mtype; ts = st.ts; payload = st.payload ++ b })),
      put_slot cid (record st { payload = [] }) s,
    )
    else (ok none, put_slot cid (record st { payload = st.payload ++ b }) s)

-- A piece of the payload. The room for it is made of zeros first, and stays when the read fails;
-- what a failed `read_exact` leaves in it is unspecified, and zeros here.
unfoldable pub read_payload : ℕ → ChunkState → Reader (Option Message)
read_payload cid st s =
    if leb st.length (as_u32 (length st.payload))
    then (ok none, s)
    else (let n = min (st.length - as_u32 (length st.payload)) s.reader.read_chunk_size in
        fill cid st n (put_slot cid (record st { payload = st.payload ++ replicate n 0 }) s))

-- Behind the basic header, with the format and the chunk stream that it names.
unfoldable pub read_rest : ℕ → ℕ → Reader (Option Message)
read_rest fmt cid =
    if leb max_chunk_streams cid
    then raise invalid_data
    else (modify (open_slot cid) >> read_header fmt cid >>= λ u s. read_payload cid (slot cid s) s)

-- One chunk: the message it completes, if it does.
unfoldable pub read_chunk : Reader (Option Message)
read_chunk = read_counted 1 >>= λ bh.
    read_cid (get_or bh 0 0 % 64) >>= λ cid. read_rest (get_or bh 0 0 / 64) cid

-- The loop of `read_message`; `none` says that the fuel ran out.
unfoldable pub read_messages_loop : ℕ → Reading → Option (Result IoError Message × Reading)
read_messages_loop zero s = none
read_messages_loop (suc fuel) s =
    let (r, t) = read_chunk s in
    elim r [
      | err e ↦ some (err e, t)
      | ok (some msg) ↦ some (ok msg, t)
      | ok none ↦ read_messages_loop fuel t
    ]

unfoldable pub read_message : Reading → Option (Result IoError Message × Reading)
read_message s = read_messages_loop (length s.sock.bytes + 1) s

-- Behind the first chunk, a header byte of format 3 before each piece. The fuel is the length of
-- what is left, which each piece shortens.
unfoldable pub continuations : ℕ → ℕ → ℕ → Bytes → Bytes
continuations zero cid n rest = []
continuations (suc fuel) cid n [] = []
continuations (suc fuel) cid n (b ∷ rest) =
    (192 + cid % 64) ∷ take n (b ∷ rest) ++ continuations fuel cid n (drop n (b ∷ rest))

unfoldable pub message_header : ℕ → ℕ → ℕ → ℕ → ℕ → Bytes
message_header cid mtype stream_id ts len =
    cid ∷ be24 (min ts 0xff_ffff)
    ++ (be24 (as_u32 len) ++ (mtype ∷ le32 stream_id ++ (if leb 0xff_ffff ts then be32 ts else [])))

unfoldable pub frame_message : ℕ → ℕ → ℕ → ℕ → Bytes → ℕ → Bytes
frame_message cid mtype stream_id ts payload chunk_size =
    message_header cid mtype stream_id ts (length payload)
    ++ (if leb (length payload) chunk_size
        then payload
        else take chunk_size payload
          ++ continuations (length payload) cid chunk_size (drop chunk_size payload))
