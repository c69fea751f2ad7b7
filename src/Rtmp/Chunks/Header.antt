-- ===== src/Rtmp/Chunks/Header.antt =====
-- The header of a framed message, read back.
use strym_core.Common.{
  Bool-cases, inl, inr, from_be24, ℕ, zero, ◌/◌, ◌%◌, ◌^◌, ◌<◌, ◌≡◌, refl, ap, ◌∙◌, min, [], ◌++◌,
  leb, arith, Bytes, as_u32,
}
use strym_core.Common.Result.{ok, ◌>>=◌, ◌>>◌, modify, bind-ok}
use strym_core.Rtmp.Chunks.{
  ChunkState, Reading, Reader, read_counted, slot, put_slot, extended, read_header, from_le32, ts24,
  header0,
}
use strym_core.Rtmp.Chunks.Slots.{Holds, put_slot-Holds, read_counted-append, took-Holds, took}
use strym_core.Rtmp.Chunks.Frames.{extended-append, fields, extension, after_time}

abbrev pub started : ℕ → ℕ → ℕ → ℕ → ChunkState
started mtype stream_id ts len = record {
  ts = ts;
  length = len;
  mtype = mtype;
  stream_id = stream_id;
  payload = [];
}

after_time-Holds :
    (cid n ts : ℕ) (st : ChunkState) (tail : Bytes) (s : Reading)
    → Holds cid n st (extension ts ++ tail) s
    → Holds cid n st tail (after_time ts tail s)
unfolding after_time
after_time-Holds cid n ts st tail s h = elim (Bool-cases (leb 0xff_ffff ts)) [
  | inl y ↦ rw y (took-Holds cid n 4 st _ tail s h)
  | inr e ↦ rw e (rw e at h)
]

header0-fields :
    (mtype stream_id ts len : ℕ)
    → mtype < 256
    → stream_id < 2 ^ 32
    → ts < 2 ^ 32
    → len < 2 ^ 24
    → header0 (fields mtype stream_id ts len) ≡ started mtype stream_id (min ts 0xff_ffff) len
unfolding header0
header0-fields mtype stream_id ts len a b c d = cc (t, l, i)
  where
    t : ts24 (fields mtype stream_id ts len) ≡ min ts 0xff_ffff
    t = omega arith

    l : from_be24 (as_u32 len / 65536 % 256) (as_u32 len / 256 % 256) (as_u32 len % 256) ≡ len
    l = omega arith

    i :
        from_le32
          (stream_id % 256)
          (stream_id / 256 % 256)
          (stream_id / 65536 % 256)
          (stream_id / 16777216 % 256)
        ≡ stream_id
    i = omega arith

-- The header of format 0.
pub header :
    (cid n mtype stream_id ts len : ℕ) (tail : Bytes) (s : Reading)
    → mtype < 256
    → stream_id < 2 ^ 32
    → ts < 2 ^ 32
    → len < 2 ^ 24
    → Holds cid n (slot cid s) (fields mtype stream_id ts len ++ (extension ts ++ tail)) s
    → (t : Reading) × (read_header zero cid s ≡ (ok tt, t))
      × Holds cid n (started mtype stream_id ts len) tail t
unfolding read_header
header cid n mtype stream_id ts len tail s a b c d h = (
  put_slot cid (started mtype stream_id ts len) s2,
  bind-ok (read_counted 11) (λ h. modify (put_slot cid (header0 h)) >> extended (ts24 h) >>= timed)
        s (took 11 (extension ts ++ tail) s) (fields mtype stream_id ts len)
        (read_counted-append _ _ 11 s refl h.next)
      ∙ bind-ok
          (modify (put_slot cid (header0 (fields mtype stream_id ts len)))
            >> extended (ts24 (fields mtype stream_id ts len)))
          timed (took 11 (extension ts ++ tail) s) s2 ts
          (rw (header0-fields mtype stream_id ts len a b c d, t24)
            (extended-append ts tail s1 c held1.next))
      ∙ ap (λ st. (ok tt, put_slot cid (record st { ts = ts }) s2)) held2.here,
  put_slot-Holds cid n _ _ tail s2 held2,
)
  where
    timed : ℕ → Reader (Unit {0})
    timed ts s = (ok tt, put_slot cid (record (slot cid s) { ts = ts }) s)

    t24 : ts24 (fields mtype stream_id ts len) ≡ min ts 0xff_ffff
    t24 = omega arith

    s1 : Reading
    s1 =
        put_slot cid (started mtype stream_id (min ts 0xff_ffff) len)
          (took 11 (extension ts ++ tail) s)

    held1 : Holds cid n (started mtype stream_id (min ts 0xff_ffff) len) (extension ts ++ tail) s1
    held1 = put_slot-Holds cid n _ _ _ _ (took-Holds cid n 11 _ _ _ s h)

    s2 : Reading
    s2 = after_time ts tail s1

    held2 : Holds cid n (started mtype stream_id (min ts 0xff_ffff) len) tail s2
    held2 = after_time-Holds cid n ts _ tail s1 held1
