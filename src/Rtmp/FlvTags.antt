-- ===== src/Rtmp/FlvTags.antt =====
-- core/src/rtmp/mod.rs, `FlvTagParser`: FLV bytes, fed in pieces, to tags.
pub mod Steps
pub mod Pieces
pub mod Stream
use strym_core.Common.{
  ℕ, zero, suc, ◌+◌, ◌*◌, Bool, true, false, Option, none, some, List, [], ◌∷◌, ◌++◌, ◌&&◌, ltb,
  leb, ◌==◌, if◌then◌else◌, length, get_or, take, drop, Bytes, from_be24, from_be32,
}

abbrev pub max_flv_data_offset : ℕ
max_flv_data_offset = 4096

pub record FlvTag : Type 0 where
  pub mtype : ℕ
  pub ts : ℕ
  pub body : Bytes

pub record TagHead : Type 0 where
  pub mtype : ℕ
  pub size : ℕ
  pub ts : ℕ

pub data FlvPhase : Type 0 where
  header tag_header tag_body prev_size : FlvPhase

pub record FlvTagParser : Type 0 where
  pub phase : FlvPhase
  pub buf : Bytes
  pub cur : Option TagHead

unfoldable pub new : FlvTagParser
new = record { phase = header; buf = []; cur = none }

-- One round of the loop of `feed`: it breaks, refuses the header, or goes on with or without a tag.
pub data Round : Type 0 where
  stop bad_header : Round
  go_on : Option FlvTag → FlvTagParser → Round

abbrev pub starts_flv : Bytes → Bool
starts_flv buf =
    get_or buf 0 0 == 0x46
    && get_or buf 1 0 == 0x4c
    && get_or buf 2 0 == 0x56
    && get_or buf 3 0 == 1

abbrev pub data_offset : Bytes → ℕ
data_offset buf = from_be32 (get_or buf 5 0) (get_or buf 6 0) (get_or buf 7 0) (get_or buf 8 0)

abbrev pub read_head : Bytes → TagHead
read_head buf = record {
  mtype = get_or buf 0 0;
  size = from_be24 (get_or buf 1 0) (get_or buf 2 0) (get_or buf 3 0);
  ts = get_or buf 7 0 * 16777216 + from_be24 (get_or buf 4 0) (get_or buf 5 0) (get_or buf 6 0);
}

unfoldable pub round_in : FlvPhase → Option TagHead → Bytes → Round
round_in header cur buf =
    if ltb (length buf) 13
    then stop
    else if starts_flv buf
    then if leb 9 (data_offset buf) && leb (data_offset buf) max_flv_data_offset
      then if ltb (length buf) (data_offset buf + 4)
        then stop
        else go_on none
            (record { phase = tag_header; buf = drop (data_offset buf + 4) buf; cur = cur })
      else bad_header
    else bad_header
round_in tag_header cur buf =
    if ltb (length buf) 11
    then stop
    else go_on none (record { phase = tag_body; buf = drop 11 buf; cur = some (read_head buf) })
round_in tag_body none buf = go_on none (record { phase = tag_header; buf = buf; cur = none })
round_in tag_body (some h) buf =
    if ltb (length buf) h.size
    then stop
    else go_on (some (record { mtype = h.mtype; ts = h.ts; body = take h.size buf }))
        (record { phase = prev_size; buf = drop h.size buf; cur = none })
round_in prev_size cur buf =
    if ltb (length buf) 4
    then stop
    else go_on none (record { phase = tag_header; buf = drop 4 buf; cur = cur })

unfoldable pub round : FlvTagParser → Round
unfolding round_in
round p = round_in p.phase p.cur p.buf

abbrev pub consed : Option FlvTag → List FlvTag → List FlvTag
consed none ts = ts
consed (some t) ts = t ∷ ts

-- `stuck` is no outcome of the source: the fuel ran out.
pub data Feed : Type 0 where
  tags : List FlvTag → FlvTagParser → Feed
  refused : FlvTagParser → Feed
  stuck : Feed

abbrev pub emit : Option FlvTag → Feed → Feed
emit o (tags ts q) = tags (consed o ts) q
emit o (refused q) = refused q
emit o stuck = stuck

unfoldable pub loop : ℕ → FlvTagParser → Feed
loop zero p = stuck
loop (suc fuel) p = elim (round p) [
  | stop ↦ tags [] p
  | bad_header ↦ refused p
  | go_on o q ↦ emit o (loop fuel q)
]

-- Two rounds for each byte in the buffer are enough, and two more.
unfoldable pub feed : FlvTagParser → Bytes → Feed
unfolding loop
feed p bytes = let p' = record p { buf = p.buf ++ bytes } in loop (2 * length (p'.buf) + 2) p'
