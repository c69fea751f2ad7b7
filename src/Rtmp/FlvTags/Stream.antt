-- ===== src/Rtmp/FlvTags/Stream.antt =====
-- The parser on well-formed streams.
use strym_core.Common.{
  ℕ, ◌^◌, ◌<◌, ◌≡◌, refl, ap, ◌∙◌, none, some, List, [], ◌∷◌, ◌++◌, arith, length, length-append,
  Bytes, All, append_assoc, take-append, drop-append, be32, as_u32, add_u32,
}
use strym_core.Mux.{tag_header, flv_header}
use strym_core.Rtmp.FlvTags.{
  FlvTag, FlvTagParser, FlvPhase, header, tag_body, prev_size, Round, stop, bad_header, go_on,
  round, round_in, Feed, tags, refused, stuck, loop, feed, emit, consed, TagHead, data_offset, new,
}
use strym_core.Rtmp.FlvTags
use strym_core.Rtmp.FlvTags.Steps.{run, run_on, feed-run, run_go_on, run_stop}

-- A tag as the muxer writes it.
abbrev pub tag_bytes : FlvTag → Bytes
tag_bytes t =
    tag_header t.mtype t.ts (length t.body)
    ++ (t.body ++ be32 (add_u32 11 (as_u32 (length t.body))))

abbrev pub stream : List FlvTag → Bytes
stream [] = []
stream (t ∷ ts) = tag_bytes t ++ stream ts

-- What the tag format can carry.
abbrev pub Fits : FlvTag → Type 0
Fits t = (length t.body < 2 ^ 24) × (t.ts < 2 ^ 32)

at_tag : Bytes → FlvTagParser
at_tag buf = record { phase = FlvTags.tag_header; buf = buf; cur = none }

head_round :
    (t : FlvTag) (rest : Bytes)
    → Fits t
    → round (at_tag (tag_bytes t ++ rest))
      ≡ go_on none (record {
        phase = tag_body;
        buf = (t.body ++ be32 (add_u32 11 (as_u32 (length t.body)))) ++ rest;
        cur = some (record { mtype = t.mtype; size = length t.body; ts = t.ts });
      })
unfolding round at_tag tag_header
head_round t rest h = ground arith

body_round :
    (t : FlvTag) (more : Bytes)
    → round (record {
      phase = tag_body;
      buf = t.body ++ more;
      cur = some (record { mtype = t.mtype; size = length t.body; ts = t.ts });
    })
      ≡ go_on (some t) (record { phase = prev_size; buf = more; cur = none })
unfolding round
body_round t more =
    ground (arith, take-append t.body more, drop-append t.body more, length-append t.body more)

prev_round :
    (n : ℕ) (rest : Bytes)
    → round (record { phase = prev_size; buf = be32 n ++ rest; cur = none })
      ≡ go_on none (at_tag rest)
unfolding round at_tag
prev_round n rest = ground arith

run_tag :
    (t : FlvTag) (rest : Bytes)
    → Fits t
    → run (at_tag (tag_bytes t ++ rest)) ≡ emit (some t) (run (at_tag rest))
run_tag t rest h =
    let n = add_u32 11 (as_u32 (length t.body)) in
    run_on _ _ (head_round t rest h)
    ∙ ap
        (λ b. run (record {
          phase = tag_body;
          buf = b;
          cur = some (record { mtype = t.mtype; size = length t.body; ts = t.ts });
        }))
        (append_assoc t.body (be32 n) rest)
    ∙ run_go_on _ _ (some t) (body_round t (be32 n ++ rest))
    ∙ ap (emit (some t)) (run_on _ _ (prev_round n rest))

run-stream : (ts : List FlvTag) → All Fits ts → run (at_tag (stream ts)) ≡ tags ts (at_tag [])
run-stream [] h = run_stop (at_tag []) (unfold round at_tag in refl)
run-stream (t ∷ ts) h = run_tag t (stream ts) h.0 ∙ ap (emit (some t)) (run-stream ts h.1)

header_round :
    (rest : Bytes)
    → round (record new { buf = [] ++ (flv_header ++ rest) }) ≡ go_on none (at_tag rest)
unfolding round at_tag new
header_round rest = ground arith

-- On an FLV header and any tags behind it, each with a body shorter than 2 ^ 24 bytes and a 32-bit
-- timestamp, the parser gives back exactly those tags and waits for the next one with an empty
-- buffer.
pub feed-stream :
    (ts : List FlvTag)
    → All Fits ts
    → feed new (flv_header ++ stream ts)
      ≡ tags ts (record { phase = FlvTags.tag_header; buf = []; cur = none })
unfolding at_tag new
feed-stream ts h =
    feed-run new (flv_header ++ stream ts)
    ∙ run_on (record new { buf = [] ++ (flv_header ++ stream ts) }) (at_tag (stream ts))
        (header_round (stream ts))
    ∙ run-stream ts h
