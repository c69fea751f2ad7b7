-- ===== src/Rtmp/FlvTags/Pieces.antt =====
-- Bytes may be fed in any pieces.
use strym_core.Common.{
  ℕ, zero, suc, ◌+◌, ◌≡◌, ◌≢◌, inl, inr, refl, ap, sym, ◌∙◌, Option, none, some, List, [], ◌++◌,
  arith, length-append, Bytes, get_or-append, append_assoc, take-append_of_le, drop-append_of_le,
}
use strym_core.Rtmp.FlvTags.{
  FlvTag, FlvTagParser, FlvPhase, header, tag_header, tag_body, prev_size, Round, stop, bad_header,
  go_on, round, round_in, Feed, tags, refused, stuck, loop, feed, emit, consed, TagHead,
  data_offset,
}
use strym_core.Rtmp.FlvTags.Steps.{
  Round-cases, run, feed-run, run_go_on, run_bad, feed_loop, loop-run,
}

abbrev pub extend : FlvTagParser → Bytes → FlvTagParser
extend p b = record p { buf = p.buf ++ b }

abbrev extend_round : Round → Bytes → Round
extend_round stop b = stop
extend_round bad_header b = bad_header
extend_round (go_on o q) b = go_on o (extend q b)

round_in-extend :
    (ph : FlvPhase) (c : Option TagHead) (buf b : Bytes)
    → round_in ph c buf ≢ stop
    → round_in ph c (buf ++ b) ≡ extend_round (round_in ph c buf) b
unfolding round_in
round_in-extend header c buf b h = ground (
  arith,
  length-append buf b,
  get_or-append buf b 0 0,
  get_or-append buf b 1 0,
  get_or-append buf b 2 0,
  get_or-append buf b 3 0,
  get_or-append buf b 5 0,
  get_or-append buf b 6 0,
  get_or-append buf b 7 0,
  get_or-append buf b 8 0,
  drop-append_of_le (data_offset buf + 4) buf b,
)
round_in-extend tag_header c buf b h = ground (
  arith,
  length-append buf b,
  get_or-append buf b 0 0,
  get_or-append buf b 1 0,
  get_or-append buf b 2 0,
  get_or-append buf b 3 0,
  get_or-append buf b 4 0,
  get_or-append buf b 5 0,
  get_or-append buf b 6 0,
  get_or-append buf b 7 0,
  drop-append_of_le 11 buf b,
)
round_in-extend tag_body none buf b h = refl
round_in-extend tag_body (some k) buf b h =
    ground
      (arith, length-append buf b, take-append_of_le k.size buf b, drop-append_of_le k.size buf b)
round_in-extend prev_size c buf b h = ground (arith, length-append buf b, drop-append_of_le 4 buf b)

round-extend :
    (p : FlvTagParser) (b : Bytes) → round p ≢ stop → round (extend p b) ≡ extend_round (round p) b
unfolding round
round-extend p b h = round_in-extend p.phase p.cur p.buf b h

abbrev pub prepend : List FlvTag → Feed → Feed
prepend ts (tags us q) = tags (ts ++ us) q
prepend ts (refused q) = refused q
prepend ts stuck = stuck

prepend-nil : (r : Feed) → prepend [] r ≡ r
prepend-nil (tags us q) = refl
prepend-nil (refused q) = refl
prepend-nil stuck = refl

emit-prepend :
    (o : Option FlvTag) (ts : List FlvTag) (r : Feed)
    → emit o (prepend ts r) ≡ prepend (consed o ts) r
emit-prepend none ts (tags us q) = refl
emit-prepend (some t) ts (tags us q) = refl
emit-prepend o ts (refused q) = refl
emit-prepend o ts stuck = refl

-- What more bytes make of a finished feed.
abbrev pub and_then : Feed → Bytes → Feed
and_then (tags ts q) b = prepend ts (run (extend q b))
and_then (refused q) b = refused (extend q b)
and_then stuck b = stuck

emit-and_then :
    (o : Option FlvTag) (r : Feed) (b : Bytes) → emit o (and_then r b) ≡ and_then (emit o r) b
emit-and_then o (tags ts q) b = emit-prepend o ts (run (extend q b))
emit-and_then o (refused q) b = refl
emit-and_then o stuck b = refl

run-extend-loop :
    (f : ℕ) (p : FlvTagParser) (b : Bytes)
    → loop f p ≢ stuck
    → run (extend p b) ≡ and_then (loop f p) b
unfolding loop
run-extend-loop zero p b h = absurd (h refl)
run-extend-loop (suc f) p b h = elim (Round-cases (round p)) [
  | inl e ↦ rw (e, loop) (sym (prepend-nil (run (extend p b))))
  | inr (inl e) ↦
      rw (e, loop)
        (run_bad (extend p b) (round-extend p b (λ x. cc) ∙ ap (λ r. extend_round r b) e))
  | inr (inr (o, q, e)) ↦
      let more : loop f q ≢ stuck = λ x. h (rw (e, loop) (ap (emit o) x)) in
      rw (e, loop)
        (run_go_on (extend p b) (extend q b) o
            (round-extend p b (λ x. cc) ∙ ap (λ r. extend_round r b) e)
          ∙ ap (emit o) (run-extend-loop f q b more)
          ∙ emit-and_then o (loop f q) b)
]

-- A later feed, joined to the tags of an earlier one. After a refusal the bytes only pile up.
abbrev pub feed_on : Feed → Bytes → Feed
feed_on (tags ts q) b = prepend ts (feed q b)
feed_on (refused q) b = refused (extend q b)
feed_on stuck b = stuck

and_then-feed_on : (r : Feed) (b : Bytes) → and_then r b ≡ feed_on r b
and_then-feed_on (tags ts q) b = ap (prepend ts) (sym (feed-run q b))
and_then-feed_on (refused q) b = refl
and_then-feed_on stuck b = refl

extend-extend : (p : FlvTagParser) (a b : Bytes) → extend (extend p a) b ≡ extend p (a ++ b)
extend-extend p a b = ap (λ x. record p { buf = x }) (append_assoc p.buf a b)

-- Feeding a stream in two pieces gives the tags, in order, and the parser state that feeding it
-- whole gives, wherever it is cut; and so for a stream whose header is refused.
pub feed-append : (p : FlvTagParser) (a b : Bytes) → feed p (a ++ b) ≡ feed_on (feed p a) b
feed-append p a b =
    feed-run p (a ++ b)
    ∙ ap run (sym (extend-extend p a b))
    ∙ run-extend-loop _ (extend p a) b (feed_loop p a)
    ∙ ap (λ r. and_then r b) (loop-run _ (extend p a) (omega arith) ∙ sym (feed-run p a))
    ∙ and_then-feed_on (feed p a) b
