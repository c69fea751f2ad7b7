-- ===== src/Rtmp/FlvTags/Steps.antt =====
-- The loop of `feed` ends, and stops where no round is left to make.
use strym_core.Common.{
  ℕ, zero, suc, ◌+◌, ◌*◌, ◌≤◌, ◌<◌, ◌≡◌, ◌≢◌, ◌⊎◌, ap, sym, ◌∙◌, inl, inr, refl, Option, none, some,
  [], ◌++◌, arith, length, length-drop, Bytes,
}
use strym_core.Rtmp.FlvTags.{
  FlvTag, FlvTagParser, FlvPhase, header, tag_header, tag_body, prev_size, Round, stop, bad_header,
  go_on, round, round_in, Feed, tags, refused, stuck, loop, feed, emit, TagHead, data_offset,
}

-- Falls in every round.
abbrev pub rank : FlvPhase → ℕ
rank tag_body = 1
rank _ = 0

abbrev pub measure : FlvTagParser → ℕ
measure p = 2 * length p.buf + rank p.phase

round_in_falls :
    (ph : FlvPhase) (c : Option TagHead) (b : Bytes) (o : Option FlvTag) (q : FlvTagParser)
    → round_in ph c b ≡ go_on o q
    → measure q < 2 * length b + rank ph
unfolding round_in
round_in_falls header c b o q e = ground (arith, length-drop (data_offset b + 4) b)
round_in_falls tag_header c b o q e = ground (arith, length-drop 11 b)
round_in_falls tag_body none b o q e = ground arith
round_in_falls tag_body (some h) b o q e = ground (arith, length-drop h.size b)
round_in_falls prev_size c b o q e = ground (arith, length-drop 4 b)

round_falls :
    (p : FlvTagParser) (o : Option FlvTag) (q : FlvTagParser)
    → round p ≡ go_on o q
    → measure q < measure p
unfolding round
round_falls p o q e = round_in_falls p.phase p.cur p.buf o q e

pub Round-cases :
    (r : Round)
    → (r ≡ stop) ⊎ (r ≡ bad_header) ⊎ ((o : Option FlvTag) × (q : FlvTagParser) × (r ≡ go_on o q))
Round-cases stop = inl refl
Round-cases bad_header = inr (inl refl)
Round-cases (go_on o q) = inr (inr (o, q, refl))

emit-ne-stuck : (o : Option FlvTag) (r : Feed) → r ≢ stuck → emit o r ≢ stuck
emit-ne-stuck o (tags ts q) h e = cc
emit-ne-stuck o (refused q) h e = cc
emit-ne-stuck o stuck h e = h refl

loop-ne-stuck : (fuel : ℕ) (p : FlvTagParser) → measure p < fuel → loop fuel p ≢ stuck
unfolding loop
loop-ne-stuck zero p h = absurd (omega arith)
loop-ne-stuck (suc fuel) p h = elim (Round-cases (round p)) [
  | inl e ↦ rw (e, loop) (λ x. cc)
  | inr (inl e) ↦ rw (e, loop) (λ x. cc)
  | inr (inr (o, q, e)) ↦
      rw (e, loop)
        (emit-ne-stuck o (loop fuel q) (loop-ne-stuck fuel q (omega (arith, round_falls p o q e))))
]

-- More fuel changes nothing.
loop_fuel : (f g : ℕ) (p : FlvTagParser) → measure p < f → measure p < g → loop f p ≡ loop g p
unfolding loop
loop_fuel zero g p h k = absurd (omega arith)
loop_fuel (suc f) zero p h k = absurd (omega arith)
loop_fuel (suc f) (suc g) p h k = elim (Round-cases (round p)) [
  | inl e ↦ rw (e, loop) refl
  | inr (inl e) ↦ rw (e, loop) refl
  | inr (inr (o, q, e)) ↦
      rw (e, loop)
        (ap (emit o) (
          loop_fuel f g q (omega (arith, round_falls p o q e))
            (omega (arith, round_falls p o q e))))
]

rank-le : (ph : FlvPhase) → rank ph ≤ 1
rank-le ph = ground arith

-- `feed` ends on every input and in every state of the parser.
pub feed-ne-stuck : (p : FlvTagParser) (bytes : Bytes) → feed p bytes ≢ stuck
unfolding feed
feed-ne-stuck p bytes = loop-ne-stuck _ _ (omega (arith, rank-le p.phase))

pub feed_loop :
    (p : FlvTagParser) (bytes : Bytes)
    → loop (measure (record p { buf = p.buf ++ bytes }) + 1) (record p { buf = p.buf ++ bytes })
      ≢ stuck
feed_loop p bytes = loop-ne-stuck _ _ (omega arith)

-- `loop` with enough fuel.
unfoldable pub run : FlvTagParser → Feed
unfolding loop
run p = loop (measure p + 1) p

pub loop-run : (f : ℕ) (p : FlvTagParser) → measure p < f → loop f p ≡ run p
unfolding run
loop-run f p h = loop_fuel f (measure p + 1) p h (omega arith)

pub feed-run :
    (p : FlvTagParser) (bytes : Bytes) → feed p bytes ≡ run (record p { buf = p.buf ++ bytes })
unfolding feed
feed-run p bytes = loop-run _ _ (omega (arith, rank-le p.phase))

-- One round of `run`.
pub run_go_on :
    (p q : FlvTagParser) (o : Option FlvTag) → round p ≡ go_on o q → run p ≡ emit o (run q)
unfolding run
run_go_on p q o e =
    loop_fuel (measure p + 1) (suc (measure p)) p (omega arith) (omega arith)
    ∙ rw (e, loop) (ap (emit o) (loop-run (measure p) q (round_falls p o q e)))

emit-none : (r : Feed) → emit none r ≡ r
emit-none (tags ts q) = refl
emit-none (refused q) = refl
emit-none stuck = refl

pub run_on : (p q : FlvTagParser) → round p ≡ go_on none q → run p ≡ run q
run_on p q e = run_go_on p q none e ∙ emit-none (run q)

pub run_stop : (p : FlvTagParser) → round p ≡ stop → run p ≡ tags [] p
run_stop p e = sym (loop-run (suc (measure p)) p (omega arith)) ∙ unfold loop in rw (e, loop) refl

pub run_bad : (p : FlvTagParser) → round p ≡ bad_header → run p ≡ refused p
run_bad p e = sym (loop-run (suc (measure p)) p (omega arith)) ∙ unfold loop in rw (e, loop) refl
