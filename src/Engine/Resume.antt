-- ===== src/Engine/Resume.antt =====
-- Where a stream starts again behind a lost transport.
use strym_core.Common.{
  ℕ, zero, suc, ◌≡◌, refl, Bool, true, false, ◌&&◌, not, List, [], ◌∷◌, arith, Bool-cases,
  List-cases, inl, inr, if◌then◌else◌, ◌∙◌, sym,
}
use strym_core.Models.{MediaPacket, MediaKind, video, audio}
use strym_core.Backpressure.{BoundedBuffer, front}
use strym_core.Engine.{
  Inner, drain_loop, detach_transport, starts_with_keyframe, is_keyframe, is_inter_frame, is_some,
}
use strym_core.Engine.Drains.{drain_loop-thrown, drain_loop-kept, drain_loop-empty, thrown, kept}

-- No video frame stands before the first keyframe: a decoder can start.
unfoldable pub decodable : List MediaPacket → Bool
decodable [] = true
decodable (p ∷ ps) =
    if is_keyframe p then true else if is_inter_frame p then false else decodable ps

decodable-keyframe :
    (p : MediaPacket) (ps : List MediaPacket) → is_keyframe p ≡ true → decodable (p ∷ ps) ≡ true
unfolding decodable
decodable-keyframe p ps k = rw k refl

decodable-other :
    (p : MediaPacket) (ps : List MediaPacket)
    → is_keyframe p ≡ false
    → is_inter_frame p ≡ false
    → decodable (p ∷ ps) ≡ decodable ps
unfolding decodable
decodable-other p ps k i = rw (k, i) refl

keyframe_not_inter :
    (k : MediaKind) (is_key : Bool)
    → elim k [ video ↦ is_key | audio ↦ false ] ≡ true
    → elim k [ video ↦ not is_key | audio ↦ false ] ≡ false
keyframe_not_inter video true e = refl
keyframe_not_inter video false e = ground arith
keyframe_not_inter audio b e = refl

and_false : (a b : Bool) → b ≡ false → (a && b) ≡ false
and_false a b e = ground arith

pub starts-queue :
    (b : BoundedBuffer MediaPacket) (p : MediaPacket) (rest : List MediaPacket)
    → b.queue ≡ p ∷ rest
    → starts_with_keyframe b ≡ is_keyframe p
unfolding starts_with_keyframe front
starts-queue b p rest q = rw (starts_with_keyframe, front, q) refl

module _ {W O : Type 0} where
  pub awaiting-decodable :
      (fuel : ℕ) (e : Inner W O)
      → e.awaiting_keyframe ≡ true
      → decodable (drain_loop fuel e).0 ≡ true
  awaiting-decodable zero e a = unfold drain_loop in unfold decodable in refl
  awaiting-decodable (suc fuel) e a = elim (List-cases e.buffer.queue) [
    | inl q ↦ rw (drain_loop-empty fuel e q) (unfold decodable in refl)
    | inr (p, rest, q) ↦ elim (Bool-cases (is_inter_frame p)) [
      | inl i ↦
          rw (drain_loop-thrown fuel e p rest q (rw (a, i) refl))
            (awaiting-decodable fuel (thrown e rest) a)
      | inr n ↦
          rw (drain_loop-kept fuel e p rest q (and_false _ _ n))
            (elim (Bool-cases (is_keyframe p)) [
              | inl k ↦ decodable-keyframe p _ k
              | inr m ↦
                  decodable-other p _ m n ∙ awaiting-decodable fuel (kept e p rest) (rw (a, m) refl)
            ])
    ]
  ]

  pub keyframe-decodable :
      (fuel : ℕ) (e : Inner W O)
      → starts_with_keyframe e.buffer ≡ true
      → decodable (drain_loop fuel e).0 ≡ true
  keyframe-decodable zero e s = unfold drain_loop in unfold decodable in refl
  keyframe-decodable (suc fuel) e s = elim (List-cases e.buffer.queue) [
    | inl q ↦ rw (drain_loop-empty fuel e q) (unfold decodable in refl)
    | inr (p, rest, q) ↦
        let k : is_keyframe p ≡ true = sym (starts-queue e.buffer p rest q) ∙ s in
        rw (drain_loop-kept fuel e p rest q (and_false _ _ (keyframe_not_inter p.kind p.is_key k)))
          (decodable-keyframe p _ k)
  ]

  pub detach-awaiting :
      (e : Inner W O)
      → is_some (detach_transport e).avcc ≡ true
      → (detach_transport e).awaiting_keyframe
        ≡ not (starts_with_keyframe (detach_transport e).buffer)
  unfolding detach_transport
  detach-awaiting e c = rw c refl
