-- ===== src/Engine/Restart.antt =====
-- What is pushed while no transport is there (core/src/engine.rs), and where the next one starts.
use strym_core.Common.{
  ℕ, suc, ◌+◌, ◌≤◌, ◌<◌, ◌≡◌, refl, ap, sym, ◌∙◌, ◌⊎◌, inl, inr, true, leb, List, [], ◌∷◌, ◌++◌,
  arith, length, length-append, length-drop, Bool-cases, Option-cases, List-cases,
}
use strym_core.Models.{MediaPacket}
use strym_core.Backpressure.{BoundedBuffer, front, len, resync_keep_latest_keyframe}
use strym_core.Backpressure
use strym_core.Backpressure.Resync.{resync-Cuts}
use strym_core.Engine.{
  Inner, drain_loop, detach_transport, attach_transport, starts_with_keyframe, is_keyframe, is_some,
  push, enforce_drop_policy, cut_threshold,
}
use strym_core.Engine.Resume.{
  decodable, starts-queue, awaiting-decodable, keyframe-decodable, detach-awaiting,
}

abbrev cut : BoundedBuffer MediaPacket → BoundedBuffer MediaPacket
cut b = (resync_keep_latest_keyframe is_keyframe b).0

cut-starts :
    (b : BoundedBuffer MediaPacket)
    → starts_with_keyframe b ≡ true
    → starts_with_keyframe (cut b) ≡ true
cut-starts b h = elim (resync-Cuts is_keyframe b) [
  | inl (k, rest, q, key, _, _, _, _) ↦ starts-queue (cut b) k rest q ∙ key
  | inr (_, e, _) ↦ ap starts_with_keyframe e ∙ h
]

cut-len :
    (b : BoundedBuffer MediaPacket)
    → (length (cut b).queue ≤ length b.queue) × ((cut b).capacity ≡ b.capacity)
unfolding resync_keep_latest_keyframe
cut-len b = grind (arith, length-drop)

push-queue :
    (b : BoundedBuffer MediaPacket) (p : MediaPacket)
    → length b.queue < b.capacity
    → ((Backpressure.push b p).queue ≡ b.queue ++ (p ∷ []))
      × ((Backpressure.push b p).capacity ≡ b.capacity)
unfolding Backpressure.push
push-queue b p l = ground arith

push-starts :
    (b : BoundedBuffer MediaPacket) (p : MediaPacket)
    → length b.queue < b.capacity
    → starts_with_keyframe b ≡ true
    → starts_with_keyframe (Backpressure.push b p) ≡ true
unfolding starts_with_keyframe front
push-starts b p l h = elim (List-cases b.queue) [
  | inl q ↦ ground (arith, h, q)
  | inr (x, rest, q) ↦
      starts-queue (Backpressure.push b p) x (rest ++ (p ∷ []))
        ((push-queue b p l).0 ∙ ap (λ xs. xs ++ (p ∷ [])) q)
      ∙ (sym (starts-queue b x rest q) ∙ h)
]

push-len :
    (b : BoundedBuffer MediaPacket) (p : MediaPacket)
    → length b.queue < b.capacity
    → (length (Backpressure.push b p).queue ≡ length b.queue + 1)
      × ((Backpressure.push b p).capacity ≡ b.capacity)
push-len b p l =
    (ap length ((push-queue b p l).0) ∙ length-append b.queue (p ∷ []), (push-queue b p l).1)

module _ {W O : Type 0} where
  -- The stream can start: the engine waits for a keyframe, or the buffer starts with one.
  abbrev IsReady : Inner W O → Type 0
  IsReady e = (e.awaiting_keyframe ≡ true) ⊎ (starts_with_keyframe e.buffer ≡ true)

  -- Room for so many packets more.
  abbrev HasRoom : ℕ → Inner W O → Type 0
  HasRoom n e = length e.buffer.queue + n ≤ e.buffer.capacity

  enforce-IsReady :
      (e : Inner W O) (n : ℕ)
      → IsReady e
      → HasRoom n e
      → IsReady (enforce_drop_policy e) × HasRoom n (enforce_drop_policy e)
  unfolding enforce_drop_policy len
  enforce-IsReady e n h r = elim (Option-cases (cut_threshold e.config.profile)) [
    | inl q ↦ rw (enforce_drop_policy, q) (h, r)
    | inr (m, q) ↦ elim (Bool-cases (leb m (length e.buffer.queue))) [
      | inr f ↦ rw (enforce_drop_policy, q, len, f) (h, r)
      | inl t ↦
          rw (enforce_drop_policy, q, len, t)
            (
              elim h [ inl a ↦ inl a | inr s ↦ inr (cut-starts e.buffer s) ],
              omega (arith, (cut-len e.buffer).0, (cut-len e.buffer).1),
            )
    ]
  ]

  push-IsReady :
      (p : MediaPacket) (e : Inner W O) (n : ℕ)
      → IsReady e
      → HasRoom (suc n) e
      → IsReady (push p e) × HasRoom n (push p e)
  unfolding push
  push-IsReady p e n h r =
      let size = push-len e.buffer p (omega arith) in
      enforce-IsReady (record e { buffer = Backpressure.push e.buffer p }) n
        (elim h [ inl a ↦ inl a | inr s ↦ inr (push-starts e.buffer p (omega arith) s) ])
        (omega (arith, size.0, size.1))

  -- Pushes in a row.
  unfoldable pub pushed_in_turn : List MediaPacket → Inner W O → Inner W O
  pushed_in_turn [] e = e
  pushed_in_turn (p ∷ ps) e = pushed_in_turn ps (push p e)

  pushed-IsReady :
      (ps : List MediaPacket) (e : Inner W O)
      → IsReady e
      → HasRoom (length ps) e
      → IsReady (pushed_in_turn ps e)
  unfolding pushed_in_turn
  pushed-IsReady [] e h r = h
  pushed-IsReady (p ∷ ps) e h r =
      let (h', r') = push-IsReady p e (length ps) h r in pushed-IsReady ps (push p e) h' r'

  drain-decodable : (fuel : ℕ) (e : Inner W O) → IsReady e → decodable (drain_loop fuel e).0 ≡ true
  drain-decodable fuel e (inl a) = awaiting-decodable fuel e a
  drain-decodable fuel e (inr s) = keyframe-decodable fuel e s

  detach-IsReady :
      (e : Inner W O) → is_some (detach_transport e).avcc ≡ true → IsReady (detach_transport e)
  detach-IsReady e c = elim (Bool-cases (starts_with_keyframe (detach_transport e).buffer)) [
    | inl s ↦ inr s
    | inr n ↦ inl (detach-awaiting e c ∙ rw n refl)
  ]

  attach-IsReady :
      (w : W) (now : ℕ) (e : Inner W O) → IsReady e → IsReady (attach_transport w now e).1
  unfolding attach_transport
  attach-IsReady w now e h = h

  -- A stream with a video configuration loses its transport, any packets are pushed while it is down,
  -- so many at most as the buffer has room for, and a transport is attached: then what the engine
  -- drains first has, in order of arrival, no video frame before its first keyframe, whatever the
  -- buffer held and whatever the policy of the profile cuts. (Where the buffer overflows meanwhile the
  -- keyframe at its head can be evicted.)
  pub detach-push-drain-decodable :
      (e : Inner W O) (ps : List MediaPacket) (w : W) (now : ℕ)
      → is_some (detach_transport e).avcc ≡ true
      → length (detach_transport e).buffer.queue + length ps ≤ (detach_transport e).buffer.capacity
      → let s = (attach_transport w now (pushed_in_turn ps (detach_transport e))).1 in
        decodable (drain_loop (len s.buffer) s).0 ≡ true
  detach-push-drain-decodable e ps w now c r =
      let u = pushed_in_turn ps (detach_transport e) in
      let s = (attach_transport w now u).1 in
      drain-decodable (len s.buffer) s
        (attach-IsReady w now u (pushed-IsReady ps (detach_transport e) (detach-IsReady e c) r))
