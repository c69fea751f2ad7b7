-- ===== src/Backpressure/Ledger.antt =====
-- Every packet is accounted for over any history of calls.
use strym_core.Common.{
  ℕ, ◌+◌, ◌%◌, ◌^◌, ◌≤◌, ◌≡◌, Bool, List, [], ◌∷◌, Option, some, none, arith, length, length-append,
  length-drop, drop, Option-cases, inl, inr,
}
use strym_core.Backpressure.{
  BoundedBuffer, push, pop_oldest, pop_freshest, restore_front, record_drop, rposition,
  resync_keep_latest_keyframe, split_last,
}
use strym_core.Backpressure.Bounds.{restore_front-queue, restore_front_counters, split_last-some}
use strym_core.Backpressure.Resync.{rposition-lt}

pub data Call (A : Type 0) : Type 0 where
  pushes : A → Call A
  pops_oldest pops_freshest records_drop : Call A
  restores : List A → Call A
  resyncs : Call A

-- Packets that left the queue by a pop, that came back by `restore_front`, and drops recorded
-- of packets that had already been popped.
pub record Tally : Type 0 where
  pub taken : ℕ
  pub returned : ℕ
  pub recorded : ℕ

module _ {A : Type 0} (is_key : A → Bool) where
  abbrev pub counted : Option A → ℕ
  counted none = 0
  counted (some _) = 1

  unfoldable pub call : BoundedBuffer A × Tally → Call A → BoundedBuffer A × Tally
  call (b, t) (pushes a) = (push b a, t)
  call (b, t) pops_oldest =
      let (o, b') = pop_oldest b in (b', record t { taken = t.taken + counted o })
  call (b, t) pops_freshest =
      let (o, b') = pop_freshest b in (b', record t { taken = t.taken + counted o })
  call (b, t) records_drop = (record_drop b, record t { recorded = t.recorded + 1 })
  call (b, t) (restores items) =
      (restore_front b items, record t { returned = t.returned + length items })
  call (b, t) resyncs = ((resync_keep_latest_keyframe is_key b).0, t)

  unfoldable pub run : BoundedBuffer A × Tally → List (Call A) → BoundedBuffer A × Tally
  run s [] = s
  run s (c ∷ cs) = run (call s c) cs

  -- What came in is what is held, was dropped or was taken (the counters are u64).
  pub record IsBalanced (s : BoundedBuffer A × Tally) : Type 0 where
    pub room : 1 ≤ (s.0).capacity
    pub balance :
        ((s.0).pushed + (s.1).returned + (s.1).recorded) % 2 ^ 64
        ≡ (length (s.0).queue + (s.0).dropped + (s.1).taken) % 2 ^ 64

  call-IsBalanced :
      (s : BoundedBuffer A × Tally) (c : Call A) → IsBalanced s → IsBalanced (call s c)
  unfolding call
  call-IsBalanced (b, t) (pushes a) h =
      unfold push in
      record {
        room = ground arith;
        balance = ground (
          arith,
          length-append (drop 1 b.queue) (a ∷ []),
          length-append b.queue (a ∷ []),
          length-drop 1 b.queue,
        );
      }
  call-IsBalanced (b, t) pops_oldest h = unfold pop_oldest in ground arith
  call-IsBalanced (b, t) pops_freshest h = elim (Option-cases (split_last b.queue)) [
    | inl e ↦ unfold pop_freshest in ground (arith, e)
    | inr ((f, y), e) ↦
        unfold pop_freshest in
        ground (arith, e, split_last-some b.queue f y e, length-append f (y ∷ []))
  ]
  call-IsBalanced (b, t) records_drop h = unfold record_drop in ground arith
  call-IsBalanced (b, t) (restores items) h = ground (
    arith,
    restore_front-queue b items,
    length-append items b.queue,
    restore_front_counters b items,
  )
  call-IsBalanced (b, t) resyncs h = elim (Option-cases (rposition is_key b.queue)) [
    | inl e ↦ unfold resync_keep_latest_keyframe in ground (arith, e)
    | inr (i, e) ↦
        unfold resync_keep_latest_keyframe in
        ground (arith, e, rposition-lt is_key b.queue i e, length-drop i b.queue)
  ]

  -- Over any history of calls on a buffer with room for one packet at least that starts balanced, as
  -- a new one does, the packets pushed, restored and recorded as dropped equal those held, dropped and
  -- popped, modulo the counters' 2 ^ 64.
  pub run-IsBalanced :
      (s : BoundedBuffer A × Tally) (cs : List (Call A)) → IsBalanced s → IsBalanced (run s cs)
  unfolding run
  run-IsBalanced s [] h = h
  run-IsBalanced s (c ∷ cs) h = run-IsBalanced (call s c) cs (call-IsBalanced s c h)
