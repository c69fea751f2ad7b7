-- ===== src/Examples/Buffer.antt =====
-- core/src/backpressure.rs: runs, and the theorems at concrete buffers.
use strym_core.Common.{
  ℕ, ◌%◌, ◌≡◌, refl, Bool, ◌==◌, List, [], ◌∷◌, ◌++◌, arith, max, newest, length,
}
use strym_core.Backpressure.{BoundedBuffer, new, push, rposition, resync_keep_latest_keyframe}
use strym_core.Backpressure.Bounds.{push_in_row, push_in_row-newest}
use strym_core.Backpressure.Resync.{Cuts, resync-Cuts}
use strym_core.Backpressure.Ledger.{
  Call, pushes, pops_oldest, pops_freshest, records_drop, restores, resyncs, Tally, IsBalanced, run,
  run-IsBalanced,
}

abbrev by_four : ℕ → Bool
by_four n = n % 4 == 0

abbrev full : BoundedBuffer ℕ
full = record { queue = 2 ∷ 3 ∷ 4 ∷ 5 ∷ []; capacity = 4; dropped = 0; pushed = 4 }

push-full :
    push full 6 ≡ record { queue = 3 ∷ 4 ∷ 5 ∷ 6 ∷ []; capacity = 4; dropped = 1; pushed = 5 }
unfolding push
push-full = refl

resync_full :
    resync_keep_latest_keyframe by_four full
    ≡ (record { queue = 4 ∷ 5 ∷ []; capacity = 4; dropped = 2; pushed = 4 }, 2)
unfolding resync_keep_latest_keyframe rposition
resync_full = refl

-- With no room at all a drop is counted though nothing is evicted, and the item stays.
push_no_room :
    push (new {A = ℕ} 0) 7 ≡ record { queue = 7 ∷ []; capacity = 0; dropped = 1; pushed = 1 }
unfolding push new
push_no_room = refl

push_in_row-newest_example :
    (push_in_row full (6 ∷ 7 ∷ [])).queue
    ≡ newest (max (max 4 1) (length full.queue)) (full.queue ++ (6 ∷ 7 ∷ []))
push_in_row-newest_example = push_in_row-newest full (6 ∷ 7 ∷ [])

resync-Cuts_example : Cuts by_four full (resync_keep_latest_keyframe by_four full)
resync-Cuts_example = resync-Cuts by_four full

abbrev calls : List (Call ℕ)
calls = pushes 6 ∷ pops_oldest ∷ records_drop ∷ restores (8 ∷ 9 ∷ []) ∷ resyncs ∷ pops_freshest ∷ []

abbrev no_tally : Tally
no_tally = record { taken = 0; returned = 0; recorded = 0 }

run-IsBalanced_example : IsBalanced by_four (run by_four (full, no_tally) calls)
run-IsBalanced_example =
    run-IsBalanced by_four (full, no_tally) calls (record { room = omega arith; balance = refl })
