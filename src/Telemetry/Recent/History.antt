-- ===== src/Telemetry/Recent/History.antt =====
-- Pushes onto `QosRing` (core/src/telemetry.rs) in a row.
use strym_core.Common.{
  newest, newest-append, ℕ, ◌-◌, ◌≡◌, refl, ap, sym, ◌∙◌, arith, min, max, true, Option, none, some,
  List, [], ◌∷◌, ◌++◌, append_assoc, append-nil, ltb, length, length-drop,
}
use strym_core.Telemetry.Ring.{QosRing, new, push, len, iter}
use strym_core.Telemetry.Recent.{IsRing, view_of, view, length-view, iter-view}
use strym_core.Telemetry.Recent.Push.{Pushed, push-Pushed}

module _ {A : Type 0} where
  -- Pushes in a row.
  unfoldable pub push_in_turn : QosRing A → List A → Option (QosRing A)
  push_in_turn r [] = some r
  push_in_turn r (x ∷ xs) = elim (push r x) [ none ↦ none | some s ↦ push_in_turn s xs ]

  push_in_turn-step :
      (r s : QosRing A) (x : A) (xs : List A)
      → push r x ≡ some s
      → push_in_turn r (x ∷ xs) ≡ push_in_turn s xs
  unfolding push_in_turn
  push_in_turn-step r s x xs e = ap (λ o. elim o [ none ↦ none | some u ↦ push_in_turn u xs ]) e

  push_in_turn-newest :
      (r : QosRing A) (seen xs : List A)
      → IsRing r
      → view r ≡ newest r.capacity seen
      → (s : QosRing A) × (push_in_turn r xs ≡ some s)
        × (IsRing s × ((s.capacity ≡ r.capacity) × (view s ≡ newest r.capacity (seen ++ xs))))
  unfolding push_in_turn Pushed
  push_in_turn-newest r seen [] h e =
      (r, refl, (h, (refl, e ∙ ap (newest r.capacity) (sym (append-nil seen)))))
  push_in_turn-newest r seen (x ∷ xs) h e =
      let (s, (step, (ring, (same, kept)))) = push-Pushed r x h in
      let so_far : view s ≡ newest s.capacity (seen ++ x ∷ []) =
        kept
        ∙ (ap (λ v. newest r.capacity (v ++ x ∷ [])) e
            ∙ (newest-append r.capacity seen (x ∷ [])
                ∙ ap (λ n. newest n (seen ++ x ∷ [])) (sym same))) in
      let (t, run, (ring', (same', kept'))) =
        push_in_turn-newest s (seen ++ x ∷ []) xs ring so_far in
      (
        t,
        push_in_turn-step r s x xs step ∙ run,
        (
          ring',
          (
            same' ∙ same,
            kept'
                ∙ (ap (newest s.capacity) (append_assoc seen (x ∷ []) xs)
                    ∙ ap (λ n. newest n (seen ++ (x ∷ xs))) same),
          ),
        ),
      )

  new-IsRing : (capacity : ℕ) → IsRing (new {A = A} capacity)
  unfolding new
  new-IsRing capacity = record { size = refl; fits = omega arith; inside = omega arith }

  view-new : (capacity : ℕ) → view (new {A = A} capacity) ≡ newest (max capacity 1) []
  unfolding view view_of new
  view-new capacity =
      let some_room : ltb 0 (max capacity 1) ≡ true = ground arith in
      let none_seen : 0 - max capacity 1 ≡ 0 = omega arith in rw (some_room, none_seen) refl

  -- A ring refines the list of all that was pushed: from an empty ring no push fails, and `iter` gives
  -- the newest samples in the order in which they came, as many as the capacity, which is one at least.
  pub push_in_turn-new :
      (capacity : ℕ) (xs : List A)
      → (s : QosRing A) × (push_in_turn (new capacity) xs ≡ some s)
        × ((iter s ≡ some (newest (max capacity 1) xs))
            × (len s ≡ min (length xs) (max capacity 1)))
  unfolding new
  push_in_turn-new capacity xs =
      let n : ℕ = max capacity 1 in
      let (s, run, (ring, (same, kept))) =
        push_in_turn-newest (new capacity) [] xs (new-IsRing capacity) (view-new capacity) in
      let shown : view s ≡ newest n xs = kept in
      let size : length (view s) ≡ min (length xs) n =
        ap length shown ∙ omega (arith, length-drop (length xs - n) xs) in
      (s, run, (iter-view s ring ∙ ap some shown, unfold len in sym (length-view s ring) ∙ size))
