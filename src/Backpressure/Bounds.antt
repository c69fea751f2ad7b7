-- ===== src/Backpressure/Bounds.antt =====
-- How long the queue gets, and what `push` keeps.
use strym_core.Common.{
  Bool-cases, leb, leb→le, ◌-◌, newest, newest_all, newest-append, max, ℕ, append_assoc, append-nil,
  sym, ◌∙◌, ◌≤◌, ◌<◌, ◌≡◌, refl, ap, List, [], ◌∷◌, ◌++◌, some, none, arith, length, length-append,
  length-drop, drop, Option-cases, inl, inr,
}
use strym_core.Backpressure.{BoundedBuffer, push, restore_front, split_last}

module _ {A : Type 0} where
  -- Pushes in a row.
  unfoldable pub push_in_row : BoundedBuffer A → List A → BoundedBuffer A
  push_in_row b [] = b
  push_in_row b (item ∷ items) = push_in_row (push b item) items

  -- What a queue holds at most: its capacity, which counts as one at least, or what has been put
  -- back into it beyond that.
  abbrev pub room : BoundedBuffer A → ℕ
  room b = max (max b.capacity 1) (length b.queue)

  drop-newest :
      (n : ℕ) (q : List A) (item : A)
      → n ≤ length q
      → drop 1 q ++ (item ∷ []) ≡ newest (max (max n 1) (length q)) (q ++ (item ∷ []))
  drop-newest n [] item l = ground arith
  drop-newest n (x ∷ q) item l =
      let one : length (x ∷ (q ++ (item ∷ []))) - max (max n 1) (length (x ∷ q)) ≡ 1 =
        omega (arith, length-append q (item ∷ [])) in
      ap (λ k. drop k (x ∷ (q ++ (item ∷ [])))) (sym one)

  push-newest :
      (b : BoundedBuffer A) (item : A)
      → (room (push b item) ≡ room b)
        × ((push b item).queue ≡ newest (room b) (b.queue ++ (item ∷ [])))
  unfolding push
  push-newest b item =
      let size = length-append b.queue (item ∷ []) in
      let size' = length-append (drop 1 b.queue) (item ∷ []) in
      elim (Bool-cases (leb b.capacity (length b.queue))) [
        | inl e ↦
            (let full : b.capacity ≤ length b.queue = leb→le b.capacity (length b.queue) e in
              rw e (
                omega (arith, size', length-drop 1 b.queue),
                drop-newest b.capacity b.queue item full,
              ))
        | inr e ↦
            (let more : length b.queue < b.capacity = ground arith in
              rw e (
                omega (arith, size),
                sym (newest_all (room b) (b.queue ++ (item ∷ [])) (omega (arith, size))),
              ))
      ]

  -- After any pushes in a row a buffer holds the newest of what was in it and what was pushed, in
  -- order: as many as its capacity, where a capacity of 0 counts as 1. A queue that `restore_front`
  -- has made longer than that keeps its length.
  pub push_in_row-newest :
      (b : BoundedBuffer A) (items : List A)
      → (push_in_row b items).queue
        ≡ newest (max (max b.capacity 1) (length b.queue)) (b.queue ++ items)
  unfolding push_in_row
  push_in_row-newest b [] =
      sym (append-nil b.queue)
      ∙ sym (newest_all (room b) (b.queue ++ []) (omega (arith, length-append b.queue [])))
  push_in_row-newest b (item ∷ items) =
      let (same, first) = push-newest b item in
      push_in_row-newest (push b item) items
      ∙ (ap (λ n. newest n ((push b item).queue ++ items)) same
          ∙ (ap (λ q. newest (room b) (q ++ items)) first
              ∙ (newest-append (room b) (b.queue ++ (item ∷ [])) items
                  ∙ ap (newest (room b)) (append_assoc b.queue (item ∷ []) items))))

  pub restore_front-queue :
      (b : BoundedBuffer A) (items : List A) → (restore_front b items).queue ≡ items ++ b.queue
  unfolding restore_front
  restore_front-queue b [] = refl
  restore_front-queue b (x ∷ items) = ap (λ q. x ∷ q) (restore_front-queue b items)

  pub restore_front_counters :
      (b : BoundedBuffer A) (items : List A)
      → ((restore_front b items).pushed ≡ b.pushed)
        × ((restore_front b items).dropped ≡ b.dropped)
        × ((restore_front b items).capacity ≡ b.capacity)
  unfolding restore_front
  restore_front_counters b [] = (refl, refl, refl)
  restore_front_counters b (x ∷ items) = restore_front_counters b items

  pub split_last-append : (xs : List A) (y : A) → split_last (xs ++ (y ∷ [])) ≡ some (xs, y)
  unfolding split_last
  split_last-append [] y = refl
  split_last-append (x ∷ xs) y = ground (arith, split_last-append xs y)

  split_last-none : (q : List A) → split_last q ≡ none → q ≡ []
  unfolding split_last
  split_last-none [] e = refl
  split_last-none (x ∷ xs) e = ground arith

  pub split_last-some :
      (q front : List A) (y : A) → split_last q ≡ some (front, y) → q ≡ front ++ (y ∷ [])
  unfolding split_last
  split_last-some [] front y e = cc
  split_last-some (x ∷ xs) front y e = elim (Option-cases (split_last xs)) [
    | inl n ↦ ground (arith, n, split_last-none xs n)
    | inr ((f, z), r) ↦ ground (arith, r, split_last-some xs f z r)
  ]
