-- ===== src/Backpressure.antt =====
-- core/src/backpressure.rs: the bounded queue that drops its oldest item when full. The deque is a
-- list, oldest item first; the two counters are u64 and wrap.
pub mod Bounds
pub mod Resync
pub mod Ledger
use strym_core.Common.{
  ℕ, zero, suc, Bool, Option, none, some, List, [], ◌∷◌, ◌++◌, if◌then◌else◌, leb, length, drop,
  add_u64,
}

pub record BoundedBuffer {ℓ} (A : Type ℓ) : Type ℓ where
  pub queue : List A
  pub capacity : ℕ
  pub dropped : ℕ
  pub pushed : ℕ

module _ {ℓ} {A : Type ℓ} where
  unfoldable pub new : ℕ → BoundedBuffer A
  new capacity = record { queue = []; capacity = capacity; dropped = 0; pushed = 0 }

  unfoldable pub push : BoundedBuffer A → A → BoundedBuffer A
  push b item =
      if leb b.capacity (length b.queue)
      then record b {
        queue = drop 1 b.queue ++ (item ∷ []);
        dropped = add_u64 b.dropped 1;
        pushed = add_u64 b.pushed 1;
      }
      else record b { queue = b.queue ++ (item ∷ []); pushed = add_u64 b.pushed 1 }

  -- The last item and those before it.
  unfoldable pub split_last : List A → Option (List A × A)
  split_last [] = none
  split_last (x ∷ xs) = elim (split_last xs) [
    | none ↦ some ([], x)
    | some (front, y) ↦ some (x ∷ front, y)
  ]

  unfoldable pub pop_freshest : BoundedBuffer A → Option A × BoundedBuffer A
  unfolding split_last
  pop_freshest b = elim (split_last b.queue) [
    | none ↦ (none, b)
    | some (front, y) ↦ (some y, record b { queue = front })
  ]

  unfoldable pub pop_oldest : BoundedBuffer A → Option A × BoundedBuffer A
  pop_oldest b = elim b.queue [ [] ↦ (none, b) | x ∷ rest ↦ (some x, record b { queue = rest }) ]

  -- The items go back one by one, the last of them first.
  unfoldable pub restore_front : BoundedBuffer A → List A → BoundedBuffer A
  restore_front b [] = b
  restore_front b (x ∷ items) = let b' = restore_front b items in record b' { queue = x ∷ b'.queue }

  -- `iter().rposition(is_key)`: the index of the last item that passes.
  unfoldable pub rposition : (A → Bool) → List A → Option ℕ
  rposition is_key [] = none
  rposition is_key (x ∷ xs) = elim (rposition is_key xs) [
    | some i ↦ some (suc i)
    | none ↦ if is_key x then some zero else none
  ]

  unfoldable pub resync_keep_latest_keyframe : (A → Bool) → BoundedBuffer A → BoundedBuffer A × ℕ
  resync_keep_latest_keyframe is_key b = elim (rposition is_key b.queue) [
    | some idx ↦ (record b { queue = drop idx b.queue; dropped = add_u64 b.dropped idx }, idx)
    | none ↦ (b, 0)
  ]

  unfoldable pub front : BoundedBuffer A → Option A
  front b = elim b.queue [ [] ↦ none | x ∷ _ ↦ some x ]

  unfoldable pub last : BoundedBuffer A → Option A
  unfolding split_last
  last b = elim (split_last b.queue) [ none ↦ none | some (_, y) ↦ some y ]

  unfoldable pub record_drop : BoundedBuffer A → BoundedBuffer A
  record_drop b = record b { dropped = add_u64 b.dropped 1 }

  unfoldable pub len : BoundedBuffer A → ℕ
  len b = length b.queue
