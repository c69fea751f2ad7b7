-- ===== src/Telemetry/Ring.antt =====
-- `QosRing` of core/src/telemetry.rs, over any type of samples. `none` is the panic of an index out
-- of range.
use strym_core.Common.{
  ℕ, zero, suc, ◌+◌, ◌%◌, max, Option, none, some, List, [], ◌∷◌, ◌++◌, if◌then◌else◌, ltb, length,
  get_elem?, set_at,
}

pub record QosRing (A : Type 0) : Type 0 where
  pub samples : List A
  pub capacity : ℕ
  pub next : ℕ
  pub filled : ℕ

module _ {A : Type 0} where
  unfoldable pub new : ℕ → QosRing A
  new capacity = record { samples = []; capacity = max capacity 1; next = 0; filled = 0 }

  -- `self.samples[i] = sample`.
  unfoldable pub store_at : List A → ℕ → A → Option (List A)
  store_at samples i sample =
      if ltb i (length samples) then some (set_at samples i sample) else none

  unfoldable pub push : QosRing A → A → Option (QosRing A)
  push r sample =
      if ltb r.filled r.capacity
      then some (record r {
        samples = r.samples ++ sample ∷ [];
        filled = r.filled + 1;
        next = (r.filled + 1) % r.capacity;
      })
      else (elim (store_at r.samples r.next sample) [
        | none ↦ none
        | some samples ↦ some (record r { samples = samples; next = (r.next + 1) % r.capacity })
      ])

  unfoldable pub len : QosRing A → ℕ
  len r = r.filled

  unfoldable pub clear : QosRing A → QosRing A
  clear r = record r { samples = []; next = 0; filled = 0 }

  abbrev pub cons_both : Option A → Option (List A) → Option (List A)
  cons_both (some a) (some rest) = some (a ∷ rest)
  cons_both _ _ = none

  -- The items at the places from `i` on, `n` of them.
  unfoldable pub collect : (ℕ → Option A) → ℕ → ℕ → Option (List A)
  collect item i zero = some []
  collect item i (suc n) = cons_both (item i) (collect item (suc i) n)

  abbrev pub start_index : QosRing A → ℕ
  start_index r = if ltb r.filled r.capacity then 0 else r.next

  unfoldable pub iter : QosRing A → Option (List A)
  iter r = collect (λ i. get_elem? r.samples ((start_index r + i) % r.capacity)) 0 r.filled
