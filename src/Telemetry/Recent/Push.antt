-- ===== src/Telemetry/Recent/Push.antt =====
-- One push onto `QosRing` (core/src/telemetry.rs).
use native.Mathlib.Nat.{mod-lt, mod_self, mod-eq_of_lt}
use strym_core.Common.{
  newest, newest_all, ℕ, ◌+◌, ◌-◌, ◌%◌, ◌≤◌, ◌<◌, ◌≡◌, refl, ap, sym, ◌∙◌, arith, Bool, true, false,
  some, List, [], ◌∷◌, ◌++◌, append_assoc, append-nil, ltb, lt→ltb, ltb→lt, length, length-append,
  length-take, length-drop, length-set_at, take, drop, drop-add, drop_all, take-append, drop-append,
  drop-append_of_le, set_at, set_at-take, Bool-cases, inl, inr,
}
use strym_core.Telemetry.Ring.{QosRing, store_at, push}
use strym_core.Telemetry.Recent.{IsRing, view_of, view}

module _ {A : Type 0} where
  -- A push of a sample keeps the newest.
  unfoldable pub Pushed : QosRing A → A → QosRing A → Type 0
  Pushed r x s =
      (push r x ≡ some s)
      × (IsRing s × ((s.capacity ≡ r.capacity) × (view s ≡ newest r.capacity (view r ++ x ∷ []))))

  -- The view of a ring whose samples are as many as it can hold, and are in order.
  view-next_zero : (b : Bool) (samples : List A) → view_of b samples 0 ≡ samples
  unfolding view_of
  view-next_zero true samples = refl
  view-next_zero false samples = append-nil samples

  view-room :
      (n capacity : ℕ) (samples : List A)
      → n ≤ capacity
      → view_of (ltb n capacity) samples (n % capacity) ≡ samples
  view-room n capacity samples h = elim (Bool-cases (ltb n capacity)) [
    | inl e ↦ unfold view_of in rw e refl
    | inr e ↦
        (let full : n ≡ capacity = ground arith in
          let wraps : n % capacity ≡ 0 = ap (λ m. m % capacity) full ∙ mod_self capacity in
          ap (view_of (ltb n capacity) samples) wraps ∙ view-next_zero (ltb n capacity) samples)
  ]

  push-room :
      (r : QosRing A) (x : A)
      → IsRing r
      → ltb r.filled r.capacity ≡ true
      → (s : QosRing A) × Pushed r x s
  unfolding Pushed push view
  push-room r x h e =
      let less : r.filled < r.capacity = ltb→lt r.filled r.capacity e in
      let size : length (r.samples ++ x ∷ []) ≡ r.filled + 1 =
        omega (arith, h.size, length-append r.samples (x ∷ [])) in
      let s : QosRing A = record r {
        samples = r.samples ++ x ∷ [];
        filled = r.filled + 1;
        next = (r.filled + 1) % r.capacity;
      } in
      let old : view_of (ltb r.filled r.capacity) r.samples r.next ≡ r.samples =
        unfold view_of in rw e refl in
      (
        s,
        (
          rw e refl,
          (
            record {
              size = size;
              fits = omega arith;
              inside = mod-lt (r.filled + 1) (omega arith);
            },
            (
              refl,
              view-room (r.filled + 1) r.capacity (r.samples ++ x ∷ []) (omega arith)
                  ∙ rw old (sym (newest_all r.capacity (r.samples ++ x ∷ []) (omega arith))),
            ),
          ),
        ),
      )

  -- Overwriting the oldest of a full ring.
  turn :
      (samples : List A) (next : ℕ) (x : A)
      → next < length samples
      → view_of false (set_at samples next x) ((next + 1) % length samples)
        ≡ drop 1 (drop next samples ++ take next samples) ++ x ∷ []
  unfolding view_of
  turn samples next x h =
      let front = take next samples in
      let back = drop (next + 1) samples in
      let size : length (front ++ x ∷ []) ≡ next + 1 =
        omega (arith, length-append front (x ∷ []), length-take next samples) in
      let written : set_at samples next x ≡ (front ++ x ∷ []) ++ back =
        set_at-take samples next x h ∙ sym (append_assoc front (x ∷ []) back) in
      let one : 1 ≤ length (drop next samples) = omega (arith, length-drop next samples) in
      let left : drop 1 (drop next samples ++ front) ≡ back ++ front =
        drop-append_of_le 1 (drop next samples) front one
        ∙ ap (λ xs. xs ++ front) (sym (drop-add next 1 samples)) in
      rw (left, written)
        (elim (Bool-cases (ltb (next + 1) (length samples))) [
          | inl e ↦
              (let same : (next + 1) % length samples ≡ length (front ++ x ∷ []) =
                  mod-eq_of_lt (ltb→lt (next + 1) (length samples) e) ∙ sym size in
                rw (same, drop-append (front ++ x ∷ []) back, take-append (front ++ x ∷ []) back)
                  (sym (append_assoc back front (x ∷ []))))
          | inr e ↦
              (let end : next + 1 ≡ length samples = ground arith in
                let wraps : (next + 1) % length samples ≡ 0 =
                  ap (λ m. m % length samples) end ∙ mod_self (length samples) in
                let empty : back ≡ [] = drop_all (next + 1) samples (omega arith) in
                rw (wraps, empty)
                  (append-nil ((front ++ x ∷ []) ++ []) ∙ append-nil (front ++ x ∷ [])))
        ])

  newest-full :
      (n : ℕ) (v : List A) (x : A)
      → length v ≡ n
      → 1 ≤ n
      → drop 1 v ++ x ∷ [] ≡ newest n (v ++ x ∷ [])
  newest-full n v x e h =
      let one : 1 ≡ length (v ++ x ∷ []) - n = omega (arith, length-append v (x ∷ [])) in
      sym (drop-append_of_le 1 v (x ∷ []) (omega arith)) ∙ ap (λ k. drop k (v ++ x ∷ [])) one

  push-full :
      (r : QosRing A) (x : A)
      → IsRing r
      → ltb r.filled r.capacity ≡ false
      → (s : QosRing A) × Pushed r x s
  unfolding Pushed push view
  push-full r x h e =
      let least : r.capacity ≤ r.filled = ground arith in
      let full : length r.samples ≡ r.capacity = omega (arith, h.size, h.fits) in
      let low : r.next < length r.samples = omega (arith, h.inside) in
      let there : ltb r.next (length r.samples) ≡ true = lt→ltb r.next (length r.samples) low in
      let s : QosRing A = record r {
        samples = set_at r.samples r.next x;
        next = (r.next + 1) % r.capacity;
      } in
      (
        s,
        (
          unfold store_at in rw (e, there) refl,
          (
            record {
              size = length-set_at r.samples r.next x ∙ h.size;
              fits = h.fits;
              inside = mod-lt (r.next + 1) (omega (arith, h.inside));
            },
            (
              refl,
              rw e (
                  ap (λ n. view_of false (set_at r.samples r.next x) ((r.next + 1) % n)) (sym full)
                  ∙ (turn r.samples r.next x low
                      ∙ unfold view_of in
                        newest-full r.capacity (drop r.next r.samples ++ take r.next r.samples) x
                          (omega (
                            arith,
                            length-append (drop r.next r.samples) (take r.next r.samples),
                            length-drop r.next r.samples,
                            length-take r.next r.samples,
                            h.inside,
                          ))
                          (omega (arith, h.inside)))),
            ),
          ),
        ),
      )

  pub push-Pushed : (r : QosRing A) (x : A) → IsRing r → (s : QosRing A) × Pushed r x s
  push-Pushed r x h = elim (Bool-cases (ltb r.filled r.capacity)) [
    | inl e ↦ push-room r x h e
    | inr e ↦ push-full r x h e
  ]
