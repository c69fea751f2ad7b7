-- ===== src/Telemetry/Recent.antt =====
-- What `QosRing` (core/src/telemetry.rs) keeps: the newest samples, oldest first.
pub mod Push
pub mod History
use native.Mathlib.Nat.{mod-lt, mod_self, mod-eq_of_lt, mod-eq-sub-mod}
use strym_core.Common.{
  ℕ, zero, suc, ◌+◌, ◌-◌, ◌%◌, ◌≤◌, ◌<◌, ◌≡◌, refl, ap, sym, ◌∙◌, arith, min, max, Bool, true,
  false, Option, none, some, List, [], ◌∷◌, ◌++◌, append_assoc, append-nil, if◌then◌else◌, ltb,
  lt→ltb, ltb→lt, length, length-append, length-take, length-drop, length-set_at, take, drop,
  drop-add, take_all, drop_all, take-append, drop-append, drop-append_of_le, get_elem?,
  get_elem?-append, get_elem?-append_right, get_elem?-drop, get_elem?-take, set_at, set_at-take,
  Bool-cases, inl, inr,
}
use strym_core.Telemetry.Ring.{
  QosRing, new, store_at, push, len, cons_both, collect, start_index, iter,
}

module _ {A : Type 0} where
  pub record IsRing (r : QosRing A) : Type 0 where
    pub size : length r.samples ≡ r.filled
    pub fits : r.filled ≤ r.capacity
    pub inside : r.next < r.capacity

  -- The samples in the order of time.
  unfoldable pub view_of : Bool → List A → ℕ → List A
  view_of true samples next = samples
  view_of false samples next = drop next samples ++ take next samples

  unfoldable pub view : QosRing A → List A
  view r = view_of (ltb r.filled r.capacity) r.samples r.next

  collect-view :
      (item : ℕ → Option A) (v : List A) (i : ℕ)
      → ((j : ℕ) → j < length v → item (i + j) ≡ get_elem? v j)
      → collect item i (length v) ≡ some v
  unfolding collect
  collect-view item [] i h = refl
  collect-view item (x ∷ v) i h =
      let first : item i ≡ some x = ap item (omega arith) ∙ h 0 (omega arith) in
      let more : collect item (suc i) (length v) ≡ some v =
        collect-view item v (suc i) λ j l.
          let e : suc i + j ≡ i + suc j = omega arith in ap item e ∙ h (suc j) (omega arith) in
      rw (first, more) refl

  -- An item of a full ring.
  turned :
      (samples : List A) (next j : ℕ)
      → next < length samples
      → j < length samples
      → get_elem? samples ((next + j) % length samples)
        ≡ get_elem? (drop next samples ++ take next samples) j
  turned samples next j h l = elim (Bool-cases (ltb (next + j) (length samples))) [
    | inl e ↦
        (let low : next + j < length samples = ltb→lt (next + j) (length samples) e in
          let same : (next + j) % length samples ≡ next + j = mod-eq_of_lt low in
          ap (get_elem? samples) same
          ∙ sym (
              get_elem?-append (drop next samples) (take next samples) j
                (omega (arith, length-drop next samples))
              ∙ get_elem?-drop next samples j))
    | inr e ↦
        (let i = (next + j) - length samples in
          let high : length samples ≤ next + j = ground arith in
          let same : (next + j) % length samples ≡ i =
            mod-eq-sub-mod high ∙ mod-eq_of_lt (omega arith) in
          let place : length (drop next samples) + i ≡ j =
            omega (arith, length-drop next samples) in
          ap (get_elem? samples) same
          ∙ sym (
              ap (get_elem? (drop next samples ++ take next samples)) (sym place)
              ∙ (get_elem?-append_right (drop next samples) (take next samples) i
                  ∙ get_elem?-take next samples i (omega arith))))
  ]

  pub length-view : (r : QosRing A) → IsRing r → length (view r) ≡ r.filled
  unfolding view view_of
  length-view r h = elim (Bool-cases (ltb r.filled r.capacity)) [
    | inl e ↦ rw e (h.size)
    | inr e ↦ rw e (
        omega (
          arith,
          h.size,
          h.fits,
          h.inside,
          length-append (drop r.next r.samples) (take r.next r.samples),
          length-drop r.next r.samples,
          length-take r.next r.samples,
          ltb→lt,
          lt→ltb,
        ))
  ]

  item-view :
      (r : QosRing A) (j : ℕ)
      → IsRing r
      → j < r.filled
      → get_elem? r.samples ((start_index r + (0 + j)) % r.capacity) ≡ get_elem? (view r) j
  unfolding view view_of
  item-view r j h l = elim (Bool-cases (ltb r.filled r.capacity)) [
    | inl e ↦
        (let bound : 0 + (0 + j) < r.capacity = omega (arith, h.fits) in
          let same : (0 + (0 + j)) % r.capacity ≡ j = mod-eq_of_lt bound ∙ omega arith in
          rw e (ap (get_elem? r.samples) same))
    | inr e ↦
        (let least : r.capacity ≤ r.filled = ground arith in
          let full : r.capacity ≡ length r.samples = omega (arith, h.size, h.fits) in
          let sum : r.next + (0 + j) ≡ r.next + j = omega arith in
          rw (e, sum, full)
            (turned r.samples r.next j (omega (arith, h.inside)) (omega (arith, h.size))))
  ]

  -- `iter` gives the view.
  pub iter-view : (r : QosRing A) → IsRing r → iter r ≡ some (view r)
  unfolding iter
  iter-view r h =
      ap (collect (λ i. get_elem? r.samples ((start_index r + i) % r.capacity)) 0)
        (sym (length-view r h))
      ∙ collect-view (λ i. get_elem? r.samples ((start_index r + i) % r.capacity)) (view r) 0
          λ j l. item-view r j h (omega (arith, length-view r h))
