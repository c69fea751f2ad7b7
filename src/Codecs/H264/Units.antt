-- ===== src/Codecs/H264/Units.antt =====
-- The units that `split_annex_b` cuts out, on any input.
use strym_core.Common.{
  ℕ, ◌-◌, ◌≤◌, ◌<◌, ◌^◌, ◌≡◌, refl, List, [], ◌∷◌, arith, Bytes, All, All-append, length,
  length-append, length-take, length-drop, drop,
}
use mathlib.Core.List.{reverse, reverse-cons}
use strym_core.Common.{ap}
use strym_core.Codecs.H264.{
  drop_zeros, drop_codes3, drop_codes4, non_empty, slice, units, split_annex_b, code_groups,
}
use strym_core.Codecs.H264.Prefixed.{IsUnit}

length-reverse : (xs : Bytes) → length (reverse xs) ≡ length xs
length-reverse [] = refl
length-reverse (x ∷ xs) =
    omega
      (arith, ap length (reverse-cons x xs), length-append (reverse xs) (x ∷ []), length-reverse xs)

drop_zeros-le : (r : Bytes) → length (drop_zeros r) ≤ length r
unfolding drop_zeros
drop_zeros-le [] = omega arith
drop_zeros-le (x ∷ r) = ground (arith, drop_zeros-le r)

drop_codes3-le : (r : Bytes) → length (drop_codes3 r) ≤ length r
unfolding drop_codes3
drop_codes3-le (a ∷ b ∷ c ∷ r) = ground (arith, drop_codes3-le r)
drop_codes3-le [] = omega arith
drop_codes3-le (a ∷ []) = omega arith
drop_codes3-le (a ∷ b ∷ []) = omega arith

drop_codes4-le : (r : Bytes) → length (drop_codes4 r) ≤ length r
unfolding drop_codes4
drop_codes4-le (a ∷ b ∷ c ∷ d ∷ r) = ground (arith, drop_codes4-le r)
drop_codes4-le [] = omega arith
drop_codes4-le (a ∷ []) = omega arith
drop_codes4-le (a ∷ b ∷ []) = omega arith
drop_codes4-le (a ∷ b ∷ c ∷ []) = omega arith

-- Not empty, and no longer than the packet.
abbrev pub IsPart : ℕ → Bytes → Type 0
IsPart n u = (1 ≤ length u) × (length u ≤ n)

non_empty-IsPart : (n : ℕ) (u : Bytes) → length u ≤ n → All (IsPart n) (non_empty u)
non_empty-IsPart n [] h = tt
non_empty-IsPart n (x ∷ xs) h = ((omega arith, h), tt)

units-IsPart : (d : Bytes) (gs : List (ℕ × ℕ)) → All (IsPart (length d)) (units d gs)
unfolding units
units-IsPart d [] = tt
units-IsPart d ((a, s) ∷ []) = non_empty-IsPart (length d) _ (
    omega (
      arith,
      length-reverse (drop_codes4 (drop_codes3 (drop_zeros (reverse (drop s d))))),
      drop_codes4-le (drop_codes3 (drop_zeros (reverse (drop s d)))),
      drop_codes3-le (drop_zeros (reverse (drop s d))),
      drop_zeros-le (reverse (drop s d)),
      length-reverse (drop s d),
      length-drop s d,
    ))
units-IsPart d ((a, s) ∷ (e, t) ∷ gs) =
    All-append (IsPart (length d)) (non_empty (reverse (drop_zeros (reverse (slice d s e)))))
      (units d ((e, t) ∷ gs))
      (non_empty-IsPart (length d) _ (
        omega (
          arith,
          length-reverse (drop_zeros (reverse (slice d s e))),
          drop_zeros-le (reverse (slice d s e)),
          length-reverse (slice d s e),
          length-take (e - s) (drop s d),
          length-drop s d,
        )))
      (units-IsPart d ((e, t) ∷ gs))

IsPart-IsUnit : (n : ℕ) (us : List Bytes) → n < 2 ^ 32 → All (IsPart n) us → All IsUnit us
IsPart-IsUnit n [] h a = tt
IsPart-IsUnit n (u ∷ us) h a = ((omega arith, omega arith), IsPart-IsUnit n us h a.1)

-- Whatever the bytes of a packet are and whatever its length, no unit that `split_annex_b` cuts out
-- is empty, and none is longer than the packet.
pub split_annex_b-IsPart : (d : Bytes) → All (IsPart (length d)) (split_annex_b d)
unfolding split_annex_b
split_annex_b-IsPart d = units-IsPart d (code_groups (length d) 0 d)

-- So every unit of a packet shorter than 2 ^ 32 bytes fits the length-prefixed form.
pub split_annex_b-IsUnit : (d : Bytes) → length d < 2 ^ 32 → All IsUnit (split_annex_b d)
split_annex_b-IsUnit d h = IsPart-IsUnit (length d) _ h (split_annex_b-IsPart d)
