-- ===== src/Common/Newest.antt =====
-- The last items of a list.
use Prim.Native.Nat.{ℕ, ◌+◌, ◌-◌, ◌≤◌}
use mathlib.Core.Path.{◌≡◌, ap, sym, ◌∙◌}
use mathlib.Core.List.{List, ◌++◌}
use native.Mathlib.Omega.{arith}
use strym_core.Common.Lists.{length, length-append, length-drop, drop, drop-add, drop-append_of_le}

module _ {A : Type 0} where
  -- The last `n`.
  abbrev pub newest : ℕ → List A → List A
  newest n xs = drop (length xs - n) xs

  pub newest_all : (n : ℕ) (xs : List A) → length xs ≤ n → newest n xs ≡ xs
  newest_all n xs h = let e : length xs - n ≡ 0 = omega arith in ap (λ k. drop k xs) e

  pub newest-append : (n : ℕ) (xs ys : List A) → newest n (newest n xs ++ ys) ≡ newest n (xs ++ ys)
  newest-append n xs ys =
      let k = length xs - n in
      let all = xs ++ ys in
      let size : length all ≡ length xs + length ys = length-append xs ys in
      let e : drop k xs ++ ys ≡ drop k all = sym (drop-append_of_le k xs ys (omega arith)) in
      let j : ℕ = length (drop k all) - n in
      let sum : k + j ≡ length all - n = omega (arith, size, length-drop k all) in
      ap (newest n) e ∙ (sym (drop-add k j all) ∙ ap (λ m. drop m all) sum)
