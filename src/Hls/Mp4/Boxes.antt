-- ===== src/Hls/Mp4/Boxes.antt =====
-- Boxes behind one another: how long they are, and how they are told apart.
use strym_core.Common.{
  ℕ, ◌+◌, ◌<◌, ◌^◌, ◌≡◌, sym, ◌∙◌, arith, [], ◌∷◌, ◌++◌, length, take, drop, take-append,
  drop-append, Bytes,
}
use strym_core.Hls.Mp4.{mp4_box, size_at}

pub length-mp4_box :
    (w x y z : ℕ) (p : Bytes) → length (mp4_box (w ∷ x ∷ y ∷ z ∷ []) p) ≡ 8 + length p
unfolding mp4_box
length-mp4_box w x y z p = omega arith

pub size_at-mp4_box :
    (w x y z : ℕ) (p t : Bytes)
    → 8 + length p < 2 ^ 32
    → size_at (mp4_box (w ∷ x ∷ y ∷ z ∷ []) p ++ t) ≡ 8 + length p
unfolding mp4_box
size_at-mp4_box w x y z p t h = omega arith

pub take-mp4_box :
    (w x y z : ℕ) (p t : Bytes) (n : ℕ)
    → n ≡ 8 + length p
    → take n (mp4_box (w ∷ x ∷ y ∷ z ∷ []) p ++ t) ≡ mp4_box (w ∷ x ∷ y ∷ z ∷ []) p
take-mp4_box w x y z p t n e =
    rw (e ∙ sym (length-mp4_box w x y z p)) (take-append (mp4_box (w ∷ x ∷ y ∷ z ∷ []) p) t)

pub drop-mp4_box :
    (w x y z : ℕ) (p t : Bytes) (n : ℕ)
    → n ≡ 8 + length p
    → drop n (mp4_box (w ∷ x ∷ y ∷ z ∷ []) p ++ t) ≡ t
drop-mp4_box w x y z p t n e =
    rw (e ∙ sym (length-mp4_box w x y z p)) (drop-append (mp4_box (w ∷ x ∷ y ∷ z ∷ []) p) t)
