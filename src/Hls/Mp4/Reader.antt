-- ===== src/Hls/Mp4/Reader.antt =====
-- A player's way through the initialization segment to the decoder configuration.
use strym_core.Common.{
  ℕ, zero, suc, ◌+◌, ◌-◌, ◌<◌, ◌^◌, ◌≡◌, refl, ap, sym, ◌∙◌, arith, true, false, ◌&&◌, Option, none,
  some, [], ◌∷◌, ◌++◌, leb, ltb, le→leb, ltb→lt, ◌==◌, if◌then◌else◌, length, length-append, take,
  drop, take-append, append-nil, Bytes, replicate,
}
use strym_core.Common.Text.{codes}
use strym_core.Hls.Mp4.{mp4_box, full_box, size_at, has_tag}
use strym_core.Hls.Mp4.Init.{mvhd, ftyp, tkhd, mdhd, hdlr, dinf, dref}
use strym_core.Hls.Mp4.Boxes.{length-mp4_box, size_at-mp4_box, drop-mp4_box}

-- The body of the first box of a type, among the first `n` boxes.
unfoldable pub find : ℕ → ℕ → ℕ → ℕ → ℕ → Bytes → Option Bytes
find zero w x y z b = none
find (suc n) w x y z b =
    let size = size_at b in
    let on = find n w x y z (drop size b) in
    if leb 8 size && leb size (length b)
    then (if has_tag w x y z b then some (take (size - 8) (drop 8 b)) else on)
    else none

abbrev pub and_then : Option Bytes → (Bytes → Option Bytes) → Option Bytes
and_then none f = none
and_then (some b) f = f b

-- moov, trak, mdia, minf, stbl, stsd, avc1, avcC. The sample entries stand behind eight bytes, and
-- the boxes in `avc1` behind 78.
unfoldable pub find_avcc : Bytes → Option Bytes
find_avcc file = and_then (find 2 b'm' b'o' b'o' b'v' file) λ moov.
    and_then (find 2 b't' b'r' b'a' b'k' moov) λ trak.
      and_then (find 2 b'm' b'd' b'i' b'a' trak) λ mdia.
        and_then (find 3 b'm' b'i' b'n' b'f' mdia) λ minf.
          and_then (find 3 b's' b't' b'b' b'l' minf) λ stbl.
            and_then (find 1 b's' b't' b's' b'd' stbl) λ stsd.
              and_then (find 1 b'a' b'v' b'c' b'1' (drop 8 stsd))
                λ avc1. find 1 b'a' b'v' b'c' b'C' (drop 78 avc1)

box_body :
    (w x y z : ℕ) (p t : Bytes)
    → take (8 + length p - 8) (drop 8 (mp4_box (w ∷ x ∷ y ∷ z ∷ []) p ++ t)) ≡ p
unfolding mp4_box
box_body w x y z p t = let e : 8 + length p - 8 ≡ length p = omega arith in rw e (take-append p t)

box_fits :
    (w x y z : ℕ) (p t : Bytes)
    → (leb 8 (8 + length p) && leb (8 + length p) (length (mp4_box (w ∷ x ∷ y ∷ z ∷ []) p ++ t)))
      ≡ true
box_fits w x y z p t = rw (le→leb 8 (8 + length p) (omega arith)) (
    le→leb _ _
      (omega (arith, length-append (mp4_box (w ∷ x ∷ y ∷ z ∷ []) p) t, length-mp4_box w x y z p)))

box_tag : (w x y z : ℕ) (p t : Bytes) → has_tag w x y z (mp4_box (w ∷ x ∷ y ∷ z ∷ []) p ++ t) ≡ true
unfolding mp4_box
box_tag w x y z p t = ground arith

box_other :
    (w x y z a b c d : ℕ) (p t : Bytes)
    → has_tag w x y z (mp4_box (a ∷ b ∷ c ∷ d ∷ []) p ++ t) ≡ (a == w && b == x && c == y && d == z)
unfolding mp4_box
box_other w x y z a b c d p t = refl

pub find-here :
    (n w x y z : ℕ) (p t : Bytes)
    → 8 + length p < 2 ^ 32
    → find (suc n) w x y z (mp4_box (w ∷ x ∷ y ∷ z ∷ []) p ++ t) ≡ some p
unfolding find
find-here n w x y z p t h =
    rw (
      size_at-mp4_box w x y z p t h,
      box_fits w x y z p t,
      box_tag w x y z p t,
      box_body w x y z p t,
    )

pub find-last :
    (n w x y z : ℕ) (p : Bytes)
    → 8 + length p < 2 ^ 32
    → find (suc n) w x y z (mp4_box (w ∷ x ∷ y ∷ z ∷ []) p) ≡ some p
find-last n w x y z p h =
    ap (find (suc n) w x y z) (sym (append-nil (mp4_box (w ∷ x ∷ y ∷ z ∷ []) p)))
    ∙ find-here n w x y z p [] h

find-pass :
    (n w x y z a b c d : ℕ) (p t : Bytes)
    → 8 + length p < 2 ^ 32
    → (a == w && b == x && c == y && d == z) ≡ false
    → find (suc n) w x y z (mp4_box (a ∷ b ∷ c ∷ d ∷ []) p ++ t) ≡ find n w x y z t
unfolding find
find-pass n w x y z a b c d p t h tag = rw (
  size_at-mp4_box a b c d p t h,
  box_fits a b c d p t,
  box_other w x y z a b c d p t ∙ tag,
  drop-mp4_box a b c d p t _ refl,
)

-- The same at a box whose length computes.
find-pass_short :
    (n w x y z a b c d : ℕ) (p t : Bytes)
    → ltb (8 + length p) (2 ^ 32) ≡ true
    → (a == w && b == x && c == y && d == z) ≡ false
    → find (suc n) w x y z (mp4_box (a ∷ b ∷ c ∷ d ∷ []) p ++ t) ≡ find n w x y z t
find-pass_short n w x y z a b c d p t h tag = find-pass n w x y z a b c d p t (ltb→lt _ _ h) tag

pub pass-ftyp :
    (n : ℕ) (t : Bytes)
    → find (suc n) b'm' b'o' b'o' b'v' (ftyp ++ t) ≡ find n b'm' b'o' b'o' b'v' t
unfolding ftyp
pass-ftyp n t = find-pass_short n b'm' b'o' b'o' b'v' b'f' b't' b'y' b'p' _ t refl refl

pub pass-mvhd :
    (n k : ℕ) (t : Bytes)
    → find (suc n) b't' b'r' b'a' b'k' (mvhd k ++ t) ≡ find n b't' b'r' b'a' b'k' t
unfolding mvhd full_box
pass-mvhd n k t = find-pass_short n b't' b'r' b'a' b'k' b'm' b'v' b'h' b'd' _ t refl refl

pub pass-tkhd :
    (n id width height volume : ℕ) (t : Bytes)
    → find (suc n) b'm' b'd' b'i' b'a' (tkhd id width height volume ++ t)
      ≡ find n b'm' b'd' b'i' b'a' t
unfolding tkhd full_box
pass-tkhd n id width height volume t =
    find-pass_short n b'm' b'd' b'i' b'a' b't' b'k' b'h' b'd' _ t refl refl

pub pass-mdhd :
    (n k : ℕ) (t : Bytes)
    → find (suc n) b'm' b'i' b'n' b'f' (mdhd k ++ t) ≡ find n b'm' b'i' b'n' b'f' t
unfolding mdhd full_box
pass-mdhd n k t = find-pass_short n b'm' b'i' b'n' b'f' b'm' b'd' b'h' b'd' _ t refl refl

pub pass-hdlr :
    (n : ℕ) (t : Bytes)
    → find (suc n) b'm' b'i' b'n' b'f' (hdlr (codes "vide") ++ t) ≡ find n b'm' b'i' b'n' b'f' t
unfolding hdlr full_box
pass-hdlr n t = find-pass_short n b'm' b'i' b'n' b'f' b'h' b'd' b'l' b'r' _ t refl refl

pub pass-vmhd :
    (n : ℕ) (t : Bytes)
    → find (suc n) b's' b't' b'b' b'l' (full_box (codes "vmhd") 0 1 (replicate 8 0) ++ t)
      ≡ find n b's' b't' b'b' b'l' t
unfolding full_box
pass-vmhd n t = find-pass_short n b's' b't' b'b' b'l' b'v' b'm' b'h' b'd' _ t refl refl

pub length-dref : length dref ≡ 28
unfolding dref full_box mp4_box
length-dref = refl

pub pass-dinf :
    (n : ℕ) (t : Bytes)
    → find (suc n) b's' b't' b'b' b'l' (dinf ++ t) ≡ find n b's' b't' b'b' b'l' t
unfolding dinf
pass-dinf n t =
    find-pass n b's' b't' b'b' b'l' b'd' b'i' b'n' b'f' dref t (omega (arith, length-dref)) refl
