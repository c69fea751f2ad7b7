-- ===== src/Hls/Mp4/Offsets.antt =====
-- The data offsets of a media segment: what the patching loop makes of them.
use strym_core.Common.{
  ℕ, zero, suc, ◌+◌, ◌-◌, ◌≤◌, ◌<◌, ◌^◌, ◌≡◌, refl, ap, ◌∙◌, arith, false, true, List, [], ◌∷◌,
  ◌++◌, leb, length, length-append, take, drop, append_assoc, Bytes, as_u32, be32, be64, le→leb,
}
use strym_core.Common.Text.{codes}
use strym_core.Hls.Mp4.{
  mp4_box, full_box, size_at, has_tag, at_least_8, overwrite, patch_trun, patch, Fragment, trun,
  traf, trafs, mfhd, payload_size, sample_entries, total_payload, tfhd_flags,
}
use strym_core.Hls.Mp4.Boxes.{length-mp4_box, size_at-mp4_box, take-mp4_box, drop-mp4_box}

-- The `traf` boxes with the offsets they should have: the first fragment's payload starts at
-- `offset`, and each other one's behind the last.
abbrev pub trafs_at : ℕ → List Fragment → Bytes
trafs_at offset [] = []
trafs_at offset (frag ∷ frags) =
    traf offset frag ++ trafs_at (offset + payload_size frag.samples) frags

as_u32-of_lt : (n : ℕ) → n < 2 ^ 32 → as_u32 n ≡ n
as_u32-of_lt n h = omega arith

overwrite-trun :
    (offset : ℕ) (frag : Fragment) (t : Bytes)
    → offset < 2 ^ 32
    → overwrite 16 (be32 (as_u32 offset)) (trun 0 frag ++ t) ≡ trun offset frag ++ t
unfolding trun full_box mp4_box
overwrite-trun offset frag t h = rw (as_u32-of_lt offset h) refl

at_least_8-box : (n : ℕ) → at_least_8 (8 + n) ≡ 8 + n
at_least_8-box n = ground arith

has_tag-trun : (frag : Fragment) (t : Bytes) → has_tag b't' b'r' b'u' b'n' (trun 0 frag ++ t) ≡ true
unfolding trun full_box mp4_box
has_tag-trun frag t = refl

-- A round of the inner loop at a box that is no `trun`, and at the `trun`.
patch_trun-pass :
    (fuel offset left : ℕ) (w x y z : ℕ) (p t : Bytes)
    → 8 ≤ left
    → 8 + length p < 2 ^ 32
    → has_tag b't' b'r' b'u' b'n' (mp4_box (w ∷ x ∷ y ∷ z ∷ []) p ++ t) ≡ false
    → patch_trun (suc fuel) offset left (mp4_box (w ∷ x ∷ y ∷ z ∷ []) p ++ t)
      ≡ mp4_box (w ∷ x ∷ y ∷ z ∷ []) p ++ patch_trun fuel offset (left - (8 + length p)) t
unfolding patch_trun
patch_trun-pass fuel offset left w x y z p t l h tag = rw (
  le→leb _ _ l,
  tag,
  size_at-mp4_box w x y z p t h,
  at_least_8-box (length p),
  take-mp4_box w x y z p t _ refl,
  drop-mp4_box w x y z p t _ refl,
)

patch_trun-trun :
    (fuel offset left : ℕ) (frag : Fragment) (t : Bytes)
    → 8 ≤ left
    → offset < 2 ^ 32
    → patch_trun (suc fuel) offset left (trun 0 frag ++ t) ≡ trun offset frag ++ t
unfolding patch_trun
patch_trun-trun fuel offset left frag t l h =
    rw (le→leb _ _ l, has_tag-trun frag t) (overwrite-trun offset frag t h)

tfhd_tag : (p t : Bytes) → has_tag b't' b'r' b'u' b'n' (mp4_box (codes "tfhd") p ++ t) ≡ false
unfolding mp4_box
tfhd_tag p t = refl

tfdt_tag : (p t : Bytes) → has_tag b't' b'r' b'u' b'n' (mp4_box (codes "tfdt") p ++ t) ≡ false
unfolding mp4_box
tfdt_tag p t = refl

-- What stands in a `traf`.
abbrev traf_body : ℕ → Fragment → Bytes
traf_body offset frag =
    full_box (codes "tfhd") 0 tfhd_flags (be32 frag.track_id)
    ++ (full_box (codes "tfdt") 1 0 (be64 frag.base_decode_time) ++ trun offset frag)

length-trun :
    (offset : ℕ) (frag : Fragment)
    → length (trun offset frag) ≡ 20 + length (sample_entries frag.samples)
unfolding trun full_box mp4_box
length-trun offset frag = omega arith

length-traf_body :
    (offset : ℕ) (frag : Fragment)
    → length (traf_body offset frag) ≡ 56 + length (sample_entries frag.samples)
unfolding full_box mp4_box
length-traf_body offset frag = omega (arith, length-trun offset frag)

patch_trun-boxes :
    (fuel offset left : ℕ) (p q : Bytes) (frag : Fragment) (t : Bytes)
    → length p ≡ 8
    → length q ≡ 12
    → 44 ≤ left
    → offset < 2 ^ 32
    → patch_trun
        (suc (suc (suc fuel)))
        offset
        left
        (mp4_box (codes "tfhd") p ++ (mp4_box (codes "tfdt") q ++ (trun 0 frag ++ t)))
      ≡ mp4_box (codes "tfhd") p ++ (mp4_box (codes "tfdt") q ++ (trun offset frag ++ t))
patch_trun-boxes fuel offset left p q frag t lp lq l h =
    patch_trun-pass (suc (suc fuel)) offset left b't' b'f' b'h' b'd' p _ (omega arith) (omega arith)
      (tfhd_tag p _)
    ∙ ap (λ r. mp4_box (codes "tfhd") p ++ r)
        (patch_trun-pass (suc fuel) offset (left - (8 + length p)) b't' b'f' b'd' b't' q _
            (omega arith) (omega arith) (tfdt_tag q _)
          ∙ ap (λ r. mp4_box (codes "tfdt") q ++ r)
              (patch_trun-trun fuel offset (left - (8 + length p) - (8 + length q)) frag t
                (omega arith) h))

patch_trun-traf_body :
    (fuel offset left : ℕ) (frag : Fragment) (t : Bytes)
    → 3 ≤ fuel
    → 44 ≤ left
    → offset < 2 ^ 32
    → patch_trun fuel offset left (traf_body 0 frag ++ t) ≡ traf_body offset frag ++ t
unfolding full_box
patch_trun-traf_body (suc (suc (suc fuel))) offset left frag t f l h =
    simp append_assoc (patch_trun-boxes fuel offset left _ _ frag t refl refl l h)
patch_trun-traf_body zero offset left frag t f l h = absurd (omega arith)
patch_trun-traf_body (suc zero) offset left frag t f l h = absurd (omega arith)
patch_trun-traf_body (suc (suc zero)) offset left frag t f l h = absurd (omega arith)

-- A round of the outer loop.
traf_patched :
    (offset : ℕ) (frag : Fragment) (t : Bytes)
    → take 8 (traf 0 frag ++ t) ++ (traf_body offset frag ++ t) ≡ traf offset frag ++ t
unfolding traf trun full_box mp4_box
traf_patched offset frag t = refl

drop-traf : (frag : Fragment) (t : Bytes) → drop 8 (traf 0 frag ++ t) ≡ traf_body 0 frag ++ t
unfolding traf mp4_box
drop-traf frag t = refl

has_tag-traf : (frag : Fragment) (t : Bytes) → has_tag b't' b'r' b'a' b'f' (traf 0 frag ++ t) ≡ true
unfolding traf mp4_box
has_tag-traf frag t = refl

abbrev traf_size : Fragment → ℕ
traf_size frag = 64 + length (sample_entries frag.samples)

size_at-traf :
    (offset : ℕ) (frag : Fragment) (t : Bytes)
    → traf_size frag < 2 ^ 32
    → size_at (traf offset frag ++ t) ≡ traf_size frag
unfolding traf
size_at-traf offset frag t h =
    size_at-mp4_box b't' b'r' b'a' b'f' (traf_body offset frag) t
      (omega (arith, length-traf_body offset frag))
    ∙ omega (arith, length-traf_body offset frag)

take-traf :
    (offset : ℕ) (frag : Fragment) (t : Bytes)
    → take (traf_size frag) (traf offset frag ++ t) ≡ traf offset frag
unfolding traf
take-traf offset frag t =
    take-mp4_box b't' b'r' b'a' b'f' (traf_body offset frag) t _
      (omega (arith, length-traf_body offset frag))

drop-traf_whole :
    (offset : ℕ) (frag : Fragment) (t : Bytes) → drop (traf_size frag) (traf offset frag ++ t) ≡ t
unfolding traf
drop-traf_whole offset frag t =
    drop-mp4_box b't' b'r' b'a' b'f' (traf_body offset frag) t _
      (omega (arith, length-traf_body offset frag))

traf_long : (frag : Fragment) (t : Bytes) → leb 8 (length (traf 0 frag ++ t)) ≡ true
unfolding traf mp4_box
traf_long frag t = ground arith

at_least_8-traf : (frag : Fragment) → at_least_8 (traf_size frag) ≡ traf_size frag
at_least_8-traf frag = ground arith

patch_inside :
    (offset : ℕ) (frag : Fragment) (t : Bytes)
    → offset < 2 ^ 32
    → take 8 (traf 0 frag ++ t)
        ++ patch_trun (traf_size frag - 8) offset (traf_size frag - 8) (drop 8 (traf 0 frag ++ t))
      ≡ traf offset frag ++ t
patch_inside offset frag t h =
    ap
      (λ r.
        take 8 (traf 0 frag ++ t) ++ patch_trun (traf_size frag - 8) offset (traf_size frag - 8) r)
      (drop-traf frag t)
    ∙ (ap (λ r. take 8 (traf 0 frag ++ t) ++ r)
          (patch_trun-traf_body (traf_size frag - 8) offset (traf_size frag - 8) frag t
            (omega arith) (omega arith) h)
        ∙ traf_patched offset frag t)

patch-traf :
    (fuel offset : ℕ) (frag : Fragment) (frags : List Fragment) (t : Bytes)
    → traf_size frag < 2 ^ 32
    → offset < 2 ^ 32
    → patch (suc fuel) offset (frag ∷ frags) (traf 0 frag ++ t)
      ≡ traf offset frag ++ patch fuel (offset + payload_size frag.samples) frags t
unfolding patch
patch-traf fuel offset frag frags t s h = rw (
  traf_long frag t,
  has_tag-traf frag t,
  size_at-traf 0 frag t s,
  at_least_8-traf frag,
  patch_inside offset frag t h,
  take-traf offset frag t,
  drop-traf_whole offset frag t,
)

pub length-traf : (offset : ℕ) (frag : Fragment) → length (traf offset frag) ≡ traf_size frag
unfolding traf
length-traf offset frag =
    length-mp4_box b't' b'r' b'a' b'f' (traf_body offset frag)
    ∙ omega (arith, length-traf_body offset frag)

patch-nil : (fuel offset : ℕ) → patch fuel offset [] [] ≡ []
unfolding patch
patch-nil zero offset = refl
patch-nil (suc fuel) offset = refl

pub patch-trafs :
    (fuel offset : ℕ) (frags : List Fragment)
    → length frags ≤ fuel
    → length (trafs frags) < 2 ^ 32
    → offset + total_payload frags < 2 ^ 32
    → patch fuel offset frags (trafs frags) ≡ trafs_at offset frags
unfolding trafs total_payload
patch-trafs zero offset [] l s h = patch-nil _ offset
patch-trafs (suc fuel) offset [] l s h = patch-nil _ offset
patch-trafs zero offset (frag ∷ frags) l s h = absurd (omega arith)
patch-trafs (suc fuel) offset (frag ∷ frags) l s h =
    patch-traf fuel offset frag frags (trafs frags)
      (omega (arith, length-append (traf 0 frag) (trafs frags), length-traf 0 frag)) (omega arith)
    ∙ ap (λ r. traf offset frag ++ r)
        (patch-trafs fuel (offset + payload_size frag.samples) frags (omega arith)
          (omega (arith, length-append (traf 0 frag) (trafs frags))) (omega arith))

mfhd_long : (n : ℕ) (t : Bytes) → leb 8 (length (mfhd n ++ t)) ≡ true
unfolding mfhd full_box mp4_box
mfhd_long n t = ground arith

pub patch-mfhd :
    (fuel offset n : ℕ) (frags : List Fragment) (t : Bytes)
    → patch fuel offset frags t ≡ trafs_at offset frags
    → t ≡ trafs frags
    → patch (suc fuel) offset frags (mfhd n ++ t) ≡ mfhd n ++ trafs_at offset frags
unfolding mfhd full_box mp4_box patch trafs
patch-mfhd fuel offset n [] t e q = rw q
patch-mfhd fuel offset n (frag ∷ frags) t e q = rw (mfhd_long n t) (ap (λ r. mfhd n ++ r) e)

pub length-frags : (frags : List Fragment) → length frags ≤ length (trafs frags)
unfolding trafs
length-frags [] = omega arith
length-frags (frag ∷ frags) =
    omega (arith, length-frags frags, length-append (traf 0 frag) (trafs frags), length-traf 0 frag)
