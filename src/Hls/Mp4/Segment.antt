-- ===== src/Hls/Mp4/Segment.antt =====
-- A media segment: its three boxes, and where the samples lie that its offsets point at.
use strym_core.Common.{
  ℕ, suc, ◌+◌, ◌<◌, ◌^◌, ◌≡◌, refl, ap, sym, ◌∙◌, arith, List, [], ◌∷◌, ◌++◌, length, length-append,
  take, drop, take-append, drop-append, drop-add, Bytes, as_u32, be32,
}
use strym_core.Common.Text.{codes}
use strym_core.Hls.Mp4.{
  mp4_box, full_box, patch, Fragment, FragmentSample, traf, trafs, mfhd, moof, payloads,
  payload_size, mdat_payload, total_payload, media_segment, styp,
}
use strym_core.Hls.Mp4.Boxes.{length-mp4_box}
use strym_core.Hls.Mp4.Offsets.{trafs_at, patch-mfhd, patch-trafs, length-frags, length-traf}

abbrev pub first_offset : List Fragment → ℕ
first_offset frags = 32 + length (trafs frags)

-- The `moof` with the offsets that it should have, and the `mdat`.
abbrev pub moof_at : ℕ → List Fragment → Bytes
moof_at n frags = mp4_box (codes "moof") (mfhd n ++ trafs_at (first_offset frags) frags)

abbrev pub mdat : List Fragment → Bytes
mdat frags = mp4_box (codes "mdat") (mdat_payload frags)

-- From `offset` on, the bytes of the fragments' samples, one fragment behind the other.
abbrev pub Addressed : Bytes → ℕ → List Fragment → Type 0
Addressed file offset [] = Unit {0}
Addressed file offset (frag ∷ frags) =
    (take (payload_size frag.samples) (drop offset file) ≡ payloads frag.samples)
    × Addressed file (offset + payload_size frag.samples) frags

length-mfhd : (n : ℕ) → length (mfhd n) ≡ 16
unfolding mfhd full_box mp4_box
length-mfhd n = refl

length-trafs_at :
    (offset : ℕ) (frags : List Fragment) → length (trafs_at offset frags) ≡ length (trafs frags)
unfolding trafs
length-trafs_at offset [] = refl
length-trafs_at offset (frag ∷ frags) = omega (
  arith,
  length-append (traf offset frag) (trafs_at (offset + payload_size frag.samples) frags),
  length-append (traf 0 frag) (trafs frags),
  length-traf offset frag,
  length-traf 0 frag,
  length-trafs_at (offset + payload_size frag.samples) frags,
)

moof_head :
    (p q : Bytes)
    → length q ≡ length p
    → take 8 (mp4_box (codes "moof") p) ++ q ≡ mp4_box (codes "moof") q
unfolding mp4_box
moof_head p q e = rw e

moof_rest : (p : Bytes) → drop 8 (mp4_box (codes "moof") p) ≡ p
unfolding mp4_box
moof_rest p = refl

moof-eq :
    (n : ℕ) (frags : List Fragment)
    → first_offset frags + total_payload frags < 2 ^ 32
    → moof n frags ≡ moof_at n frags
unfolding moof
moof-eq n frags h =
    let p = mfhd n ++ trafs frags in
    let out = mp4_box (codes "moof") p in
    let size : length out ≡ suc (23 + length (trafs frags)) = omega (
      arith,
      length-mp4_box b'm' b'o' b'o' b'f' p,
      length-append (mfhd n) (trafs frags),
      length-mfhd n,
    ) in
    let patched : patch (length out) (length out + 8) frags p
        ≡ mfhd n ++ trafs_at (first_offset frags) frags =
      rw (size, base (length (trafs frags)))
        (patch-mfhd (23 + length (trafs frags)) (first_offset frags) n frags (trafs frags)
          (patch-trafs (23 + length (trafs frags)) (first_offset frags) frags
            (omega (arith, length-frags frags)) (omega arith) h)
          refl) in
    ap (λ r. take 8 out ++ patch (length out) (length out + 8) frags r) (moof_rest p)
    ∙ (ap (λ r. take 8 out ++ r) patched
        ∙ moof_head p _ (
            omega (
              arith,
              length-append (mfhd n) (trafs frags),
              length-append (mfhd n) (trafs_at (first_offset frags) frags),
              length-trafs_at (first_offset frags) frags,
            )))
  where
    base : (k : ℕ) → suc (23 + k) + 8 ≡ 32 + k
    base k = omega arith

length-payloads : (samples : List FragmentSample) → length (payloads samples) ≡ payload_size samples
unfolding payloads payload_size
length-payloads [] = refl
length-payloads (s ∷ samples) =
    omega (arith, length-append s.payload (payloads samples), length-payloads samples)

length-mdat_payload : (frags : List Fragment) → length (mdat_payload frags) ≡ total_payload frags
unfolding mdat_payload total_payload
length-mdat_payload [] = refl
length-mdat_payload (frag ∷ frags) = omega (
  arith,
  length-append (payloads frag.samples) (mdat_payload frags),
  length-payloads frag.samples,
  length-mdat_payload frags,
)

Addressed-drop :
    (file : Bytes) (offset : ℕ) (frags : List Fragment)
    → drop offset file ≡ mdat_payload frags
    → Addressed file offset frags
unfolding mdat_payload
Addressed-drop file offset [] e = tt
Addressed-drop file offset (frag ∷ frags) e = (
  rw e (
      rw (sym (length-payloads frag.samples))
        (take-append (payloads frag.samples) (mdat_payload frags))),
  Addressed-drop file (offset + payload_size frag.samples) frags (
      drop-add offset (payload_size frag.samples) file
      ∙ (rw e (
          rw (sym (length-payloads frag.samples))
            (drop-append (payloads frag.samples) (mdat_payload frags))))),
)

-- The file behind the `styp`: the offsets count from its start.
abbrev pub moof_and_mdat : ℕ → List Fragment → Bytes
moof_and_mdat n frags = moof_at n frags ++ mdat frags

mdat-eq :
    (frags : List Fragment)
    → be32 (as_u32 (total_payload frags + 8)) ++ (codes "mdat" ++ mdat_payload frags) ≡ mdat frags
unfolding mp4_box
mdat-eq frags =
    let e : total_payload frags + 8 ≡ 8 + length (mdat_payload frags) =
      omega (arith, length-mdat_payload frags) in
    rw e

length-moof_at :
    (n : ℕ) (frags : List Fragment) → length (moof_at n frags) ≡ 24 + length (trafs frags)
length-moof_at n frags = omega (
  arith,
  length-mp4_box b'm' b'o' b'o' b'f' (mfhd n ++ trafs_at (first_offset frags) frags),
  length-append (mfhd n) (trafs_at (first_offset frags) frags),
  length-mfhd n,
  length-trafs_at (first_offset frags) frags,
)

drop-mdat : (frags : List Fragment) → drop 8 (mdat frags) ≡ mdat_payload frags
unfolding mp4_box
drop-mdat frags = refl

payload_at :
    (n : ℕ) (frags : List Fragment)
    → drop (first_offset frags) (moof_and_mdat n frags) ≡ mdat_payload frags
payload_at n frags =
    let e : first_offset frags ≡ length (moof_at n frags) + 8 =
      omega (arith, length-moof_at n frags) in
    ap (λ k. drop k (moof_and_mdat n frags)) e
    ∙ (drop-add (length (moof_at n frags)) 8 (moof_and_mdat n frags)
        ∙ (ap (λ r. drop 8 r) (drop-append (moof_at n frags) (mdat frags)) ∙ drop-mdat frags))

-- While its sizes fit 32 bits, a media segment is a `styp`, a `moof` and an `mdat`; the `moof` holds
-- a `traf` for each fragment, and the data offset in it, counted from the start of the `moof`, is
-- where the bytes of that fragment's samples lie in the `mdat`, whole and in order.
pub media_segment-Addressed :
    (n : ℕ) (frags : List Fragment)
    → first_offset frags + total_payload frags < 2 ^ 32
    → (media_segment n frags ≡ styp ++ moof_and_mdat n frags)
      × Addressed (moof_and_mdat n frags) (first_offset frags) frags
unfolding media_segment
media_segment-Addressed n frags h = (
  ap (λ r. styp ++ r)
      (ap
          (λ r.
            r ++ (be32 (as_u32 (total_payload frags + 8)) ++ (codes "mdat" ++ mdat_payload frags)))
          (moof-eq n frags h)
        ∙ ap (λ r. moof_at n frags ++ r) (mdat-eq frags)),
  Addressed-drop (moof_and_mdat n frags) (first_offset frags) frags (payload_at n frags),
)
