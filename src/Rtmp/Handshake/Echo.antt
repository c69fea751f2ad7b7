-- ===== src/Rtmp/Handshake/Echo.antt =====
-- The answers to a handshake block (core/src/rtmp/handshake.rs).
use strym_core.Common.{
  ℕ, ◌+◌, ◌≤◌, ◌≡◌, refl, ap, sym, ◌∙◌, arith, true, false, none, some, [], ◌++◌, append-nil, ltb,
  ◌==◌, length, length-take, length-drop, length-replicate, take, drop, take-append, drop_all,
  take-append-drop, Bytes,
}
use strym_core.Rtmp.Handshake.{
  fms_key2, block_len, digest_len, copy_to, digest_slot, find_digest_offset, empty_block, build_s1,
  echo, build_c2,
}
use strym_core.Rtmp.Handshake.Digest.{
  length-copy_to, slot-copy_to, take-copy_to, find_digest_offset-build,
  slot_is_valid-build_block_seeded,
}

length-slot :
    (block : Bytes) (off : ℕ)
    → off + digest_len ≤ length block
    → length (digest_slot block off) ≡ digest_len
unfolding digest_slot
length-slot block off h =
    omega (arith, length-take digest_len (drop off block), length-drop off block)

take-head :
    (peer : Bytes)
    → length (take 8 peer) ≡ 8
    → take 8 (copy_to 0 (take 8 peer) empty_block) ≡ take 8 peer
unfolding copy_to
take-head peer e =
    ap (λ n. take n (take 8 peer ++ drop (0 + length (take 8 peer)) empty_block)) (sym e)
    ∙ take-append (take 8 peer) (drop (0 + length (take 8 peer)) empty_block)

-- The answer to a block whose digest was found at an offset.
echo-digest :
    (key peer : Bytes) (off : ℕ)
    → length peer ≡ block_len
    → find_digest_offset peer key ≡ some off
    → 8 ≤ off
    → off + digest_len ≤ block_len
    → (c : Bytes) × (echo key peer ≡ some c)
      × ((length c ≡ block_len)
          × ((take 8 c ≡ take 8 peer) × (digest_slot c off ≡ digest_slot peer off)))
unfolding echo
echo-digest key peer off size found low high =
    let head = copy_to 0 (take 8 peer) empty_block in
    let zeros : length empty_block ≡ block_len = length-replicate {A = ℕ} block_len 0 in
    let front : length (take 8 peer) ≡ 8 = omega (arith, size, length-take 8 peer) in
    let part : length (digest_slot peer off) ≡ digest_len =
      omega (arith, length-slot peer off, size) in
    let long : ltb (length peer) block_len ≡ false = ground (arith, size) in
    let whole : length head ≡ block_len =
      length-copy_to 0 (take 8 peer) empty_block (omega (arith, front, zeros)) ∙ zeros in
    (
      copy_to off (digest_slot peer off) head,
      rw (long, found) refl,
      (
        length-copy_to off (digest_slot peer off) head (omega (arith, part, whole)) ∙ whole,
        (
          take-copy_to 8 off (digest_slot peer off) head low (omega (arith, whole))
              ∙ take-head peer front,
          slot-copy_to off (digest_slot peer off) head part (omega (arith, whole)),
        ),
      ),
    )

-- The answer to a block that the repository's own server builds (`build_s1`) exists: it has 1536
-- bytes, repeats the time and the version of that block and carries its digest in its place.
pub build_c2-build_s1 :
    (time seed : ℕ)
    → (c2 : Bytes) × (build_c2 (build_s1 time seed) ≡ some c2)
      × ((length c2 ≡ block_len)
          × ((take 8 c2 ≡ take 8 (build_s1 time seed))
              × (digest_slot c2 8 ≡ digest_slot (build_s1 time seed) 8)))
unfolding build_c2
build_c2-build_s1 time seed =
    echo-digest fms_key2 (build_s1 time seed) 8
      (unfold build_s1 in (slot_is_valid-build_block_seeded time seed 8 fms_key2 (omega arith)).1)
      (find_digest_offset-build time seed).1.0 (omega arith) (omega arith)

-- A block of 1536 bytes without a digest, as a simple handshake has it, is repeated byte by byte.
pub build_c2_simple :
    (s1 : Bytes)
    → length s1 ≡ block_len
    → find_digest_offset s1 fms_key2 ≡ none
    → build_c2 s1 ≡ some s1
unfolding build_c2 echo
build_c2_simple s1 size none_found =
    let head = copy_to 0 (take 8 s1) empty_block in
    let front : length (take 8 s1) ≡ 8 = omega (arith, size, length-take 8 s1) in
    let long : ltb (length s1) block_len ≡ false = ground (arith, size) in
    let fits : (length s1 == block_len) ≡ true = ground (arith, size) in
    let behind : drop (8 + length (drop 8 s1)) head ≡ [] = drop_all (8 + length (drop 8 s1)) head (
      omega (
        arith,
        length-drop 8 s1,
        size,
        length-copy_to 0 (take 8 s1) empty_block
            (omega (arith, front, length-replicate {A = ℕ} block_len 0)),
        length-replicate {A = ℕ} block_len 0,
      )) in
    let whole : copy_to 8 (drop 8 s1) head ≡ s1 =
      unfold copy_to in
      rw (behind, append-nil (drop 8 s1), take-head s1 front) (take-append-drop 8 s1) in
    rw (long, none_found, fits, whole) refl
