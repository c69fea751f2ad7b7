-- ===== src/Rtmp/Handshake/Digest.antt =====
-- The digest that a handshake block carries (core/src/rtmp/handshake.rs), and its echo.
use Prim.Native.Nat.{bit_xor}
use strym_core.Common.{
  ℕ, zero, suc, ◌+◌, ◌-◌, ◌≤◌, ◌≡◌, refl, ap, sym, ◌∙◌, arith, true, false, some, ◌++◌, ltb, length,
  length-append, length-take, length-drop, length-replicate, take, drop, drop-add, drop-append,
  take-append, take-append_of_le, take_all, take-append-drop, Bytes, as_u32, be32, eq_bytes_self,
}
use strym_core.Sha256.{length-hmac_sha256}
use strym_core.Rtmp.Handshake.{
  fms_key1, fms_key2, block_len, digest_len, copy_to, slot_digest, digest_slot, slot_is_valid,
  find_offset, find_digest_offset, random, fill_random, empty_block, build_block_seeded,
  build_block, build_c1, build_s1, validate_s1,
}

pub length-copy_to :
    (at : ℕ) (part block : Bytes)
    → at + length part ≤ length block
    → length (copy_to at part block) ≡ length block
unfolding copy_to
length-copy_to at part block h = omega (
  arith,
  length-append (take at block) (part ++ drop (at + length part) block),
  length-append part (drop (at + length part) block),
  length-take at block,
  length-drop (at + length part) block,
)

take-front : (at : ℕ) (xs ys : Bytes) → at ≤ length xs → take at (take at xs ++ ys) ≡ take at xs
take-front at xs ys h =
    take-append_of_le at (take at xs) ys (omega (arith, length-take at xs))
    ∙ take_all at (take at xs) (omega (arith, length-take at xs))

-- What is behind a front part of known length.
drop-front : (at : ℕ) (xs ys : Bytes) → at ≤ length xs → drop at (take at xs ++ ys) ≡ ys
drop-front at xs ys h =
    let e : length (take at xs) ≡ at = omega (arith, length-take at xs) in
    ap (λ n. drop n (take at xs ++ ys)) (sym e) ∙ drop-append (take at xs) ys

-- What was copied into a digest_slot stands there, and what is in front stays.
pub slot-copy_to :
    (at : ℕ) (part block : Bytes)
    → length part ≡ digest_len
    → at ≤ length block
    → digest_slot (copy_to at part block) at ≡ part
unfolding digest_slot copy_to
slot-copy_to at part block e h =
    rw (drop-front at block (part ++ drop (at + length part) block) h) (
      ap (λ n. take n (part ++ drop (at + length part) block)) (sym e)
      ∙ take-append part (drop (at + length part) block))

pub take-copy_to :
    (n at : ℕ) (part block : Bytes)
    → n ≤ at
    → at ≤ length block
    → take n (copy_to at part block) ≡ take n block
unfolding copy_to
take-copy_to n at part block l h =
    let front = take at block in
    let m : n ≤ length front = omega (arith, length-take at block) in
    take-append_of_le n front (part ++ drop (at + length part) block) m
    ∙ (sym (take-append_of_le n front (drop at block) m) ∙ ap (take n) (take-append-drop at block))

-- The digest is one of the block without the digest_slot.
slot_digest-copy_to :
    (at : ℕ) (part block key : Bytes)
    → length part ≡ digest_len
    → at ≤ length block
    → slot_digest (copy_to at part block) at key ≡ slot_digest block at key
unfolding slot_digest copy_to
slot_digest-copy_to at part block key e h =
    let rest = drop (at + length part) block in
    let behind : drop (at + digest_len) (take at block ++ (part ++ rest))
        ≡ drop (at + digest_len) block =
      drop-add at digest_len (take at block ++ (part ++ rest))
      ∙ (ap (drop digest_len) (drop-front at block (part ++ rest) h)
          ∙ (ap (λ n. drop n (part ++ rest)) (sym e)
              ∙ (drop-append part rest ∙ ap (λ n. drop (at + n) block) e))) in
    rw (behind, take-front at block (part ++ rest) h)

length-slot_digest :
    (block : Bytes) (at : ℕ) (key : Bytes) → length (slot_digest block at key) ≡ digest_len
unfolding slot_digest
length-slot_digest block at key =
    length-hmac_sha256 key (take at block ++ drop (at + digest_len) block)

slot_is_valid-copy_to :
    (at : ℕ) (block key : Bytes)
    → at + digest_len ≤ length block
    → slot_is_valid (copy_to at (slot_digest block at key) block) at key ≡ true
unfolding slot_is_valid
slot_is_valid-copy_to at block key h =
    let part = slot_digest block at key in
    let e : length part ≡ digest_len = length-slot_digest block at key in
    let size : length (copy_to at part block) ≡ length block =
      length-copy_to at part block (omega (arith, e)) in
    let long : ltb (length (copy_to at part block)) (at + digest_len) ≡ false =
      ground (arith, size) in
    rw
      (
        long,
        slot-copy_to at part block e (omega arith),
        slot_digest-copy_to at part block key e (omega arith),
      )
      (eq_bytes_self part)

length-random : (n x : ℕ) → length (random n x) ≡ n
unfolding random
length-random zero x = refl
length-random (suc n) x = ap suc (length-random n _)

length-fill_random : (seed : ℕ) → length (fill_random empty_block seed) ≡ block_len
unfolding fill_random
length-fill_random seed =
    let head = copy_to 0 (be32 (as_u32 seed)) empty_block in
    let zeros : length empty_block ≡ block_len = length-replicate {A = ℕ} block_len 0 in
    let e : length head ≡ block_len =
      length-copy_to 0 (be32 (as_u32 seed)) empty_block (omega (arith, zeros)) ∙ zeros in
    let r : length (random (block_len - 8) seed) ≡ block_len - 8 =
      length-random (block_len - 8) seed in
    length-copy_to 8 (random (block_len - 8) seed) head (omega (arith, e, r)) ∙ e

-- A block that is built with a digest has 1536 bytes, and its digest validates at its offset, for
-- every key and every offset whose digest_slot lies inside the block.
pub slot_is_valid-build_block_seeded :
    (time seed offset : ℕ) (key : Bytes)
    → offset + digest_len ≤ block_len
    → (slot_is_valid (build_block_seeded time seed key offset).1 offset key ≡ true)
      × (length (build_block_seeded time seed key offset).1 ≡ block_len)
unfolding build_block_seeded
slot_is_valid-build_block_seeded time seed offset key h =
    let filler = bit_xor (bit_xor time seed) 0x2545_F491_4F6C_DD1D in
    let block : Bytes = fill_random empty_block filler in
    let size : length block ≡ block_len = length-fill_random filler in
    let e : length (slot_digest block offset key) ≡ digest_len =
      length-slot_digest block offset key in
    (
      slot_is_valid-copy_to offset block key (omega (arith, size)),
      length-copy_to offset (slot_digest block offset key) block (omega (arith, size, e)) ∙ size,
    )

find_digest_offset-first :
    (block key : Bytes) → slot_is_valid block 8 key ≡ true → find_digest_offset block key ≡ some 8
unfolding find_digest_offset find_offset
find_digest_offset-first block key h = rw h refl

-- The server's block carries a digest that validates, and so does the client's, each at offset 8.
pub find_digest_offset-build :
    (time seed : ℕ)
    → (find_digest_offset (build_c1 time).1 fms_key1 ≡ some 8)
      × ((find_digest_offset (build_s1 time seed) fms_key2 ≡ some 8)
          × (validate_s1 (build_s1 time seed) ≡ true))
unfolding build_c1 build_block build_s1 validate_s1
find_digest_offset-build time seed =
    let other = bit_xor time 0x2545_F491_4F6C_DD1D in
    let c1 = (build_block_seeded time other fms_key1 8).1 in
    let s1 = (build_block_seeded time seed fms_key2 8).1 in
    let found : find_digest_offset s1 fms_key2 ≡ some 8 =
      find_digest_offset-first s1 fms_key2
        ((slot_is_valid-build_block_seeded time seed 8 fms_key2 (omega arith)).0) in
    (
      find_digest_offset-first c1 fms_key1
          ((slot_is_valid-build_block_seeded time other 8 fms_key1 (omega arith)).0),
      (found, rw (validate_s1, found) refl),
    )
