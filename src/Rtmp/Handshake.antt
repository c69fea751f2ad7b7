-- ===== src/Rtmp/Handshake.antt =====
-- core/src/rtmp/handshake.rs: the blocks of the RTMP handshake. A block is its 1536 bytes.
pub mod Digest
pub mod Echo
use Prim.Native.Nat.{bit_xor}
use strym_core.Common.{
  ℕ, zero, suc, ◌+◌, ◌-◌, ◌*◌, ◌/◌, ◌%◌, ◌^◌, Bool, true, false, Option, none, some, List, [], ◌∷◌,
  ◌++◌, if◌then◌else◌, ltb, ◌==◌, length, take, drop, replicate, Bytes, as_u8, as_u32, be32,
  eq_bytes,
}
use strym_core.Common.Text.{codes}
use strym_core.Sha256.{hmac_sha256}

unfoldable pub fms_key1 : Bytes
fms_key1 = codes "Genuine Adobe Flash Player 001"

unfoldable pub fms_key2 : Bytes
fms_key2 = codes "Genuine Adobe Flash Player 002"

abbrev pub block_len : ℕ
block_len = 1536

abbrev pub digest_len : ℕ
digest_len = 32

abbrev pub digest_offsets : List ℕ
digest_offsets = 8 ∷ 772 ∷ []

-- `block[at..at + part.len()].copy_from_slice(part)`, where the part lies inside the block.
unfoldable pub copy_to : ℕ → Bytes → Bytes → Bytes
copy_to at part block = take at block ++ (part ++ drop (at + length part) block)

unfoldable pub slot_digest : Bytes → ℕ → Bytes → Bytes
slot_digest block offset key =
    hmac_sha256 key (take offset block ++ drop (offset + digest_len) block)

-- The digest in the digest_slot.
unfoldable pub digest_slot : Bytes → ℕ → Bytes
digest_slot block offset = take digest_len (drop offset block)

unfoldable pub slot_is_valid : Bytes → ℕ → Bytes → Bool
slot_is_valid block offset key =
    if ltb (length block) (offset + digest_len)
    then false
    else eq_bytes (digest_slot block offset) (slot_digest block offset key)

-- The first offset that validates.
unfoldable pub find_offset : List ℕ → Bytes → Bytes → Option ℕ
find_offset [] block key = none
find_offset (o ∷ offsets) block key =
    if slot_is_valid block o key then some o else find_offset offsets block key

unfoldable pub find_digest_offset : Bytes → Bytes → Option ℕ
find_digest_offset block key = find_offset digest_offsets block key

-- The bytes of the generator from state `x` on.
unfoldable pub random : ℕ → ℕ → Bytes
random zero x = []
random (suc n) x =
    let y = (x * 6364136223846793005 + 1442695040888963407) % 2 ^ 64 in
    as_u8 (y / 2 ^ 33) ∷ random n y

unfoldable pub fill_random : Bytes → ℕ → Bytes
fill_random block seed =
    copy_to 8 (random (block_len - 8) seed) (copy_to 0 (be32 (as_u32 seed)) block)

abbrev pub empty_block : Bytes
empty_block = replicate block_len 0

unfoldable pub build_c1_simple : ℕ → ℕ × Bytes
build_c1_simple time = (3, fill_random empty_block time)

unfoldable pub build_block_seeded : ℕ → ℕ → Bytes → ℕ → ℕ × Bytes
build_block_seeded time seed key offset =
    let block = fill_random empty_block (bit_xor (bit_xor time seed) 0x2545_F491_4F6C_DD1D) in
    (3, copy_to offset (slot_digest block offset key) block)

unfoldable pub build_block : ℕ → Bytes → ℕ → ℕ × Bytes
build_block time key offset =
    build_block_seeded time (bit_xor time 0x2545_F491_4F6C_DD1D) key offset

unfoldable pub build_c1 : ℕ → ℕ × Bytes
build_c1 time = build_block time fms_key1 8

unfoldable pub build_s1_simple : ℕ → ℕ → Bytes
build_s1_simple time seed =
    copy_to 0 (be32 time) (fill_random empty_block (bit_xor seed 0x2545_F491_4F6C_DD1D))

unfoldable pub build_s1 : ℕ → ℕ → Bytes
build_s1 time seed = (build_block_seeded time seed fms_key2 8).1

-- The echo of a peer's block: its digest where it has one under `key`, its random bytes otherwise.
-- `none` is the panic of `copy_from_slice` on a block that is longer than 1536 bytes.
unfoldable pub echo : Bytes → Bytes → Option Bytes
echo key peer =
    if ltb (length peer) block_len
    then some empty_block
    else (let head = copy_to 0 (take 8 peer) empty_block in
        elim (find_digest_offset peer key) [
          | some off ↦ some (copy_to off (digest_slot peer off) head)
          | none ↦ if length peer == block_len then some (copy_to 8 (drop 8 peer) head) else none
        ])

unfoldable pub build_s2 : Bytes → Option Bytes
build_s2 c1 = echo fms_key1 c1

unfoldable pub build_c2 : Bytes → Option Bytes
build_c2 s1 = echo fms_key2 s1

unfoldable pub build_s1_complex : ℕ → Bytes
build_s1_complex time = build_s1 time (bit_xor time 0x2545_F491_4F6C_DD1D)

unfoldable pub validate_s1 : Bytes → Bool
validate_s1 s1 = elim (find_digest_offset s1 fms_key2) [ none ↦ false | some o ↦ true ]
