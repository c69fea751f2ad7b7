-- ===== src/Examples/Handshake.antt =====
-- Tests and witnesses of the handshake and of its hash.
use strym_core.Common.{
  ◌*◌, ◌%◌, ◌^◌, ◌≡◌, refl, some, [], ◌∷◌, ◌++◌, length, take, replicate, Bytes, be64,
}
use strym_core.Common.Text.{codes}
use strym_core.Sha256.{
  sha256, hmac_sha256, key_block, digest, blocks, compress, rounds, one_round, schedule, next_word,
  words, rotr, padded, fill_zeros,
}
use strym_core.Sha256.Padding.{zeros, padded-replicate}
use strym_core.Rtmp.Handshake.{block_len, digest_slot, build_s1, build_c2}
use strym_core.Rtmp.Handshake.Echo.{build_c2-build_s1}

-- The vectors of the code's tests.
abbrev empty_digest : Bytes
empty_digest =
    0xe3 ∷ 0xb0 ∷ 0xc4 ∷ 0x42 ∷ 0x98 ∷ 0xfc ∷ 0x1c ∷ 0x14 ∷ 0x9a ∷ 0xfb ∷ 0xf4 ∷ 0xc8 ∷ 0x99 ∷ 0x6f
    ∷ 0xb9 ∷ 0x24 ∷ 0x27 ∷ 0xae ∷ 0x41 ∷ 0xe4 ∷ 0x64 ∷ 0x9b ∷ 0x93 ∷ 0x4c ∷ 0xa4 ∷ 0x95 ∷ 0x99
    ∷ 0x1b ∷ 0x78 ∷ 0x52 ∷ 0xb8 ∷ 0x55 ∷ []

abbrev abc_digest : Bytes
abc_digest =
    0xba ∷ 0x78 ∷ 0x16 ∷ 0xbf ∷ 0x8f ∷ 0x01 ∷ 0xcf ∷ 0xea ∷ 0x41 ∷ 0x41 ∷ 0x40 ∷ 0xde ∷ 0x5d ∷ 0xae
    ∷ 0x22 ∷ 0x23 ∷ 0xb0 ∷ 0x03 ∷ 0x61 ∷ 0xa3 ∷ 0x96 ∷ 0x17 ∷ 0x7a ∷ 0x9c ∷ 0xb4 ∷ 0x10 ∷ 0xff
    ∷ 0x61 ∷ 0xf2 ∷ 0x00 ∷ 0x15 ∷ 0xad ∷ []

abbrev fox_mac : Bytes
fox_mac =
    0xf7 ∷ 0xbc ∷ 0x83 ∷ 0xf4 ∷ 0x30 ∷ 0x53 ∷ 0x84 ∷ 0x24 ∷ 0xb1 ∷ 0x32 ∷ 0x98 ∷ 0xe6 ∷ 0xaa ∷ 0x6f
    ∷ 0xb1 ∷ 0x43 ∷ 0xef ∷ 0x4d ∷ 0x59 ∷ 0xa1 ∷ 0x49 ∷ 0x46 ∷ 0x17 ∷ 0x59 ∷ 0x97 ∷ 0x47 ∷ 0x9d
    ∷ 0xbc ∷ 0x2d ∷ 0x1a ∷ 0x3c ∷ 0xd8 ∷ []

sha256_empty : sha256 [] ≡ empty_digest
unfolding sha256 digest blocks compress rounds one_round schedule next_word words rotr padded
    fill_zeros
sha256_empty = refl

sha256_abc : sha256 (codes "abc") ≡ abc_digest
unfolding sha256 digest blocks compress rounds one_round schedule next_word words rotr padded
    fill_zeros
sha256_abc = refl

hmac_sha256_fox :
    hmac_sha256 (codes "key") (codes "The quick brown fox jumps over the lazy dog") ≡ fox_mac
unfolding sha256 digest blocks compress rounds one_round schedule next_word words rotr padded
    fill_zeros hmac_sha256 key_block
hmac_sha256_fox = refl

abbrev abc : Bytes
abc = codes "abc"

padded-replicate_example :
    (padded abc ≡ abc ++ (0x80 ∷ (replicate (zeros 3) 0 ++ be64 (length abc * 8 % 2 ^ 64))))
    × (length (padded abc) % 64 ≡ 0)
padded-replicate_example = padded-replicate abc

build_c2-build_s1_example :
    (c2 : Bytes) × (build_c2 (build_s1 7 42) ≡ some c2)
    × ((length c2 ≡ block_len)
        × ((take 8 c2 ≡ take 8 (build_s1 7 42))
            × (digest_slot c2 8 ≡ digest_slot (build_s1 7 42) 8)))
build_c2-build_s1_example = build_c2-build_s1 7 42
