-- ===== src/Sha256.antt =====
-- core/src/sha256.rs: SHA-256 and HMAC-SHA256. The working variables a to h are a record, and the
-- message schedule a list that grows from 16 to 64 words.
pub mod Padding
use Prim.Native.Nat.{bit_and, bit_xor}
use strym_core.Common.{
  ℕ, zero, suc, ◌+◌, ◌-◌, ◌*◌, ◌/◌, ◌%◌, ◌^◌, ◌≡◌, refl, List, [], ◌∷◌, ◌++◌, map, if◌then◌else◌,
  ltb, ◌==◌, length, get_or, take, drop, replicate, Bytes, add_u32, be32, be64, from_be32,
}

abbrev pub k : List ℕ
k =
    0x428a2f98 ∷ 0x71374491 ∷ 0xb5c0fbcf ∷ 0xe9b5dba5 ∷ 0x3956c25b ∷ 0x59f111f1 ∷ 0x923f82a4
    ∷ 0xab1c5ed5 ∷ 0xd807aa98 ∷ 0x12835b01 ∷ 0x243185be ∷ 0x550c7dc3 ∷ 0x72be5d74 ∷ 0x80deb1fe
    ∷ 0x9bdc06a7 ∷ 0xc19bf174 ∷ 0xe49b69c1 ∷ 0xefbe4786 ∷ 0x0fc19dc6 ∷ 0x240ca1cc ∷ 0x2de92c6f
    ∷ 0x4a7484aa ∷ 0x5cb0a9dc ∷ 0x76f988da ∷ 0x983e5152 ∷ 0xa831c66d ∷ 0xb00327c8 ∷ 0xbf597fc7
    ∷ 0xc6e00bf3 ∷ 0xd5a79147 ∷ 0x06ca6351 ∷ 0x14292967 ∷ 0x27b70a85 ∷ 0x2e1b2138 ∷ 0x4d2c6dfc
    ∷ 0x53380d13 ∷ 0x650a7354 ∷ 0x766a0abb ∷ 0x81c2c92e ∷ 0x92722c85 ∷ 0xa2bfe8a1 ∷ 0xa81a664b
    ∷ 0xc24b8b70 ∷ 0xc76c51a3 ∷ 0xd192e819 ∷ 0xd6990624 ∷ 0xf40e3585 ∷ 0x106aa070 ∷ 0x19a4c116
    ∷ 0x1e376c08 ∷ 0x2748774c ∷ 0x34b0bcb5 ∷ 0x391c0cb3 ∷ 0x4ed8aa4a ∷ 0x5b9cca4f ∷ 0x682e6ff3
    ∷ 0x748f82ee ∷ 0x78a5636f ∷ 0x84c87814 ∷ 0x8cc70208 ∷ 0x90befffa ∷ 0xa4506ceb ∷ 0xbef9a3f7
    ∷ 0xc67178f2 ∷ []

unfoldable pub rotr : ℕ → ℕ → ℕ
rotr x n = x / 2 ^ n + x % 2 ^ n * 2 ^ (32 - n)

-- `!x` on u32.
abbrev pub not_u32 : ℕ → ℕ
not_u32 x = 2 ^ 32 - 1 - x

pub record State : Type 0 where
  a : ℕ
  b : ℕ
  c : ℕ
  d : ℕ
  e : ℕ
  f : ℕ
  g : ℕ
  h : ℕ

abbrev pub initial : State
initial = record {
  a = 0x6a09e667;
  b = 0xbb67ae85;
  c = 0x3c6ef372;
  d = 0xa54ff53a;
  e = 0x510e527f;
  f = 0x9b05688c;
  g = 0x1f83d9ab;
  h = 0x5be0cd19;
}

-- `while msg.len() % 64 != 56`; 63 rounds are enough.
unfoldable pub fill_zeros : ℕ → Bytes → Bytes
fill_zeros zero msg = msg
fill_zeros (suc fuel) msg =
    let more = fill_zeros fuel (msg ++ 0 ∷ []) in if length msg % 64 == 56 then msg else more

unfoldable pub padded : Bytes → Bytes
padded bytes = fill_zeros 63 (bytes ++ 0x80 ∷ []) ++ be64 (length bytes * 8 % 2 ^ 64)

-- The words of a block.
unfoldable pub words : ℕ → Bytes → List ℕ
words zero block = []
words (suc n) block =
    from_be32 (get_or block 0 0) (get_or block 1 0) (get_or block 2 0) (get_or block 3 0)
    ∷ words n (drop 4 block)

-- The word at place `length w`, 16 at least.
unfoldable pub next_word : List ℕ → ℕ
next_word w =
    let i = length w in
    let x = get_or w (i - 15) 0 in
    let y = get_or w (i - 2) 0 in
    let s0 = bit_xor (bit_xor (rotr x 7) (rotr x 18)) (x / 2 ^ 3) in
    let s1 = bit_xor (bit_xor (rotr y 17) (rotr y 19)) (y / 2 ^ 10) in
    add_u32 (add_u32 (add_u32 (get_or w (i - 16) 0) s0) (get_or w (i - 7) 0)) s1

unfoldable pub schedule : ℕ → List ℕ → List ℕ
schedule zero w = w
schedule (suc n) w = schedule n (w ++ next_word w ∷ [])

unfoldable pub one_round : State → ℕ → ℕ → State
one_round s ki wi =
    let s1 = bit_xor (bit_xor (rotr (s.e) 6) (rotr (s.e) 11)) (rotr (s.e) 25) in
    let ch = bit_xor (bit_and (s.e) (s.f)) (bit_and (not_u32 (s.e)) (s.g)) in
    let t1 = add_u32 (add_u32 (add_u32 (add_u32 (s.h) s1) ch) ki) wi in
    let s0 = bit_xor (bit_xor (rotr (s.a) 2) (rotr (s.a) 13)) (rotr (s.a) 22) in
    let maj = bit_xor (bit_xor (bit_and (s.a) (s.b)) (bit_and (s.a) (s.c))) (bit_and (s.b) (s.c)) in
    let t2 = add_u32 s0 maj in
    record {
      a = add_u32 t1 t2;
      b = s.a;
      c = s.b;
      d = s.c;
      e = add_u32 (s.d) t1;
      f = s.e;
      g = s.f;
      h = s.g;
    }

unfoldable pub rounds : State → List ℕ → List ℕ → State
rounds s (ki ∷ ks) (wi ∷ ws) = rounds (one_round s ki wi) ks ws
rounds s _ _ = s

-- One block.
unfoldable pub compress : State → Bytes → State
compress s block =
    let t = rounds s k (schedule 48 (words 16 block)) in
    record {
      a = add_u32 (s.a) (t.a);
      b = add_u32 (s.b) (t.b);
      c = add_u32 (s.c) (t.c);
      d = add_u32 (s.d) (t.d);
      e = add_u32 (s.e) (t.e);
      f = add_u32 (s.f) (t.f);
      g = add_u32 (s.g) (t.g);
      h = add_u32 (s.h) (t.h);
    }

-- `msg.chunks_exact(64)`, by the number of blocks.
unfoldable pub blocks : ℕ → State → Bytes → State
blocks zero s msg = s
blocks (suc n) s msg = blocks n (compress s (take 64 msg)) (drop 64 msg)

unfoldable pub digest : State → Bytes
digest s =
    be32 (s.a)
    ++ (be32 (s.b)
        ++ (be32 (s.c)
            ++ (be32 (s.d) ++ (be32 (s.e) ++ (be32 (s.f) ++ (be32 (s.g) ++ be32 (s.h)))))))

unfoldable pub sha256 : Bytes → Bytes
sha256 bytes = let msg = padded bytes in digest (blocks (length msg / 64) initial msg)

-- The key in a block of 64 bytes.
unfoldable pub key_block : Bytes → Bytes
key_block key =
    if ltb 64 (length key)
    then sha256 key ++ replicate 32 0
    else key ++ replicate (64 - length key) 0

unfoldable pub hmac_sha256 : Bytes → Bytes → Bytes
hmac_sha256 key bytes =
    let k_block = key_block key in
    let inner = map (bit_xor 0x36) k_block ++ bytes in
    let outer = map (bit_xor 0x5c) k_block ++ sha256 inner in sha256 outer

pub length-hmac_sha256 : (key bytes : Bytes) → length (hmac_sha256 key bytes) ≡ 32
unfolding hmac_sha256 sha256 digest
length-hmac_sha256 key bytes = refl
