-- ===== src/Codecs/H264/Prefixed.antt =====
-- The length-prefixed form read back, and what is refused.
use strym_core.Common.{
  ℕ, zero, suc, ◌/◌, ◌%◌, ◌^◌, ◌≤◌, ◌<◌, ◌≡◌, refl, some, List, [], ◌∷◌, ◌++◌, arith, Bytes, All,
  length, length-append, take-append, drop-append, be32, from_be32, as_u32,
}
use strym_core.Codecs.H264.{to_length_prefixed, read_prefixed, from_length_prefixed}

-- A unit that the format can carry: not empty, and shorter than 2 ^ 32 bytes.
abbrev pub IsUnit : Bytes → Type 0
IsUnit nal = (1 ≤ length nal) × (length nal < 2 ^ 32)

read_prefixed_step :
    (fuel : ℕ) (nal rest : Bytes) (nals : List Bytes)
    → IsUnit nal
    → read_prefixed fuel rest ≡ some nals
    → read_prefixed (suc fuel) (be32 (as_u32 (length nal)) ++ (nal ++ rest)) ≡ some (nal ∷ nals)
unfolding read_prefixed
read_prefixed_step fuel nal rest nals h e =
    ground (arith, len, take-append nal rest, drop-append nal rest, length-append nal rest, e)
  where
    len :
        from_be32
          (as_u32 (length nal) / 16777216 % 256)
          (as_u32 (length nal) / 65536 % 256)
          (as_u32 (length nal) / 256 % 256)
          (as_u32 (length nal) % 256)
        ≡ length nal
    len = omega arith

read_prefixed-to_length_prefixed :
    (fuel : ℕ) (nals : List Bytes)
    → All IsUnit nals
    → length (to_length_prefixed nals) ≤ fuel
    → read_prefixed fuel (to_length_prefixed nals) ≡ some nals
unfolding to_length_prefixed
read_prefixed-to_length_prefixed fuel [] h k = unfold read_prefixed in refl
read_prefixed-to_length_prefixed zero (nal ∷ nals) h k = absurd (omega arith)
read_prefixed-to_length_prefixed (suc fuel) (nal ∷ nals) h k =
    read_prefixed_step fuel nal (to_length_prefixed nals) nals h.0 (
      read_prefixed-to_length_prefixed fuel nals h.1
        (omega (arith, length-append nal (to_length_prefixed nals))))

-- `from_length_prefixed` reads back every list of non-empty units shorter than 2 ^ 32 bytes that
-- `to_length_prefixed` wrote.
pub from_length_prefixed-to_length_prefixed :
    (nals : List Bytes)
    → All IsUnit nals
    → from_length_prefixed (to_length_prefixed nals) ≡ some nals
unfolding from_length_prefixed
from_length_prefixed-to_length_prefixed nals h =
    read_prefixed-to_length_prefixed _ nals h (omega arith)
