-- ===== src/Codecs/H264/Avcc.antt =====
-- The configuration record read back.
use strym_core.Common.{
  ◌/◌, ◌%◌, ◌<◌, ◌≡◌, none, some, [], ◌∷◌, ◌++◌, arith, Bytes, length, length-append, take-append,
  drop-append, be16, from_be16, as_u16, append-nil,
}
use strym_core.Codecs.H264.{build_avcc, read_units, extract_sps_pps_from_avcc}

read_one :
    (nal rest : Bytes)
    → length nal < 65536
    → read_units 1 none (be16 (as_u16 (length nal)) ++ (nal ++ rest)) ≡ some (some nal, rest)
unfolding read_units
read_one nal rest h =
    ground (arith, len, take-append nal rest, drop-append nal rest, length-append nal rest)
  where
    len : from_be16 (as_u16 (length nal) / 256 % 256) (as_u16 (length nal) % 256) ≡ length nal
    len = omega arith

-- The parameter sets that `build_avcc` packed come back from `extract_sps_pps_from_avcc`, where
-- each is shorter than 65536 bytes.
pub extract-build_avcc :
    (sps pps : Bytes)
    → length sps < 65536
    → length pps < 65536
    → extract_sps_pps_from_avcc (build_avcc sps pps) ≡ some (sps, pps)
unfolding build_avcc extract_sps_pps_from_avcc
extract-build_avcc sps pps h k = ground (
  arith,
  length-append sps (1 ∷ be16 (as_u16 (length pps)) ++ pps),
  read_one sps (1 ∷ be16 (as_u16 (length pps)) ++ pps) h,
  read_one pps [] k,
  append-nil pps,
)
