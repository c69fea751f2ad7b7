-- ===== src/Codecs/H264.antt =====
-- core/src/codecs/h264.rs: NAL units in their two wire forms, and the AVC configuration record.
pub mod Prefixed
pub mod Units
pub mod Avcc
pub mod Sps
use strym_core.Common.{
  ℕ, zero, suc, ◌+◌, ◌-◌, ◌%◌, Bool, true, false, Option, none, some, List, [], ◌∷◌, ◌++◌, ◌&&◌,
  ltb, ◌==◌, if◌then◌else◌, length, get_or, take, drop, Bytes, be16, be32, from_be16, from_be32,
  as_u16, as_u32,
}
use mathlib.Core.List.{reverse}

abbrev pub idr : ℕ
idr = 5

abbrev pub sps_type : ℕ
sps_type = 7

abbrev pub pps_type : ℕ
pps_type = 8

abbrev pub nal_type : ℕ → ℕ
nal_type byte = byte % 32

-- How many bytes the start codes take that stand one behind the other at the front. As in the
-- source, a code is looked for only while four bytes are left.
unfoldable pub skip_codes : Bytes → ℕ
skip_codes (a ∷ b ∷ c ∷ d ∷ rest) =
    let three = 3 + skip_codes (d ∷ rest) in
    let four = 4 + skip_codes rest in
    if a == 0 && b == 0 then (if c == 1 then three else if c == 0 && d == 1 then four else 0) else 0
skip_codes _ = 0

-- The runs of start codes as (start, end), from position `i` on, where `rest` is `data[i..]`.
unfoldable pub code_groups : ℕ → ℕ → Bytes → List (ℕ × ℕ)
unfolding skip_codes
code_groups zero i rest = []
code_groups (suc fuel) i rest =
    let n = skip_codes rest in
    let behind = code_groups fuel (i + n) (drop n rest) in
    let next = code_groups fuel (i + 1) (drop 1 rest) in
    if ltb 3 (length rest) then (if ltb 0 n then (i, i + n) ∷ behind else next) else []

-- A slice that is cut from its end is kept reversed. These are the three loops that trim it.
unfoldable pub drop_zeros : Bytes → Bytes
drop_zeros [] = []
drop_zeros (x ∷ r) = if x == 0 then drop_zeros r else x ∷ r

unfoldable pub drop_codes3 : Bytes → Bytes
drop_codes3 (a ∷ b ∷ c ∷ r) =
    let less = drop_codes3 r in if a == 1 && b == 0 && c == 0 then less else a ∷ b ∷ c ∷ r
drop_codes3 r = r

unfoldable pub drop_codes4 : Bytes → Bytes
drop_codes4 (a ∷ b ∷ c ∷ d ∷ r) =
    let less = drop_codes4 r in
    if a == 1 && b == 0 && c == 0 && d == 0 then less else a ∷ b ∷ c ∷ d ∷ r
drop_codes4 r = r

abbrev pub slice : Bytes → ℕ → ℕ → Bytes
slice d s e = take (e - s) (drop s d)

abbrev pub non_empty : Bytes → List Bytes
non_empty [] = []
non_empty (x ∷ xs) = (x ∷ xs) ∷ []

-- The units between two groups, and the one behind the last group.
unfoldable pub units : Bytes → List (ℕ × ℕ) → List Bytes
unfolding drop_zeros drop_codes3 drop_codes4
units d [] = []
units d ((_, s) ∷ []) =
    non_empty (reverse (drop_codes4 (drop_codes3 (drop_zeros (reverse (drop s d))))))
units d ((_, s) ∷ (e, s') ∷ groups) =
    non_empty (reverse (drop_zeros (reverse (slice d s e)))) ++ units d ((e, s') ∷ groups)

-- Every round moves on by a byte at least, so `length data` rounds are enough.
unfoldable pub split_annex_b : Bytes → List Bytes
unfolding code_groups units
split_annex_b d = units d (code_groups (length d) 0 d)

-- The scan of `extract_sps_pps`; units are never empty.
unfoldable pub find_sps_pps : Option Bytes → Option Bytes → List Bytes → Option (Bytes × Bytes)
find_sps_pps sps pps [] = none
find_sps_pps sps pps (nal ∷ nals) =
    let t = nal_type (get_or nal 0 0) in
    let sps' = if t == sps_type then some nal else sps in
    let pps' = if t == pps_type then some nal else pps in
    let more = find_sps_pps sps' pps' nals in
    elim sps' [ none ↦ more | some s ↦ elim pps' [ none ↦ more | some p ↦ some (s, p) ] ]

unfoldable pub extract_sps_pps : Bytes → Option (Bytes × Bytes)
unfolding find_sps_pps
extract_sps_pps d = find_sps_pps none none (split_annex_b d)

unfoldable pub any_keyframe : List Bytes → Bool
any_keyframe [] = false
any_keyframe (nal ∷ nals) = if nal_type (get_or nal 0 0) == idr then true else any_keyframe nals

unfoldable pub contains_keyframe : Bytes → Bool
unfolding any_keyframe
contains_keyframe d = any_keyframe (split_annex_b d)

unfoldable pub build_avcc : Bytes → Bytes → Bytes
build_avcc sps pps =
    0x01
      ∷ get_or sps 1 0x64
      ∷ get_or sps 2 0
      ∷ get_or sps 3 0x1f
      ∷ 0xff
      ∷ 0xe1
      ∷ be16 (as_u16 (length sps))
    ++ (sps ++ (0x01 ∷ be16 (as_u16 (length pps)) ++ pps))

unfoldable pub to_length_prefixed : List Bytes → Bytes
to_length_prefixed [] = []
to_length_prefixed (nal ∷ nals) = be32 (as_u32 (length nal)) ++ (nal ++ to_length_prefixed nals)

unfoldable pub annexb_to_length_prefixed : Bytes → Bytes
annexb_to_length_prefixed d = to_length_prefixed (split_annex_b d)

-- The list is `data[pos..]`. `none` is also the answer where the fuel runs out, which
-- `from_length_prefixed` never lets happen.
unfoldable pub read_prefixed : ℕ → Bytes → Option (List Bytes)
read_prefixed fuel [] = some []
read_prefixed (suc fuel) (a ∷ b ∷ c ∷ d ∷ rest) =
    let len = from_be32 a b c d in
    let more = read_prefixed fuel (drop len rest) in
    if len == 0
    then none
    else if ltb (length rest) len
    then none
    else elim more [ none ↦ none | some nals ↦ some (take len rest ∷ nals) ]
read_prefixed _ _ = none

unfoldable pub from_length_prefixed : Bytes → Option (List Bytes)
unfolding read_prefixed
from_length_prefixed d = read_prefixed (length d) d

unfoldable pub annexb_to_avcc : Bytes → Option Bytes
annexb_to_avcc d = elim (extract_sps_pps d) [
  | none ↦ none
  | some (sps, pps) ↦ some (build_avcc sps pps)
]

unfoldable pub to_annex_b : List Bytes → Bytes
to_annex_b [] = []
to_annex_b (nal ∷ nals) = 0 ∷ 0 ∷ 0 ∷ 1 ∷ nal ++ to_annex_b nals

-- One loop of `extract_sps_pps_from_avcc`: `count` units with 16-bit lengths, of which the first
-- is kept, and what follows them.
unfoldable pub read_units : ℕ → Option Bytes → Bytes → Option (Option Bytes × Bytes)
read_units zero kept rest = some (kept, rest)
read_units (suc count) kept (a ∷ b ∷ rest) =
    let len = from_be16 a b in
    let first : Option Bytes = elim kept [ none ↦ some (take len rest) | some k ↦ some k ] in
    let more = read_units count first (drop len rest) in
    if ltb (length rest) len then none else more
read_units (suc count) kept _ = none

abbrev pub both : Option Bytes → Option Bytes → Option (Bytes × Bytes)
both (some s) (some p) = some (s, p)
both _ _ = none

abbrev pub read_pps : Option Bytes → Bytes → Option (Bytes × Bytes)
read_pps sps [] = none
read_pps sps (count ∷ rest) = elim (read_units count none rest) [
  | none ↦ none
  | some (pps, _) ↦ both sps pps
]

unfoldable pub extract_sps_pps_from_avcc : Bytes → Option (Bytes × Bytes)
unfolding read_units
extract_sps_pps_from_avcc avcc =
    if ltb (length avcc) 7
    then none
    else if get_or avcc 0 0 == 1
    then elim (read_units (get_or avcc 5 0 % 32) none (drop 6 avcc)) [
      | none ↦ none
      | some (sps, rest) ↦ read_pps sps rest
    ]
    else none
