-- ===== src/Codecs/Aac.antt =====
-- core/src/codecs/aac.rs: ADTS headers and the `AudioSpecificConfig`.
pub mod Config
use strym_core.Common.{
  ℕ, ◌+◌, ◌-◌, ◌*◌, ◌/◌, ◌%◌, Bool, Option, none, some, List, [], ◌∷◌, ◌&&◌, ltb, ◌==◌,
  if◌then◌else◌, length, get_or, drop, Bytes, as_u8,
}

pub record AdtsHeader : Type 0 where
  pub object_type : ℕ
  pub sampling_frequency_index : ℕ
  pub channel_config : ℕ
  pub frame_length : ℕ
  pub header_length : ℕ

abbrev pub sample_rates : List ℕ
sample_rates =
    96000 ∷ 88200 ∷ 64000 ∷ 48000 ∷ 44100 ∷ 32000 ∷ 24000 ∷ 22050 ∷ 16000 ∷ 12000 ∷ 11025 ∷ 8000
    ∷ 7350 ∷ []

-- The header in the bytes, once the sync word is known to be there; reads are in range then.
unfoldable pub adts_fields : Bytes → ℕ → AdtsHeader
adts_fields d header_length = record {
  object_type = get_or d 2 0 / 64 % 4 + 1;
  sampling_frequency_index = get_or d 2 0 / 4 % 16;
  channel_config = get_or d 2 0 % 2 * 4 + get_or d 3 0 / 64 % 4;
  frame_length = get_or d 3 0 % 4 * 2048 + get_or d 4 0 * 8 + get_or d 5 0 / 32;
  header_length = header_length;
}

unfoldable pub parse_adts : Bytes → Option AdtsHeader
unfolding adts_fields
parse_adts d =
    if ltb (length d) 7
    then none
    else if get_or d 0 0 == 0xff && get_or d 1 0 / 16 % 16 == 15
    then (let header_length = if get_or d 1 0 % 2 == 1 then 7 else 9 in
        if ltb (length d) header_length then none else some (adts_fields d header_length))
    else none

pub record Asc : Type 0 where
  pub object_type : ℕ
  pub sampling_frequency_index : ℕ
  pub channel_config : ℕ

unfoldable pub parse_asc : Bytes → Option Asc
parse_asc (a ∷ b ∷ rest) = some (record {
  object_type = a / 8 % 32 + 1;
  sampling_frequency_index = a % 8 * 2 + b / 128;
  channel_config = b / 8 % 16;
})
parse_asc _ = none

-- Each shift to the left stays within the byte.
unfoldable pub build_asc : AdtsHeader → Bytes
build_asc h =
    (as_u8 ((h.object_type - 1) % 32 * 8) + h.sampling_frequency_index / 2 % 8)
    ∷ (as_u8 (h.sampling_frequency_index % 2 * 128) + h.channel_config % 16 * 8)
    ∷ []

unfoldable pub strip_adts : Bytes → Bytes
strip_adts d = elim (parse_adts d) [ some h ↦ drop h.header_length d | none ↦ d ]

unfoldable pub adts_to_asc : Bytes → Option Bytes
adts_to_asc d = elim (parse_adts d) [ some h ↦ some (build_asc h) | none ↦ none ]
