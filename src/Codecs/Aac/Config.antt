-- ===== src/Codecs/Aac/Config.antt =====
-- The configuration that is written for an ADTS header, read back.
use strym_core.Common.{◌≤◌, ◌<◌, ◌≡◌, ◌⊎◌, some, arith, Bytes, length}
use strym_core.Codecs.Aac.{AdtsHeader, parse_adts, parse_asc, build_asc}

-- `parse_asc` reads back what `build_asc` wrote, for every header whose fields fit the format.
pub parse_asc-build_asc :
    (h : AdtsHeader)
    → 1 ≤ h.object_type
    → h.object_type ≤ 32
    → h.sampling_frequency_index < 16
    → h.channel_config < 16
    → parse_asc (build_asc h)
      ≡ some (record {
        object_type = h.object_type;
        sampling_frequency_index = h.sampling_frequency_index;
        channel_config = h.channel_config;
      })
unfolding parse_asc build_asc
parse_asc-build_asc h a b c d = ground arith

-- What a parsed header holds, on any input: its fields fit the `AudioSpecificConfig`, the header
-- is 7 or 9 bytes long, and the input is at least that long.
pub parse_adts_fits :
    (d : Bytes) (h : AdtsHeader)
    → parse_adts d ≡ some h
    → (1 ≤ h.object_type)
      × (h.object_type ≤ 4)
      × (h.sampling_frequency_index < 16)
      × (h.channel_config < 8)
      × ((h.header_length ≡ 7) ⊎ (h.header_length ≡ 9))
      × (h.header_length ≤ length d)
unfolding parse_adts
parse_adts_fits d h e = ground arith
