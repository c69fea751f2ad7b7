-- ===== src/Mux/Metadata.antt =====
-- core/src/mux.rs, module amf0: the body of the `onMetaData` tag.
use Prim.Native.Char.{code}
use Prim.Native.String.{String}
use strym_core.Common.{
  ℕ, zero, suc, ◌+◌, ◌-◌, ◌*◌, ◌/◌, ◌^◌, [], ◌∷◌, ◌++◌, length, ltb, if◌then◌else◌, Bytes, be16,
  be32, be64, as_u16,
}
use strym_core.Models.{StreamConfig}

-- The bytes of an ASCII text.
abbrev pub codes : String → Bytes
codes String.[] = []
codes (String.◌∷◌ c s) = code c ∷ codes s

-- The place of the highest bit.
unfoldable pub log2 : ℕ → ℕ → ℕ
log2 zero n = 0
log2 (suc fuel) n = let more = log2 fuel (n / 2) in if ltb n 2 then 0 else more + 1

-- `n as f64` for a u32, as the bit pattern: the conversion is exact.
unfoldable pub f64_of_u32 : ℕ → ℕ
unfolding log2
f64_of_u32 n =
    if ltb n 1 then 0 else (let e = log2 32 n in (1023 + e) * 2 ^ 52 + (n - 2 ^ e) * 2 ^ (52 - e))

abbrev pub number : ℕ → Bytes
number v = 0x00 ∷ be64 v

abbrev pub property : String → Bytes
property key = be16 (as_u16 (length (codes key))) ++ codes key

abbrev pub string : String → Bytes
string s = 0x02 ∷ property s

unfoldable pub on_metadata : StreamConfig → Bytes
unfolding f64_of_u32
on_metadata c =
    string "onMetaData"
    ++ 0x08
      ∷ (be32 13
          ++ (property "duration"
              ++ (number 0
                  ++ (property "width"
                      ++ (number (f64_of_u32 c.width)
                          ++ (property "height"
                              ++ (number (f64_of_u32 c.height)
                                  ++ (property "framerate"
                                      ++ (number c.framerate
                                          ++ (property "videocodecid"
                                              ++ (number (f64_of_u32 7)
                                                  ++ (property "videodatarate"
                                                      ++ (number
                                                            (f64_of_u32 (c.video_bitrate / 1000))
                                                          ++ (property "audiocodecid"
                                                            ++ (number (f64_of_u32 10)
                                                            ++ (property "audiosamplerate"
                                                            ++ (number (f64_of_u32 c.sample_rate)
                                                            ++ (property "audiosamplesize"
                                                            ++ (number (f64_of_u32 16)
                                                            ++ (property "audiodatarate"
                                                            ++ (number
                                                            (f64_of_u32 (c.audio_bitrate / 1000))
                                                            ++ (property "stereo"
                                                            ++ (0x01 ∷ 1 ∷ property "filesize"
                                                            ++ (number 0
                                                            ++ (property "encoder"
                                                            ++ (string
                                                            "Strym/1.0 (FMLE/3.0 compatible; strym-core 1.0)"
                                                            ++ (0 ∷ 0 ∷ 9
                                                            ∷ [])))))))))))))))))))))))))))
