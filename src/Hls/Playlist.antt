-- ===== src/Hls/Playlist.antt =====
-- core/src/hls/mod.rs: the configuration, the names of the files and the text of the playlist. A
-- duration is a whole number of milliseconds, where the source divides by 1000.0 and prints three
-- decimals.
use strym_core.Common.{
  ℕ, ◌+◌, ◌/◌, ◌-◌, ◌^◌, ◌%◌, Bool, List, [], ◌∷◌, ◌++◌, if◌then◌else◌, min, max, Bytes,
}
use strym_core.Common.Text.{codes, decimal}

pub record HlsConfig : Type 0 where
  pub target_duration_secs : ℕ
  pub window_size : ℕ
  pub init_segment_name : Bytes
  pub segment_prefix : Bytes
  pub playlist_name : Bytes
  pub audio_bitrate : ℕ

abbrev pub default_config : HlsConfig
default_config = record {
  target_duration_secs = 4;
  window_size = 6;
  init_segment_name = codes "init.mp4";
  segment_prefix = codes "seg";
  playlist_name = codes "playlist.m3u8";
  audio_bitrate = 128000;
}

unfoldable pub segment_name : HlsConfig → ℕ → Bytes
segment_name cfg n = cfg.segment_prefix ++ (decimal n ++ codes ".m4s")

-- Three decimals of milliseconds.
unfoldable pub seconds : ℕ → Bytes
seconds ms =
    decimal (ms / 1000)
    ++ (codes "." ++ ((48 + ms / 100 % 10) ∷ (48 + ms / 10 % 10) ∷ (48 + ms % 10) ∷ []))

unfoldable pub entries : List (Bytes × ℕ) → Bytes
entries [] = []
entries ((name, ms) ∷ window) =
    codes "#EXTINF:" ++ (seconds ms ++ (codes ",\n" ++ (name ++ (codes "\n" ++ entries window))))

abbrev pub ceil_secs : ℕ → ℕ
ceil_secs ms = (ms + 999) / 1000

-- `EXT-X-TARGETDURATION`.
unfoldable pub target_duration : ℕ → ℕ → ℕ
target_duration secs max_ms = min (max secs (max (ceil_secs max_ms) 1)) (2 ^ 32 - 1)

unfoldable pub playlist : ℕ → ℕ → Bytes → List (Bytes × ℕ) → Bool → Bytes
playlist target media_sequence init window finished =
    codes "#EXTM3U\n#EXT-X-VERSION:7\n#EXT-X-TARGETDURATION:"
    ++ (decimal target
        ++ (codes "\n#EXT-X-MEDIA-SEQUENCE:"
            ++ (decimal media_sequence
                ++ (codes "\n#EXT-X-INDEPENDENT-SEGMENTS\n#EXT-X-MAP:URI=\""
                    ++ (init
                        ++ (codes "\"\n"
                            ++ (entries window
                                ++ (if finished then codes "#EXT-X-ENDLIST\n" else []))))))))
