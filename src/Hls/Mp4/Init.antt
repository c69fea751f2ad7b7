-- ===== src/Hls/Mp4/Init.antt =====
-- core/src/hls/mp4.rs: the initialization segment, `ftyp` and `moov`.
use strym_core.Common.{
  ℕ, ◌+◌, ◌*◌, ◌%◌, Option, none, some, [], ◌∷◌, ◌++◌, length, replicate, Bytes, as_u8, as_u16,
  as_u32, be16, be32, max,
}
use strym_core.Common.Text.{codes}
use strym_core.Hls.Mp4.{mp4_box, full_box, video_timescale, video_track_id, audio_track_id}

abbrev pub unity_matrix : Bytes
unity_matrix =
    be32 0x1_0000
    ++ (be32 0
        ++ (be32 0
            ++ (be32 0 ++ (be32 0x1_0000 ++ (be32 0 ++ (be32 0 ++ (be32 0 ++ be32 0x4000_0000)))))))

-- Three letters of five bits.
abbrev pub language : ℕ → ℕ → ℕ → ℕ
language a b c = as_u16 (as_u16 (a % 32 * 32 + b % 32) * 32 + c % 32)

pub record VideoTrack : Type 0 where
  pub avcc : Bytes
  pub width : ℕ
  pub height : ℕ

pub record AudioTrack : Type 0 where
  pub asc : Bytes
  pub sample_rate : ℕ
  pub channels : ℕ
  pub bitrate : ℕ

-- `n` zero words.
abbrev pub zeros : ℕ → Bytes
zeros n = replicate (4 * n) 0

unfoldable pub ftyp : Bytes
ftyp =
    mp4_box (codes "ftyp")
      (codes "iso5" ++ (be32 512 ++ (codes "iso5" ++ (codes "iso6" ++ codes "mp41"))))

unfoldable pub mvhd : ℕ → Bytes
mvhd next_track_id = full_box (codes "mvhd") 0 0 (
    be32 0
    ++ (be32 0
        ++ (be32 1000
            ++ (be32 0
                ++ (be32 0x1_0000
                    ++ (be16 0x100
                        ++ (be16 0
                            ++ (be32 0
                                ++ (be32 0
                                    ++ (unity_matrix ++ (zeros 6 ++ be32 next_track_id)))))))))))

unfoldable pub tkhd : ℕ → ℕ → ℕ → ℕ → Bytes
tkhd track_id width height volume = full_box (codes "tkhd") 0 3 (
    be32 0
    ++ (be32 0
        ++ (be32 track_id
            ++ (be32 0
                ++ (be32 0
                    ++ (be32 0
                        ++ (be32 0
                            ++ (be16 0
                                ++ (be16 0
                                    ++ (be16 volume
                                        ++ (be16 0
                                            ++ (unity_matrix
                                                ++ (be32 (as_u32 (width * 65536))
                                                    ++ be32 (as_u32 (height * 65536)))))))))))))))

unfoldable pub mdhd : ℕ → Bytes
mdhd timescale = full_box (codes "mdhd") 0 0 (
    be32 0
    ++ (be32 0 ++ (be32 timescale ++ (be32 0 ++ (be16 (language b'u' b'n' b'd') ++ be16 0)))))

unfoldable pub hdlr : Bytes → Bytes
hdlr handler = full_box (codes "hdlr") 0 0 (be32 0 ++ (handler ++ (zeros 3 ++ 0 ∷ [])))

unfoldable pub dref : Bytes
dref = full_box (codes "dref") 0 0 (be32 1 ++ full_box (codes "url ") 0 1 [])

unfoldable pub dinf : Bytes
dinf = mp4_box (codes "dinf") dref

unfoldable pub empty_table : Bytes → Bytes
empty_table tag = full_box tag 0 0 (be32 0)

unfoldable pub stsz_empty : Bytes
stsz_empty = full_box (codes "stsz") 0 0 (be32 0 ++ be32 0)

unfoldable pub avc1_entry : VideoTrack → Bytes
avc1_entry track = mp4_box (codes "avc1") (
    replicate 6 0
    ++ (be16 1
        ++ (be16 0
            ++ (be16 0
                ++ (zeros 3
                    ++ (be16 (as_u16 track.width)
                        ++ (be16 (as_u16 track.height)
                            ++ (be32 0x48_0000
                                ++ (be32 0x48_0000
                                    ++ (be32 0
                                        ++ (be16 1
                                            ++ (replicate 32 0
                                                ++ (be16 0x18
                                                    ++ (be16 0xffff
                                                        ++ mp4_box (codes "avcC")
                                                            track.avcc))))))))))))))

-- The descriptors of `esds`, from the inside out.
abbrev pub dec_specific_info : AudioTrack → Bytes
dec_specific_info track = 0x05 ∷ as_u8 (length track.asc) ∷ track.asc

abbrev pub decoder_config : AudioTrack → Bytes
decoder_config track =
    0x04
      ∷ as_u8 (13 + length (dec_specific_info track))
      ∷ 0x40
      ∷ 0x15
      ∷ 0
      ∷ 0
      ∷ 0
      ∷ be32 track.bitrate
    ++ (be32 track.bitrate ++ dec_specific_info track)

abbrev pub sl_config : Bytes
sl_config = 0x06 ∷ 0x01 ∷ 0x02 ∷ []

unfoldable pub esds : AudioTrack → Bytes
esds track = full_box (codes "esds") 0 0 (
    0x03 ∷ as_u8 (3 + length (decoder_config track) + length sl_config) ∷ be16 1
    ++ (0 ∷ decoder_config track ++ sl_config))

unfoldable pub mp4a_entry : AudioTrack → Bytes
mp4a_entry track = mp4_box (codes "mp4a") (
    replicate 6 0
    ++ (be16 1
        ++ (be32 0
            ++ (be32 0
                ++ (be16 track.channels
                    ++ (be16 16
                        ++ (be16 0
                            ++ (be16 0
                                ++ (be32 (as_u32 (track.sample_rate * 65536)) ++ esds track)))))))))

unfoldable pub stsd : Bytes → Bytes
stsd sample_entry = full_box (codes "stsd") 0 0 (be32 1 ++ sample_entry)

unfoldable pub stbl : Bytes → Bytes
stbl sample_entry = mp4_box (codes "stbl") (
    stsd sample_entry
    ++ (empty_table (codes "stts")
        ++ (empty_table (codes "stsc") ++ (stsz_empty ++ empty_table (codes "stco")))))

abbrev pub video_minf : VideoTrack → Bytes
video_minf track = full_box (codes "vmhd") 0 1 (replicate 8 0) ++ (dinf ++ stbl (avc1_entry track))

abbrev pub audio_minf : AudioTrack → Bytes
audio_minf track = full_box (codes "smhd") 0 0 (replicate 4 0) ++ (dinf ++ stbl (mp4a_entry track))

abbrev pub video_mdia : VideoTrack → Bytes
video_mdia track =
    mdhd video_timescale ++ (hdlr (codes "vide") ++ mp4_box (codes "minf") (video_minf track))

abbrev pub audio_mdia : AudioTrack → Bytes
audio_mdia track =
    mdhd track.sample_rate ++ (hdlr (codes "soun") ++ mp4_box (codes "minf") (audio_minf track))

unfoldable pub video_trak : VideoTrack → Bytes
video_trak track =
    mp4_box (codes "trak")
      (tkhd video_track_id track.width track.height 0 ++ mp4_box (codes "mdia") (video_mdia track))

unfoldable pub audio_trak : AudioTrack → Bytes
audio_trak track =
    mp4_box (codes "trak")
      (tkhd audio_track_id 0 0 0x100 ++ mp4_box (codes "mdia") (audio_mdia track))

unfoldable pub trex : ℕ → Bytes
trex track_id =
    full_box (codes "trex") 0 0 (be32 track_id ++ (be32 1 ++ (be32 0 ++ (be32 0 ++ be32 0))))

-- What `if let Some(t) = track` appends.
abbrev pub of_track {ℓ} : {T : Type ℓ} → (T → Bytes) → Option T → Bytes
of_track f none = []
of_track f (some t) = f t

abbrev pub next_track : Option VideoTrack → Option AudioTrack → ℕ
next_track none none = 1
next_track (some v) none = max 1 (video_track_id + 1)
next_track none (some a) = max 1 (audio_track_id + 1)
next_track (some v) (some a) = max (max 1 (video_track_id + 1)) (audio_track_id + 1)

unfoldable pub mvex : Option VideoTrack → Option AudioTrack → Bytes
mvex video audio =
    mp4_box (codes "mvex")
      (of_track (λ v. trex video_track_id) video ++ of_track (λ a. trex audio_track_id) audio)

unfoldable pub moov : Option VideoTrack → Option AudioTrack → Bytes
moov video audio = mp4_box (codes "moov") (
    mvhd (next_track video audio)
    ++ ((of_track video_trak video ++ of_track audio_trak audio) ++ mvex video audio))

unfoldable pub init_segment : Option VideoTrack → Option AudioTrack → Bytes
init_segment video audio = ftyp ++ moov video audio
