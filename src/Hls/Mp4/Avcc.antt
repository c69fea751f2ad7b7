-- ===== src/Hls/Mp4/Avcc.antt =====
-- The initialization segment hands the decoder configuration on.
use strym_core.Common.{
  ℕ, ◌+◌, ◌<◌, ◌^◌, ◌≡◌, refl, ap, ◌∙◌, arith, Option, some, ◌++◌, length, length-append, drop,
  append_assoc, Bytes, replicate,
}
use strym_core.Common.Text.{codes}
use strym_core.Hls.Mp4.{mp4_box, full_box, video_timescale, video_track_id}
use strym_core.Hls.Mp4.Init.{
  VideoTrack, AudioTrack, init_segment, moov, mvhd, ftyp, mvex, video_trak, audio_trak, of_track,
  next_track, tkhd, mdhd, hdlr, video_mdia, video_minf, stbl, stsd, dinf, dref, avc1_entry,
  empty_table, stsz_empty,
}
use strym_core.Hls.Mp4.Boxes.{length-mp4_box}
use strym_core.Hls.Mp4.Reader.{
  find, and_then, find_avcc, find-here, find-last, pass-ftyp, pass-mvhd, pass-tkhd, pass-mdhd,
  pass-hdlr, pass-vmhd, pass-dinf, length-dref,
}

some_then :
    (o : Option Bytes) (b : Bytes) (f : Bytes → Option Bytes) → o ≡ some b → and_then o f ≡ f b
some_then o b f e = ap (λ p. and_then p f) e

module _ (v : VideoTrack) where
  length-avc1 : length (avc1_entry v) ≡ 94 + length v.avcc
  unfolding avc1_entry mp4_box
  length-avc1 = omega arith

  abbrev tables : Bytes
  tables =
      empty_table (codes "stts")
      ++ (empty_table (codes "stsc") ++ (stsz_empty ++ empty_table (codes "stco")))

  length-tables : length tables ≡ 68
  unfolding empty_table stsz_empty full_box mp4_box
  length-tables = refl

  length-stsd : length (stsd (avc1_entry v)) ≡ 110 + length v.avcc
  unfolding stsd full_box mp4_box
  length-stsd = omega (arith, length-avc1)

  length-stbl : length (stbl (avc1_entry v)) ≡ 186 + length v.avcc
  unfolding stbl
  length-stbl = omega (
    arith,
    length-mp4_box b's' b't' b'b' b'l' (stsd (avc1_entry v) ++ tables),
    length-append (stsd (avc1_entry v)) tables,
    length-stsd,
    length-tables,
  )

  length-minf : length (video_minf v) ≡ 242 + length v.avcc
  unfolding dinf full_box mp4_box
  length-minf = omega (
    arith,
    length-stbl,
    length-append (dinf) (stbl (avc1_entry v)),
    length-dref,
    length-append (full_box (codes "vmhd") 0 1 (replicate 8 0)) (dinf ++ stbl (avc1_entry v)),
    length-mp4_box b'd' b'i' b'n' b'f' dref,
  )

  length-mdia : length (video_mdia v) ≡ 315 + length v.avcc
  unfolding mdhd hdlr full_box mp4_box
  length-mdia = omega (arith, length-minf)

  length-trak : length (video_trak v) ≡ 423 + length v.avcc
  unfolding video_trak tkhd full_box mp4_box
  length-trak = omega (arith, length-mdia)

  find_in_stbl :
      length v.avcc + 500 < 2 ^ 32
      → and_then (find 1 b's' b't' b's' b'd' (stsd (avc1_entry v) ++ tables)) (λ stsd.
        and_then
          (find 1 b'a' b'v' b'c' b'1' (drop 8 stsd))
          λ avc1. find 1 b'a' b'v' b'c' b'C' (drop 78 avc1))
        ≡ some v.avcc
  unfolding stsd full_box avc1_entry
  find_in_stbl h =
      some_then _ _ _ (find-here 0 b's' b't' b's' b'd' _ tables (omega (arith, length-avc1)))
      ∙ (some_then _ _ _ (
            find-last 0 b'a' b'v' b'c' b'1' _
              (omega (arith, length-mp4_box b'a' b'v' b'c' b'C' v.avcc)))
          ∙ find-last 0 b'a' b'v' b'c' b'C' v.avcc (omega arith))

  find_in_mdia :
      length v.avcc + 500 < 2 ^ 32
      → and_then (find 3 b'm' b'i' b'n' b'f' (video_mdia v)) (λ minf.
        and_then (find 3 b's' b't' b'b' b'l' minf) λ stbl.
          and_then (find 1 b's' b't' b's' b'd' stbl) λ stsd.
            and_then
              (find 1 b'a' b'v' b'c' b'1' (drop 8 stsd))
              λ avc1. find 1 b'a' b'v' b'c' b'C' (drop 78 avc1))
        ≡ some v.avcc
  unfolding stbl
  find_in_mdia h =
      some_then _ _ _ (
        pass-mdhd 2 video_timescale _
        ∙ (pass-hdlr 1 _
            ∙ find-last 0 b'm' b'i' b'n' b'f' (video_minf v) (omega (arith, length-minf))))
      ∙ (some_then _ _ _ (
            pass-vmhd 2 _
            ∙ (pass-dinf 1 _
                ∙ find-last 0 b's' b't' b'b' b'l' (stsd (avc1_entry v) ++ tables) (
                    omega (
                      arith,
                      length-append (stsd (avc1_entry v)) tables,
                      length-stsd,
                      length-tables,
                    ))))
          ∙ find_in_stbl h)

  find_in_moov :
      (k : ℕ) (rest : Bytes)
      → length v.avcc + 500 < 2 ^ 32
      → and_then (find 2 b't' b'r' b'a' b'k' (mvhd k ++ (video_trak v ++ rest))) (λ trak.
        and_then (find 2 b'm' b'd' b'i' b'a' trak) λ mdia.
          and_then (find 3 b'm' b'i' b'n' b'f' mdia) λ minf.
            and_then (find 3 b's' b't' b'b' b'l' minf) λ stbl.
              and_then (find 1 b's' b't' b's' b'd' stbl) λ stsd.
                and_then
                  (find 1 b'a' b'v' b'c' b'1' (drop 8 stsd))
                  λ avc1. find 1 b'a' b'v' b'c' b'C' (drop 78 avc1))
        ≡ some v.avcc
  unfolding video_trak
  find_in_moov k rest h =
      some_then _ _ _ (
        pass-mvhd 1 k _
        ∙ find-here 0 b't' b'r' b'a' b'k' _ rest (
            omega (
              arith,
              length-trak,
              length-mp4_box b't' b'r' b'a' b'k'
                  (tkhd video_track_id v.width v.height 0 ++ mp4_box (codes "mdia") (video_mdia v)),
            )))
      ∙ (some_then _ _ _ (
            pass-tkhd 1 video_track_id v.width v.height 0 _
            ∙ find-last 0 b'm' b'd' b'i' b'a' (video_mdia v) (omega (arith, length-mdia)))
          ∙ find_in_mdia h)

length-mvhd : (k : ℕ) → length (mvhd k) ≡ 108
unfolding mvhd full_box mp4_box
length-mvhd k = refl

-- A player that goes down from the initialization segment through the boxes of the first track to
-- its sample description finds the decoder configuration, byte for byte, whatever the dimensions
-- and whether an audio track stands behind it, while the file is shorter than 2 ^ 32 bytes.
pub find_avcc-init_segment :
    (v : VideoTrack) (audio : Option AudioTrack)
    → length (init_segment (some v) audio) < 2 ^ 32
    → find_avcc (init_segment (some v) audio) ≡ some v.avcc
unfolding find_avcc init_segment moov
find_avcc-init_segment v audio h =
    let body =
      mvhd (next_track (some v) audio)
      ++ ((video_trak v ++ of_track audio_trak audio) ++ mvex (some v) audio) in
    let size : 8 + length body < 2 ^ 32 = omega (
      arith,
      length-append ftyp (mp4_box (codes "moov") body),
      length-mp4_box b'm' b'o' b'o' b'v' body,
    ) in
    some_then _ _ _ (pass-ftyp 1 _ ∙ find-last 0 b'm' b'o' b'o' b'v' body size)
    ∙ rw (append_assoc (video_trak v) (of_track audio_trak audio) (mvex (some v) audio)) (
        find_in_moov v (next_track (some v) audio)
          (of_track audio_trak audio ++ mvex (some v) audio)
          (omega (
            arith,
            length-trak v,
            length-mvhd (next_track (some v) audio),
            length-append (mvhd (next_track (some v) audio))
                ((video_trak v ++ of_track audio_trak audio) ++ mvex (some v) audio),
            length-append (video_trak v ++ of_track audio_trak audio) (mvex (some v) audio),
            length-append (video_trak v) (of_track audio_trak audio),
          )))
