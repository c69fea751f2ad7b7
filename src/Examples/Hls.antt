-- ===== src/Examples/Hls.antt =====
-- Tests and witnesses of the HLS output.
use strym_core.Common.{
  ℕ, Bool, ◌≡◌, ◌<◌, ◌+◌, ◌^◌, refl, true, some, List, [], ◌∷◌, ◌++◌, arith, length,
}
use strym_core.Common.Int.{pos, negsuc}
use strym_core.Common.Text.{codes, decimal}
use strym_core.Hls.Mp4.{
  Fragment, FragmentSample, media_segment, styp, trafs, traf, trun, full_box, mp4_box,
  sample_entries, total_payload, payload_size,
}
use strym_core.Hls.Mp4.Segment.{Addressed, first_offset, moof_and_mdat, media_segment-Addressed}
use strym_core.Hls.Mp4.Init.{
  VideoTrack, AudioTrack, init_segment, moov, mvhd, ftyp, mvex, video_trak, audio_trak, tkhd, mdhd,
  hdlr, dinf, dref, stbl, stsd, empty_table, stsz_empty, avc1_entry, mp4a_entry, esds, trex,
}
use strym_core.Hls.Mp4.Avcc.{find_avcc-init_segment}
use strym_core.Hls.Mp4.Reader.{find_avcc}
use strym_core.Models.{MediaPacket, video}
use strym_core.Hls.Storage.{memory_storage}
use strym_core.Hls.Output
use strym_core.Hls.Output.Stored.{IsDistinct}
use strym_core.Hls.Output.Filed.{IsFiled, HasPlaylist}
use strym_core.Hls.Output.History.{Call, packet, finish, run, empty_storage, run-new-IsFiled}
use strym_core.Hls.Playlist.{default_config, segment_name, playlist, entries, seconds}

abbrev picture : FragmentSample
picture = record {
  duration = 3000;
  payload = 0 ∷ 0 ∷ 0 ∷ 1 ∷ 0x65 ∷ [];
  flags = 0x200_0000;
  composition_offset = negsuc 2;
}

abbrev sound : FragmentSample
sound = record {
  duration = 1024;
  payload = 0x21 ∷ 0x22 ∷ [];
  flags = 0x200_0000;
  composition_offset = pos 0;
}

abbrev two_tracks : List Fragment
two_tracks =
    record { track_id = 1; base_decode_time = 90000; samples = picture ∷ picture ∷ [] }
    ∷ record { track_id = 2; base_decode_time = 48000; samples = sound ∷ [] }
    ∷ []

two_tracks_fit : first_offset two_tracks + total_payload two_tracks < 2 ^ 32
unfolding trafs traf trun full_box mp4_box sample_entries total_payload payload_size
two_tracks_fit = omega arith

media_segment-Addressed_example :
    (media_segment 7 two_tracks ≡ styp ++ moof_and_mdat 7 two_tracks)
    × Addressed (moof_and_mdat 7 two_tracks) (first_offset two_tracks) two_tracks
media_segment-Addressed_example = media_segment-Addressed 7 two_tracks two_tracks_fit

abbrev portrait : VideoTrack
portrait = record { avcc = 1 ∷ 0x42 ∷ 0 ∷ 0x1e ∷ 0xff ∷ []; width = 240; height = 320 }

abbrev stereo : AudioTrack
stereo = record { asc = 0x11 ∷ 0x90 ∷ []; sample_rate = 48000; channels = 2; bitrate = 128000 }

portrait_fits : length (init_segment (some portrait) (some stereo)) < 2 ^ 32
unfolding init_segment moov mvhd ftyp mvex video_trak audio_trak tkhd mdhd hdlr dinf dref stbl stsd
    empty_table stsz_empty avc1_entry mp4a_entry esds trex full_box mp4_box
portrait_fits = omega arith

find_avcc-init_segment_example :
    find_avcc (init_segment (some portrait) (some stereo)) ≡ some (1 ∷ 0x42 ∷ 0 ∷ 0x1e ∷ 0xff ∷ [])
find_avcc-init_segment_example = find_avcc-init_segment portrait (some stereo) portrait_fits

playlist_text :
    playlist 4 1 (codes "init.mp4") ((codes "seg1.m4s", 4033) ∷ []) true
    ≡ codes
        "#EXTM3U\n#EXT-X-VERSION:7\n#EXT-X-TARGETDURATION:4\n#EXT-X-MEDIA-SEQUENCE:1\n#EXT-X-INDEPENDENT-SEGMENTS\n#EXT-X-MAP:URI=\"init.mp4\"\n#EXTINF:4.033,\nseg1.m4s\n#EXT-X-ENDLIST\n"
unfolding playlist entries seconds decimal
playlist_text = refl

default_config-IsDistinct : IsDistinct default_config
unfolding segment_name
default_config-IsDistinct = record {
  init_apart = λ i e. ground arith;
  playlist_apart = λ i e. ground arith;
  two_files = λ e. ground arith;
}

-- A frame with its parameter sets, as a keyframe at a time.
abbrev frame : ℕ → Bool → MediaPacket
frame ms is_key = record {
  kind = video;
  pts = pos ms;
  dts = pos ms;
  is_key = is_key;
  payload =
      0 ∷ 0 ∷ 0 ∷ 1 ∷ 0x67 ∷ 0x42 ∷ 0 ∷ 0x1e ∷ 0 ∷ 0 ∷ 0 ∷ 1 ∷ 0x68 ∷ 0xce ∷ 0 ∷ 0 ∷ 0 ∷ 1 ∷ 0x65
      ∷ 0x88 ∷ [];
}

abbrev three_calls : List Call
three_calls = packet (frame 0 true) ∷ packet (frame 4000 true) ∷ finish ∷ []

run-new-IsFiled_example :
    IsFiled (run memory_storage three_calls (Output.new default_config empty_storage))
    × HasPlaylist (run memory_storage three_calls (Output.new default_config empty_storage))
run-new-IsFiled_example =
    run-new-IsFiled default_config three_calls default_config-IsDistinct (omega arith)
