-- ===== src/Examples/Media.antt =====
-- core/src/codecs and core/src/mux.rs: runs, and the theorems at concrete packets.
use strym_core.Common.{
  ◌≤◌, ◌<◌, ◌≡◌, ◌≢◌, ◌↔◌, ◌⊎◌, refl, true, false, [], ◌∷◌, some, none, arith, Bytes, All,
}
use strym_core.Common.Int.{ℤ, pos, negsuc, ◌≤ℤ◌}
use strym_core.Common.Result.{ok, err}
use strym_core.Io.{vec_write}
use strym_core.Models.{audio, MediaPacket}
use strym_core.Codecs.Aac.{AdtsHeader, parse_adts, parse_asc, build_asc}
use strym_core.Codecs.Aac.Config.{parse_asc-build_asc, parse_adts_fits}
use strym_core.Codecs.H264.{
  split_annex_b, to_length_prefixed, from_length_prefixed, extract_sps_pps_from_avcc, build_avcc,
}
use strym_core.Codecs.H264.Prefixed.{from_length_prefixed-to_length_prefixed}
use strym_core.Codecs.H264.Units.{IsPart, split_annex_b-IsPart}
use strym_core.Codecs.H264.Avcc.{extract-build_avcc}
use strym_core.Mux.{
  FlvMuxer, write_packet, ordering, get_dts, rebase, before_media, ensure_header, sniff_video,
  sniff_audio,
}
use strym_core.Mux.Order.{write_packet_marks}
use strym_core.Mux.Refusal.{IsLate, write_packet-ordering, rebase-write_packet}

abbrev two_units : Bytes
two_units = 0 ∷ 0 ∷ 0 ∷ 1 ∷ 0x67 ∷ 0x42 ∷ 0 ∷ 0 ∷ 1 ∷ 0x65 ∷ 0x88 ∷ 0x84 ∷ []

split_two : split_annex_b two_units ≡ (0x67 ∷ 0x42 ∷ []) ∷ (0x65 ∷ 0x88 ∷ 0x84 ∷ []) ∷ []
unfolding split_annex_b
split_two = refl

abbrev adts : Bytes
adts = 0xff ∷ 0xf1 ∷ 0x50 ∷ 0x80 ∷ 0x01 ∷ 0x00 ∷ 0x00 ∷ 0xde ∷ 0xad ∷ []

abbrev lc_stereo : AdtsHeader
lc_stereo = record {
  object_type = 2;
  sampling_frequency_index = 4;
  channel_config = 2;
  frame_length = 8;
  header_length = 7;
}

parse_adts_run : parse_adts adts ≡ some lc_stereo
unfolding parse_adts
parse_adts_run = refl

parse_asc-build_asc_example :
    parse_asc (build_asc lc_stereo)
    ≡ some (record { object_type = 2; sampling_frequency_index = 4; channel_config = 2 })
parse_asc-build_asc_example =
    parse_asc-build_asc lc_stereo (omega arith) (omega arith) (omega arith) (omega arith)

parse_adts_fits_example :
    (1 ≤ 2)
    × (2 ≤ 4)
    × (4 < 16)
    × (2 < 8)
    × ((lc_stereo.header_length ≡ 7) ⊎ (lc_stereo.header_length ≡ 9))
    × (7 ≤ 9)
parse_adts_fits_example = parse_adts_fits adts lc_stereo parse_adts_run

from_length_prefixed-to_length_prefixed_example :
    from_length_prefixed (to_length_prefixed ((0x65 ∷ 0x88 ∷ []) ∷ (0x41 ∷ []) ∷ []))
    ≡ some ((0x65 ∷ 0x88 ∷ []) ∷ (0x41 ∷ []) ∷ [])
from_length_prefixed-to_length_prefixed_example =
    from_length_prefixed-to_length_prefixed ((0x65 ∷ 0x88 ∷ []) ∷ (0x41 ∷ []) ∷ []) (omega arith)

split_annex_b-IsPart_example : All (IsPart 12) (split_annex_b two_units)
split_annex_b-IsPart_example = split_annex_b-IsPart two_units

extract-build_avcc_example :
    extract_sps_pps_from_avcc (build_avcc (0x67 ∷ 0x42 ∷ 0 ∷ 0x1e ∷ []) (0x68 ∷ 0xce ∷ []))
    ≡ some (0x67 ∷ 0x42 ∷ 0 ∷ 0x1e ∷ [], 0x68 ∷ 0xce ∷ [])
extract-build_avcc_example =
    extract-build_avcc (0x67 ∷ 0x42 ∷ 0 ∷ 0x1e ∷ []) (0x68 ∷ 0xce ∷ []) (omega arith) (omega arith)

-- A muxer that is past its headers, with audio muxed up to 500 ms.
abbrev running : FlvMuxer Bytes
running = record {
  sink = [];
  state = record { header_written = true; video_seq_written = true; audio_seq_written = true };
  origin = some (pos 1000);
  last_dts = record { last_video = pos 480; last_audio = pos 500 };
  avcc = none;
  asc = none;
  bytes_written = 0;
}

abbrev frame_at : ℤ → MediaPacket
frame_at t = record {
  kind = audio;
  pts = t;
  dts = t;
  is_key = false;
  payload = 0x21 ∷ 0 ∷ 0x49 ∷ [];
}

write_packet_marks_example :
    get_dts running.last_dts audio
    ≤ℤ get_dts (write_packet vec_write (frame_at (pos 1450)) running).1.last_dts audio
write_packet_marks_example = write_packet_marks vec_write (frame_at (pos 1450)) running audio

running_ready : (before_media vec_write (frame_at (pos 1200)) running).0 ≡ ok tt
unfolding before_media ensure_header sniff_video sniff_audio
running_ready = refl

write_packet-ordering_example :
    ((write_packet vec_write (frame_at (pos 1200)) running).0 ≡ err ordering)
    ↔ IsLate vec_write running (frame_at (pos 1200))
write_packet-ordering_example =
    write_packet-ordering vec_write (frame_at (pos 1200)) running running_ready

rebase-write_packet_example :
    (write_packet vec_write (frame_at (negsuc 41)) (rebase running audio (negsuc 41))).0
    ≢ err ordering
rebase-write_packet_example =
    rebase-write_packet vec_write (frame_at (negsuc 41)) running (omega arith)
      (unfold get_dts in omega arith)
