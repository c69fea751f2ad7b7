-- ===== src/Examples/Wire.antt =====
-- The FLV stream between the muxer, the tag parser and the decoder: runs, and the theorems at
-- concrete inputs.
use strym_core.Common.{◌≡◌, ◌≢◌, refl, true, [], ◌∷◌, ◌++◌, some, none, arith, length, Bytes}
use strym_core.Common.Int.{ℤ, pos, negsuc}
use strym_core.Common.Result.{ok}
use strym_core.Io.{vec_write}
use strym_core.Models.{video, audio, MediaPacket}
use strym_core.Codecs.H264
use strym_core.Codecs.H264.{split_annex_b}
use strym_core.Common.Int
use strym_core.Rtmp.FlvTags.{FlvTag, FlvTagParser, feed, tags, stuck, new}
use strym_core.Rtmp.FlvTags
use strym_core.Rtmp.FlvTags.Steps.{feed-ne-stuck}
use strym_core.Rtmp.FlvTags.Pieces.{feed-append, feed_on}
use strym_core.Rtmp.FlvTags.Stream.{feed-stream, stream}
use strym_core.Mux
use strym_core.Mux.{FlvMuxer, flv_header, write_packet, get_dts}
use strym_core.Flv.{decode_tag, packet}
use strym_core.Pipeline.Output.{Adds}
use strym_core.Pipeline.Packet.{media_tag}
use strym_core.Pipeline.Written.{missing, mark, packet_tag, write_packet_tag}
use strym_core.Pipeline.History.{IsFlv, packets, codecs, rebases, run, run-new-IsFlv}
use strym_core.Pipeline.RoundTrip.{received, decode-media_tag}

abbrev one_tag : FlvTag
one_tag = record { mtype = 8; ts = 23; body = 0xaf ∷ 1 ∷ 0x21 ∷ [] }

feed-stream_example :
    feed new (flv_header ++ stream (one_tag ∷ one_tag ∷ []))
    ≡ tags (one_tag ∷ one_tag ∷ []) (record { phase = FlvTags.tag_header; buf = []; cur = none })
feed-stream_example = feed-stream (one_tag ∷ one_tag ∷ []) (omega arith)

feed-append_example :
    feed new ((0x46 ∷ 0x4c ∷ []) ++ (0x56 ∷ 1 ∷ 5 ∷ []))
    ≡ feed_on (feed new (0x46 ∷ 0x4c ∷ [])) (0x56 ∷ 1 ∷ 5 ∷ [])
feed-append_example = feed-append new (0x46 ∷ 0x4c ∷ []) (0x56 ∷ 1 ∷ 5 ∷ [])

feed-ne-stuck_example : feed new (0x46 ∷ 0x4c ∷ []) ≢ stuck
feed-ne-stuck_example = feed-ne-stuck new (0x46 ∷ 0x4c ∷ [])

abbrev key_frame : MediaPacket
key_frame = record {
  kind = video;
  pts = pos 1040;
  dts = pos 1000;
  is_key = true;
  payload =
      0 ∷ 0 ∷ 0 ∷ 1 ∷ 0x67 ∷ 0x42 ∷ 0 ∷ 0x1e ∷ 0 ∷ 0 ∷ 0 ∷ 1 ∷ 0x68 ∷ 0xce ∷ 0 ∷ 0 ∷ 1 ∷ 0x65 ∷ 0x88
      ∷ [];
}

abbrev fresh : FlvMuxer Bytes
fresh = Mux.new []

key_frame_ok : (write_packet vec_write key_frame fresh).0 ≡ ok tt
unfolding write_packet Mux.new Mux.before_media Mux.ensure_header Mux.sink_write Mux.sniff_video
    H264.annexb_to_avcc H264.extract_sps_pps split_annex_b Mux.write_video_sequence Mux.write_tag
    Mux.sniff_audio Mux.write_timed Mux.normalize Mux.order Int.wrap_i64 Int.◌-ℤ◌ Mux.get_dts
    Mux.write_media
key_frame_ok = refl

write_packet_tag_example :
    Adds fresh
      (write_packet vec_write key_frame fresh).1
      (missing key_frame fresh ++ (packet_tag key_frame fresh ∷ []))
    × (get_dts (write_packet vec_write key_frame fresh).1.last_dts video ≡ mark key_frame fresh)
write_packet_tag_example = write_packet_tag key_frame fresh key_frame_ok

-- A new muxer misses the header of a keyframe that carries parameter sets.
missing_one : length (missing key_frame fresh) ≡ 1
unfolding missing Mux.new H264.annexb_to_avcc H264.extract_sps_pps split_annex_b
missing_one = refl

run-new-IsFlv_example : IsFlv (
    run fresh
      (codecs none (some (0x0a ∷ 0x10 ∷ [])) ∷ packets key_frame ∷ rebases audio (pos 3) ∷ []))
run-new-IsFlv_example =
    run-new-IsFlv
      (codecs none (some (0x0a ∷ 0x10 ∷ [])) ∷ packets key_frame ∷ rebases audio (pos 3) ∷ [])

key_frame_split :
    split_annex_b key_frame.payload
    ≡ (0x67 ∷ 0x42 ∷ 0 ∷ 0x1e ∷ []) ∷ (0x68 ∷ 0xce ∷ []) ∷ (0x65 ∷ 0x88 ∷ []) ∷ []
unfolding split_annex_b
key_frame_split = refl

key_frame_units : split_annex_b key_frame.payload ≢ []
key_frame_units e = cc key_frame_split

decode-media_tag_example :
    decode_tag
      (media_tag key_frame fresh).mtype
      (media_tag key_frame fresh).ts
      (media_tag key_frame fresh).body
    ≡ some (packet (received key_frame fresh))
decode-media_tag_example = decode-media_tag key_frame fresh (omega arith) (λ _. key_frame_units)
