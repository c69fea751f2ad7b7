-- ===== src/Mux/Refusal.antt =====
-- When a packet is refused for its timestamp, and what `rebase` is good for.
use strym_core.Common.{ℕ, ◌≡◌, ◌≢◌, ◌↔◌, true, arith, Bytes}
use strym_core.Common.Int.{ℤ, pos, negsuc, sub_i64, max_ℤ, ltb_ℤ, pos_part, IsI64, sub_i64-sub_i64}
use strym_core.Common.Result.{ok, err}
use strym_core.Io.{Write}
use strym_core.Models.{MediaPacket}
use strym_core.Mux.{
  ordering, FlvMuxer, get_dts, sink_write, ensure_header, write_tag, write_video_sequence,
  write_audio_sequence, sniff_video, sniff_audio, normalize, order, origin_or, write_media,
  before_media, write_timed, write_packet, rebase, reorder_tolerance_ms,
}
use strym_core.Mux.Order.{before_media-Keeps}

-- The anchor of `rebase`.
max_ℤ-zero : (a : ℤ) → max_ℤ a (pos 0) ≡ pos (pos_part a)
unfolding max_ℤ
max_ℤ-zero (pos n) = ground arith
max_ℤ-zero (negsuc n) = ground arith

module _ {W : Type 0} (w : Write W) where
  -- The packet lies further behind its track than the tolerance.
  abbrev pub IsLate : FlvMuxer W → MediaPacket → Type 0
  IsLate m pkt =
      let raw = sub_i64 pkt.dts (origin_or m.origin pkt.dts) in
      let last = get_dts m.last_dts pkt.kind in
      (ltb_ℤ raw last ≡ true) × (ltb_ℤ (pos reorder_tolerance_ms) (sub_i64 last raw) ≡ true)

  -- No other step raises an ordering error.
  write_tag-ne-ordering :
      (k : ℕ) (ts : ℤ) (b : Bytes) (m : FlvMuxer W) → (write_tag w k ts b m).0 ≢ err ordering
  unfolding write_tag sink_write
  write_tag-ne-ordering k ts b m = ground arith

  ensure_header-ne-ordering : (m : FlvMuxer W) → (ensure_header w m).0 ≢ err ordering
  unfolding ensure_header sink_write
  ensure_header-ne-ordering m = ground arith

  write_video_sequence-ne-ordering :
      (b : Bytes) (m : FlvMuxer W) → (write_video_sequence w b m).0 ≢ err ordering
  unfolding write_video_sequence
  write_video_sequence-ne-ordering b m =
      grind (arith, ensure_header-ne-ordering, write_tag-ne-ordering)

  write_audio_sequence-ne-ordering :
      (b : Bytes) (m : FlvMuxer W) → (write_audio_sequence w b m).0 ≢ err ordering
  unfolding write_audio_sequence
  write_audio_sequence-ne-ordering b m =
      grind (arith, ensure_header-ne-ordering, write_tag-ne-ordering)

  before_media-ne-ordering :
      (pkt : MediaPacket) (m : FlvMuxer W) → (before_media w pkt m).0 ≢ err ordering
  unfolding before_media sniff_video sniff_audio
  before_media-ne-ordering pkt m = grind (
    arith, ensure_header-ne-ordering, write_video_sequence-ne-ordering,
    write_audio_sequence-ne-ordering,
  )

  write_media-ne-ordering :
      (pkt : MediaPacket) (ts cts : ℤ) (m : FlvMuxer W)
      → (write_media w pkt ts cts m).0 ≢ err ordering
  unfolding write_media
  write_media-ne-ordering pkt ts cts m = grind (arith, write_tag-ne-ordering)

  timed-late :
      (pkt : MediaPacket) (m : FlvMuxer W) → IsLate m pkt → (write_timed w pkt m).0 ≡ err ordering
  unfolding write_timed normalize order
  timed-late pkt m h = grind arith

  IsLate-timed :
      (pkt : MediaPacket) (m : FlvMuxer W) → (write_timed w pkt m).0 ≡ err ordering → IsLate m pkt
  unfolding write_timed normalize order
  IsLate-timed pkt m h = grind (arith, write_media-ne-ordering)

  -- Once the headers are out, `write_packet` answers an ordering error exactly when the packet's
  -- normalized DTS lies more than 100 ms behind the last one of its own track.
  pub write_packet-ordering :
      (pkt : MediaPacket) (m : FlvMuxer W)
      → (before_media w pkt m).0 ≡ ok tt
      → ((write_packet w pkt m).0 ≡ err ordering) ↔ IsLate m pkt
  unfolding write_packet
  write_packet-ordering pkt m h = (
    λ e. ground (arith, before_media-Keeps w pkt m, IsLate-timed pkt (before_media w pkt m).1),
    λ l. ground (arith, before_media-Keeps w pkt m, timed-late pkt (before_media w pkt m).1),
  )

  rebased_not-IsLate :
      (pkt : MediaPacket) (m : FlvMuxer W)
      → IsI64 pkt.dts
      → IsI64 (get_dts m.last_dts pkt.kind)
      → ¬ IsLate (rebase m pkt.kind pkt.dts) pkt
  unfolding rebase
  rebased_not-IsLate pkt m h k l =
      let last = get_dts m.last_dts pkt.kind in
      ground (arith, max_ℤ-zero last, sub_i64-sub_i64 pkt.dts (pos_part last) h (omega arith))

  -- After `rebase` by a packet, that packet is never refused for its timestamp, whatever the clock
  -- did.
  pub rebase-write_packet :
      (pkt : MediaPacket) (m : FlvMuxer W)
      → IsI64 pkt.dts
      → IsI64 (get_dts m.last_dts pkt.kind)
      → (write_packet w pkt (rebase m pkt.kind pkt.dts)).0 ≢ err ordering
  unfolding write_packet
  rebase-write_packet pkt m h k e =
      let m' = rebase m pkt.kind pkt.dts in
      ground (
        arith,
        before_media-Keeps w pkt m',
        before_media-ne-ordering pkt m',
        IsLate-timed pkt (before_media w pkt m').1,
        rebased_not-IsLate pkt m h k,
      )
