-- ===== src/Pipeline/History.antt =====
-- Any history of calls on a muxer that writes into a `Vec<u8>`.
use strym_core.Common.{
  ◌≡◌, refl, ◌⊎◌, inl, inr, sym, ap, ◌∙◌, true, false, Option, none, some, List, [], ◌∷◌, ◌++◌,
  Bytes, append_assoc,
}
use strym_core.Common.Int.{ℤ}
use strym_core.Common.Result.{pure}
use strym_core.Io.{vec_write}
use strym_core.Models.{MediaKind, MediaPacket, StreamConfig}
use strym_core.Rtmp.FlvTags.{FlvTag}
use strym_core.Rtmp.FlvTags.Stream.{stream}
use strym_core.Mux.{
  new, restore_timebase, rebase, flush_sink, write_metadata, init_codecs, write_packet, flv_header,
  ensure_header, write_tag, header_ts, tag_script, write_video_sequence, write_audio_sequence,
}
use strym_core.Mux.Metadata.{on_metadata}
use strym_core.Pipeline.Output.{
  Vec, AddsSome, ensure_header-Adds, write_tag-Adds, write_video_sequence-Adds,
  write_audio_sequence-Adds, stream-append,
}
use strym_core.Pipeline.Packet.{then-Adds, Adds-refl, write_packet-Adds}

pub data Call : Type 0 where
  metadata : StreamConfig → Call
  codecs : Option Bytes → Option Bytes → Call
  packets : MediaPacket → Call
  rebases : MediaKind → ℤ → Call
  restores : Option ℤ → ℤ → ℤ → Call
  flushes : Call

unfoldable pub call : Vec → Call → Vec
call m (metadata c) = (write_metadata vec_write c m).1
call m (codecs avcc asc) = (init_codecs vec_write avcc asc m).1
call m (packets pkt) = (write_packet vec_write pkt m).1
call m (rebases kind dts) = rebase m kind dts
call m (restores origin v a) = restore_timebase m origin v a
call m flushes = (flush_sink vec_write m).1

unfoldable pub run : Vec → List Call → Vec
run m [] = m
run m (c ∷ cs) = run (call m c) cs

-- Nothing yet, or one FLV header and whole tags behind it.
abbrev pub IsFlv : Vec → Type 0
IsFlv m =
    ((m.state.header_written ≡ false) × (m.sink ≡ []))
    ⊎ ((ts : List FlvTag) × (m.state.header_written ≡ true) × (m.sink ≡ flv_header ++ stream ts))

Adds-IsFlv : (m n : Vec) → AddsSome m n → IsFlv m → IsFlv n
Adds-IsFlv m n (ts, h) (inl (shut, e)) = inr (ts, h.is_open, h.written ∙ rw (shut, e) refl)
Adds-IsFlv m n (ts, h) (inr (us, is_open, e)) = inr (
  us ++ ts,
  h.is_open,
  h.written
      ∙ rw (is_open, e)
          (append_assoc flv_header (stream us) (stream ts)
            ∙ ap (λ b. flv_header ++ b) (sym (stream-append us ts))),
)

write_metadata-Adds : (c : StreamConfig) (m : Vec) → AddsSome m (write_metadata vec_write c m).1
unfolding write_metadata
write_metadata-Adds c m =
    then-Adds (ensure_header vec_write)
      (λ n. write_tag vec_write tag_script (header_ts n) (on_metadata c) n) m
      ([], ensure_header-Adds m)
      (λ n h. (_, write_tag-Adds tag_script (header_ts n) (on_metadata c) n h))

-- What tags do not destroy, the codec configurations do not either.
pub init_codecs-closed :
    (P : Vec → Type 0)
    → ((m n : Vec) → AddsSome m n → P m → P n)
    → (avcc asc : Option Bytes) (m : Vec) → P m
    → P (init_codecs vec_write avcc asc m).1
unfolding init_codecs
init_codecs-closed P closed none none m h = h
init_codecs-closed P closed none (some b) m h = closed m _ (write_audio_sequence-Adds b m) h
init_codecs-closed P closed (some a) none m h =
    closed m _
      (then-Adds (write_video_sequence vec_write a) (pure tt) m (write_video_sequence-Adds a m)
        Adds-refl)
      h
init_codecs-closed P closed (some a) (some b) m h =
    closed m _
      (then-Adds (write_video_sequence vec_write a) (write_audio_sequence vec_write b) m
        (write_video_sequence-Adds a m) (λ n _. write_audio_sequence-Adds b n))
      h

call-IsFlv : (m : Vec) (c : Call) → IsFlv m → IsFlv (call m c)
unfolding call
call-IsFlv m (metadata c) h = Adds-IsFlv m _ (write_metadata-Adds c m) h
call-IsFlv m (codecs avcc asc) h = init_codecs-closed IsFlv Adds-IsFlv avcc asc m h
call-IsFlv m (packets pkt) h = Adds-IsFlv m _ (write_packet-Adds pkt m) h
call-IsFlv m (rebases kind dts) h = unfold rebase in h
call-IsFlv m (restores origin v a) h = unfold restore_timebase in h
call-IsFlv m flushes h = unfold flush_sink in h

run-IsFlv : (m : Vec) (cs : List Call) → IsFlv m → IsFlv (run m cs)
unfolding run
run-IsFlv m [] h = h
run-IsFlv m (c ∷ cs) h = run-IsFlv (call m c) cs (call-IsFlv m c h)

-- After any calls, failed ones included, a muxer that started on an empty vector has written
-- nothing, or exactly one FLV header and whole tags behind it.
pub run-new-IsFlv : (cs : List Call) → IsFlv (run (new []) cs)
run-new-IsFlv cs = run-IsFlv (new []) cs (unfold new in inl (refl, refl))
