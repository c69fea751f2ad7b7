-- ===== src/Hls/Output/History.antt =====
-- The files of an HLS output in memory, whatever calls it gets.
use strym_core.Common.{
  ◌+◌, ◌<◌, ◌^◌, ◌≡◌, inl, inr, refl, ap, sym, ◌∙◌, arith, Bool, true, false, not, ◌&&◌, Option,
  none, some, List, [], ◌∷◌, if◌then◌else◌, length, Bytes,
}
use strym_core.Common.Result.{Result, ok, ◌>>◌, Result-cases, bind-ok, bind-err}
use strym_core.Io.{IoError}
use strym_core.Hls.Playlist.{HlsConfig}
use strym_core.Hls.Storage.{HlsStorage, MemoryStorage, memory_storage, lookup}
use strym_core.Hls.Output
use strym_core.Hls.Output.{HlsOutput, is_some, take_video, take_audio, segment_ms, has_samples}
use strym_core.Hls.Output.Close.{write_playlist, close_segment}
use strym_core.Models.{MediaPacket, MediaKind, video, audio}
use mathlib.Core.Path.{subst}
use strym_core.Hls.Output.Packets.{
  push_video, push_audio, add_video, add_audio, sniff_avcc, sniff_audio, video_packet, audio_packet,
  of_kind, is_due,
}
use strym_core.Hls.Output.Packets
use strym_core.Hls.Output.Stored.{IsDistinct}
use strym_core.Hls.Output.Filed.{IsFiled, HasPlaylist}
use strym_core.Hls.Output.Calls.{
  Kept, Keeps, close_segment-Kept, add_video-Kept, add_audio-Kept, write_playlist-Kept,
  write_playlist_same, Kept-from, unchanged, Quiet, Kept-Quiet,
}

if-Kept :
    (o : HlsOutput MemoryStorage) (b : Bool)
    (x y : Result IoError (Unit {0}) × HlsOutput MemoryStorage)
    → Kept o x
    → Kept o y
    → Kept o (if b then x else y)
if-Kept o true x y h k = h
if-Kept o false x y h k = k

-- The state is left as it was but for the configurations and the flags.
idle :
    (o o' : HlsOutput MemoryStorage)
    → o'.cfg ≡ o.cfg
    → o'.sequence ≡ o.sequence
    → IsFiled o'
    → HasPlaylist o'
    → Kept o (ok tt, o')
idle o o' c n h p = Kept-from o o' (ok tt, o') c n (unchanged o' (ok tt) h p)

-- Three reasons to drop a packet.
unless-Kept :
    (o idle : HlsOutput MemoryStorage) (a b c : Bool)
    (r : Result IoError (Unit {0}) × HlsOutput MemoryStorage)
    → Kept o (ok tt, idle)
    → Kept o r
    → Kept o
        (if a then (ok tt, idle) else if b then (ok tt, idle) else if c then (ok tt, idle) else r)
unless-Kept o idle a b c r h k = if-Kept o a _ _ h (if-Kept o b _ _ h (if-Kept o c _ _ h k))

video_packet-Kept : (pkt : MediaPacket) → Keeps (video_packet memory_storage pkt)
unfolding video_packet sniff_avcc
video_packet-Kept pkt o d h p l =
    let o1 = sniff_avcc memory_storage pkt (record o { saw_video = true }) in
    unless-Kept o o1 (not (is_some o1.avcc)) (o1.init_written && not o1.init_has_video)
      (not o1.started && not pkt.is_key)
      (add_video memory_storage pkt (record o1 { started = true })) (idle o o1 refl refl h p)
      (Kept-from o (record o1 { started = true }) _ refl refl (add_video-Kept pkt _ d h p l))

audio_packet-Kept : (pkt : MediaPacket) → Keeps (audio_packet memory_storage pkt)
unfolding audio_packet sniff_audio
audio_packet-Kept pkt o d h p l =
    let o1 = sniff_audio memory_storage pkt o in
    unless-Kept o o1 (not (is_some o1.audio)) (o1.init_written && not o1.init_has_audio)
      (not o1.started && o1.saw_video) (add_audio memory_storage pkt (record o1 { started = true }))
      (idle o o1 refl refl h p)
      (Kept-from o (record o1 { started = true }) _ refl refl (add_audio-Kept pkt _ d h p l))

of_kind-Kept : (k : MediaKind) (pkt : MediaPacket) → Keeps (of_kind memory_storage k pkt)
of_kind-Kept video pkt = video_packet-Kept pkt
of_kind-Kept audio pkt = audio_packet-Kept pkt

packet-Kept : (pkt : MediaPacket) → Keeps (λ o. Packets.packet memory_storage o pkt)
unfolding Packets.packet
packet-Kept pkt o d h p l =
    if-Kept o _ _ _ (unchanged o (ok tt) h p) (of_kind-Kept pkt.kind pkt o d h p l)

finish_closed :
    (o : HlsOutput MemoryStorage)
    → IsDistinct o.cfg
    → IsFiled o
    → HasPlaylist o
    → o.sequence + 1 < 2 ^ 32
    → Kept o ((close_segment memory_storage >> write_playlist memory_storage true) o)
finish_closed o d h p l =
    let k = close_segment-Kept o d h p l in
    let c = close_segment memory_storage o in
    elim (Result-cases c.0) [
      | inl (u, r) ↦
          let w = write_playlist_same true c.1 in
          let q = write_playlist-Kept true c.1 k.filed in
          subst (Kept o)
            (sym (
              bind-ok (close_segment memory_storage) (λ _. write_playlist memory_storage true) o c.1
                tt (ap (λ x. (x, c.1)) r)))
            (record {
              filed = q.filed;
              playlist = q.playlist;
              same_cfg = w.0 ∙ k.same_cfg;
              grows = omega (arith, w.1, k.grows);
            })
      | inr (x, r) ↦
          subst (Kept o)
            (sym (
              bind-err (close_segment memory_storage) (λ _. write_playlist memory_storage true) o
                c.1 x (ap (λ y. (y, c.1)) r)))
            (rw r at k)
    ]

finish-Kept : Keeps (Packets.finish memory_storage)
unfolding Packets.finish
finish-Kept o d h p l =
    if-Kept o _ _ _ (unchanged o (ok tt) h p) (Kept-from o _ _ refl refl (finish_closed _ d h p l))

-- The calls of `PacketSink`.
pub data Call : Type 0 where
  codecs : Option Bytes → Option Bytes → Call
  packet : MediaPacket → Call
  finish : Call

abbrev pub call :
    {S : Type 0} → HlsStorage S → Call → HlsOutput S → Result IoError (Unit {0}) × HlsOutput S
call st (codecs avcc asc) o = (ok tt, Packets.codecs st o avcc asc)
call st (packet pkt) o = Packets.packet st o pkt
call st finish o = Packets.finish st o

abbrev pub run : {S : Type 0} → HlsStorage S → List Call → HlsOutput S → HlsOutput S
run st [] o = o
run st (c ∷ calls) o = run st calls (call st c o).1

codecs-Quiet : (avcc asc : Option Bytes) → Quiet (λ o. Packets.codecs memory_storage o avcc asc)
unfolding Packets.codecs
codecs-Quiet none none o = (λ h. h, λ p. p, refl, refl)
codecs-Quiet none (some a) o = (λ h. h, λ p. p, refl, refl)
codecs-Quiet (some v) none o = (λ h. h, λ p. p, refl, refl)
codecs-Quiet (some v) (some a) o = (λ h. h, λ p. p, refl, refl)

call-Kept : (c : Call) → Keeps (call memory_storage c)
call-Kept (codecs avcc asc) o d h p l =
    Kept-Quiet (λ o. Packets.codecs memory_storage o avcc asc) o (ok tt) (ok tt) o
      (codecs-Quiet avcc asc) (unchanged o (ok tt) h p)
call-Kept (packet pkt) o d h p l = packet-Kept pkt o d h p l
call-Kept finish o d h p l = finish-Kept o d h p l

run-IsFiled :
    (calls : List Call) (o : HlsOutput MemoryStorage)
    → IsDistinct o.cfg
    → IsFiled o
    → HasPlaylist o
    → o.sequence + length calls < 2 ^ 32
    → IsFiled (run memory_storage calls o) × HasPlaylist (run memory_storage calls o)
run-IsFiled [] o d h p l = (h, p)
run-IsFiled (c ∷ calls) o d h p l =
    let k = call-Kept c o d h p (omega arith) in
    run-IsFiled calls (call memory_storage c o).1 (rw k.same_cfg d) k.filed k.playlist
      (omega (arith, k.grows))

abbrev pub empty_storage : MemoryStorage
empty_storage = record { files = [] }

new-IsFiled : (cfg : HlsConfig) → IsFiled (Output.new cfg empty_storage)
unfolding Output.new lookup
new-IsFiled cfg = record {
  first = 0;
  counted = omega arith;
  stored = record { numbered = tt; there = tt; only = λ name content e. cc };
  short = omega arith;
  has_init = λ e. cc;
  opened = λ l. absurd (omega arith);
}

-- Whatever calls an HLS output gets over an empty storage in memory: the window holds no more
-- segments than it is configured for (one, where it is configured for none), and they are the newest
-- ones, in order; each of them can be read; the initialization segment and the playlist can be read from the first segment on; and no
-- other file is left behind. The configured names differ from one another and from every segment's,
-- and there are fewer than 2 ^ 32 calls.
pub run-new-IsFiled :
    (cfg : HlsConfig) (calls : List Call)
    → IsDistinct cfg
    → length calls < 2 ^ 32
    → IsFiled (run memory_storage calls (Output.new cfg empty_storage))
      × HasPlaylist (run memory_storage calls (Output.new cfg empty_storage))
unfolding Output.new
run-new-IsFiled cfg calls d l =
    run-IsFiled calls (Output.new cfg empty_storage) d (new-IsFiled cfg) (λ l. absurd (omega arith))
      (omega arith)
