-- ===== src/Pipeline/Packet.antt =====
-- What `write_packet` adds to the bytes in a `Vec<u8>`.
use strym_core.Common.{
  ◌≡◌, refl, true, not, ◌&&◌, [], ◌∷◌, ◌++◌, arith, Bytes, append-nil, Bool-cases, Option-cases,
  ◌⊎◌, ◌≢◌, inl, inr,
}
use strym_core.Common.Int.{saturating_sub_i64, sub_i64}
use strym_core.Common.Result.{Result, ok, err, ◌>>◌}
use strym_core.Io.{vec_write}
use strym_core.Models.{MediaKind, video, audio, MediaPacket}
use strym_core.Codecs.Aac.{adts_to_asc}
use strym_core.Codecs.H264.{annexb_to_avcc}
use strym_core.Rtmp.FlvTags.{FlvTag}
use strym_core.Rtmp.FlvTags.Stream.{tag_bytes}
use strym_core.Mux.{
  Mux, MuxError, get_dts, set_dts, ensure_header, clamp_ts, tag_video, tag_audio, video_body,
  audio_body, sniff_video, sniff_audio, normalize, order, origin_or, write_media, before_media,
  write_timed, write_packet,
}
use strym_core.Pipeline.Output.{
  Vec, Adds, AddsSome, Adds-trans, ensure_header-Adds, write_tag_vec, write_video_sequence-Adds,
  write_audio_sequence-Adds,
}

pub MediaKind-cases : (k : MediaKind) → (k ≡ video) ⊎ (k ≡ audio)
MediaKind-cases video = inl refl
MediaKind-cases audio = inr refl

Result-cases : (r : Result MuxError (Unit {0})) → (r ≡ ok tt) ⊎ (r ≢ ok tt)
Result-cases (ok a) = inl refl
Result-cases (err e) = inr (λ x. cc)

-- A step that writes into a muxer with its header out.
abbrev pub Writer : Mux Bytes (Unit {0}) → Type 0
Writer f = (m : Vec) → m.state.header_written ≡ true → AddsSome m (f m).1

pub Adds-refl : (m : Vec) → m.state.header_written ≡ true → AddsSome m m
Adds-refl m h = ([], record { is_open = h; written = ground (arith, append-nil m.sink) })

pub then-Adds :
    (f k : Mux Bytes (Unit {0})) (m : Vec)
    → AddsSome m (f m).1
    → Writer k
    → AddsSome m ((f >> k) m).1
then-Adds f k m h w = go (f m) h
  where
    go :
        (r : Result MuxError (Unit {0}) × Vec)
        → AddsSome m r.1
        → AddsSome m (◌>>◌ {E = MuxError} (λ (_ : Vec). r) k m).1
    go (ok a, n) (ts, h) =
        let (us, g) = w n h.is_open in (ts ++ us, Adds-trans m n (k n).1 ts us h g)
    go (err e, n) h = h

sniff_video-Adds : (pkt : MediaPacket) → Writer (sniff_video vec_write pkt)
unfolding sniff_video
sniff_video-Adds pkt m h = elim (MediaKind-cases (pkt.kind)) [
  | inl v ↦ elim (Bool-cases (not m.state.video_seq_written && pkt.is_key)) [
    | inl t ↦ elim (Option-cases (annexb_to_avcc pkt.payload)) [
      | inl n ↦ rw (v, t, n, sniff_video) (Adds-refl m h)
      | inr (a, n) ↦ rw (v, t, n, sniff_video) (write_video_sequence-Adds a m)
    ]
    | inr t ↦ rw (v, t, sniff_video) (Adds-refl m h)
  ]
  | inr v ↦ rw (v, sniff_video) (Adds-refl m h)
]

sniff_audio-Adds : (pkt : MediaPacket) → Writer (sniff_audio vec_write pkt)
unfolding sniff_audio
sniff_audio-Adds pkt m h = elim (MediaKind-cases (pkt.kind)) [
  | inl v ↦ rw (v, sniff_audio) (Adds-refl m h)
  | inr v ↦ elim (Bool-cases (not m.state.audio_seq_written)) [
    | inl t ↦ elim (Option-cases (adts_to_asc pkt.payload)) [
      | inl n ↦ rw (v, t, n, sniff_audio) (Adds-refl m h)
      | inr (a, n) ↦ rw (v, t, n, sniff_audio) (write_audio_sequence-Adds a m)
    ]
    | inr t ↦ rw (v, t, sniff_audio) (Adds-refl m h)
  ]
]

before_media-Adds : (pkt : MediaPacket) (m : Vec) → AddsSome m (before_media vec_write pkt m).1
unfolding before_media
before_media-Adds pkt m =
    then-Adds (ensure_header vec_write) (sniff_video vec_write pkt >> sniff_audio vec_write pkt) m
      ([], ensure_header-Adds m)
      (λ n h.
        then-Adds (sniff_video vec_write pkt) (sniff_audio vec_write pkt) n
          (sniff_video-Adds pkt n h) (sniff_audio-Adds pkt))

unfoldable pub media_tag : MediaPacket → Vec → FlvTag
media_tag pkt n =
    let ts = get_dts n.last_dts pkt.kind in
    let cts = saturating_sub_i64 (sub_i64 pkt.pts (origin_or n.origin pkt.pts)) ts in
    elim pkt.kind [
      | video ↦ record { mtype = tag_video; ts = clamp_ts ts; body = video_body pkt cts }
      | audio ↦ record { mtype = tag_audio; ts = clamp_ts ts; body = audio_body pkt }
    ]

pub timed_vec :
    (pkt : MediaPacket) (m : Vec)
    → (write_timed vec_write pkt m).0 ≡ ok tt
    → let n = (write_timed vec_write pkt m).1 in
      (n.sink ≡ m.sink ++ tag_bytes (media_tag pkt n)) × (n.state ≡ m.state)
unfolding write_timed normalize order write_media media_tag get_dts set_dts
timed_vec pkt m e = grind (arith, write_tag_vec)

timed_failed :
    (pkt : MediaPacket) (m : Vec)
    → (write_timed vec_write pkt m).0 ≢ ok tt
    → let n = (write_timed vec_write pkt m).1 in (n.sink ≡ m.sink) × (n.state ≡ m.state)
unfolding write_timed normalize order write_media get_dts set_dts
timed_failed pkt m e = grind (arith, write_tag_vec)

pub timed_tag :
    (pkt : MediaPacket) (m : Vec)
    → m.state.header_written ≡ true
    → (write_timed vec_write pkt m).0 ≡ ok tt
    → Adds m (write_timed vec_write pkt m).1 (media_tag pkt (write_timed vec_write pkt m).1 ∷ [])
timed_tag pkt m h e =
    let (s, st) = timed_vec pkt m e in
    let t = media_tag pkt (write_timed vec_write pkt m).1 in
    record { is_open = ground arith; written = ground (arith, append-nil (tag_bytes t)) }

timed-Adds : (pkt : MediaPacket) → Writer (write_timed vec_write pkt)
timed-Adds pkt m h = elim (Result-cases (write_timed vec_write pkt m).0) [
  | inl e ↦ (media_tag pkt (write_timed vec_write pkt m).1 ∷ [], timed_tag pkt m h e)
  | inr e ↦
      let (s, st) = timed_failed pkt m e in
      ([], record { is_open = ground arith; written = ground (arith, append-nil m.sink) })
]

-- Whatever the outcome, `write_packet` adds the FLV header, if it is not there, and whole tags.
pub write_packet-Adds : (pkt : MediaPacket) (m : Vec) → AddsSome m (write_packet vec_write pkt m).1
unfolding write_packet
write_packet-Adds pkt m =
    then-Adds (before_media vec_write pkt) (write_timed vec_write pkt) m (before_media-Adds pkt m)
      (timed-Adds pkt)

-- With the headers out, what is left of `write_packet`.
pub write_packet_rest :
    (pkt : MediaPacket) (m : Vec)
    → (before_media vec_write pkt m).0 ≡ ok tt
    → write_packet vec_write pkt m ≡ write_timed vec_write pkt (before_media vec_write pkt m).1
unfolding write_packet
write_packet_rest pkt m b = ground arith

pub write_packet_ok :
    (pkt : MediaPacket) (m : Vec)
    → (write_packet vec_write pkt m).0 ≡ ok tt
    → (before_media vec_write pkt m).0 ≡ ok tt
unfolding write_packet
write_packet_ok pkt m e = ground arith
