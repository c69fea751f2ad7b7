-- ===== src/Pipeline/Output.antt =====
-- The bytes that the muxer leaves in a `Vec<u8>`.
use strym_core.Common.{
  ℕ, ◌+◌, ◌≡◌, refl, ap, sym, ◌∙◌, true, if◌then◌else◌, some, List, [], ◌∷◌, ◌++◌, arith, Bytes,
  append_assoc, append-nil, length, Bool-cases, inl, inr, be32, add_u32, as_u32, add_u64,
}
use strym_core.Common.Int.{ℤ}
use strym_core.Common.Result.{ok}
use strym_core.Io.{vec_write}
use strym_core.Rtmp.FlvTags.{FlvTag}
use strym_core.Rtmp.FlvTags.Stream.{tag_bytes, stream}
use strym_core.Mux.{
  FlvMuxer, sink_write, ensure_header, write_tag, flv_header, clamp_ts, tag_video, tag_audio,
  header_ts, write_video_sequence, write_audio_sequence, tag_header,
}

abbrev pub Vec : Type 0
Vec = FlvMuxer Bytes

-- The muxer with its FLV header out.
abbrev pub opened : Vec → Vec
opened m = if m.state.header_written then m else record m {
  sink = m.sink ++ flv_header;
  bytes_written = add_u64 m.bytes_written 13;
  state = record (m.state) { header_written = true };
}

pub ensure_header_vec : (m : Vec) → ensure_header vec_write m ≡ (ok tt, opened m)
unfolding ensure_header sink_write
ensure_header_vec m = ground arith

-- The muxer with a tag more.
abbrev pub tagged : Vec → FlvTag → Vec
tagged m t = record m {
  sink = m.sink ++ tag_bytes t;
  bytes_written = add_u64 m.bytes_written (15 + length t.body);
}

pub write_tag_vec :
    (k : ℕ) (ts : ℤ) (b : Bytes) (m : Vec)
    → write_tag vec_write k ts b m
      ≡ (ok tt, tagged m (record { mtype = k; ts = clamp_ts ts; body = b }))
unfolding write_tag sink_write
write_tag_vec k ts b m = ground (
  arith,
  append_assoc (m.sink ++ tag_header k (clamp_ts ts) (length b)) b
      (be32 (add_u32 11 (as_u32 (length b)))),
  append_assoc m.sink (tag_header k (clamp_ts ts) (length b))
      (b ++ be32 (add_u32 11 (as_u32 (length b)))),
)

-- From `m` to `n` the sink got the FLV header, if it was not there, and the tags.
pub record Adds (m n : FlvMuxer Bytes) (ts : List FlvTag) : Type 0 where
  pub is_open : n.state.header_written ≡ true
  pub written :
      n.sink ≡ (if m.state.header_written then m.sink else m.sink ++ flv_header) ++ stream ts

pub stream-append : (ts us : List FlvTag) → stream (ts ++ us) ≡ stream ts ++ stream us
stream-append [] us = refl
stream-append (t ∷ ts) us =
    ap (λ b. tag_bytes t ++ b) (stream-append ts us)
    ∙ sym (append_assoc (tag_bytes t) (stream ts) (stream us))

pub Adds-trans :
    (l m n : Vec) (ts us : List FlvTag) → Adds l m ts → Adds m n us → Adds l n (ts ++ us)
Adds-trans l m n ts us h k = record {
  is_open = k.is_open;
  written =
      k.written
      ∙ rw (h.is_open, h.written)
          (append_assoc (if l.state.header_written then l.sink else l.sink ++ flv_header)
              (stream ts) (stream us)
            ∙ ap (λ b. (if l.state.header_written then l.sink else l.sink ++ flv_header) ++ b)
                (sym (stream-append ts us)));
}

pub ensure_header-Adds : (m : Vec) → Adds m (ensure_header vec_write m).1 []
ensure_header-Adds m = rw ensure_header_vec (record {
  is_open = ground arith;
  written = ground (arith, append-nil m.sink, append-nil (m.sink ++ flv_header));
})

pub write_tag-Adds :
    (k : ℕ) (ts : ℤ) (b : Bytes) (m : Vec)
    → m.state.header_written ≡ true
    → Adds m
        (write_tag vec_write k ts b m).1
        (record { mtype = k; ts = clamp_ts ts; body = b } ∷ [])
write_tag-Adds k ts b m h = rw write_tag_vec (record {
  is_open = h;
  written =
      ground (arith, append-nil (tag_bytes (record { mtype = k; ts = clamp_ts ts; body = b })));
})

abbrev pub AddsSome : Vec → Vec → Type 0
AddsSome m n = (ts : List FlvTag) × Adds m n ts

-- `n'` is `n` but for what is no output.
pub Adds-same :
    (m n n' : Vec) (ts : List FlvTag)
    → Adds m n ts
    → n'.sink ≡ n.sink
    → n'.state.header_written ≡ n.state.header_written
    → Adds m n' ts
Adds-same m n n' ts h e s = record { is_open = s ∙ h.is_open; written = e ∙ h.written }

abbrev pub video_header : Bytes → Vec → FlvTag
video_header avcc m = record {
  mtype = tag_video;
  ts = clamp_ts (header_ts m);
  body = 0x17 ∷ 0 ∷ 0 ∷ 0 ∷ 0 ∷ avcc;
}

abbrev pub audio_header : Bytes → Vec → FlvTag
audio_header asc m = record {
  mtype = tag_audio;
  ts = clamp_ts (header_ts m);
  body = 0xaf ∷ 0 ∷ asc;
}

pub write_video_sequence_vec :
    (avcc : Bytes) (m : Vec)
    → write_video_sequence vec_write avcc m ≡ (
        let m' = opened m in
        if m'.state.video_seq_written then (ok tt, m') else (
          ok tt,
          record (tagged m' (video_header avcc m')) {
            state = record (m'.state) { video_seq_written = true };
            avcc = some avcc;
          },
        ))
unfolding write_video_sequence
write_video_sequence_vec avcc m =
    let m' = opened m in
    let t = video_header avcc m' in
    ground (arith, ensure_header_vec m, write_tag_vec tag_video (header_ts m') t.body m')

pub write_audio_sequence_vec :
    (asc : Bytes) (m : Vec)
    → write_audio_sequence vec_write asc m ≡ (
        let m' = opened m in
        if m'.state.audio_seq_written then (ok tt, m') else (
          ok tt,
          record (tagged m' (audio_header asc m')) {
            state = record (m'.state) { audio_seq_written = true };
            asc = some asc;
          },
        ))
unfolding write_audio_sequence
write_audio_sequence_vec asc m =
    let m' = opened m in
    let t = audio_header asc m' in
    ground (arith, ensure_header_vec m, write_tag_vec tag_audio (header_ts m') t.body m')

pub opened-Adds : (m : Vec) → Adds m (opened m) []
opened-Adds m = record {
  is_open = ground arith;
  written = ground (arith, append-nil m.sink, append-nil (m.sink ++ flv_header));
}

pub tagged-Adds : (m : Vec) (t : FlvTag) → Adds m (tagged (opened m) t) (t ∷ [])
tagged-Adds m t = record {
  is_open = ground arith;
  written = ground (arith, append-nil (tag_bytes t));
}

pub write_video_sequence-Adds :
    (avcc : Bytes) (m : Vec) → AddsSome m (write_video_sequence vec_write avcc m).1
write_video_sequence-Adds avcc m =
    let m' = opened m in
    elim (Bool-cases (m'.state.video_seq_written)) [
      | inl e ↦ rw (write_video_sequence_vec, e) ([], opened-Adds m)
      | inr e ↦
          rw (write_video_sequence_vec, e)
            (
              video_header avcc m' ∷ [],
              Adds-same m (tagged m' (video_header avcc m')) _ _
                  (tagged-Adds m (video_header avcc m')) refl refl,
            )
    ]

pub write_audio_sequence-Adds :
    (asc : Bytes) (m : Vec) → AddsSome m (write_audio_sequence vec_write asc m).1
write_audio_sequence-Adds asc m =
    let m' = opened m in
    elim (Bool-cases (m'.state.audio_seq_written)) [
      | inl e ↦ rw (write_audio_sequence_vec, e) ([], opened-Adds m)
      | inr e ↦
          rw (write_audio_sequence_vec, e)
            (
              audio_header asc m' ∷ [],
              Adds-same m (tagged m' (audio_header asc m')) _ _
                  (tagged-Adds m (audio_header asc m')) refl refl,
            )
    ]
