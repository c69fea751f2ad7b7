-- ===== src/Pipeline/Recording.antt =====
-- What is in the file of a recording.
use strym_core.Common.{
  ◌≡◌, refl, ◌⊎◌, inl, inr, sym, ap, ◌∙◌, Bool, true, false, Option, List, [], ◌∷◌, ◌++◌,
  if◌then◌else◌, Bytes, append_assoc, append-nil,
}
use strym_core.Common.Int.{max_ℤ}
use strym_core.Common.Result.{Result, ok, map_err, modify, ◌>>◌, Result-cases, bind-ok}
use strym_core.Io.{IoError, vec_write}
use strym_core.Models.{MediaPacket, StreamConfig}
use strym_core.Rtmp.FlvTags.{FlvTag}
use strym_core.Rtmp.FlvTags.Stream.{stream, tag_bytes}
use strym_core.Transport.{file_transport}
use strym_core.Mux.{
  FlvMuxer, MuxError, ordering, io, config, rebase, write_metadata, init_codecs, write_packet,
  flv_header, ensure_header, write_tag, header_ts, tag_script, clamp_ts,
}
use strym_core.Mux
use strym_core.Mux.Metadata.{on_metadata}
use strym_core.Sink.{
  RecordingOutput, on_muxer, other_error, io_error, ensure_metadata, codecs, packet, finish,
  write_or_rebase,
}
use strym_core.Sink
use strym_core.Pipeline.Output.{
  Vec, AddsSome, stream-append, tagged, opened, ensure_header_vec, write_tag_vec,
}
use strym_core.Pipeline.Packet.{write_packet-Adds}
use strym_core.Pipeline.History.{init_codecs-closed}

abbrev metadata_tag : StreamConfig → FlvTag
metadata_tag c = record { mtype = 18; ts = 0; body = on_metadata c }

-- One header, the metadata, and whole tags behind it.
abbrev pub Starts : StreamConfig → Vec → Type 0
Starts c m =
    (ts : List FlvTag) × (m.state.header_written ≡ true)
    × (m.sink ≡ flv_header ++ stream (metadata_tag c ∷ ts))

Starts-Adds : (c : StreamConfig) (m n : Vec) → AddsSome m n → Starts c m → Starts c n
Starts-Adds c m n (ts, h) (us, is_open, e) = (
  us ++ ts,
  h.is_open,
  h.written
      ∙ rw (is_open, e)
          (append_assoc flv_header (stream (metadata_tag c ∷ us)) (stream ts)
            ∙ ap (λ b. flv_header ++ b) (sym (stream-append (metadata_tag c ∷ us) ts))),
)

-- A recording has not begun, or its file starts so.
abbrev pub IsRecorded : RecordingOutput Bytes → Type 0
IsRecorded o =
    ((o.metadata_written ≡ false) × (o.muxer ≡ Mux.new []))
    ⊎ ((o.metadata_written ≡ true) × Starts o.metadata o.muxer)

-- The first call of all, on an empty file.
begin :
    (c : StreamConfig)
    → write_metadata vec_write c (Mux.new [])
      ≡ (ok tt, tagged (opened (Mux.new [])) (metadata_tag c))
unfolding write_metadata
begin c =
    bind-ok (ensure_header vec_write)
      (λ u n. write_tag vec_write tag_script (header_ts n) (on_metadata c) n) (Mux.new [])
      (opened (Mux.new [])) tt (ensure_header_vec (Mux.new []))
    ∙ write_tag_vec tag_script (header_ts (opened (Mux.new []))) (on_metadata c)
        (opened (Mux.new []))
    ∙ ap
        (λ k. (
          ok tt,
          tagged (opened (Mux.new [])) (record { mtype = 18; ts = k; body = on_metadata c }),
        ))
        first
  where
    first : clamp_ts (header_ts (opened (Mux.new []))) ≡ 0
    first = unfold clamp_ts in unfold header_ts in unfold Mux.new in unfold max_ℤ in refl

abbrev begun : StreamConfig → Vec
begun c = tagged (opened (Mux.new [])) (metadata_tag c)

begin-Starts : (c : StreamConfig) → Starts c (begun c)
begin-Starts c =
    unfold Mux.new in
    ([], refl, ap (λ b. flv_header ++ b) (sym (append-nil (tag_bytes (metadata_tag c)))))

ensure_metadata-fresh :
    (o : RecordingOutput Bytes)
    → o.metadata_written ≡ false
    → o.muxer ≡ Mux.new []
    → ensure_metadata file_transport o
      ≡ (ok tt, record o { muxer = begun o.metadata; metadata_written = true })
unfolding ensure_metadata
ensure_metadata-fresh o w e =
    ap (λ b. if b then (ok tt, o) else (first >> modify mark) o) w
    ∙ bind-ok first (λ u. modify mark) o (record o { muxer = begun o.metadata }) tt
        (ap (λ r. (map_err other_error r.0, record o { muxer = r.1 }))
          (ap (write_metadata vec_write o.metadata) e ∙ begin o.metadata))
  where
    mark : RecordingOutput Bytes → RecordingOutput Bytes
    mark o = record o { metadata_written = true }

    first : RecordingOutput Bytes → Result IoError (Unit {0}) × RecordingOutput Bytes
    first = on_muxer file_transport (write_metadata vec_write o.metadata) other_error

ensure_metadata-done :
    (o : RecordingOutput Bytes)
    → o.metadata_written ≡ true
    → ensure_metadata file_transport o ≡ (ok tt, o)
unfolding ensure_metadata
ensure_metadata-done o w = rw (ensure_metadata, w) refl

-- Once `ensure_metadata` has run, the file has begun.
abbrev IsBegun : StreamConfig → RecordingOutput Bytes → Type 0
IsBegun c o = (o.metadata_written ≡ true) × (o.metadata ≡ c) × Starts c o.muxer

ensure_metadata-IsBegun :
    (o : RecordingOutput Bytes)
    → IsRecorded o
    → (u : RecordingOutput Bytes) × (ensure_metadata file_transport o ≡ (ok tt, u))
      × IsBegun o.metadata u
ensure_metadata-IsBegun o (inl (w, e)) = (
  record o { muxer = begun o.metadata; metadata_written = true },
  ensure_metadata-fresh o w e,
  (refl, refl, begin-Starts o.metadata),
)
ensure_metadata-IsBegun o (inr (w, s)) = (o, ensure_metadata-done o w, (w, refl, s))

IsBegun-IsRecorded : (c : StreamConfig) (o : RecordingOutput Bytes) → IsBegun c o → IsRecorded o
IsBegun-IsRecorded c o (w, m, s) = inr (w, rw m s)

write_or_rebase-Starts :
    (c : StreamConfig) (pkt : MediaPacket) (m : Vec)
    → Starts c m
    → Starts c (write_or_rebase file_transport pkt m).1
unfolding write_or_rebase
write_or_rebase-Starts c pkt m s = elim (Result-cases (write_packet vec_write pkt m).0) [
  | inl (u, q) ↦ rw (write_or_rebase, q) first
  | inr (ordering, q) ↦
      rw (write_or_rebase, q)
        (Starts-Adds c _ _ (write_packet-Adds pkt (rebase m' pkt.kind pkt.dts))
          (unfold rebase in first))
  | inr (io x, q) ↦ rw (write_or_rebase, q) first
  | inr (config, q) ↦ rw (write_or_rebase, q) first
]
  where
    m' : Vec
    m' = (write_packet vec_write pkt m).1

    first : Starts c (write_packet vec_write pkt m).1
    first = Starts-Adds c m _ (write_packet-Adds pkt m) s

-- A call of the muxer behind the metadata.
then-IsRecorded :
    (call : Vec → Result MuxError (Unit {0}) × Vec) (f : MuxError → IoError)
    (o : RecordingOutput Bytes)
    → ((m : Vec) → Starts o.metadata m → Starts o.metadata (call m).1)
    → IsRecorded o
    → IsRecorded ((ensure_metadata file_transport >> on_muxer file_transport call f) o).1
then-IsRecorded call f o k h =
    let (u, e, (w, m, s)) = ensure_metadata-IsBegun o h in
    rw (bind-ok (ensure_metadata file_transport) (λ x. on_muxer file_transport call f) o u tt e)
      (IsBegun-IsRecorded o.metadata (record u { muxer = (call u.muxer).1 }) (w, m, k u.muxer s))

either-IsRecorded :
    (b : Bool) (x y : RecordingOutput Bytes)
    → IsRecorded x
    → IsRecorded y
    → IsRecorded (if b then x else y)
either-IsRecorded true x y h k = h
either-IsRecorded false x y h k = k

either :
    {A : Type 0} (b : Bool) (x y : A × RecordingOutput Bytes)
    → IsRecorded x.1
    → IsRecorded y.1
    → IsRecorded (if b then x else y).1
either true x y h k = h
either false x y h k = k

packet-IsRecorded :
    (pkt : MediaPacket) (o : RecordingOutput Bytes)
    → IsRecorded o
    → IsRecorded (packet file_transport o pkt).1
unfolding packet
packet-IsRecorded pkt o h = either o.finished _ _ h (
    then-IsRecorded (write_or_rebase file_transport pkt) io_error o
      (write_or_rebase-Starts o.metadata pkt) h)

codecs-IsRecorded :
    (avcc asc : Option Bytes) (o : RecordingOutput Bytes)
    → IsRecorded o
    → IsRecorded (codecs file_transport o avcc asc)
unfolding codecs
codecs-IsRecorded avcc asc o h = either-IsRecorded o.finished _ _ h (
    then-IsRecorded (init_codecs vec_write avcc asc) other_error o
      (init_codecs-closed (Starts o.metadata) (Starts-Adds o.metadata) avcc asc) h)

finish-IsRecorded :
    (o : RecordingOutput Bytes) → IsRecorded o → IsRecorded (finish file_transport o).1
unfolding finish Mux.finish
finish-IsRecorded o h = either o.finished _ _ h h

pub data Call : Type 0 where
  configures : Option Bytes → Option Bytes → Call
  packets : MediaPacket → Call
  finishes : Call

unfoldable pub call : RecordingOutput Bytes → Call → RecordingOutput Bytes
call o (configures avcc asc) = codecs file_transport o avcc asc
call o (packets pkt) = (packet file_transport o pkt).1
call o finishes = (finish file_transport o).1

unfoldable pub run : RecordingOutput Bytes → List Call → RecordingOutput Bytes
run o [] = o
run o (c ∷ cs) = run (call o c) cs

call-IsRecorded : (o : RecordingOutput Bytes) (c : Call) → IsRecorded o → IsRecorded (call o c)
unfolding call
call-IsRecorded o (configures avcc asc) h = codecs-IsRecorded avcc asc o h
call-IsRecorded o (packets pkt) h = packet-IsRecorded pkt o h
call-IsRecorded o finishes h = finish-IsRecorded o h

run-IsRecorded : (o : RecordingOutput Bytes) (cs : List Call) → IsRecorded o → IsRecorded (run o cs)
unfolding run
run-IsRecorded o [] h = h
run-IsRecorded o (c ∷ cs) h = run-IsRecorded (call o c) cs (call-IsRecorded o c h)

-- A recording into an empty file has not begun, or the file has one FLV header, the metadata tag
-- behind it at time zero, and whole tags behind that, whatever packets and configurations it gets
-- and whichever of them are refused.
pub run-new-IsRecorded : (c : StreamConfig) (cs : List Call) → IsRecorded (run (Sink.new [] c) cs)
run-new-IsRecorded c cs = run-IsRecorded _ cs (unfold Sink.new in inl (refl, refl))
