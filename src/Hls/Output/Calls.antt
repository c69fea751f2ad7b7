-- ===== src/Hls/Output/Calls.antt =====
-- What the calls of an HLS output in memory do to its files, one call after another.
use strym_core.Common.{
  ℕ, ◌+◌, ◌≤◌, ◌<◌, ◌^◌, ◌≡◌, inl, inr, refl, ap, sym, ◌∙◌, arith, Bool, true, false, if◌then◌else◌,
  Bytes, Bool-cases,
}
use strym_core.Common.Result.{Result, ok, err, ◌>>◌, pure, modify, Result-cases, bind-ok, bind-err}
use strym_core.Io.{IoError}
use strym_core.Hls.Playlist.{segment_name}
use strym_core.Hls.Storage.{MemoryStorage, memory_storage}
use strym_core.Hls.Storage.Files.{lookup-insert_self}
use strym_core.Hls.Output.{HlsOutput, take_video, take_audio, segment_ms, has_samples}
use strym_core.Hls.Output.Close.{ensure_init, write_playlist, enter, seal, close_segment}
use strym_core.Models.{MediaPacket}
use strym_core.Common.Int.{ℤ}
use mathlib.Core.Path.{subst}
use strym_core.Hls.Output.Packets.{push_video, push_audio, add_video, add_audio}
use strym_core.Hls.Samples.{normalize}
use strym_core.Hls.Output.Stored.{IsDistinct}
use strym_core.Hls.Output.Filed.{
  IsFiled, HasPlaylist, Filed-playlist, enter-Filed, ensure_init-Opened,
}

-- A call leaves the files in order and the playlist there, and closes one segment at most.
pub record Kept (o : HlsOutput MemoryStorage)
    (r : Result IoError (Unit {0}) × HlsOutput MemoryStorage) : Type 0 where
  pub filed : IsFiled r.1
  pub playlist : HasPlaylist r.1
  pub same_cfg : r.1.cfg ≡ o.cfg
  pub grows : r.1.sequence ≤ o.sequence + 1

pub write_playlist-Kept :
    (b : Bool) (o : HlsOutput MemoryStorage)
    → IsFiled o
    → Kept o (write_playlist memory_storage b o)
unfolding write_playlist
write_playlist-Kept b o h = record {
  filed = Filed-playlist o.cfg o.storage o.window o.sequence o.init_written _ h;
  playlist = λ _. (_, lookup-insert_self o.cfg.playlist_name _ o.storage.files);
  same_cfg = refl;
  grows = omega arith;
}

pub write_playlist_same :
    (b : Bool) (o : HlsOutput MemoryStorage)
    → ((write_playlist memory_storage b o).1.cfg ≡ o.cfg)
      × ((write_playlist memory_storage b o).1.sequence ≡ o.sequence)
unfolding write_playlist
write_playlist_same b o = (refl, refl)

abbrev taken : HlsOutput MemoryStorage → HlsOutput MemoryStorage
taken o = (take_audio (take_video o).1).1

taken_same :
    (o : HlsOutput MemoryStorage)
    → ((taken o).cfg ≡ o.cfg)
      × ((taken o).storage ≡ o.storage)
      × ((taken o).window ≡ o.window)
      × ((taken o).sequence ≡ o.sequence)
      × ((taken o).init_written ≡ o.init_written)
unfolding take_video take_audio
taken_same o = ground arith

taken-IsFiled : (o : HlsOutput MemoryStorage) → IsFiled o → IsFiled (taken o)
taken-IsFiled o h = let s = taken_same o in rw (s.0, s.1, s.2, s.3, s.4) h

enter_same :
    (name : Bytes) (ms : ℕ) (o : HlsOutput MemoryStorage)
    → ((enter memory_storage name ms o).cfg ≡ o.cfg)
      × ((enter memory_storage name ms o).sequence ≤ o.sequence + 1)
unfolding enter
enter_same name ms o = (refl, omega arith)

seal-Kept :
    (o : HlsOutput MemoryStorage)
    → IsDistinct o.cfg
    → IsFiled o
    → o.init_written ≡ true
    → o.sequence + 1 < 2 ^ 32
    → Kept o (seal memory_storage o)
unfolding seal
seal-Kept o d h i l =
    let s = taken_same o in
    let t = enter_same (segment_name o.cfg o.sequence) (segment_ms o) _ in
    let w = write_playlist_same false _ in
    let k = write_playlist-Kept false _ (
      enter-Filed (segment_name o.cfg o.sequence) _ (segment_ms o) (taken o) (rw s.0 d)
        (taken-IsFiled o h) (s.4 ∙ i) (rw s.3 l) (rw (s.0, s.3))) in
    record {
      filed = k.filed;
      playlist = k.playlist;
      same_cfg = w.0 ∙ (t.0 ∙ s.0);
      grows = omega (arith, w.1, t.1, s.3);
    }

close_ok :
    (o : HlsOutput MemoryStorage)
    → has_samples o ≡ true
    → (ensure_init memory_storage o).0 ≡ ok tt
    → close_segment memory_storage o ≡ seal memory_storage (ensure_init memory_storage o).1
unfolding close_segment
close_ok o e r =
    rw (close_segment, e)
      (bind-ok (ensure_init memory_storage) (λ _. seal memory_storage) o _ tt
        (ap (λ x. (x, (ensure_init memory_storage o).1)) r))

close_err :
    (o : HlsOutput MemoryStorage) (x : IoError)
    → has_samples o ≡ true
    → (ensure_init memory_storage o).0 ≡ err x
    → close_segment memory_storage o ≡ (err x, (ensure_init memory_storage o).1)
unfolding close_segment
close_err o x e r =
    rw (close_segment, e)
      (bind-err (ensure_init memory_storage) (λ _. seal memory_storage) o _ x
        (ap (λ y. (y, (ensure_init memory_storage o).1)) r))

pub Kept-from :
    (o o' : HlsOutput MemoryStorage) (r : Result IoError (Unit {0}) × HlsOutput MemoryStorage)
    → o'.cfg ≡ o.cfg
    → o'.sequence ≡ o.sequence
    → Kept o' r
    → Kept o r
Kept-from o o' r c n k = record {
  filed = k.filed;
  playlist = k.playlist;
  same_cfg = k.same_cfg ∙ c;
  grows = omega (arith, k.grows);
}

pub close_segment-Kept :
    (o : HlsOutput MemoryStorage)
    → IsDistinct o.cfg
    → IsFiled o
    → HasPlaylist o
    → o.sequence + 1 < 2 ^ 32
    → Kept o (close_segment memory_storage o)
unfolding close_segment
close_segment-Kept o d h p l =
    let op = ensure_init-Opened o h p in
    elim (Bool-cases (has_samples o)) [
      | inr e ↦
          rw (close_segment, e)
            (record { filed = h; playlist = p; same_cfg = refl; grows = omega arith })
      | inl e ↦ elim (Result-cases (ensure_init memory_storage o).0) [
        | inl (u, r) ↦ rw (close_ok o e r) (
            Kept-from o (ensure_init memory_storage o).1 _ op.same_cfg op.same_sequence (
              seal-Kept (ensure_init memory_storage o).1 (rw op.same_cfg d) op.filed (op.done r)
                (omega (arith, op.same_sequence))))
        | inr (x, r) ↦ rw (close_err o x e r) (record {
          filed = op.filed;
          playlist = op.playlist;
          same_cfg = op.same_cfg;
          grows = omega (arith, op.same_sequence);
        })
      ]
    ]

-- A packet and the calls of `PacketSink`.
abbrev pub Keeps :
    (HlsOutput MemoryStorage → Result IoError (Unit {0}) × HlsOutput MemoryStorage) → Type 0
Keeps call =
    (o : HlsOutput MemoryStorage)
    → IsDistinct o.cfg
    → IsFiled o
    → HasPlaylist o
    → o.sequence + 1 < 2 ^ 32
    → Kept o (call o)

pub unchanged :
    (o : HlsOutput MemoryStorage) (r : Result IoError (Unit {0}))
    → IsFiled o
    → HasPlaylist o
    → Kept o (r, o)
unchanged o r h p = record { filed = h; playlist = p; same_cfg = refl; grows = omega arith }

-- A change that leaves the files, the window and the count alone.
abbrev pub Quiet : (HlsOutput MemoryStorage → HlsOutput MemoryStorage) → Type 0
Quiet f =
    (o : HlsOutput MemoryStorage)
    → (IsFiled o → IsFiled (f o))
      × (HasPlaylist o → HasPlaylist (f o))
      × ((f o).cfg ≡ o.cfg)
      × ((f o).sequence ≡ o.sequence)

pub Kept-Quiet :
    (f : HlsOutput MemoryStorage → HlsOutput MemoryStorage) (o : HlsOutput MemoryStorage)
    (q r : Result IoError (Unit {0})) (c : HlsOutput MemoryStorage)
    → Quiet f
    → Kept o (q, c)
    → Kept o (r, f c)
Kept-Quiet f o q r c quiet k = record {
  filed = (quiet c).0 k.filed;
  playlist = (quiet c).1 k.playlist;
  same_cfg = (quiet c).2 ∙ k.same_cfg;
  grows = omega (arith, (quiet c).3, k.grows);
}

-- A segment that may be closed, and a sample that is added behind it if that worked.
then_push :
    (b : Bool) (push : HlsOutput MemoryStorage → HlsOutput MemoryStorage)
    → Quiet push
    → Keeps ((if b then close_segment memory_storage else pure tt) >> modify push)
then_push false push quiet o d h p l =
    Kept-Quiet push o (ok tt) (ok tt) o quiet (unchanged o (ok tt) h p)
then_push true push quiet o d h p l =
    let k = close_segment-Kept o d h p l in
    let c = close_segment memory_storage o in
    elim (Result-cases c.0) [
      | inl (u, r) ↦
          subst (Kept o)
            (sym (
              bind-ok (close_segment memory_storage) (λ _. modify push) o c.1 tt
                (ap (λ x. (x, c.1)) r)))
            (Kept-Quiet push o c.0 (ok tt) c.1 quiet k)
      | inr (x, r) ↦
          subst (Kept o)
            (sym (
              bind-err (close_segment memory_storage) (λ _. modify push) o c.1 x
                (ap (λ y. (y, c.1)) r)))
            (rw r at k)
    ]

push_video-Quiet : (pkt : MediaPacket) (dts : ℤ) → Quiet (push_video memory_storage pkt dts)
unfolding push_video
push_video-Quiet pkt dts o = (λ h. h, λ p. p, refl, refl)

push_audio-Quiet : (pkt : MediaPacket) (dts : ℤ) → Quiet (push_audio memory_storage pkt dts)
unfolding push_audio
push_audio-Quiet pkt dts o = (λ h. h, λ p. p, refl, refl)

pub add_video-Kept : (pkt : MediaPacket) → Keeps (add_video memory_storage pkt)
unfolding add_video
add_video-Kept pkt o d h p l = Kept-from o _ _ refl refl (
    then_push _ (push_video memory_storage pkt (normalize pkt.dts o.timebase).0)
      (push_video-Quiet pkt _) _ d h p l)

pub add_audio-Kept : (pkt : MediaPacket) → Keeps (add_audio memory_storage pkt)
unfolding add_audio
add_audio-Kept pkt o d h p l = Kept-from o _ _ refl refl (
    then_push _ (push_audio memory_storage pkt (normalize pkt.dts o.timebase).0)
      (push_audio-Quiet pkt _) _ d h p l)
