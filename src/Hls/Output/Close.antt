-- ===== src/Hls/Output/Close.antt =====
-- core/src/hls/mod.rs: `HlsOutput`, the initialization segment, the closing of a segment and the
-- playlist.
use strym_core.Common.{
  ℕ, ◌-◌, Bool, true, false, ◌&&◌, not, none, List, [], ◌∷◌, ◌++◌, if◌then◌else◌, ltb, length, max,
  Bytes, add_u32,
}
use strym_core.Common.Result.{ok, err, ◌>>◌, modify}
use strym_core.Io.{other}
use strym_core.Hls.Mp4.{media_segment}
use strym_core.Hls.Mp4.Init.{init_segment}
use strym_core.Hls.Playlist.{segment_name, target_duration, playlist}
use strym_core.Hls.Storage.{HlsStorage}
use strym_core.Hls.Output.{
  HlsOutput, Hls, is_some, has_samples, video_track, audio_track, take_video, take_audio,
  segment_ms,
}

module _ {S : Type 0} (st : HlsStorage S) where
  abbrev pub write_file : Bytes → Bytes → Hls S (Unit {0})
  write_file name content o =
      let (r, s) = st.write_file o.storage name content in (r, record o { storage = s })

  unfoldable pub ensure_init : Hls S (Unit {0})
  ensure_init o =
      if o.init_written
      then (ok tt, o)
      else if not (is_some o.avcc) && not (is_some o.audio)
      then (err other, o)
      else (write_file o.cfg.init_segment_name (init_segment (video_track o) (audio_track o))
            >> modify (λ o'. record o' {
              init_written = true;
              init_has_video = is_some o.avcc;
              init_has_audio = is_some o.audio;
            }))
          o

  -- The segments that fall out of the window are removed; a failure is only logged.
  unfoldable pub roll : ℕ → S → List (Bytes × ℕ) → S × List (Bytes × ℕ)
  roll limit s [] = (s, [])
  roll limit s ((name, ms) ∷ window) =
      let more = roll limit (st.remove_file s name).1 window in
      if ltb limit (length ((name, ms) ∷ window)) then more else (s, (name, ms) ∷ window)

  unfoldable pub write_playlist : Bool → Hls S (Unit {0})
  write_playlist finished o =
      write_file o.cfg.playlist_name
        (playlist (target_duration o.cfg.target_duration_secs o.max_segment_ms)
          (o.sequence - length o.window) o.cfg.init_segment_name o.window finished)
        o

  -- A segment that is stored enters the window.
  unfoldable pub enter : Bytes → ℕ → HlsOutput S → HlsOutput S
  enter name ms o =
      let (s, window) = roll (max o.cfg.window_size 1) o.storage (o.window ++ (name, ms) ∷ []) in
      record o {
        storage = s;
        window = window;
        max_segment_ms = max o.max_segment_ms ms;
        sequence = add_u32 o.sequence 1;
        seg_start = none;
      }

  -- The fragments are taken out of the state before they are stored.
  unfoldable pub seal : Hls S (Unit {0})
  seal o =
      let (videos, o1) = take_video o in
      let (audios, o2) = take_audio o1 in
      let name = segment_name o.cfg o.sequence in
      (write_file name (media_segment o.sequence (videos ++ audios))
          >> modify (enter name (segment_ms o))
          >> write_playlist false)
        o2

  unfoldable pub close_segment : Hls S (Unit {0})
  close_segment o = if has_samples o then (ensure_init >> seal) o else (ok tt, o)
