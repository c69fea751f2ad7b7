-- ===== src/Hls/Output/Filed.antt =====
-- What the calls of an HLS output in memory do to its files.
use strym_core.Common.{
  ℕ, suc, ◌+◌, ◌≤◌, ◌<◌, ◌^◌, ◌≡◌, inl, inr, refl, ap, sym, ◌∙◌, arith, Bool, true, not, ◌&&◌, List,
  [], ◌∷◌, ◌++◌, length, length-append, Bytes, Bool-cases, max, ltb,
}
use strym_core.Common.Result.{ok}
use strym_core.Hls.Playlist.{HlsConfig, segment_name}
use strym_core.Hls.Storage.{MemoryStorage, memory_storage, insert, without}
use strym_core.Hls.Storage.Files.{IsThere, IsThere-insert, lookup-insert_self}
use strym_core.Hls.Output.{HlsOutput, is_some}
use strym_core.Hls.Output.Close.{ensure_init, roll, enter}
use strym_core.Hls.Output.Stored.{
  Stored, Stored-insert, Stored-segment, Stored-without, IsDistinct, IsThere-without,
}

-- After `roll` the window is within its limit, and its files are those of the storage.
record Rolled (cfg : HlsConfig) (limit next : ℕ) (old new : MemoryStorage)
    (window : List (Bytes × ℕ)) : Type 0 where
  pub first : ℕ
  pub counted : next ≡ first + length window
  pub stored : Stored cfg new.files first window
  pub short : length window ≤ limit
  pub init_kept : IsThere old.files cfg.init_segment_name → IsThere new.files cfg.init_segment_name

roll-Rolled :
    (cfg : HlsConfig) (limit k : ℕ) (s : MemoryStorage) (window : List (Bytes × ℕ))
    → IsDistinct cfg
    → Stored cfg s.files k window
    → (let r = roll memory_storage limit s window in Rolled cfg limit (k + length window) s r.0 r.1)
unfolding roll
roll-Rolled cfg limit k s [] d h = record {
  first = k;
  counted = refl;
  stored = h;
  short = omega arith;
  init_kept = λ p. p;
}
roll-Rolled cfg limit k s ((name, ms) ∷ window) d h =
    elim (Bool-cases (ltb limit (length ((name, ms) ∷ window)))) [
      | inr e ↦ rw e (record {
        first = k;
        counted = refl;
        stored = h;
        short = ground arith;
        init_kept = λ p. p;
      })
      | inl e ↦
          let s' : MemoryStorage = record { files = without name s.files } in
          let r =
            roll-Rolled cfg limit (suc k) s' window d
              (Stored-without cfg s.files k name ms window h) in
          rw e (record {
            first = r.first;
            counted = omega (arith, r.counted);
            stored = r.stored;
            short = r.short;
            init_kept = λ p.
                r.init_kept
                  (IsThere-without name _ s.files (λ q. d.init_apart k (sym h.numbered.0 ∙ q)) p);
          })
    ]

-- The files against the window, the count of segments and the flag of the initialization segment.
pub record Filed (cfg : HlsConfig) (storage : MemoryStorage) (window : List (Bytes × ℕ))
    (sequence : ℕ) (init_written : Bool) : Type 0 where
  pub first : ℕ
  pub counted : sequence ≡ first + length window
  pub stored : Stored cfg storage.files first window
  pub short : length window ≤ max cfg.window_size 1
  pub has_init : init_written ≡ true → IsThere storage.files cfg.init_segment_name
  pub opened : 0 < sequence → init_written ≡ true

abbrev pub IsFiled : HlsOutput MemoryStorage → Type 0
IsFiled o = Filed o.cfg o.storage o.window o.sequence o.init_written

abbrev pub HasPlaylist : HlsOutput MemoryStorage → Type 0
HasPlaylist o = 0 < o.sequence → IsThere o.storage.files o.cfg.playlist_name

-- What `ensure_init` keeps, and that it has written the file where it succeeds.
pub record Opened (o : HlsOutput MemoryStorage) : Type 0 where
  pub filed : IsFiled (ensure_init memory_storage o).1
  pub playlist : HasPlaylist (ensure_init memory_storage o).1
  pub same_sequence : (ensure_init memory_storage o).1.sequence ≡ o.sequence
  pub same_cfg : (ensure_init memory_storage o).1.cfg ≡ o.cfg
  pub done :
      (ensure_init memory_storage o).0 ≡ ok tt
      → (ensure_init memory_storage o).1.init_written ≡ true

Filed-init :
    (cfg : HlsConfig) (s : MemoryStorage) (window : List (Bytes × ℕ)) (n : ℕ) (b : Bool)
    (content : Bytes)
    → Filed cfg s window n b
    → Filed cfg (record { files = insert cfg.init_segment_name content s.files }) window n true
Filed-init cfg s window n b content h = record {
  first = h.first;
  counted = h.counted;
  stored =
      Stored-insert cfg s.files h.first window cfg.init_segment_name content (inl refl) h.stored;
  short = h.short;
  has_init = λ _. (content, lookup-insert_self cfg.init_segment_name content s.files);
  opened = λ _. refl;
}

pub ensure_init-Opened : (o : HlsOutput MemoryStorage) → IsFiled o → HasPlaylist o → Opened o
unfolding ensure_init
ensure_init-Opened o h p = elim (Bool-cases o.init_written) [
  | inl e ↦ record {
    filed = rw (ensure_init, e) (rw e at h);
    playlist = rw (ensure_init, e) p;
    same_sequence = rw (ensure_init, e);
    same_cfg = rw (ensure_init, e);
    done = rw (ensure_init, e) (λ _. refl);
  }
  | inr e ↦ elim (Bool-cases (not (is_some o.avcc) && not (is_some o.audio))) [
    | inl n ↦ record {
      filed = rw (ensure_init, e, n) (rw e at h);
      playlist = rw (ensure_init, e, n) p;
      same_sequence = rw (ensure_init, e, n);
      same_cfg = rw (ensure_init, e, n);
      done = rw (ensure_init, e, n) (λ q. cc);
    }
    | inr n ↦ record {
      filed =
          rw (ensure_init, e, n)
            (Filed-init o.cfg o.storage o.window o.sequence o.init_written _ h);
      playlist = rw (ensure_init, e, n) (λ l. IsThere-insert _ _ _ o.storage.files (p l));
      same_sequence = rw (ensure_init, e, n);
      same_cfg = rw (ensure_init, e, n);
      done = rw (ensure_init, e, n) (λ q. refl);
    }
  ]
]

pub enter-Filed :
    (name content : Bytes) (ms : ℕ) (o : HlsOutput MemoryStorage)
    → IsDistinct o.cfg
    → IsFiled o
    → o.init_written ≡ true
    → o.sequence + 1 < 2 ^ 32
    → name ≡ segment_name o.cfg o.sequence
    → IsFiled (
        enter memory_storage name ms
          (record o { storage = record { files = insert name content o.storage.files } }))
unfolding enter
enter-Filed name content ms o d h i l e =
    let r =
      roll-Rolled o.cfg (max o.cfg.window_size 1) h.first
        (record { files = insert name content o.storage.files }) (o.window ++ (name, ms) ∷ []) d
        (let en : name ≡ segment_name o.cfg (h.first + length o.window) =
            e ∙ ap (segment_name o.cfg) h.counted in
          rw en (Stored-segment o.cfg o.storage.files h.first o.window content ms h.stored)) in
    record {
      first = r.first;
      counted = omega (arith, r.counted, h.counted, length-append o.window ((name, ms) ∷ []));
      stored = r.stored;
      short = r.short;
      has_init = λ _. r.init_kept (IsThere-insert _ _ _ o.storage.files (h.has_init i));
      opened = λ _. i;
    }

pub Filed-playlist :
    (cfg : HlsConfig) (s : MemoryStorage) (window : List (Bytes × ℕ)) (n : ℕ) (b : Bool)
    (content : Bytes)
    → Filed cfg s window n b
    → Filed cfg (record { files = insert cfg.playlist_name content s.files }) window n b
Filed-playlist cfg s window n b content h = record {
  first = h.first;
  counted = h.counted;
  stored = Stored-insert cfg s.files h.first window cfg.playlist_name content (inr refl) h.stored;
  short = h.short;
  has_init = λ e. IsThere-insert _ _ _ s.files (h.has_init e);
  opened = h.opened;
}
