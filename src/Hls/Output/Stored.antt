-- ===== src/Hls/Output/Stored.antt =====
-- The files of an HLS output against its window.
use strym_core.Common.{
  ℕ, suc, ◌+◌, ◌≤◌, ◌<◌, ◌≡◌, ◌≢◌, ◌⊎◌, inl, inr, ap, sym, ◌∙◌, arith, false, some, List, [], ◌∷◌,
  ◌++◌, All, All-append, length, length-append, drop, drop-append, Bytes, eq_bytes, eq_bytes→eq,
  Bool-cases,
}
use strym_core.Common.Text.{codes, decimal}
use strym_core.Common.Decimal.{read_number, read_number-decimal}
use strym_core.Hls.Playlist.{HlsConfig, segment_name}
use strym_core.Hls.Storage.{lookup, insert, without}
use strym_core.Hls.Storage.Files.{
  IsThere, IsThere-insert, inserted, kept, lookup-insert_self, lookup-without_other,
}

segment_number : HlsConfig → Bytes → ℕ
segment_number cfg name = read_number 0 (drop (length cfg.segment_prefix) name)

segment_number-segment_name :
    (cfg : HlsConfig) (k : ℕ) → segment_number cfg (segment_name cfg k) ≡ k
unfolding segment_number segment_name read_number
segment_number-segment_name cfg k =
    ap (read_number 0) (drop-append cfg.segment_prefix (decimal k ++ codes ".m4s"))
    ∙ read_number-decimal k (codes ".m4s")

pub segment_name_inj : (cfg : HlsConfig) (i j : ℕ) → segment_name cfg i ≡ segment_name cfg j → i ≡ j
segment_name_inj cfg i j e =
    sym (segment_number-segment_name cfg i)
    ∙ (ap (segment_number cfg) e ∙ segment_number-segment_name cfg j)

-- The names in the window are those of the segments from the `k`th on.
abbrev pub Numbered : HlsConfig → ℕ → List (Bytes × ℕ) → Type 0
Numbered cfg k [] = Unit {0}
Numbered cfg k ((name, ms) ∷ window) = (name ≡ segment_name cfg k) × Numbered cfg (suc k) window

abbrev pub Listed : HlsConfig → ℕ → ℕ → Bytes → Type 0
Listed cfg k n name =
    (name ≡ cfg.init_segment_name)
    ⊎ ((name ≡ cfg.playlist_name) ⊎ ((i : ℕ) × (k ≤ i) × (i < n) × (name ≡ segment_name cfg i)))

abbrev pub InWindow : List (Bytes × Bytes) → List (Bytes × ℕ) → Type 0
InWindow files window = All (λ e. IsThere files e.0) window

-- The window's segments are the `k`th and the following ones; each can be read, and no other file is
-- there but the initialization segment and the playlist.
pub record Stored (cfg : HlsConfig) (files : List (Bytes × Bytes)) (k : ℕ)
    (window : List (Bytes × ℕ)) : Type 0 where
  pub numbered : Numbered cfg k window
  pub there : InWindow files window
  pub only :
      (name content : Bytes)
      → lookup name files ≡ some content
      → Listed cfg k (k + length window) name

InWindow-insert :
    (n c : Bytes) (files : List (Bytes × Bytes)) (window : List (Bytes × ℕ))
    → InWindow files window
    → InWindow (insert n c files) window
InWindow-insert n c files [] h = tt
InWindow-insert n c files ((name, ms) ∷ window) (p, h) =
    (IsThere-insert n c name files p, InWindow-insert n c files window h)

Listed-le :
    (cfg : HlsConfig) (k n m : ℕ) (name : Bytes) → n ≤ m → Listed cfg k n name → Listed cfg k m name
Listed-le cfg k n m name h (inl e) = inl e
Listed-le cfg k n m name h (inr (inl e)) = inr (inl e)
Listed-le cfg k n m name h (inr (inr (i, l, u, e))) = inr (inr (i, l, omega arith, e))

-- A file beside the segments is written.
pub Stored-insert :
    (cfg : HlsConfig) (files : List (Bytes × Bytes)) (k : ℕ) (window : List (Bytes × ℕ))
    (n c : Bytes)
    → (n ≡ cfg.init_segment_name) ⊎ (n ≡ cfg.playlist_name)
    → Stored cfg files k window
    → Stored cfg (insert n c files) k window
Stored-insert cfg files k window n c beside s = record {
  numbered = s.numbered;
  there = InWindow-insert n c files window s.there;
  only = λ name content h. elim (inserted n c name content files h) [
    | inl e ↦ elim beside [ inl i ↦ inl (e ∙ i) | inr p ↦ inr (inl (e ∙ p)) ]
    | inr old ↦ s.only name content old
  ];
}

Numbered-append :
    (cfg : HlsConfig) (k : ℕ) (window : List (Bytes × ℕ)) (ms : ℕ)
    → Numbered cfg k window
    → Numbered cfg k (window ++ (segment_name cfg (k + length window), ms) ∷ [])
Numbered-append cfg k [] ms h = (ap (segment_name cfg) (omega arith), tt)
Numbered-append cfg k (e ∷ window) ms (p, h) = (
  p,
  let q : k + suc (length window) ≡ suc k + length window = omega arith in
      rw q (Numbered-append cfg (suc k) window ms h),
)

-- The next segment is written and enters the window.
pub Stored-segment :
    (cfg : HlsConfig) (files : List (Bytes × Bytes)) (k : ℕ) (window : List (Bytes × ℕ)) (c : Bytes)
    (ms : ℕ)
    → Stored cfg files k window
    → Stored cfg
        (insert (segment_name cfg (k + length window)) c files)
        k
        (window ++ (segment_name cfg (k + length window), ms) ∷ [])
Stored-segment cfg files k window c ms s =
    let longer : k + length window
        < k + length (window ++ (segment_name cfg (k + length window), ms) ∷ []) =
      omega (arith, length-append window ((segment_name cfg (k + length window), ms) ∷ [])) in
    record {
      numbered = Numbered-append cfg k window ms s.numbered;
      there =
          All-append _ window _ (InWindow-insert _ c files window s.there)
            ((c, lookup-insert_self _ c files), tt);
      only = λ name content h. elim (inserted _ c name content files h) [
        | inl e ↦ inr (inr (k + length window, omega arith, longer, e))
        | inr old ↦
            Listed-le cfg k (k + length window) _ name (omega arith) (s.only name content old)
      ];
    }

-- No file beside the segments has the name of one.
pub record IsDistinct (cfg : HlsConfig) : Type 0 where
  pub init_apart : (i : ℕ) → segment_name cfg i ≢ cfg.init_segment_name
  pub playlist_apart : (i : ℕ) → segment_name cfg i ≢ cfg.playlist_name
  pub two_files : cfg.init_segment_name ≢ cfg.playlist_name

apart : (n k : Bytes) → n ≢ k → eq_bytes n k ≡ false
apart n k h = elim (Bool-cases (eq_bytes n k)) [
  | inl e ↦ absurd (h (eq_bytes→eq n k e))
  | inr e ↦ e
]

pub IsThere-without :
    (n k : Bytes) (files : List (Bytes × Bytes))
    → n ≢ k
    → IsThere files k
    → IsThere (without n files) k
IsThere-without n k files h (d, e) = (d, lookup-without_other n k files (apart n k h) ∙ e)

InWindow-without :
    (cfg : HlsConfig) (files : List (Bytes × Bytes)) (i k : ℕ) (window : List (Bytes × ℕ))
    → i < k
    → Numbered cfg k window
    → InWindow files window
    → InWindow (without (segment_name cfg i) files) window
InWindow-without cfg files i k [] l p h = tt
InWindow-without cfg files i k ((name, ms) ∷ window) l (p, ps) (h, hs) = (
  IsThere-without _ name files
      (λ e. let same : i ≡ k = segment_name_inj cfg i k (e ∙ p) in omega arith) h,
  InWindow-without cfg files i (suc k) window (omega arith) ps hs,
)

Listed-suc :
    (cfg : HlsConfig) (k n : ℕ) (name : Bytes)
    → name ≢ segment_name cfg k
    → Listed cfg k n name
    → Listed cfg (suc k) n name
Listed-suc cfg k n name h (inl e) = inl e
Listed-suc cfg k n name h (inr (inl e)) = inr (inl e)
Listed-suc cfg k n name h (inr (inr (i, l, u, e))) =
    let later : k ≢ i = λ q. h (e ∙ ap (segment_name cfg) (sym q)) in
    inr (inr (i, omega arith, u, e))

-- The oldest segment leaves the window and is removed.
pub Stored-without :
    (cfg : HlsConfig) (files : List (Bytes × Bytes)) (k : ℕ) (name : Bytes) (ms : ℕ)
    (window : List (Bytes × ℕ))
    → Stored cfg files k ((name, ms) ∷ window)
    → Stored cfg (without name files) (suc k) window
Stored-without cfg files k name ms window s = record {
  numbered = s.numbered.1;
  there =
      rw s.numbered.0
        (InWindow-without cfg files k (suc k) window (omega arith) s.numbered.1 s.there.1);
  only = λ n content h.
      let (other, old) = kept name n content files h in
      Listed-le cfg (suc k) _ _ n (omega arith)
        (Listed-suc cfg k _ n (λ e. other (e ∙ sym s.numbered.0)) (s.only n content old));
}
