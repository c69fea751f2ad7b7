-- ===== src/Hls/Storage.antt =====
-- core/src/hls/mod.rs: where the files land. `HlsStorage` is the trait's record of operations. File
-- names are their bytes.
pub mod Files
use strym_core.Common.{
  eq_bytes, Bool, true, false, ◌&&◌, Option, none, some, List, [], ◌∷◌, Bytes, if◌then◌else◌, ◌==◌,
}
use strym_core.Common.Result.{Result, ok}
use strym_core.Io.{IoError}

pub record HlsStorage (S : Type 0) : Type 0 where
  pub write_file : S → Bytes → Bytes → Result IoError (Unit {0}) × S
  pub remove_file : S → Bytes → Result IoError (Unit {0}) × S

-- A map of files; the order of its names is left out.
pub record MemoryStorage : Type 0 where
  pub files : List (Bytes × Bytes)

unfoldable pub lookup : Bytes → List (Bytes × Bytes) → Option Bytes
lookup name [] = none
lookup name ((n, content) ∷ files) = if eq_bytes n name then some content else lookup name files

unfoldable pub get : MemoryStorage → Bytes → Option Bytes
get s name = lookup name s.files

unfoldable pub insert : Bytes → Bytes → List (Bytes × Bytes) → List (Bytes × Bytes)
insert name content [] = (name, content) ∷ []
insert name content ((n, old) ∷ files) =
    if eq_bytes n name then (n, content) ∷ files else (n, old) ∷ insert name content files

unfoldable pub without : Bytes → List (Bytes × Bytes) → List (Bytes × Bytes)
without name [] = []
without name ((n, content) ∷ files) =
    if eq_bytes n name then without name files else (n, content) ∷ without name files

abbrev pub memory_storage : HlsStorage MemoryStorage
memory_storage = record {
  write_file = λ s name content. (ok tt, record { files = insert name content s.files });
  remove_file = λ s name. (ok tt, record { files = without name s.files });
}
