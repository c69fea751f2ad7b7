-- ===== src/Telemetry/Log.antt =====
-- The levels of core/src/telemetry.rs, and the filter in front of the logger. The process-wide
-- logger and level are a state; the logger's own state `L` is the host's.
use strym_core.Common.{ℕ, Bool, Option, none, some, List, Bytes, if◌then◌else◌, leb, ◌==◌}
use strym_core.Common.Text.{codes}

pub data Level : Type 0 where
  error warn info debug trace : Level

unfoldable pub as_u8 : Level → ℕ
as_u8 error = 1
as_u8 warn = 2
as_u8 info = 3
as_u8 debug = 4
as_u8 trace = 5

unfoldable pub as_str : Level → Bytes
as_str error = codes "error"
as_str warn = codes "warn"
as_str info = codes "info"
as_str debug = codes "debug"
as_str trace = codes "trace"

-- The level for a number of the atomic byte.
unfoldable pub from_u8 : ℕ → Level
from_u8 n =
    if n == 1
    then error
    else if n == 2
    then warn
    else if n == 3
    then info
    else if n == 4
    then debug
    else trace

-- `module`, `message` and the fields.
pub record Record (F : Type 0) : Type 0 where
  pub level : Level
  pub module_path : Bytes
  pub message : Bytes
  pub fields : List F

-- The statics `LOGGER` and `MAX_LEVEL`; a logger is what it does to the host's state.
pub record Statics (F L : Type 0) : Type 0 where
  pub logger : Option (Record F → L → L)
  pub max : ℕ

module _ {F L : Type 0} where
  unfoldable pub set_logger : Option (Record F → L → L) → Statics F L → Statics F L
  set_logger logger s = record s { logger = logger }

  unfoldable pub set_max_level : Level → Statics F L → Statics F L
  set_max_level level s = record s { max = as_u8 level }

  unfoldable pub max_level : Statics F L → Level
  max_level s = from_u8 s.max

  unfoldable pub enabled : Statics F L → Level → Bool
  enabled s level = leb (as_u8 level) s.max

  unfoldable pub log : Statics F L → Record F → L → L
  log s r host =
      if enabled s r.level
      then elim s.logger [ none ↦ host | some logger ↦ logger r host ]
      else host
