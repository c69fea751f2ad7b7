-- ===== src/Io.antt =====
-- The interface `std::io::Write` as the source uses it: `write_all` and `flush`. Sinks and sockets
-- implement it. An error keeps its kind and loses its message.
use strym_core.Common.{◌++◌, Bytes}
use strym_core.Common.Result.{Result, ok}

pub data IoError : Type 0 where
  would_block timed_out invalid_data broken_pipe unexpected_eof other : IoError

pub record Write (W : Type 0) : Type 0 where
  pub write_all : W → Bytes → Result IoError (Unit {0}) × W
  pub flush : W → Result IoError (Unit {0}) × W

-- `Vec<u8>` as a sink: it takes every byte.
abbrev pub vec_write : Write Bytes
vec_write = record { write_all = λ v bytes. (ok tt, v ++ bytes); flush = λ v. (ok tt, v) }
