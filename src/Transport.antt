-- ===== src/Transport.antt =====
-- core/src/transport.rs: where the muxer's bytes go. The `Transport` trait is a record of
-- operations; `Fanout` sends every byte to several transports.
pub mod Fanout
use strym_core.Common.{ℕ, Option, none, length, Bytes}
use strym_core.Common.Result.{Result, ok}
use strym_core.Io.{IoError, Write, vec_write}

pub record Transport (W : Type 0) : Type 0 where
  pub write : Write W
  pub shutdown : W → Result IoError (Unit {0}) × W
  pub maintain : W → Result IoError (Unit {0}) × W
  pub bytes_written : W → ℕ
  -- When it last made progress, if it says so.
  pub last_progress : W → Option ℕ

-- The defaults of the trait's methods.
abbrev pub never_maintained : {W : Type 0} → W → Result IoError (Unit {0}) × W
never_maintained w = (ok tt, w)

-- `FileTransport` on a `Vec<u8>`: its byte count is the length of the vector.
abbrev pub file_transport : Transport Bytes
file_transport = record {
  write = vec_write;
  shutdown = vec_write.flush;
  maintain = never_maintained;
  bytes_written = length;
  last_progress = λ v. none;
}
