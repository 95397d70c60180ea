-- ===== src/Transport/Error.antt =====
-- `Error` of crates/transport/src/lib.rs. A message keeps its fixed text, not the values it shows.
use Prim.Native.String.{String}

pub data Error : Type 0 where
  io : Error
  rustls : Error
  rcgen : Error
  codec : String → Error
  identity : String → Error
  toml : String → Error
  pairing : String → Error
  tls : String → Error
  other : String → Error
