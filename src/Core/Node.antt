-- ===== src/Core/Node.antt =====
-- crates/core/src/node.rs: node identity and protocol versions.
use borderless.Base.{ℕ, List, ℕ_discrete, take}

-- Byte strings: `Vec<u8>`, `&[u8]` and `[u8; N]`.
abbrev pub Bytes : Type 0
Bytes = List ℕ

-- `blake3::hash` and the `hex` crate, as far as the program relies on them.
pub record Blake3 : Type 0 where
  pub hash : Bytes → Bytes

pub record NodeId : Type 0 where
  pub bytes : Bytes

unfoldable pub Bytes-discrete : Discrete Bytes
Bytes-discrete = hlevel ℕ_discrete

unfoldable pub NodeId-discrete : Discrete NodeId
NodeId-discrete = hlevel ℕ_discrete

unfoldable pub from_pubkey : Blake3 → Bytes → NodeId
from_pubkey b pubkey = record { bytes = take 16 (b.hash pubkey) }

pub record ProtocolVersion : Type 0 where
  pub number : ℕ

abbrev pub protocol_v0 : ProtocolVersion
protocol_v0 = record { number = 0 }
