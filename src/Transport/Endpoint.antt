-- ===== src/Transport/Endpoint.antt =====
-- crates/transport/src/listener.rs and connector.rs: the two ends that make a connection. TCP and TLS are
-- outside: an attempt is how far they came, with the exporter material and the stream of a session that
-- was set up. cert.rs configures TLS to accept any certificate, so that no attempt fails for its sake.
use Prim.Native.String.{String}
use borderless.Base.{ℕ, Bool, true, false, Option, none, Result, err}
use borderless.Core.Node.{Bytes}
use borderless.Transport.Error.{Error}
use borderless.Transport.Frame.{Stream}
use borderless.Transport.Identity.{Identity}
use borderless.Transport.PeerStore.{PeerStore, Disk}
use borderless.Transport.Handshake.{Connection, Crates, handshake}

pub data Attempt : Type 0 where
  no_tcp : Attempt
  no_tls : Attempt
  no_exporter : Attempt
  session : (exporter : Bytes) → (stream : Stream) → Attempt

-- `ListenerConfig`, without the address, at which the socket listens.
pub record ListenerConfig : Type 0 where
  pub name : String
  pub accept_new_peers : Bool

pub record Listener : Type 0 where
  pub identity : Identity
  pub config : ListenerConfig

pub record Connector : Type 0 where
  pub identity : Identity
  pub name : String

module _ (c : Crates) where
  -- `Listener::accept`, at a time.
  unfoldable pub accept :
      Listener → Attempt → ℕ → PeerStore → Disk → PeerStore × Disk × Result Error Connection
  accept l no_tcp now peers disk = (peers, disk, err Error.io)
  accept l no_tls now peers disk = (peers, disk, err (Error.tls "accept tls"))
  accept l no_exporter now peers disk = (peers, disk, err (Error.tls "exporter"))
  accept l (session exporter stream) now peers disk =
      handshake c l.identity l.config.name exporter l.config.accept_new_peers none false now peers
        disk stream

  -- `Connector::dial`, at a time.
  unfoldable pub dial :
      Connector
      → Option Bytes
      → Bool
      → Attempt
      → ℕ
      → PeerStore
      → Disk
      → PeerStore × Disk × Result Error Connection
  dial k expected accept_new_peer no_tcp now peers disk = (peers, disk, err Error.io)
  dial k expected accept_new_peer no_tls now peers disk =
      (peers, disk, err (Error.tls "connect tls"))
  dial k expected accept_new_peer no_exporter now peers disk =
      (peers, disk, err (Error.tls "exporter"))
  dial k expected accept_new_peer (session exporter stream) now peers disk =
      handshake c k.identity k.name exporter accept_new_peer expected true now peers disk stream
