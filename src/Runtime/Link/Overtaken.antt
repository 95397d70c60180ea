-- ===== src/Runtime/Link/Overtaken.antt =====
-- A copy that meets the echo of the one before it.
use Prim.Native.String.{String}
use borderless.Runtime.Hub.Desk
use borderless.Runtime.Link.{Link}
