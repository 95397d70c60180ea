-- ===== src/Pal/Traits.antt =====
-- crates/pal/src/lib.rs: what the platform backends share. A message of an error keeps its fixed
-- text. The traits themselves are the signatures of the backends' functions.
use Prim.Native.String.{String}

pub data PalError : Type 0 where
  unsupported : String → PalError
  permission_required : String → PalError
  backend : String → PalError
  io : PalError

pub data CaptureMode : Type 0 where
  off : CaptureMode
  listen : CaptureMode
  grab : CaptureMode
