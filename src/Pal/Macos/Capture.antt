-- ===== src/Pal/Macos/Capture.antt =====
-- crates/pal-macos/src/capture.rs: the capture asks for a permission and captures nothing yet.
use borderless.Base.{Bool, if◌then◌else◌, Result, ok, err}
use borderless.Pal.Traits.{PalError, CaptureMode}

pub record MacosCapture : Type 0 where
  pub mode : CaptureMode

unfoldable pub new : MacosCapture
new = record { mode = CaptureMode.off }

-- `start`, with what `is_process_trusted` answers. The sink is not used.
unfoldable pub start : Bool → MacosCapture → Result PalError MacosCapture
start is_process_trusted c =
    if is_process_trusted
    then ok c
    else err (PalError.permission_required "Accessibility permission is required for input capture")

unfoldable pub stop : MacosCapture → Result PalError MacosCapture
stop c = ok c

unfoldable pub set_mode : CaptureMode → MacosCapture → Result PalError MacosCapture
set_mode mode c = ok (record c { mode = mode })
