-- ===== src/InputRouter.antt =====
-- crates/input-router: the screen layout, the modifier state and the edge-crossing router.
pub mod Layout
pub mod Modifier
pub mod Router
