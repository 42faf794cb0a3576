-- ===== src/Core/Input.antt =====
-- homestar-core/src/workflow/input.rs: inputs (`Defs`), their resolution (`Resolve`), and what the
-- translations and the resolution keep.
pub mod Defs
pub mod Resolve
pub mod Translate
pub mod Readings
pub mod Links
pub mod Awaits
