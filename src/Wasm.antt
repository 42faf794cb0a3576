-- ===== src/Wasm.antt =====
-- homestar-wasm.
pub mod Limits
pub mod Value
pub mod Io
