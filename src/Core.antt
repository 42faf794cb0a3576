-- ===== src/Core.antt =====
-- homestar-core/src/workflow: the invocation types and their translations to and from Ipld.
pub mod Error
pub mod Pointer
pub mod InstructionResult
pub mod Nonce
pub mod Proof
pub mod Principal
pub mod Config
pub mod Input
pub mod Instruction
pub mod Task
pub mod Receipt
