-- ===== src/Workers.antt =====
-- workers/: what runs a task.
pub mod Contracts
pub mod Workspace
pub mod Openclaw
pub mod Envelope
pub mod ArchitectPrompts
pub mod ReviewEnvelope
pub mod Architect
pub mod Codegen
pub mod Keyless
