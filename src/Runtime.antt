-- ===== src/Runtime.antt =====
-- src/runtime.rs: the runtime over the PJSIP shim.
pub mod Sequence
pub mod Types
pub mod Ffi
pub mod State
pub mod Checks
pub mod Outbound
pub mod Dialog
pub mod Sources
pub mod Packets
pub mod Lifecycle
pub mod Boundary
pub mod ErrorText
pub mod Copies
pub mod Callbacks
pub mod Config
pub mod Start
pub mod Accepts
pub mod Requests
pub mod Outcomes
pub mod Operations
