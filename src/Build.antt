-- ===== src/Build.antt =====
-- gmv_pjsip_sys/build.rs: how the build finds PJPROJECT, what it tells the linker, and where the bindings
-- come from.
pub mod Versions
pub mod Libraries
pub mod Steps
pub mod Environment
pub mod Linking
pub mod Bindings
