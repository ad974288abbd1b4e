-- ===== src/Io.antt =====
-- src/io.rs: the socket tasks, and the framing of SIP messages on a TCP stream.
pub mod Framing
pub mod Transmit
pub mod Log
pub mod Launch
pub mod Readers
pub mod Connections
