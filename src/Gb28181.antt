-- ===== src/Gb28181.antt =====
-- src/gb28181/: the bodies of GB28181 messages.
pub mod Sdp
pub mod Xml
pub mod Mansrtsp
