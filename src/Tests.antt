-- ===== src/Tests.antt =====
-- Runs of the definitions at concrete inputs, and each theorem at an input that meets its
-- hypotheses.
mod Auth
mod Build
mod Callbacks
mod Connections
mod Framing
mod Gb28181
mod Later
mod Message
mod Runtime
mod Sends
mod Sequence
mod Start
mod Transmit
