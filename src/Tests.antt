-- ===== src/Tests.antt =====
-- Runs of the definitions on small inputs, and the theorems at concrete inputs.
mod Field
mod Decoder
mod Encoder
mod Trip
mod Queue
mod Routing
mod Fragments
mod Integrity
mod Peering
mod Reordering
mod Training
mod Packets
mod Sessions
