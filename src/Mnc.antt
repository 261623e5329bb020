-- ===== src/Mnc.antt =====
-- Matrix network coding: mnc_rx.c and mnc_tx.c.
pub mod Lu
pub mod Queue
pub mod Encode
pub mod Decode
pub mod Trip
pub mod Recovery
pub mod Faults
pub mod Stray
pub mod Substitute
