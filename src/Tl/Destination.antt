-- ===== src/Tl/Destination.antt =====
-- tl_rx_dst.c: the side of a node that answers the training of a source.
pub mod State
pub mod Report
pub mod Told
pub mod Receive
pub mod Count
pub mod Safe
pub mod Fault
