-- ===== src/Tl/Source.antt =====
-- tl_rx_src.c: the source's side of the training. A timer is the time at which it runs, if it is
-- pending; a pointer to a node is the node's address. Prints are left out.
pub mod State
pub mod Training
pub mod Polling
pub mod Receive
pub mod Events
pub mod Keeps
pub mod Stuck
