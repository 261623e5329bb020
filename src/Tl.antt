-- ===== src/Tl.antt =====
-- The transport layer's training and relay selection: tl_rx.h, tl_rx.c, tl_rx_param.c, tl_rx_list.c,
-- tl_rx_src.c and tl_rx_dst.c.
pub mod Types
pub mod Lists
pub mod Rates
pub mod Relay
pub mod Message
pub mod Source
pub mod Destination
