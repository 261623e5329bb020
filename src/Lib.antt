-- ===== src/Lib.antt =====
-- Verification of the wireless stack's network coding and relay selection (C sources at the
-- repository's root). A received frame enters at `decoding_try` (mnc_rx.c): coded data goes to the
-- decoder, training frames (ethertype 0x0811) go to the transport layer's source or destination side
-- (tl_rx_src.c, tl_rx_dst.c), and all else goes up the stack. A frame to send enters at
-- `ieee80211_matrix_network_coding` (mnc_tx.c). Beside it, the peer links of a mesh (mesh_plink.c) are
-- driven by received peering frames, timers and calls of the configuration, and its paths (mesh_hwmp.c) by
-- requests, replies and errors. Received data of an aggregation session (agg-rx.c) goes through the reorder
-- buffer (rx.c) before the handlers, among them the ones that decrypt (wpa.c) and that join fragments, and the
-- check of the integrity code (michael.c).
--
-- Base: shared names, arrays as lists or functions, counted loops, the laws of exclusive or.
-- Gf (gf.c): bytes are numbers below 256; the two tables are lists; gadd, gsub, gmul, gmul_inverse
-- and gdiv keep their names.
-- Mnc.Lu (mnc_rx.c, lu_fac): the four arrays are a record; an array of arrays is a function of two
-- indices; each for loop is `for_range` with its number of rounds; the exchanges, the search for a
-- row and the clearing of a row are functions of their own.
-- Mnc.Substitute (mnc_rx.c, skb_substi): the loop over offsets runs ceil(len / p) rounds, which are
-- enough for every offset below len, and each is entered by the source's test.
-- Mnc.Encode (mnc_tx.c): `make_skb_new`; pointers into the data are offsets, and the random bytes and what
-- `skb_copy` leaves behind the frame are arguments. Its loop runs a given number of rounds and is `runs_on`
-- where it has not ended by then; a round for each packet and one more are enough for packets of one length.
-- The rest of the file is left out.
-- Mnc.Decode (mnc_rx.c, skbs_decoding): the arrays before they are written are a record; `faults` is an
-- access through NULL or outside an array, and `hangs` is a loop that does not advance.
-- Mnc.Trip and Mnc.Recovery put the encoder and the decoder together; Mnc.Faults is about packets of
-- different lengths in the encoder, Mnc.Stray about a waiting packet that the decoder has no place for.
-- Mnc.Queue (mnc_rx.c): the queues of generations are a sequence; `enter_queue` is the part of
-- `decoding_try` between the check of the times and `skb_queue_tail`, where memory for a new queue and
-- for a copy of the frame is found; `skb_decoding_sys` moves the header. The dispatch before it and what
-- `decoding_try` does with decoded packets are left out.
-- Tl.Types, Tl.Lists (tl_rx.h, tl_rx_param.c, tl_rx_list.c): `struct tr_info` is a node and its list
-- of neighbours; a linked list is the sequence of its nodes. `tr_info_create` does not look at what `kmalloc`
-- answers, and is `none` (an access through NULL) where there is no memory.
-- Tl.Rates (tl_rx.c, tl_rx_list.c): each intermediate result wraps at the width of its C type.
-- Tl.Relay (tl_rx_list.c): one function for each function of the source; a loop over a list is
-- recursion on it.
-- Tl.Message: the writers and readers of the frames; a frame's bytes are a function of the offset.
-- Tl.Source (tl_rx_src.c): the static variables are a record, each handler and timer is a function on
-- it, and `step` is one event. The kernel's clock, memory and random numbers are arguments; a
-- timer is the time at which it runs; the loop over the frames to send runs as often as there
-- are frames. `none` is an access through NULL, through a pointer to a freed node or outside a table. A
-- pointer to a node is the node's address: one that is freed and learnt again counts as the same. The length
-- of a report is not compared with what is read of it.
-- Tl.Destination (tl_rx_dst.c): the same for the answering side; a pointer that can be NULL is an
-- option, and `none` as a result is an access through NULL, outside an array, or behind the end of the frame
-- (`bytes_read` is how many bytes of it are read).
--
-- Mesh (mesh_plink.c, parts of mesh.h and mesh.c): a station's peer link and the interface are records; the
-- handlers are functions on both, and `none` is a halt of the kernel (a pending timer is added, a division
-- by zero). One step of the state machine is one function for each state. What other functions say of a
-- frame (its elements, `mesh_matches_local`, `rssi_threshold_check`) is read from a record, and times do not
-- wrap. The flags of changes, power saving, HT protection, the slot time and the making of a station entry
-- are left out.
--
-- Hwmp (mesh_hwmp.c, mesh_pathtbl.c, parts of mesh.h and mesh_ps.c): the table of paths of an interface is a
-- function of the destination, an address the number of its six bytes, and a flag a field. A station is found
-- by its address, and its rate is what `cfg80211_calculate_bitrate` says. `hwmp_route_info_get` is two halves;
-- `none` of `hwmp_perr_frame_process` is an access through NULL, and the frame of an error is its element. The
-- buckets of the table and their growth, which only asks for work, the answers to requests, the forwarding,
-- the discovery and its timer are left out.
--
-- Reorder (rx.c, ieee80211_i.h): the reorder buffer of an aggregation session; the released frames are
-- appended to a list. The kernel's arithmetic of sequence numbers is an argument. The loop up to a new head
-- runs at most 4096 rounds, which are enough for twelve bits; the other loops run once round the buffer.
--
-- Michael (michael.c): memory is a function of the offset; the kernel's rotations and its access to words
-- are arguments, and the header is what the code reads of it.
--
-- Defragment (rx.c, ieee80211_i.h): the cache of fragments is a function of the slot; of a frame the handler
-- reads a record, and a packet number of six bytes is one number.
--
-- Wpa (wpa.c, aes_ccm.c, aes_gcm.c, util.c): the two copies of the code, for CCMP and GCMP, are one, with
-- what differs chosen by `Suite`. A frame is the list of its bytes beside those in front of it; the kernel's
-- ciphers and its functions on headers are arguments, and of the blocks the bytes that the code leaves unset.
--
-- Aggregation (agg-rx.c, ht.c, rx.c): a station's sessions are a function of the traffic identifier, each with
-- its reorder buffer; requests, frames, timers and the work function are functions on the station. Memory, the
-- driver and what stands in fields that are not set are arguments, and memory for frames that are sent is
-- found. The sending side, the bytes of the frames, and the queue entries by which a driver starts and stops
-- sessions are left out.
--
-- Everywhere jiffies do not wrap, so `time_after` is an order. Prints, the counters kept for statistics,
-- the LED and the measurement of the time a training takes are left out. Locks are not modelled: each
-- handler and timer runs as one step. The rest of the repository is the mac80211 stack into which
-- these files are built.
mod Base
pub mod Gf
pub mod Mnc
pub mod Tl
pub mod Hwmp
pub mod Mesh
pub mod Reorder
pub mod Michael
pub mod Defragment
pub mod Wpa
pub mod Aggregation
mod Tests
