-- ===== src/Tests/Training.antt =====
-- The transport layer's theorems at concrete nodes, frames and states.
use mac.Base.{
  ℕ, ◌*◌, ◌≤◌, ◌≡◌, refl, arith, true, false, List, [], ◌∷◌, none, some, ◌==◌, if◌then◌else◌, map,
  ◌⊎◌,
}
use mac.Mnc.Substitute.{Vector}
use mac.Tl.Types.{Addr, Device, TrNode, TrInfo, tr_set_param, default_param}
use mac.Tl.Lists.{dst_info_create, find_addr}
use mac.Tl.Rates.{n_to_k, k_to_n, cal_tx_time}
use mac.Tl.Rates.Bounds.{n_to_k_le, k_to_n_enough}
use mac.Tl.Relay.{rank_relay, tr_info_list_arrangement}
use mac.Tl.Relay.Rank.{best, first_three, insert_entry, IsRanked, rank_relay-best}
use mac.Tl.Relay.Arrange.{Arranged, near_source, tr_info_list_arrangement-Arranged}
use mac.Tl.Message.{payload, write_tr, read_tf}
use mac.Tl.Message.Trip.{Words, IsNode}
use mac.Tl.Message.Report.{seen}
use mac.Tl.Source.State.{Kernel, Skb, Source}
use mac.Tl.Source.Training.{tl_start_check}
use mac.Tl.Source.Events.{received, mcs_runs, run}
use mac.Tl.Source.Stuck.{IsStuck, restart-run-IsStuck}
use mac.Tl.Destination.State.{Destination}
use mac.Tl.Destination.Receive.{tl_receive_skb_dst, bytes_read}
use mac.Tl.Destination.Report.{tl_rx_tr2_timer_func}
use mac.Tl.Destination.Told.{read_report, nodes_of, tr2_timer-read_report}
use mac.Tl.Message.{Frame}
use mac.Tl.Destination.Count.{IsSound, Runs}
use mac.Tl.Destination.Safe.{tl_receive_skb_dst-Runs}
use mac.Tl.Destination.Fault.{tl_receive_skb_dst-fault}

n_to_k_le_example : (k : ℕ) × (n_to_k 20 100 90 ≡ some k) × (100 * k ≤ 80 * 20)
n_to_k_le_example = n_to_k_le 20 100 90 (omega arith) (omega arith) (omega arith) (omega arith)

k_to_n_enough_example :
    (n : ℕ) × (k_to_n 10 100 90 ≡ some n) × ((5 * 10 ≤ 4 * n) ⊎ (n ≡ 255)) × (n ≤ 255)
k_to_n_enough_example = k_to_n_enough 10 100 90 (omega arith) (omega arith) (omega arith)

abbrev here : Addr
here = 2 ∷ 0 ∷ 0 ∷ 0 ∷ 0 ∷ 1 ∷ []

abbrev there : Addr
there = 2 ∷ 0 ∷ 0 ∷ 0 ∷ 0 ∷ 2 ∷ []

abbrev card : Device
card = record { index = 1; dev_addr = here }

abbrev node_of : Addr → TrNode
node_of a = record {
  addr = a;
  dev = card;
  total_num = 10;
  rcv_num = 9 ∷ 300 ∷ 7 ∷ 6 ∷ 5 ∷ 4 ∷ 3 ∷ 2 ∷ [];
  rssi = 40;
  batt = 80;
  tf_cnt = false;
  nr_cnt = false;
}

abbrev nodes : List TrInfo
nodes =
    record { node = node_of here; nbr_list = node_of there ∷ [] }
    ∷ record { node = node_of there; nbr_list = node_of here ∷ [] }
    ∷ []

abbrev empty : Vector
empty o = 0

words : Words (9 ∷ 300 ∷ 7 ∷ 6 ∷ 5 ∷ 4 ∷ 3 ∷ 2 ∷ [])
words = (
  omega arith,
  (
    omega arith,
    (omega arith, (omega arith, (omega arith, (omega arith, (omega arith, (omega arith, tt)))))),
  ),
)

here-IsNode : IsNode (node_of here)
here-IsNode = record { six = refl; eight = refl; words = words }

there-IsNode : IsNode (node_of there)
there-IsNode = record { six = refl; eight = refl; words = words }

rank_relay-best_example :
    (best (rank_relay here 7 (dst_info_create there 3))
      ≡ first_three (insert_entry (7, here) (best (dst_info_create there 3))))
    × IsRanked (rank_relay here 7 (dst_info_create there 3))
    × ((rank_relay here 7 (dst_info_create there 3)).addr ≡ there)
    × ((rank_relay here 7 (dst_info_create there 3)).pr_dof ≡ 3)
unfolding dst_info_create
rank_relay-best_example =
    rank_relay-best here 7 (dst_info_create there 3) (omega arith, omega arith)

tr_info_list_arrangement-Arranged_example :
    Arranged (near_source 9 nodes) nodes (tr_info_list_arrangement 9 nodes)
unfolding find_addr
tr_info_list_arrangement-Arranged_example =
    tr_info_list_arrangement-Arranged 9 nodes ((refl, tt), ((refl, tt), tt))

abbrev kernel : Kernel
kernel = record {
  hz = 250;
  jiffies = 1000;
  now = 77;
  room = λ i. false;
  junk = empty;
  finds_node = true;
  random_id = 12;
  second_id = 13;
  ms_to_jiffies = λ n. n;
}

abbrev start_skb : Skb
start_skb = record {
  dev = card;
  daddr = here;
  saddr = there;
  transport = empty;
  len = 64;
  content = empty;
}

-- A report of the first round, from the other node.
abbrev report : Skb
report = record start_skb { content = write_tr (node_of there) empty }

abbrev waiting : Source
waiting = record {
  for_src_init = false;
  src_nbr_list = nodes;
  polling_state = false;
  polling_addr = here;
  last_tr_id = 12;
  tr_id = 12;
  mcs = 0;
  dev_send = card;
  param = default_param;
  tr1_timer = some 1001;
  sndtf_timer = none;
  sndtf_info = here;
  mcs_timer = none;
  tl_start = 5;
  sent = [];
}

abbrev restarted : Source
restarted = record waiting {
  src_nbr_list = [];
  last_tr_id = 13;
  tr_id = 13;
  mcs = 1;
  param = tr_set_param true false 0 0 0 0 0;
  mcs_timer = some 1000;
  tl_start = 77;
}

abbrev stuck : Source
stuck = record restarted { polling_state = true; tr1_timer = none; mcs_timer = some 1000; mcs = 2 }

restart-run-IsStuck_example : IsStuck stuck
unfolding tl_start_check run cal_tx_time write_tr
restart-run-IsStuck_example =
    restart-run-IsStuck kernel kernel start_skb ((kernel, mcs_runs) ∷ [])
      ((kernel, received report) ∷ []) waiting restarted stuck refl refl tt refl

abbrev node_state : Destination
node_state = record {
  for_init = false;
  tf1_info = some (record { node = node_of there; nbr_list = [] });
  tf2_info = none;
  sdf_info = none;
  tr2_list = [];
  tf1_prev_rcv_num = 0;
  tf2_prev_rcv_num = 0;
  tf1_cur_index = 0;
  tf2_cur_index = 0;
  tf1_timer = none;
  tf2_timer = none;
  tr2_timer = none;
  hop_timer = none;
  last_tf2_id = 0;
  tr_id = 0;
  mcs = 0;
  dev_send2 = card;
  param = default_param;
  sent = [];
  freed = 4;
}

node_state-IsSound : IsSound node_state
node_state-IsSound = record { first = refl; second = tt; rate = omega arith }

abbrev training_skb : ℕ → Skb
training_skb mcs = record start_skb {
  content = λ o. if o == 0 then 1 else if o == 13 then mcs else 0;
}

tl_receive_skb_dst-Runs_example : Runs 5 (tl_receive_skb_dst kernel (training_skb 3) node_state)
unfolding read_tf bytes_read
tl_receive_skb_dst-Runs_example =
    tl_receive_skb_dst-Runs kernel (training_skb 3) node_state refl (omega arith) (omega arith)
      node_state-IsSound

tl_receive_skb_dst-fault_example : tl_receive_skb_dst kernel (training_skb 8) node_state ≡ none
unfolding read_tf
tl_receive_skb_dst-fault_example =
    tl_receive_skb_dst-fault kernel (training_skb 8) node_state refl refl refl node_state-IsSound

abbrev answering : Destination
answering = record node_state {
  sdf_info = some (record { node = node_of there; nbr_list = [] });
  tr2_list = nodes;
}

abbrev roomy : Kernel
roomy = record kernel { room = λ i. true }

tr2_timer-read_report_example :
    (f : Frame) × ((tl_rx_tr2_timer_func roomy answering).sent ≡ (f, none) ∷ [])
    × (read_report (payload f.bytes) ≡ map seen (nodes_of nodes))
tr2_timer-read_report_example =
    tr2_timer-read_report roomy answering (record { node = node_of there; nbr_list = [] })
      (record { node = node_of here; nbr_list = node_of there ∷ [] })
      (record { node = node_of there; nbr_list = node_of here ∷ [] } ∷ []) refl refl
      (here-IsNode, (there-IsNode, tt)) (omega arith) refl
