-- ===== src/Tl/Destination/State.antt =====
-- tl_rx_dst.c: the static variables. A pointer that is NULL is `none`; `freed` counts the received
-- frames that were given to `dev_kfree_skb`.
use mac.Base.{ℕ, zero, suc, Bool, List, [], ◌∷◌, Option, none, some}
use mac.Tl.Types.{Device, TrInfo, TrParam}
use mac.Tl.Rates.{u32}
use mac.Tl.Message.{Frame}

pub record Destination : Type 0 where
  pub for_init : Bool
  pub tf1_info : Option TrInfo
  pub tf2_info : Option TrInfo
  pub sdf_info : Option TrInfo
  pub tr2_list : List TrInfo
  pub tf1_prev_rcv_num : ℕ
  pub tf2_prev_rcv_num : ℕ
  pub tf1_cur_index : ℕ
  pub tf2_cur_index : ℕ
  pub tf1_timer : Option ℕ
  pub tf2_timer : Option ℕ
  pub tr2_timer : Option ℕ
  pub hop_timer : Option ℕ
  pub last_tf2_id : ℕ
  pub tr_id : ℕ
  pub mcs : ℕ
  pub dev_send2 : Device
  pub param : TrParam
  pub sent : List (Frame × Option ℕ)
  pub freed : ℕ

-- `(rcv_num[mcs])++` on an array of counters; `none` is an index outside the array.
unfoldable pub increment : ℕ → List ℕ → Option (List ℕ)
increment m [] = none
increment zero (n ∷ ns) = some (u32 (suc n) ∷ ns)
increment (suc m) (n ∷ ns) = elim (increment m ns) [ none ↦ none | some r ↦ some (n ∷ r) ]

abbrev pub eight_zeros : List ℕ
eight_zeros = 0 ∷ 0 ∷ 0 ∷ 0 ∷ 0 ∷ 0 ∷ 0 ∷ 0 ∷ []

unfoldable pub count_frame : ℕ → TrInfo → Option TrInfo
unfolding increment
count_frame mcs i = elim (increment mcs i.rcv_num) [
  | none ↦ none
  | some rcv ↦ some (record i { node = record i.node { rcv_num = rcv } })
]
