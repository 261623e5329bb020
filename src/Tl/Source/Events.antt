-- ===== src/Tl/Source/Events.antt =====
-- tl_rx_src.c: what can happen at the source, as steps.
use mac.Base.{Bool, List, [], ◌∷◌, Option, none, some, if◌then◌else◌}
use mac.Tl.Source.State.{Kernel, Skb, Source, pending}
use mac.Tl.Source.Training.{tl_mcs_send_timer_func, tl_start_check}
use mac.Tl.Source.Polling.{tl_rx_tr1_timer_func, tl_rx_sndtf_timer_func}
use mac.Tl.Source.Receive.{tl_receive_skb_src}

-- What can happen at the source; a timer that runs is no longer pending.
pub data Event : Type 0 where
  start_frame : Skb → Event
  received : Skb → Event
  tr1_runs : Event
  sndtf_runs : Event
  mcs_runs : Event

abbrev pub started : Option (Source × Bool) → Option Source
started none = none
started (some (s, b)) = some s

-- A timer that is not pending does not run.
unfoldable pub step : Kernel → Event → Source → Option Source
unfolding tl_start_check tl_receive_skb_src tl_rx_sndtf_timer_func
step kernel (start_frame skb) s = started (tl_start_check kernel skb s)
step kernel (received skb) s = tl_receive_skb_src kernel skb s
step kernel tr1_runs s =
    if pending s.tr1_timer
    then some (tl_rx_tr1_timer_func kernel (record s { tr1_timer = none }))
    else some s
step kernel sndtf_runs s =
    if pending s.sndtf_timer
    then tl_rx_sndtf_timer_func kernel (record s { sndtf_timer = none })
    else some s
step kernel mcs_runs s =
    if pending s.mcs_timer
    then tl_mcs_send_timer_func kernel (record s { mcs_timer = none })
    else some s

-- The events in turn, each with what the kernel provides then.
unfoldable pub run : List (Kernel × Event) → Source → Option Source
unfolding step
run [] s = some s
run ((kernel, e) ∷ es) s = elim (step kernel e s) [ none ↦ none | some t ↦ run es t ]
