-- ===== src/Tests/Fragments.antt =====
-- rx.c: the second and last fragment of a frame.
use mac.Base.{ℕ, zero, suc, refl, Bool, true, false, none, List, [], ◌∷◌}
use mac.Defragment.{RxSkb, FragmentEntry, Cache, RxData, rx_h_defragment}
use mac.Defragment.Chains.{single, free, held, IsCache, IsReassembled}
use mac.Defragment.Joins.{rx_h_defragment-IsReassembled}

abbrev fragment : ℕ → Bool → List ℕ → RxSkb
fragment n morefrags body = record {
  ftype = 2;
  addr1 = 11;
  addr2 = 12;
  seq = 100;
  frag = n;
  queue = 0;
  is_ctl = false;
  multicast = false;
  morefrags = morefrags;
  has_protected = false;
  body = body;
}

abbrev entry : List RxSkb → FragmentEntry
entry skbs = record {
  first_frag_time = 50;
  seq = 100;
  rx_queue = 0;
  last_frag = 0;
  extra_len = 0;
  skb_list = skbs;
  ccmp = false;
  last_pn = 0;
}

abbrev entries : ℕ → FragmentEntry
entries zero = entry (fragment 0 true (1 ∷ 2 ∷ []) ∷ [])
entries (suc i) = entry []

abbrev cache : Cache
cache = record { fragments = entries; fragment_next = 1 }

cache-IsCache : IsCache cache
cache-IsCache zero = held refl (single refl) refl refl
cache-IsCache (suc i) = free refl

abbrev rx : RxData
rx = record { jiffies = 60; two_seconds = 200; ccmp_pn = none; linear = true; expands = true }

rx_h_defragment-IsReassembled_example :
    IsReassembled (fragment 1 false (3 ∷ [])) (rx_h_defragment rx (fragment 1 false (3 ∷ [])) cache)
rx_h_defragment-IsReassembled_example =
    rx_h_defragment-IsReassembled rx (fragment 1 false (3 ∷ [])) cache cache-IsCache
