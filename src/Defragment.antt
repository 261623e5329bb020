-- ===== src/Defragment.antt =====
-- rx.c, ieee80211_i.h: the cache of fragments and the reassembly of frames.
pub mod Chains
pub mod Joins
use mac.Base.{
  ℕ, zero, suc, ◌+◌, ◌-◌, ◌%◌, ◌^◌, Bool, true, false, not, ◌&&◌, ◌||◌, Option, none, some, List,
  [], ◌∷◌, ◌++◌, ltb, leb, ◌==◌, if◌then◌else◌, length,
}

-- What the handler reads of a received frame; `queue` is `rx->seqno_idx`, and `body` is what is behind the
-- header.
pub record RxSkb : Type 0 where
  pub ftype : ℕ
  pub addr1 : ℕ
  pub addr2 : ℕ
  pub seq : ℕ
  pub frag : ℕ
  pub queue : ℕ
  pub is_ctl : Bool
  pub multicast : Bool
  pub morefrags : Bool
  pub has_protected : Bool
  pub body : List ℕ

-- `struct ieee80211_fragment_entry`; a packet number is a number of 48 bits.
pub record FragmentEntry : Type 0 where
  pub first_frag_time : ℕ
  pub seq : ℕ
  pub rx_queue : ℕ
  pub last_frag : ℕ
  pub extra_len : ℕ
  pub skb_list : List RxSkb
  pub ccmp : Bool
  pub last_pn : ℕ

-- `fragments` and `fragment_next` of the interface.
pub record Cache : Type 0 where
  pub fragments : ℕ → FragmentEntry
  pub fragment_next : ℕ

-- Clock, two seconds, the packet number of the key if it is one of CCMP, and whether `skb_linearize` and
-- the room for the joined frame succeed.
pub record RxData : Type 0 where
  pub jiffies : ℕ
  pub two_seconds : ℕ
  pub ccmp_pn : Option ℕ
  pub linear : Bool
  pub expands : Bool

abbrev pub set_entry : (ℕ → FragmentEntry) → ℕ → FragmentEntry → ℕ → FragmentEntry
set_entry entries i e j = if j == i then e else entries j

-- `ieee80211_reassemble_add`; `ccmp` and `last_pn` as the handler sets them afterwards.
unfoldable pub reassemble_add : RxData → RxSkb → Cache → Cache
reassemble_add rx skb c =
    let secured : FragmentEntry → FragmentEntry = λ e. elim rx.ccmp_pn [
      | none ↦ e
      | some pn ↦ if skb.has_protected then record e { ccmp = true; last_pn = pn } else e
    ] in
    record {
      fragments = set_entry c.fragments c.fragment_next (
          secured (record {
            first_frag_time = rx.jiffies;
            seq = skb.seq;
            rx_queue = skb.queue;
            last_frag = skb.frag;
            extra_len = 0;
            skb_list = skb ∷ [];
            ccmp = false;
            last_pn = (c.fragments c.fragment_next).last_pn;
          }));
      fragment_next = if leb 4 (c.fragment_next + 1) then 0 else c.fragment_next + 1;
    }

-- Whether the fragment continues an entry whose first frame is `first`.
unfoldable pub continues : RxSkb → FragmentEntry → RxSkb → Bool
continues skb e first =
    (e.seq == skb.seq && e.rx_queue == skb.queue)
    && (e.last_frag + 1 == skb.frag
        && (skb.ftype == first.ftype && (skb.addr1 == first.addr1 && skb.addr2 == first.addr2)))

unfoldable pub entry_continues : RxSkb → FragmentEntry → Bool
entry_continues skb e = elim e.skb_list [ [] ↦ false | first ∷ rest ↦ continues skb e first ]

-- `ieee80211_reassemble_find`, from the slot before `idx` on, `left` slots.
unfoldable pub reassemble_find : RxData → RxSkb → ℕ → ℕ → Cache → Option ℕ × Cache
reassemble_find rx skb zero idx c = (none, c)
reassemble_find rx skb (suc left) idx c =
    let i = if idx == 0 then 3 else idx - 1 in
    let e = c.fragments i in
    let on = reassemble_find rx skb left i c in
    let purged =
      reassemble_find rx skb left i
        (record c { fragments = set_entry c.fragments i (record e { skb_list = [] }) }) in
    if not (entry_continues skb e)
    then on
    else if ltb (e.first_frag_time + rx.two_seconds) rx.jiffies
    then purged
    else (some i, c)

-- The list of a complete frame as one frame: the bodies of the others are appended to the first.
unfoldable pub bodies : List RxSkb → List ℕ
bodies [] = []
bodies (skb ∷ skbs) = skb.body ++ bodies skbs

-- `RX_CONTINUE` with the frame, `RX_QUEUED`, `RX_DROP_MONITOR` and `RX_DROP_UNUSABLE`.
pub data RxResult : Type 0 where
  rx_continue : RxSkb → RxResult
  rx_queued : RxResult
  rx_drop_monitor : RxResult
  rx_drop_unusable : RxResult

-- The list is a complete frame.
unfoldable pub complete : RxData → ℕ → FragmentEntry → List RxSkb → Cache → RxResult × Cache
complete rx i e [] c = (rx_drop_unusable, c)
complete rx i e (first ∷ rest) c = (
  if rx.expands
      then rx_continue (record first { body = first.body ++ bodies rest })
      else rx_drop_unusable,
  record c { fragments = set_entry c.fragments i (record e { skb_list = [] }) },
)

-- The fragment is appended to entry `i`, whose packet number is then `pn`.
unfoldable pub append_fragment : RxData → RxSkb → ℕ → ℕ → Cache → RxResult × Cache
append_fragment rx skb i pn c =
    let old = c.fragments i in
    let e = record old {
      last_pn = pn;
      skb_list = old.skb_list ++ skb ∷ [];
      last_frag = skb.frag;
      extra_len = (old.extra_len + length skb.body) % 2 ^ 32;
    } in
    if skb.morefrags
    then (rx_queued, record c { fragments = set_entry c.fragments i e })
    else complete rx i e e.skb_list c

-- A fragment of an entry with packet numbers, under the key's packet number.
unfoldable pub secured_fragment : RxData → RxSkb → ℕ → Option ℕ → Cache → RxResult × Cache
secured_fragment rx skb i none c = (rx_drop_unusable, c)
secured_fragment rx skb i (some pn) c =
    let next = ((c.fragments i).last_pn + 1) % 2 ^ 48 in
    if next == pn then append_fragment rx skb i next c else (rx_drop_unusable, c)

-- A fragment that is not the first.
unfoldable pub add_fragment : RxData → RxSkb → Option ℕ × Cache → RxResult × Cache
add_fragment rx skb (none, c) = (rx_drop_monitor, c)
add_fragment rx skb (some i, c) =
    let e = c.fragments i in
    if not e.ccmp
    then append_fragment rx skb i e.last_pn c
    else secured_fragment rx skb i rx.ccmp_pn c

-- Whether the frame is not for the cache: a control frame, one for a group, or a whole one.
unfoldable pub is_whole : RxSkb → Bool
is_whole skb = skb.is_ctl || (skb.multicast || (not skb.morefrags && skb.frag == 0))

-- `ieee80211_rx_h_defragment`; the mark of a joined frame and the counters are left out.
unfoldable pub rx_h_defragment : RxData → RxSkb → Cache → RxResult × Cache
rx_h_defragment rx skb c =
    if is_whole skb
    then (rx_continue skb, c)
    else if not rx.linear
    then (rx_drop_unusable, c)
    else if skb.frag == 0
    then (rx_queued, reassemble_add rx skb c)
    else add_fragment rx skb (reassemble_find rx skb 4 c.fragment_next c)
