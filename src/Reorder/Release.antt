-- ===== src/Reorder/Release.antt =====
-- rx.c: the loops that release frames from the reorder buffer, and the handling of a received frame.
use mac.Base.{
  ◌>>=◌, ℕ, zero, suc, ◌+◌, ◌-◌, ◌%◌, ◌^◌, Bool, true, false, not, ◌&&◌, [], ◌∷◌, ◌++◌, Option,
  none, some, ltb, ◌==◌, if◌then◌else◌,
}
use mac.Reorder.{Mpdu, TidAmpduRx, SeqNum, rx_reorder_ready, Rx, set_slot, release_reorder_frame}

-- The kernel's clock, and `HT_RX_REORDER_BUF_TIMEOUT`.
pub record Clock : Type 0 where
  pub jiffies : ℕ
  pub timeout : ℕ

-- At most `fuel` rounds.
unfoldable pub release_reorder_frames : SeqNum → ℕ → ℕ → Rx → Rx
release_reorder_frames sn zero target r = r
release_reorder_frames sn (suc fuel) target r =
    let rest =
      release_reorder_frames sn fuel target
        (release_reorder_frame sn (r.0.head_seq_num % r.0.buf_size) r) in
    if sn.sn_less r.0.head_seq_num target then rest else r

-- The `n` slots from `i` on are emptied.
unfoldable pub purge : ℕ → ℕ → TidAmpduRx → TidAmpduRx
purge zero i t = t
purge (suc n) i t =
    purge n ((i + 1) % t.buf_size) (record t { reorder_buf = set_slot t.reorder_buf i [] })

-- The search for frames that have timed out; the third component is the slot for whose time the timer is
-- set, where the search stops. `passed` is how many slots lie between `index` and `j`.
unfoldable pub release_late : SeqNum → Clock → ℕ → ℕ → ℕ → ℕ → Rx → Rx × Option ℕ
release_late sn now index zero passed skipped r = (r, none)
release_late sn now index (suc left) passed skipped r =
    let t = r.0 in
    let j = (index + 1 + passed) % t.buf_size in
    let purged : Rx = (purge passed ((index + 1) % t.buf_size) t, r.1) in
    let q = release_reorder_frame sn j purged in
    let headed : Rx =
      (record q.0 { head_seq_num = sn.sn_mask (q.0.head_seq_num + skipped) }, q.1) in
    let over = release_late sn now index left (passed + 1) (skipped + 1) r in
    let on = release_late sn now index left (passed + 1) 0 headed in
    if not (rx_reorder_ready (t.reorder_buf j))
    then over
    else if not (skipped == 0) && not (ltb (t.reorder_time j + now.timeout) now.jiffies)
    then (r, some j)
    else on

-- Frames are released until the next missing one, at most `fuel`.
unfoldable pub release_ready : SeqNum → ℕ → ℕ → Rx → Rx
release_ready sn zero index r = r
release_ready sn (suc fuel) index r =
    let q = release_reorder_frame sn index r in
    let rest = release_ready sn fuel (q.0.head_seq_num % q.0.buf_size) q in
    if rx_reorder_ready (r.0.reorder_buf index) then rest else r

-- The first ready slot from `j` on, or the slot behind the next `left`.
unfoldable pub find_ready : ℕ → ℕ → TidAmpduRx → ℕ
find_ready zero j t = j
find_ready (suc left) j t =
    let rest = find_ready left ((j + 1) % t.buf_size) t in
    if rx_reorder_ready (t.reorder_buf j) then j else rest

-- The slot for whose time the timer is set. From slot 0 on the loop ends at a ready slot only; `none` is
-- that it does not end.
unfoldable pub next_ready : ℕ → TidAmpduRx → Option ℕ
next_ready index t =
    let j = find_ready (if index == 0 then t.buf_size else t.buf_size - 1) index t in
    if index == 0 && not (rx_reorder_ready (t.reorder_buf j)) then none else some j

unfoldable pub set_release_timer : Clock → ℕ → TidAmpduRx → TidAmpduRx
set_release_timer now j t =
    if t.removed then t else record t { reorder_timer = some (t.reorder_time j + 1 + now.timeout) }

-- After the frames are released.
unfoldable pub rearm : Clock → Rx → Option Rx
rearm now (t, frames) =
    if t.stored_mpdu_num == 0
    then some (record t { reorder_timer = none }, frames)
    else next_ready (t.head_seq_num % t.buf_size) t
      >>= (λ j. some (set_release_timer now j t, frames))

unfoldable pub sta_reorder_release : SeqNum → Clock → Rx → Option Rx
sta_reorder_release sn now (t, frames) =
    let index = t.head_seq_num % t.buf_size in
    let late = release_late sn now index (t.buf_size - 1) 0 1 (t, frames) in
    if not (rx_reorder_ready (t.reorder_buf index)) && not (t.stored_mpdu_num == 0)
    then elim late.1 [
      | some j ↦ some (set_release_timer now j late.0.0, late.0.1)
      | none ↦ rearm now late.0
    ]
    else rearm now (release_ready sn t.buf_size index (t, frames))

-- The session starts with the first frame.
unfoldable pub start_auto : Mpdu → TidAmpduRx → TidAmpduRx
start_auto skb t =
    if t.auto_seq
    then record t { auto_seq = false; ssn = skb.seq_num; head_seq_num = skb.seq_num }
    else t

-- A frame behind the window moves the window.
unfoldable pub make_room : SeqNum → ℕ → Rx → Rx
make_room sn seq (t, frames) =
    if not (sn.sn_less seq (t.head_seq_num + t.buf_size))
    then release_reorder_frames sn 4096 (sn.sn_inc (sn.sn_sub seq t.buf_size)) (t, frames)
    else (t, frames)

-- The frame is put into its slot.
unfoldable pub store_frame : SeqNum → Clock → ℕ → Mpdu → Rx → Option Rx
store_frame sn now index skb (t, frames) =
    let buf = set_slot t.reorder_buf index (t.reorder_buf index ++ skb ∷ []) in
    if skb.amsdu_more
    then some (record t { reorder_buf = buf }, frames)
    else sta_reorder_release sn now (
      record t {
        reorder_buf = buf;
        reorder_time = λ i. if i == index then now.jiffies else t.reorder_time i;
        stored_mpdu_num = (t.stored_mpdu_num + 1) % 2 ^ 16;
      },
      frames,
    )

-- From the test whether the frame is stored already; the second component is `ret`.
unfoldable pub place_frame : SeqNum → Clock → Mpdu → Rx → Option (Rx × Bool)
place_frame sn now skb (t, frames) =
    let index = skb.seq_num % t.buf_size in
    if rx_reorder_ready (t.reorder_buf index)
    then some ((t, frames), true)
    else if skb.seq_num == t.head_seq_num && t.stored_mpdu_num == 0
    then some (
      (if skb.amsdu_more then t else record t { head_seq_num = sn.sn_inc t.head_seq_num }, frames),
      false,
    )
    else store_frame sn now index skb (t, frames) >>= (λ r. some (r, true))

-- `sta_manage_reorder_buf`
unfoldable pub sta_manage_reorder_buf : SeqNum → Clock → Mpdu → Rx → Option (Rx × Bool)
sta_manage_reorder_buf sn now skb (t, frames) =
    let s = start_auto skb t in
    if sn.sn_less skb.seq_num s.head_seq_num
    then some ((s, frames), true)
    else place_frame sn now skb (make_room sn skb.seq_num (s, frames))
