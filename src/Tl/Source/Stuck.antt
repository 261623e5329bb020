-- ===== src/Tl/Source/Stuck.antt =====
-- tl_rx_src.c: a training that starts over while the timer of the last one is pending.
use mac.Base.{
  if-true, if-false, ◌||◌, ◌≡◌, refl, arith, Bool, true, false, List, [], ◌∷◌, Option, none, some,
  if◌then◌else◌, ◌∙◌, ap, sym, not, Bool-cases, inl, inr, ◌++◌,
}
use mac.Tl.Types.{same_addr}
use mac.Tl.Lists.{tr_info_find_addr, find_addr}
use mathlib.Core.Option.{none-ne-some, some-injective}
use mathlib.Core.Path.{subst}
use mac.Tl.Source.State.{Kernel, Skb, Source, pending}
use mac.Tl.Source.Training.{tl_start_check}
use mac.Tl.Source.Polling.{ask_next, tl_rx_tr1_timer_func, tl_rx_sndtf_timer_func}
use mac.Tl.Source.Receive.{receive_tr, receive_report, tl_receive_skb_src}
use mac.Tl.Source.Events.{
  Event, start_frame, received, tr1_runs, sndtf_runs, mcs_runs, started, step, run,
}
use mac.Tl.Source.Keeps.{Keeps, mcs_timer-Keeps, start_check-restarts, start_check-stays}

-- The source believes that it is polling, but there is nobody to ask.
pub record IsStuck (s : Source) : Type 0 where
  pub polling : s.polling_state ≡ true
  pub nobody : s.src_nbr_list ≡ []

some-IsStuck : {s t : Source} → IsStuck s → some s ≡ some t → IsStuck t
some-IsStuck {s} v e = subst IsStuck (ap (λ o. elim o [ none ↦ s | some x ↦ x ]) e) v

if-some-IsStuck :
    (b : Bool) {o : Option Source} {s t : Source}
    → (o ≡ some t → IsStuck t)
    → IsStuck s
    → (if b then o else some s) ≡ some t
    → IsStuck t
if-some-IsStuck true f v e = f e
if-some-IsStuck false f v e = some-IsStuck v e

Keeps-IsStuck : {s t : Source} → Keeps s t → IsStuck s → IsStuck t
Keeps-IsStuck k v = record { polling = k.polling ∙ v.polling; nobody = k.list ∙ v.nobody }

if-IsStuck : (b : Bool) {x y : Source} → IsStuck x → IsStuck y → IsStuck (if b then x else y)
if-IsStuck true v w = v
if-IsStuck false v w = w

-- The timer of the first round, when it runs on an empty list, leaves the source stuck.
pub tr1_timer-IsStuck :
    (kernel : Kernel) (s : Source) → s.src_nbr_list ≡ [] → IsStuck (tl_rx_tr1_timer_func kernel s)
unfolding tl_rx_tr1_timer_func ask_next
tr1_timer-IsStuck kernel s h = rw (h) (record { polling = refl; nobody = refl })

start_check-IsStuck :
    (kernel : Kernel) (skb : Skb) (s : Source) (r : Source × Bool)
    → IsStuck s
    → tl_start_check kernel skb s ≡ some r
    → IsStuck r.0 × (r.1 ≡ false)
unfolding tl_start_check
start_check-IsStuck kernel skb s r v e = ground arith

-- While the source polls, a training report changes nothing.
receive_tr-polling :
    (kernel : Kernel) (skb : Skb) (s : Source)
    → s.polling_state ≡ true
    → receive_tr kernel skb s ≡ some s
unfolding receive_tr
receive_tr-polling kernel skb s h = elim (Bool-cases (not (same_addr skb.dev.dev_addr skb.daddr))) [
  | inl e ↦ if-true _ _ e
  | inr e ↦ if-false _ _ e ∙ if-true _ _ h
]

receive_report-nobody :
    (kernel : Kernel) (skb : Skb) (s : Source)
    → s.src_nbr_list ≡ []
    → receive_report kernel skb s ≡ some s
unfolding receive_report tr_info_find_addr find_addr
receive_report-nobody kernel skb s h =
    elim (Bool-cases (
      not (same_addr skb.dev.dev_addr skb.daddr)
      || not s.polling_state
      || not (same_addr s.polling_addr skb.saddr))) [
        | inl e ↦ if-true _ _ e
        | inr e ↦
            let gone : tr_info_find_addr s.src_nbr_list skb.saddr ≡ none =
              ap (λ l. tr_info_find_addr l skb.saddr) h in
            if-false _ _ e ∙ rw (gone) refl
      ]

if-same : (b : Bool) {x y z : Option Source} → x ≡ z → y ≡ z → (if b then x else y) ≡ z
if-same true e f = e
if-same false e f = f

-- A frame leaves the source stuck.
receive-IsStuck :
    (kernel : Kernel) (skb : Skb) (s t : Source)
    → IsStuck s
    → tl_receive_skb_src kernel skb s ≡ some t
    → IsStuck t
unfolding tl_receive_skb_src
receive-IsStuck kernel skb s t v e =
    let s' : Source =
      if s.for_src_init
      then record s { for_src_init = false; src_nbr_list = []; tr1_timer = none }
      else s in
    let w : IsStuck s' =
      if-IsStuck s.for_src_init (record { polling = v.polling; nobody = refl }) v in
    let one : receive_tr kernel skb s' ≡ some s' = receive_tr-polling kernel skb s' w.polling in
    let two : receive_report kernel skb s' ≡ some s' =
      receive_report-nobody kernel skb s' w.nobody in
    let same : tl_receive_skb_src kernel skb s ≡ some s' = if-same _ one (if-same _ two refl) in
    some-IsStuck w (sym same ∙ e)

sndtf_timer-IsStuck :
    (kernel : Kernel) (s : Source) → IsStuck s → tl_rx_sndtf_timer_func kernel s ≡ none
unfolding tl_rx_sndtf_timer_func tr_info_find_addr find_addr
sndtf_timer-IsStuck kernel s v = rw (v.nobody) refl

-- A stuck source stays stuck, whatever happens.
pub step-IsStuck :
    (kernel : Kernel) (e : Event) (s t : Source) → IsStuck s → step kernel e s ≡ some t → IsStuck t
unfolding step
step-IsStuck kernel (start_frame skb) s t v h =
    elim (tl_start_check kernel skb s)
        as (λ o. tl_start_check kernel skb s ≡ o → started o ≡ some t → IsStuck t) [
          | none ↦ λ e h. absurd (none-ne-some t h)
          | some r ↦ λ e h. some-IsStuck (start_check-IsStuck kernel skb s r v e).0 h
        ]
      refl h
step-IsStuck kernel (received skb) s t v h = receive-IsStuck kernel skb s t v h
step-IsStuck kernel tr1_runs s t v h =
    if-some-IsStuck (pending s.tr1_timer)
      (some-IsStuck (tr1_timer-IsStuck kernel (record s { tr1_timer = none }) v.nobody)) v h
step-IsStuck kernel sndtf_runs s t v h =
    if-some-IsStuck (pending s.sndtf_timer)
      (λ e. absurd (
        none-ne-some t (
          sym (
            sndtf_timer-IsStuck kernel (record s { sndtf_timer = none })
              (record { polling = v.polling; nobody = v.nobody }))
          ∙ e)))
      v h
step-IsStuck kernel mcs_runs s t v h =
    if-some-IsStuck (pending s.mcs_timer)
      (λ e.
        let k = mcs_timer-Keeps kernel (record s { mcs_timer = none }) t e in
        record { polling = k.polling ∙ v.polling; nobody = k.list ∙ v.nobody })
      v h

run-IsStuck :
    (es : List (Kernel × Event)) (s t : Source) → IsStuck s → run es s ≡ some t → IsStuck t
unfolding run
run-IsStuck [] s t v h = some-IsStuck v h
run-IsStuck ((kernel, e) ∷ es) s t v h =
    elim (step kernel e s)
        as (λ o.
          step kernel e s ≡ o → (elim o [ none ↦ none | some u ↦ run es u ]) ≡ some t → IsStuck t) [
            | none ↦ λ q h. absurd (none-ne-some t h)
            | some u ↦ λ q h. run-IsStuck es u t (step-IsStuck kernel e s u v q) h
          ]
      refl h

-- The source has nobody to ask, and the timer of the first round is pending.
record IsWaiting (s : Source) : Type 0 where
  nobody : s.src_nbr_list ≡ []
  timed : pending s.tr1_timer ≡ true

-- No frame of the training protocol is received.
abbrev pub IsQuiet : List (Kernel × Event) → Type 0
IsQuiet [] = Unit {0}
IsQuiet ((k, received skb) ∷ es) = ⊥
IsQuiet ((k, start_frame skb) ∷ es) = IsQuiet es
IsQuiet ((k, tr1_runs) ∷ es) = IsQuiet es
IsQuiet ((k, sndtf_runs) ∷ es) = IsQuiet es
IsQuiet ((k, mcs_runs) ∷ es) = IsQuiet es

some-IsWaiting : {s t : Source} → IsWaiting s → some s ≡ some t → IsWaiting t
some-IsWaiting {s} v e = subst IsWaiting (some-injective _ _ e) v

start_check-IsWaiting :
    (kernel : Kernel) (skb : Skb) (s t : Source) (b : Bool)
    → IsWaiting s
    → tl_start_check kernel skb s ≡ some (t, b)
    → IsWaiting t
start_check-IsWaiting kernel skb s t true v e =
    let r = start_check-restarts kernel skb s t e in
    record { nobody = r.0; timed = ap pending r.1 ∙ v.timed }
start_check-IsWaiting kernel skb s t false v e =
    let r = start_check-stays kernel skb s t e in
    record { nobody = r.0 ∙ v.nobody; timed = ap pending r.1 ∙ v.timed }

started-IsWaiting :
    (kernel : Kernel) (skb : Skb) (s t : Source)
    → IsWaiting s
    → started (tl_start_check kernel skb s) ≡ some t
    → IsWaiting t
started-IsWaiting kernel skb s t v h =
    elim (tl_start_check kernel skb s)
        as (λ o. tl_start_check kernel skb s ≡ o → started o ≡ some t → IsWaiting t) [
          | none ↦ λ e h. absurd (none-ne-some t h)
          | some r ↦ λ e h. some-IsWaiting (start_check-IsWaiting kernel skb s r.0 r.1 v e) h
        ]
      refl h

-- The timer leaves the source stuck, and all other quiet events leave it waiting.
timer-IsDoomed :
    (kernel : Kernel) (s t : Source) → IsWaiting s → step kernel tr1_runs s ≡ some t → IsStuck t
unfolding step
timer-IsDoomed kernel s t v h =
    some-IsStuck (tr1_timer-IsStuck kernel (record s { tr1_timer = none }) v.nobody)
      (sym (if-true _ _ v.timed) ∙ h)

sndtf_timer-nobody :
    (kernel : Kernel) (s : Source) → s.src_nbr_list ≡ [] → tl_rx_sndtf_timer_func kernel s ≡ none
unfolding tl_rx_sndtf_timer_func tr_info_find_addr find_addr
sndtf_timer-nobody kernel s v = rw (v) refl

sndtf-IsWaiting :
    (kernel : Kernel) (s t : Source) → IsWaiting s → step kernel sndtf_runs s ≡ some t → IsWaiting t
unfolding step
sndtf-IsWaiting kernel s t v h = elim (Bool-cases (pending s.sndtf_timer)) [
  | inl e ↦ absurd (
      none-ne-some t (
        sym (sndtf_timer-nobody kernel (record s { sndtf_timer = none }) v.nobody)
        ∙ sym (if-true _ _ e)
        ∙ h))
  | inr e ↦ some-IsWaiting v (sym (if-false _ _ e) ∙ h)
]

mcs-IsWaiting :
    (kernel : Kernel) (s t : Source) → IsWaiting s → step kernel mcs_runs s ≡ some t → IsWaiting t
unfolding step
mcs-IsWaiting kernel s t v h = elim (Bool-cases (pending s.mcs_timer)) [
  | inl e ↦
      let k = mcs_timer-Keeps kernel (record s { mcs_timer = none }) t (sym (if-true _ _ e) ∙ h) in
      record { nobody = k.list ∙ v.nobody; timed = ap pending k.timer ∙ v.timed }
  | inr e ↦ some-IsWaiting v (sym (if-false _ _ e) ∙ h)
]

-- A run whose first event leads to `u`, where all that follows from there is known.
run_cons :
    (kernel : Kernel) (e : Event) (es : List (Kernel × Event)) (s t : Source)
    → run ((kernel, e) ∷ es) s ≡ some t
    → (u : Source) × (step kernel e s ≡ some u) × (run es u ≡ some t)
unfolding run
run_cons kernel e es s t h =
    elim (step kernel e s)
        as (λ o.
          step kernel e s ≡ o
          → (elim o [ none ↦ none | some u ↦ run es u ]) ≡ some t
          → (u : Source) × (step kernel e s ≡ some u) × (run es u ≡ some t)) [
            | none ↦ λ q h. absurd (none-ne-some t h)
            | some u ↦ λ q h. (u, q, h)
          ]
      refl h

waiting-IsStuck :
    (second : Kernel) (quiet es : List (Kernel × Event)) (s t : Source)
    → IsQuiet quiet
    → IsWaiting s
    → run (quiet ++ (second, tr1_runs) ∷ es) s ≡ some t
    → IsStuck t
unfolding step
waiting-IsStuck second [] es s t q v h =
    let (u, e, r) = run_cons second tr1_runs es s t h in
    run-IsStuck es u t (timer-IsDoomed second s u v e) r
waiting-IsStuck second ((k, start_frame skb) ∷ quiet) es s t q v h =
    let (u, e, r) = run_cons k (start_frame skb) _ s t h in
    waiting-IsStuck second quiet es u t q (started-IsWaiting k skb s u v e) r
waiting-IsStuck second ((k, received skb) ∷ quiet) es s t q v h = absurd q
waiting-IsStuck second ((k, tr1_runs) ∷ quiet) es s t q v h =
    let (u, e, r) = run_cons k tr1_runs _ s t h in run-IsStuck _ u t (timer-IsDoomed k s u v e) r
waiting-IsStuck second ((k, sndtf_runs) ∷ quiet) es s t q v h =
    let (u, e, r) = run_cons k sndtf_runs _ s t h in
    waiting-IsStuck second quiet es u t q (sndtf-IsWaiting k s u v e) r
waiting-IsStuck second ((k, mcs_runs) ∷ quiet) es s t q v h =
    let (u, e, r) = run_cons k mcs_runs _ s t h in
    waiting-IsStuck second quiet es u t q (mcs-IsWaiting k s u v e) r

-- Let a training start while the timer of the first round is pending, and that timer run before any frame of
-- the training protocol is received; the training frames may be sent, and trainings started, in between. Then
-- after every sequence of events that follows, the source polls with nobody to ask, unless the sequence ends in
-- an access through a pointer to a freed node, through NULL or outside a table.
pub restart-run-IsStuck :
    (first second : Kernel) (skb : Skb) (quiet es : List (Kernel × Event)) (s s' t : Source)
    → pending s.tr1_timer ≡ true
    → tl_start_check first skb s ≡ some (s', true)
    → IsQuiet quiet
    → run (quiet ++ (second, tr1_runs) ∷ es) s' ≡ some t
    → IsStuck t
restart-run-IsStuck first second skb quiet es s s' t p e q h =
    let r = start_check-restarts first skb s s' e in
    waiting-IsStuck second quiet es s' t q (record { nobody = r.0; timed = ap pending r.1 ∙ p }) h
