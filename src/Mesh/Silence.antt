-- ===== src/Mesh/Silence.antt =====
-- mesh_plink.c, `mesh_plink_timer`: a handshake to which no frame comes.
use mathlib.Core.List.{append_assoc}
use native.Mathlib.Nat.{
  mod-eq_of_lt, mod-lt, mul-le-mul_left, mul-le-mul_right, pow-suc, pow-le-pow_right,
}
use mac.Base.{
  ◌>>=◌, ℕ, zero, suc, ◌+◌, ◌*◌, ◌%◌, ◌^◌, ◌≤◌, ◌<◌, ◌≡◌, refl, ap, ◌∙◌, arith, true, false, Option,
  some, List, [], ◌∷◌, ◌++◌, ltb, ◌==◌,
}
use mac.Mesh.{
  PlinkState, listen, opn_snt, opn_rcvd, holding, zero_reason, mesh_max_retries, open_frame,
  close_frame, PlinkFrame, Sta, MeshConfig, Mesh, Kernel, mesh_plink_frame_tx,
}
use mac.Mesh.Plink.{del_timer, mod_plink_timer, mesh_plink_fsm_restart}
use mac.Mesh.Fsm.{retry, give_up, retry_timer, mesh_plink_timer}

-- The timer runs at its time, `n` times in a row; `rand` are the random numbers of the runs.
unfoldable pub silence : ℕ → (ℕ → ℕ) → (ℕ → ℕ) → MeshConfig → Sta × Mesh → Option (Sta × Mesh)
silence zero rand msecs c l = some l
silence (suc n) rand msecs c (s, m) =
    mesh_plink_timer
      (record { jiffies = s.plink_timer.expires; msecs_to_jiffies = msecs; rand = rand n }) c
      (del_timer s, m)
    >>= (λ l. silence n rand msecs c l)

-- The two states in which the open frame is sent again.
pub data Opening : PlinkState → Type 0 where
  sent_first : Opening opn_snt
  received_first : Opening opn_rcvd

abbrev pub frame_of : Sta → PlinkFrame
frame_of s = record { action = open_frame; llid = s.llid; plid = s.plid; reason = zero_reason }

-- `n` open frames, and a close frame.
abbrev pub farewell : Sta → ℕ → List PlinkFrame
farewell s zero =
    record { action = close_frame; llid = s.llid; plid = s.plid; reason = mesh_max_retries } ∷ []
farewell s (suc n) = frame_of s ∷ farewell s n

pub record HasEnded (s : Sta) (m : Mesh) (n : ℕ) (after : Sta × Mesh) : Type 0 where
  pub free : after.0.plink_state ≡ listen
  pub cleared : (after.0.llid ≡ 0) × (after.0.plid ≡ 0) × (after.0.plink_retries ≡ 0)
  pub stopped : after.0.plink_timer.pending ≡ false
  pub frames : after.1.sent ≡ m.sent ++ farewell s n
  pub links : after.1.estab_plinks ≡ m.estab_plinks

abbrev in_state : PlinkState → Sta → Sta
in_state state s = record s { plink_state = state }

-- A run at its time, in a state of the handshake.
due_run :
    (state : PlinkState) (k : Kernel) (c : MeshConfig) (s : Sta) (m : Mesh)
    → Opening state
    → k.jiffies ≡ s.plink_timer.expires
    → mesh_plink_timer k c (in_state state (del_timer s), m)
      ≡ retry_timer k c (in_state state (del_timer s), m)
unfolding mesh_plink_timer
due_run _ k c s m sent_first e =
    let due : ltb k.jiffies s.plink_timer.expires ≡ false = ground (arith, e) in rw (due) refl
due_run _ k c s m received_first e =
    let due : ltb k.jiffies s.plink_timer.expires ≡ false = ground (arith, e) in rw (due) refl

held_run :
    (k : Kernel) (c : MeshConfig) (s : Sta) (m : Mesh)
    → k.jiffies ≡ s.plink_timer.expires
    → mesh_plink_timer k c (in_state holding s, m)
      ≡ some (mesh_plink_fsm_restart (del_timer (in_state holding s)), m)
unfolding mesh_plink_timer
held_run k c s m e =
    let due : ltb k.jiffies s.plink_timer.expires ≡ false = ground (arith, e) in rw (due) refl

-- The last two runs: the link is held, then free.
last_runs :
    (rand msecs : ℕ → ℕ) (c : MeshConfig) (s : Sta) (m : Mesh)
    → Opening s.plink_state
    → s.plink_retries ≡ c.max_retries
    → (after : Sta × Mesh) × (silence 2 rand msecs c (s, m) ≡ some after) × HasEnded s m 0 after
unfolding silence retry_timer mesh_plink_fsm_restart
last_runs rand msecs c s m opening e =
    let k : Kernel = record {
      jiffies = s.plink_timer.expires;
      msecs_to_jiffies = msecs;
      rand = rand 1;
    } in
    let h : Sta × Mesh = give_up k c mesh_max_retries (del_timer s, m) in
    let k' : Kernel = record {
      jiffies = h.0.plink_timer.expires;
      msecs_to_jiffies = msecs;
      rand = rand 0;
    } in
    let last : ltb s.plink_retries c.max_retries ≡ false = ground (arith, e) in
    let first : mesh_plink_timer k c (del_timer s, m) ≡ some h =
      due_run s.plink_state k c s m opening refl ∙ rw (last) refl in
    let second : mesh_plink_timer k' c (del_timer h.0, h.1)
        ≡ some (mesh_plink_fsm_restart (del_timer (del_timer h.0)), h.1) =
      held_run k' c (del_timer h.0) h.1 refl in
    (
      (mesh_plink_fsm_restart (del_timer (del_timer h.0)), h.1),
      rw (first) (ap (λ r. r >>= (λ l. some l)) second),
      record {
        free = refl;
        cleared = (refl, refl, refl);
        stopped = refl;
        frames = refl;
        links = refl;
      },
    )

-- A timeout after a retry: it can double.
doubled :
    (t r n : ℕ)
    → 0 < t
    → t * 2 ^ (suc n) < 2 ^ 32
    → (0 < (t + r % t) % 2 ^ 32) × ((t + r % t) % 2 ^ 32 * 2 ^ n < 2 ^ 32)
doubled t r n pos room =
    let whole : t * 2 ^ (suc n) ≡ 2 * (t * 2 ^ n) =
      omega (arith, pow-suc 2 n, ap (λ q. t * q) (pow-suc 2 n)) in
    let one : t * 1 ≤ t * 2 ^ n =
      mul-le-mul_left t (pow-le-pow_right {n = 2} (omega arith) {i = 0} (omega arith)) in
    let rest : r % t < t = mod-lt r pos in
    let small : (t + r % t) % 2 ^ 32 ≡ t + r % t =
      mod-eq_of_lt (omega (arith, whole, one, rest, room)) in
    let most : (t + r % t) * 2 ^ n ≤ (2 * t) * 2 ^ n =
      mul-le-mul_right (2 ^ n) (omega (arith, rest)) in
    (omega (arith, small, pos), rw (small) (omega (arith, most, whole, room)))

-- A run with a retry left.
retry_run :
    (rand msecs : ℕ → ℕ) (c : MeshConfig) (s : Sta) (m : Mesh) (n : ℕ)
    → Opening s.plink_state
    → s.plink_retries < c.max_retries
    → 0 < s.plink_timeout
    → let k : Kernel = record {
      jiffies = s.plink_timer.expires;
      msecs_to_jiffies = msecs;
      rand = rand n;
    } in
      let t = (s.plink_timeout + rand n % s.plink_timeout) % 2 ^ 32 in
      silence (suc n) rand msecs c (s, m)
      ≡ silence n rand msecs c (
        mod_plink_timer k t
            (record (del_timer s) { plink_timeout = t; plink_retries = s.plink_retries + 1 }),
        mesh_plink_frame_tx (frame_of s) m,
      )
unfolding silence retry_timer retry
retry_run rand msecs c s m n opening below pos =
    let k : Kernel = record {
      jiffies = s.plink_timer.expires;
      msecs_to_jiffies = msecs;
      rand = rand n;
    } in
    let left : ltb s.plink_retries c.max_retries ≡ true = ground (arith, below) in
    let divisor : (s.plink_timeout == 0) ≡ false = ground (arith, pos) in
    rw (due_run s.plink_state k c s m opening refl, left, divisor) refl

-- Let a handshake be in one of the two states that send the open frame again, with `n` retries left, a
-- timeout that is not zero and stays in 32 bits when it doubles `n` times. If no frame comes, `n + 2` runs
-- of the timer end it: the link is free and its numbers are cleared, the timer is stopped, `n` open
-- frames and then a close frame were sent, and the count of links is as before.
pub silence-HasEnded :
    (n : ℕ) (rand msecs : ℕ → ℕ) (c : MeshConfig) (s : Sta) (m : Mesh)
    → Opening s.plink_state
    → s.plink_retries + n ≡ c.max_retries
    → 0 < s.plink_timeout
    → s.plink_timeout * 2 ^ n < 2 ^ 32
    → (after : Sta × Mesh) × (silence (suc (suc n)) rand msecs c (s, m) ≡ some after)
      × HasEnded s m n after
unfolding mesh_plink_frame_tx
silence-HasEnded zero rand msecs c s m opening e pos room =
    last_runs rand msecs c s m opening (omega (arith, e))
silence-HasEnded (suc n) rand msecs c s m opening e pos room =
    let k : Kernel = record {
      jiffies = s.plink_timer.expires;
      msecs_to_jiffies = msecs;
      rand = rand (suc (suc n));
    } in
    let t : ℕ = (s.plink_timeout + k.rand % s.plink_timeout) % 2 ^ 32 in
    let next : Sta =
      mod_plink_timer k t
        (record (del_timer s) { plink_timeout = t; plink_retries = s.plink_retries + 1 }) in
    let sending : Mesh = mesh_plink_frame_tx (frame_of s) m in
    let grown = doubled s.plink_timeout k.rand n pos room in
    let rest =
      silence-HasEnded n rand msecs c next sending opening (omega (arith, e)) grown.0 grown.1 in
    (
      rest.0,
      retry_run rand msecs c s m (suc (suc n)) opening (omega (arith, e)) pos ∙ rest.1,
      record {
        free = rest.2.free;
        cleared = rest.2.cleared;
        stopped = rest.2.stopped;
        frames = rest.2.frames ∙ append_assoc m.sent (frame_of s ∷ []) (farewell s n);
        links = rest.2.links;
      },
    )
