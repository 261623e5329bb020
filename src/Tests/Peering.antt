-- ===== src/Tests/Peering.antt =====
-- mesh_plink.c on single stations.
use mac.Base.{ℕ, ◌≡◌, ◌↔◌, refl, arith, Bool, true, false, [], ◌∷◌, none, some}
use mac.Mesh.{
  PlinkState, opn_snt, opn_rcvd, cnf_acpt, zero_reason, confirm_frame, Sta, MeshConfig, Mesh,
  Kernel,
}
use mac.Mesh.Plink.{
  mesh_plink_open, mesh_plink_block, plink_deactivate, mesh_get_new_llid, llid_in_use,
}
use mac.Mesh.Fsm.{mesh_plink_fsm}
use mac.Mesh.Event.{Peer, mesh_plink_get_event, mesh_process_plink_frame}
use mac.Mesh.Transition.{Follows, IsTimed}
use mac.Mesh.Handshake.{mesh_plink_fsm-Follows}
use mac.Mesh.Silence.{silence, sent_first, HasEnded, silence-HasEnded}
use mac.Mesh.Accept.{IsConfirmed, mesh_plink_get_event-confirm}
use mac.Mesh.Handled.{Handled}
use mac.Mesh.Establish.{mesh_process_plink_frame-Handled}
use mac.Mesh.Reach.{IsSound, start, step, block, Run-IsSound}
use mac.Mesh.Blocked.{begin, event, Waits-mesh_plink_open}
use mac.Mesh.Llid.{IsNew, mesh_get_new_llid-IsNew}

abbrev config : MeshConfig
config = record {
  max_retries = 3;
  retry_timeout = 100;
  confirm_timeout = 100;
  holding_timeout = 100;
  max_peer_links = 8;
}

abbrev kernel : Kernel
kernel = record { jiffies = 1000; msecs_to_jiffies = λ t. t; rand = 77 }

abbrev sta : PlinkState → Bool → Sta
sta state pending = record {
  plink_state = state;
  llid = 5;
  plid = 6;
  reason = zero_reason;
  plink_retries = 1;
  plink_timeout = 100;
  plink_timer = record { pending = pending; expires = 900 };
  auth = true;
}

abbrev mesh : Mesh
mesh = record { estab_plinks = 2; accepting_plinks = true; num_sta = 4; sent = [] }

mesh_plink_fsm-Follows_example :
    (after : Sta × Mesh) × (mesh_plink_fsm kernel config 9 (sta opn_rcvd true, mesh) cnf_acpt
      ≡ some after)
    × Follows (sta opn_rcvd true) mesh cnf_acpt after
mesh_plink_fsm-Follows_example =
    mesh_plink_fsm-Follows kernel config 9 (sta opn_rcvd true) mesh cnf_acpt refl
      (record { own = omega arith; room = omega arith })

silence-HasEnded_example :
    (after : Sta × Mesh) × (silence 4 (λ n. n) (λ t. t) config (sta opn_snt true, mesh)
      ≡ some after)
    × HasEnded (sta opn_snt true) mesh 2 after
silence-HasEnded_example =
    silence-HasEnded 2 (λ n. n) (λ t. t) config (sta opn_snt true) mesh sent_first refl
      (omega arith) (omega arith)

mesh_plink_get_event-confirm_example :
    (mesh_plink_get_event config mesh (some (sta opn_rcvd true)) (some confirm_frame) 6 false 5 6
      ≡ cnf_acpt)
    ↔ IsConfirmed config mesh (sta opn_rcvd true) 5 6
mesh_plink_get_event-confirm_example =
    mesh_plink_get_event-confirm config mesh (sta opn_rcvd true) 6 false 5 6

abbrev confirmation : Peer
confirmation = record {
  ftype = some confirm_frame;
  peering = true;
  ie_len = 6;
  has_rsn = false;
  security_none = true;
  has_mesh_id = true;
  has_mesh_config = true;
  first_id = 6;
  second_id = 5;
  matches = true;
  rssi_ok = true;
}

mesh_process_plink_frame-Handled_example :
    (after : Sta × Mesh) × (mesh_process_plink_frame kernel config 9 none confirmation
        (some (sta opn_rcvd true), mesh)
      ≡ some (some after.0, after.1))
    × IsTimed after.0
    × Handled config mesh (sta opn_rcvd true) confirmation after
mesh_process_plink_frame-Handled_example =
    mesh_process_plink_frame-Handled kernel config 9 none confirmation (sta opn_rcvd true) mesh refl
      (record { own = omega arith; room = omega arith })

Run-IsSound_example : IsSound 2 (mesh_plink_block config (sta opn_rcvd true, mesh))
Run-IsSound_example =
    Run-IsSound config 2 (sta opn_rcvd true, mesh)
      (mesh_plink_block config (sta opn_rcvd true, mesh)) (omega arith) (step start block)
      (record { timed = refl; counted = refl })

-- A confirm frame is received in between.
Waits-mesh_plink_open_example :
    mesh_plink_open kernel config 9 (mesh_plink_block config (sta opn_snt true, mesh)) ≡ none
unfolding mesh_plink_fsm mesh_plink_block plink_deactivate
Waits-mesh_plink_open_example =
    Waits-mesh_plink_open kernel config 9 (sta opn_snt true) mesh
      (mesh_plink_block config (sta opn_snt true, mesh)) refl tt refl
      (event kernel 9 cnf_acpt begin refl)

mesh_get_new_llid-IsNew_example :
    (llid : ℕ) × (mesh_get_new_llid (5 ∷ 9 ∷ []) (2011 ∷ 8 ∷ 30 ∷ []) ≡ some llid)
    × IsNew (5 ∷ 9 ∷ []) llid
unfolding llid_in_use
mesh_get_new_llid-IsNew_example =
    mesh_get_new_llid-IsNew (5 ∷ 9 ∷ []) (2011 ∷ 8 ∷ 30 ∷ []) 2 (omega arith) refl
