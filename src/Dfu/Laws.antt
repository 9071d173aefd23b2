-- ===== src/Dfu/Laws.antt =====
-- The DFU state machine of src/classes/device/dfu.c: its states, and a download from the host.
use usbip_c.Base.{ℕ, ◌≤◌, ◌<◌, ◌≡◌, refl, List, [], ◌∷◌}
use usbip_c.Base.{Bool, true, false, ◌&&◌, ltb, leb, ◌==◌, if◌then◌else◌, take, arith}
use usbip_c.Base.{◌⊎◌, inl, inr, Bool-cases, if_both}
use usbip_c.Dfu.State.{req_type, Target, Dfu, build, Reply, stalled, Request, decode}
use usbip_c.Dfu.State.{detach, dnload, upload, get_status, clr_status, get_state, abort, unknown}
use usbip_c.Dfu.State.{
  block_offset, call_opt, download_end, block_taken, download_block, upload_block, is_end,
}
use usbip_c.Dfu.State.{after_status, handle, control, set_alt, Event, request, select, step, run}

-- A state in use, with the status that goes with it: an error code in dfuERROR and only there.
abbrev pub IsMachine : ℕ → ℕ → Type 0
IsMachine state status =
    ((status ≡ 0) × ((state ≡ 2) ⊎ (state ≡ 3) ⊎ (state ≡ 5) ⊎ (state ≡ 6) ⊎ (state ≡ 9)))
    ⊎ ((state ≡ 10) × (1 ≤ status) × (status ≤ 15))

pub record IsDfu (st : Dfu) : Type 0 where
  pub size_pos : 1 ≤ st.transfer_size
  pub size_fits : st.transfer_size ≤ 4096
  pub few_targets : st.n_targets ≤ 16
  pub target_exists : (st.cur < st.n_targets) ⊎ (st.cur ≡ 0)
  pub machine : IsMachine st.state st.status

build-IsDfu : (transfer_size n_targets : ℕ) → IsDfu (build transfer_size n_targets)
unfolding build
build-IsDfu transfer_size n_targets = record {
  size_pos = ground arith;
  size_fits = ground arith;
  few_targets = ground arith;
  target_exists = inr refl;
  machine = inl (refl, inl refl);
}

moved-IsDfu :
    (st : Dfu) (state status : ℕ)
    → IsDfu st
    → IsMachine state status
    → IsDfu (record st { state = state; status = status })
moved-IsDfu st state status v h = record {
  size_pos = v.size_pos;
  size_fits = v.size_fits;
  few_targets = v.few_targets;
  target_exists = v.target_exists;
  machine = h;
}

idle-IsMachine : IsMachine 2 0
idle-IsMachine = inl (refl, inl refl)

uploaded-IsDfu :
    (st : Dfu) (end : Bool)
    → IsDfu st
    → IsDfu (record st { state = if end then 2 else 9; status = 0 })
uploaded-IsDfu st true v = moved-IsDfu st 2 0 v idle-IsMachine
uploaded-IsDfu st false v = moved-IsDfu st 9 0 v (inl (refl, ground arith))

block_taken-IsDfu :
    {World : Type 0} (targets : ℕ → Target World) (st : Dfu) (rc : ℕ)
    → IsDfu st
    → IsDfu (block_taken targets st rc)
unfolding block_taken
block_taken-IsDfu targets st rc v =
    if_both IsDfu (rc == 0) (record st { state = 3; status = 0 })
      (record st { state = 10; status = if ltb 0 rc && leb rc 15 then rc else 3 })
      (moved-IsDfu st 3 0 v (inl (refl, inr (inl refl))))
      (moved-IsDfu st 10 (if ltb 0 rc && leb rc 15 then rc else 3) v
        (inr (refl, ground arith, ground arith)))

after_status-IsMachine :
    {World : Type 0} (targets : ℕ → Target World) (state status : ℕ)
    → IsMachine state status
    → IsMachine (after_status targets state) status
unfolding after_status
after_status-IsMachine targets state status h = ground arith

module _ {World : Type 0} (targets : ℕ → Target World) where
  handle-IsDfu :
      (r : Request) (st : Dfu) (w : World) (value : ℕ) (buf : List ℕ) (len : ℕ)
      → IsDfu st
      → IsDfu (handle targets r st w value buf len).0
  handle-IsDfu detach st w value buf len v = unfold handle in v
  handle-IsDfu dnload st w value buf len v =
      unfold handle download_end download_block in
      if_both (λ (r : Dfu × World × Reply). IsDfu r.0) (len == 0) (download_end targets st w)
        (download_block targets st w value (take len buf))
        (moved-IsDfu st 6 0 v (inl (refl, inr (inr (inr (inl refl))))))
        (block_taken-IsDfu targets st
          ((targets st.cur).write (if value == 0 then call_opt (targets st.cur).begin w else w)
            (block_offset st value) (take len buf)).0
          v)
  handle-IsDfu upload st w value buf len v =
      unfold handle upload_block in
      (let want = if ltb len st.transfer_size then len else st.transfer_size in
        uploaded-IsDfu st (is_end targets ((targets st.cur).read w (block_offset st value) want).0)
          v)
  handle-IsDfu get_status st w value buf len v =
      unfold handle in
      moved-IsDfu st (after_status targets st.state) st.status v
        (after_status-IsMachine targets st.state st.status v.machine)
  handle-IsDfu clr_status st w value buf len v =
      unfold handle in moved-IsDfu st 2 0 v idle-IsMachine
  handle-IsDfu get_state st w value buf len v = unfold handle in v
  handle-IsDfu abort st w value buf len v = unfold handle in moved-IsDfu st 2 0 v idle-IsMachine
  handle-IsDfu unknown st w value buf len v = unfold handle in v

  step-IsDfu : (st : Dfu) (w : World) (e : Event) → IsDfu st → IsDfu (step targets st w e).0
  step-IsDfu st w (request setup buf len) v =
      unfold step control in
      if_both (λ (r : Dfu × World × Reply). IsDfu r.0) (req_type setup.request_type == 1)
        (handle targets (decode setup.request) st w setup.value buf len) (st, w, stalled)
        (handle-IsDfu (decode setup.request) st w setup.value buf len v) v
  step-IsDfu st w (select alt) v =
      unfold step set_alt in
      elim (Bool-cases (ltb alt st.n_targets)) [
        | inl e ↦ rw e (record {
          size_pos = v.size_pos;
          size_fits = v.size_fits;
          few_targets = v.few_targets;
          target_exists = inl (ground arith);
          machine = idle-IsMachine;
        })
        | inr e ↦ rw e v
      ]

  run-step : (es : List Event) (st : Dfu) (w : World) → IsDfu st → IsDfu (run targets st w es).0
  unfolding run
  run-step [] st w v = v
  run-step (e ∷ es) st w v =
      run-step es (step targets st w e).0 (step targets st w e).1 (step-IsDfu st w e v)

  -- Whatever the host requests, whatever settings it selects and whatever the application's
  -- callbacks answer, a DFU function that was built stays in one of the six states in use, reports an
  -- error code in dfuERROR and only there, keeps a transfer size from 1 to 4096, and addresses a
  -- target that exists (target 0 where there is none).
  pub run-IsDfu :
      (transfer_size n_targets : ℕ) (w : World) (es : List Event)
      → IsDfu (run targets (build transfer_size n_targets) w es).0
  run-IsDfu transfer_size n_targets w es =
      run-step es (build transfer_size n_targets) w (build-IsDfu transfer_size n_targets)
