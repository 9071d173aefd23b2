-- ===== src/Dfu/State.antt =====
-- The state machine of src/classes/device/dfu.c. The application's callbacks (include/classes/dfu.h)
-- are parameters: they work on a `World`, the memory of the application with every target's `ctx`.
use usbip_c.Base.{
  ℕ, ◌*◌, ◌/◌, ◌%◌, ◌^◌, List, [], ◌∷◌, Option, none, some, Bool, false, ◌&&◌, ltb, leb, ◌==◌,
  if◌then◌else◌, length, take,
}

-- `usb_setup`
pub record Setup : Type 0 where
  pub request_type : ℕ
  pub request : ℕ
  pub value : ℕ
  pub index : ℕ
  pub length : ℕ

-- `USB_REQ_TYPE(b)`
abbrev pub req_type : ℕ → ℕ
req_type b = b / 32 % 4

abbrev pub usb_class : ℕ
usb_class = 1

-- `dfu_target`: `write` answers a status code, the bit pattern of an int; `read` answers the bytes
-- that it put in the buffer, or `none` for a negative result.
pub record Target (World : Type 0) : Type 0 where
  pub write : World → ℕ → List ℕ → ℕ × World
  pub read : World → ℕ → ℕ → Option (List ℕ) × World
  pub begin : Option (World → World)
  pub finish : Option (World → World)

-- the states in use, and the status codes that the class itself sets
abbrev pub idle : ℕ
idle = 2

abbrev pub dnload_sync : ℕ
dnload_sync = 3

abbrev pub dnload_idle : ℕ
dnload_idle = 5

abbrev pub manifest_sync : ℕ
manifest_sync = 6

abbrev pub upload_idle : ℕ
upload_idle = 9

abbrev pub error : ℕ
error = 10

abbrev pub status_ok : ℕ
status_ok = 0

abbrev pub err_write : ℕ
err_write = 3

abbrev pub err_stalled_pkt : ℕ
err_stalled_pkt = 15

-- `struct dfu_state` without the target table and the log hook
pub record Dfu : Type 0 where
  pub transfer_size : ℕ
  pub n_targets : ℕ
  pub cur : ℕ
  pub state : ℕ
  pub status : ℕ

-- the state part of dfu_build
unfoldable pub build : ℕ → ℕ → Dfu
build transfer_size n_targets =
    let size = if transfer_size == 0 then 1024 else transfer_size in
    record {
      transfer_size = if ltb 4096 size then 4096 else size;
      n_targets = if ltb 16 n_targets then 16 else n_targets;
      cur = 0;
      state = idle;
      status = status_ok;
    }

-- A negative result is a STALL; otherwise the bytes of the reply.
pub data Reply : Type 0 where
  stalled : Reply
  reply : List ℕ → Reply

-- bRequest
pub data Request : Type 0 where
  detach dnload upload get_status clr_status get_state abort unknown : Request

abbrev pub decode : ℕ → Request
decode r =
    if r == 0
    then detach
    else if r == 1
    then dnload
    else if r == 2
    then upload
    else if r == 3
    then get_status
    else if r == 4
    then clr_status
    else if r == 5
    then get_state
    else if r == 6
    then abort
    else unknown

-- `(uint32_t)wValue * transfer_size`
abbrev pub block_offset : Dfu → ℕ → ℕ
block_offset st block = block * st.transfer_size % 2 ^ 32

abbrev pub call_opt {ℓ} : {A : Type ℓ} → Option (A → A) → A → A
call_opt none w = w
call_opt (some f) w = f w

module _ {World : Type 0} (targets : ℕ → Target World) where
  -- DFU_DNLOAD with `len` 0: the download is complete.
  unfoldable pub download_end : Dfu → World → Dfu × World × Reply
  download_end st w = (
    record st { state = manifest_sync; status = status_ok },
    call_opt (targets st.cur).finish w,
    reply [],
  )

  -- the result of `write`
  unfoldable pub block_taken : Dfu → ℕ → Dfu
  block_taken st rc =
      if rc == status_ok then record st { state = dnload_sync; status = status_ok } else record st {
        state = error;
        status = if ltb status_ok rc && leb rc err_stalled_pkt then rc else err_write;
      }

  -- DFU_DNLOAD with data; block 0 starts a fresh image.
  unfoldable pub download_block : Dfu → World → ℕ → List ℕ → Dfu × World × Reply
  unfolding block_taken
  download_block st w block bytes =
      let w0 = if block == 0 then call_opt (targets st.cur).begin w else w in
      let (rc, w1) = (targets st.cur).write w0 (block_offset st block) bytes in
      (block_taken st rc, w1, reply [])

  -- `got` is 0
  abbrev pub is_end : Option (List ℕ) → Bool
  is_end none = false
  is_end (some bytes) = length bytes == 0

  -- `return got`
  abbrev pub reply_got : Option (List ℕ) → Reply
  reply_got none = stalled
  reply_got (some bytes) = reply bytes

  unfoldable pub upload_block : Dfu → World → ℕ → ℕ → Dfu × World × Reply
  upload_block st w block len =
      let want = if ltb len st.transfer_size then len else st.transfer_size in
      let (got, w1) = (targets st.cur).read w (block_offset st block) want in
      (
        record st { state = if is_end got then idle else upload_idle; status = status_ok },
        w1,
        reply_got got,
      )

  -- The state that DFU_GETSTATUS moves on to, and reports.
  unfoldable pub after_status : ℕ → ℕ
  after_status s = if s == dnload_sync then dnload_idle else if s == manifest_sync then idle else s

  -- the switch of dfu_control
  unfoldable pub handle : Request → Dfu → World → ℕ → List ℕ → ℕ → Dfu × World × Reply
  unfolding download_end download_block upload_block after_status
  handle detach st w value buf len = (st, w, reply [])
  handle dnload st w value buf len =
      if len == 0 then download_end st w else download_block st w value (take len buf)
  handle upload st w value buf len = upload_block st w value len
  handle get_status st w value buf len =
      let s = after_status st.state in
      (record st { state = s }, w, reply (st.status ∷ 0 ∷ 0 ∷ 0 ∷ s ∷ 0 ∷ []))
  handle clr_status st w value buf len =
      (record st { state = idle; status = status_ok }, w, reply [])
  handle get_state st w value buf len = (st, w, reply (st.state ∷ []))
  handle abort st w value buf len = (record st { state = idle; status = status_ok }, w, reply [])
  handle unknown st w value buf len = (st, w, stalled)

  -- dfu_control: `buf` holds the data of an OUT request, `len` of which are valid.
  unfoldable pub control : Dfu → World → Setup → List ℕ → ℕ → Dfu × World × Reply
  unfolding handle
  control st w setup buf len =
      if req_type setup.request_type == usb_class
      then handle (decode setup.request) st w setup.value buf len
      else (st, w, stalled)

-- dfu_set_alt, for an `alt` that is not negative
unfoldable pub set_alt : Dfu → ℕ → Dfu
set_alt st alt =
    if ltb alt st.n_targets then record st { cur = alt; state = idle; status = status_ok } else st

-- what the host and the bus bring: a control request with its data, or a SET_INTERFACE
pub data Event : Type 0 where
  request : Setup → List ℕ → ℕ → Event
  select : ℕ → Event

module _ {World : Type 0} (targets : ℕ → Target World) where
  unfoldable pub step : Dfu → World → Event → Dfu × World × Reply
  unfolding control set_alt
  step st w (request setup buf len) = control targets st w setup buf len
  step st w (select alt) = (set_alt st alt, w, reply [])

  unfoldable pub run : Dfu → World → List Event → Dfu × World × List Reply
  unfolding step
  run st w [] = (st, w, [])
  run st w (e ∷ es) =
      let (st1, w1, r) = step st w e in let (st2, w2, rs) = run st1 w1 es in (st2, w2, r ∷ rs)
