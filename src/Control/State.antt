-- ===== src/Control/State.antt =====
-- handle_control of src/usbip_device.c with what it calls. The handlers that classes register are
-- parameters: they work on a `World`, the state of every class. A handler answers `none` for a
-- negative result, and otherwise the bytes that it put in the buffer. What a callback does to
-- endpoints it leaves in its `World`, where Device/State collects it before the reply.
use usbip_c.Base.{
  ℕ, ◌/◌, ◌%◌, ◌^◌, List, [], ◌∷◌, Option, none, some, Bool, true, false, ◌&&◌, ◌||◌, ltb, leb,
  ◌==◌, if◌then◌else◌, length, get_elem?, set, take, map,
}
use usbip_c.Wire.Reply.{status_stall}
use usbip_c.Endpoint.State.{Ep, Ret, clear_halt, stall}
use usbip_c.Build.State.{direction_of}
use usbip_c.Dfu.State.{Setup, req_type}
use usbip_c.Msos.State.{MsosEntry, msos_entry_for_interface}
use usbip_c.Msos.Emit.{
  msos1_compatid, msos1_extprops_size, msos1_extprops, msos2_set_size, msos2_set, build_bos_desc,
  build_webusb_url,
}
use usbip_c.Control.Describe.{Ident, build_device_desc, build_config_desc, build_string_desc}

abbrev pub Handler : Type 0 → Type 0
Handler World = World → Setup → List ℕ → ℕ → Option (List ℕ) × World

-- What a callback or the application does to endpoints, by their index: usbip_device_write and
-- usbip_ep_stall.
pub data Effect : Type 0 where
  write_ep : ℕ → List ℕ → Effect
  stall_ep : ℕ → Effect

-- The registered callbacks: `ctrl`, `ctrl_default` and `set_alt_tab`. `outbox` tells what they did to
-- endpoints since it was last asked, in order, and takes it out of the `World`.
pub record Classes (World : Type 0) : Type 0 where
  pub ctrl : ℕ → Option (Handler World)
  pub ctrl_default : Option (Handler World)
  pub set_alt_tab : ℕ → Option (World → ℕ → ℕ → World)
  pub outbox : World → List Effect × World

-- the device's state: the configuration, and its endpoints; `slot` is `ep_map`, by the index in `eps`
pub record Core : Type 0 where
  pub config : ℕ
  pub eps : List Ep
  pub slot : ℕ → ℕ → Option ℕ

-- the scratch buffer
abbrev pub buf_size : ℕ
buf_size = 4096

-- What the core makes of a request: not its own, a reply, or a STALL.
pub data Answer : Type 0 where
  pass : Answer
  done : List ℕ → Answer
  refuse : Answer

abbrev pub answer_of : Option (List ℕ) → Answer
answer_of none = refuse
answer_of (some bytes) = done bytes

-- bRequest of the standard requests that the core knows
pub data Standard : Type 0 where
  get_status clear_feature set_feature set_address get_descriptor : Standard
  get_configuration set_configuration get_interface set_interface other : Standard

abbrev pub standard_of : ℕ → Standard
standard_of r =
    if r == 0
    then get_status
    else if r == 1
    then clear_feature
    else if r == 3
    then set_feature
    else if r == 5
    then set_address
    else if r == 6
    then get_descriptor
    else if r == 8
    then get_configuration
    else if r == 9
    then set_configuration
    else if r == 10
    then get_interface
    else if r == 11
    then set_interface
    else other

-- ep_by_addr, with the index
abbrev pub ep_by_addr : Core → ℕ → Option (ℕ × Ep)
ep_by_addr core addr = elim (core.slot (addr % 16) (direction_of addr)) [
  | none ↦ none
  | some i ↦ elim (get_elem? core.eps i) [ none ↦ none | some ep ↦ some (i, ep) ]
]

-- usbip_ep_is_halted, of a pointer that may be NULL
abbrev pub is_halted : Option (ℕ × Ep) → Bool
is_halted none = false
is_halted (some (i, ep)) = ep.halted

-- the GET_DESCRIPTOR case
unfoldable pub describe : Ident → ℕ → Answer
unfolding build_device_desc build_config_desc build_string_desc build_bos_desc
describe dev value =
    let dt = value / 256 % 256 in
    if dt == 1
    then done (build_device_desc dev)
    else if dt == 2
    then done (build_config_desc dev buf_size)
    else if dt == 3
    then answer_of (build_string_desc dev (value % 256))
    else if dt == 0x0f && (ltb 0 (length dev.advert.msos) || dev.advert.webusb)
    then done (build_bos_desc dev.advert)
    else if ltb dt 0x21
    then refuse
    else pass

-- an endpoint of the table that changes
abbrev pub replace_by : Core → ℕ → (Ep → Ep × List Ret) → Option Ep → Core × List Ret
replace_by core i f none = (core, [])
replace_by core i f (some ep) =
    let (ep', rets) = f ep in (record core { eps = set core.eps i ep' }, rets)

abbrev pub halt_at : Core → Bool → Option ℕ → Core × List Ret
halt_at core on none = (core, [])
halt_at core on (some i) =
    replace_by core i (λ (ep : Ep). if on then stall ep else (clear_halt ep, []))
      (get_elem? core.eps i)

-- the CLEAR_FEATURE and SET_FEATURE cases for a halt
unfoldable pub set_halt : Core → ℕ → Bool → Core × List Ret
unfolding clear_halt stall
set_halt core addr on = halt_at core on (core.slot (addr % 16) (direction_of addr))

-- both feature requests
unfoldable pub feature : Core → Setup → Bool → Core × List Ret
unfolding set_halt
feature core setup on =
    if setup.request_type % 32 == 2 && setup.value == 0
    then set_halt core (setup.index % 256) on
    else (core, [])

-- the reply of GET_STATUS
unfoldable pub status_word : Core → Setup → List ℕ
status_word core setup =
    (if setup.request_type % 32 == 2 && is_halted (ep_by_addr core (setup.index % 256))
      then 1
      else 0)
    ∷ 0
    ∷ []

module _ {World : Type 0} (classes : Classes World) (dev : Ident) where
  abbrev pub call_set_alt : World → ℕ → ℕ → World
  call_set_alt w ifnum alt = elim (classes.set_alt_tab ifnum) [ none ↦ w | some f ↦ f w ifnum alt ]

  -- the switch over the standard requests
  unfoldable pub standard : Standard → Core → World → Setup → Answer × Core × World × List Ret
  unfolding describe feature status_word
  standard get_descriptor core w setup = (describe dev setup.value, core, w, [])
  standard set_configuration core w setup =
      (done [], record core { config = setup.value % 256; eps = map clear_halt core.eps }, w, [])
  standard get_configuration core w setup = (done ((core.config % 256) ∷ []), core, w, [])
  standard get_interface core w setup = (done (0 ∷ []), core, w, [])
  standard set_interface core w setup =
      let ifnum = setup.index % 256 in
      (done [], core, if ltb ifnum 16 then call_set_alt w ifnum (setup.value % 256) else w, [])
  standard get_status core w setup = (done (status_word core setup), core, w, [])
  standard clear_feature core w setup =
      let (core', rets) = feature core setup false in (done [], core', w, rets)
  standard set_feature core w setup =
      let (core', rets) = feature core setup true in (done [], core', w, rets)
  standard set_address core w setup = (done [], core, w, [])
  standard other core w setup = (pass, core, w, [])

  abbrev pub guid_of : Option MsosEntry → Option (List ℕ)
  guid_of none = none
  guid_of (some e) = e.guid

  -- a block that has to fit the scratch buffer
  abbrev pub if_fits : ℕ → List ℕ → Answer
  if_fits size bytes = if leb size buf_size then done bytes else refuse

  -- the vendor requests of MS-OS and WebUSB
  unfoldable pub vendor : Setup → Answer
  unfolding msos_entry_for_interface msos1_compatid msos1_extprops_size msos1_extprops
      msos2_set_size msos2_set build_webusb_url
  vendor setup =
      let a = dev.advert in
      let has_msos = ltb 0 (length a.msos) in
      let guid = guid_of (msos_entry_for_interface a (setup.value / 256 % 256)) in
      if has_msos && (setup.request == a.msos1_vendor && setup.index == 4)
      then done (msos1_compatid a)
      else if has_msos && (setup.request == a.msos1_vendor && setup.index == 5)
      then if_fits (msos1_extprops_size guid) (msos1_extprops guid)
      else if has_msos && (setup.request == a.msos2_vendor && setup.index == 7)
      then if_fits (msos2_set_size a) (msos2_set a)
      else if a.webusb && (setup.request == a.webusb_vendor && setup.index == 2)
      then done (build_webusb_url a.webusb_url)
      else pass

  abbrev pub or_handler : Option (Handler World) → Option (Handler World) → Option (Handler World)
  or_handler none h = h
  or_handler (some g) h = some g

  unfoldable pub route : Setup → Option (Handler World)
  route setup =
      if setup.request_type % 32 == 1 && ltb (setup.index % 256) 16
      then or_handler (classes.ctrl (setup.index % 256)) classes.ctrl_default
      else classes.ctrl_default

  abbrev pub is_in : Setup → Bool
  is_in setup = leb 128 setup.request_type

  -- `slot->cb(…)`: an IN request gets the scratch buffer to fill, and of an OUT request only the sign
  -- of the result counts.
  unfoldable pub delegate : Option (Handler World) → World → Setup → List ℕ → Answer × World
  delegate none w setup bytes = (refuse, w)
  delegate (some f) w setup bytes =
      let (r, w') =
        f w setup (if is_in setup then [] else bytes)
          (if is_in setup then setup.length else length bytes % 2 ^ 16) in
      (elim r [ none ↦ refuse | some reply ↦ if is_in setup then done reply else done [] ], w')

  -- RET_SUBMIT for the request: status, the data behind the header on IN, and the actual length
  abbrev pub finish : Setup → List ℕ → Answer → ℕ × List ℕ × ℕ
  finish setup bytes pass = (status_stall, [], 0)
  finish setup bytes refuse = (status_stall, [], 0)
  finish setup bytes (done reply) =
      if is_in setup
      then (0, take setup.length reply, length (take setup.length reply))
      else (0, [], length bytes)

  -- the vendor requests are looked at where the standard ones left the request alone
  abbrev pub core_vendor : Setup → Answer → Answer
  core_vendor setup (done reply) = done reply
  core_vendor setup refuse = refuse
  core_vendor setup pass =
      if is_in setup && req_type setup.request_type == 2 then vendor setup else pass

  abbrev pub core_standard : Core → World → Setup → Answer × Core × World × List Ret
  core_standard core w setup =
      if req_type setup.request_type == 0
      then standard (standard_of setup.request) core w setup
      else (pass, core, w, [])

  abbrev pub then_delegate : Answer → World → Setup → List ℕ → Answer × World
  then_delegate (done reply) w setup bytes = (done reply, w)
  then_delegate refuse w setup bytes = (refuse, w)
  then_delegate pass w setup bytes = delegate (route setup) w setup bytes

  -- handle_control: `bytes` is the data of an OUT request. The result is the reply, the state, and
  -- the replies to other URBs that a halt completes first.
  unfoldable pub handle_control :
      Core → World → Setup → List ℕ → (ℕ × List ℕ × ℕ) × Core × World × List Ret
  unfolding standard vendor route delegate
  handle_control core w setup bytes =
      let (answer, core', w', rets) = core_standard core w setup in
      let (last, w'') = then_delegate (core_vendor setup answer) w' setup bytes in
      (finish setup bytes last, core', w'', rets)
