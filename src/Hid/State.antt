-- ===== src/Hid/State.antt =====
-- A HID function of src/classes/device/hid.c. The application's callbacks (include/classes/hid.h)
-- are parameters: they work on a `World`, the memory of the application.
use usbip_c.Base.{
  zero, suc, ℕ, ◌+◌, ◌-◌, ◌*◌, ◌/◌, ◌%◌, ◌^◌, List, [], ◌∷◌, Option, none, some, Bool, not, ◌&&◌,
  ◌||◌, ltb, ◌==◌, if◌then◌else◌, length, take,
}
use usbip_c.Base.Bytes.{le16}
use usbip_c.Dfu.State.{Setup, req_type, usb_class}

-- `hid_opts`: get_report answers `none` for a negative result; set_report and on_output take the
-- data, set_report behind the type and the id of the report.
pub record Opts (World : Type 0) : Type 0 where
  pub report_desc : List ℕ
  pub country : ℕ
  pub get_report : Option (World → ℕ → ℕ → ℕ → Option (List ℕ) × World)
  pub set_report : Option (World → ℕ → ℕ → List ℕ → World)
  pub on_output : Option (World → List ℕ → World)

-- the fields of `struct hid_state` that change; `last_input` is the valid part of the array
pub record Hid : Type 0 where
  pub idle : ℕ
  pub protocol : ℕ
  pub last_input : List ℕ

-- the fields of a new function that hid_build sets
abbrev pub build : Hid
build = record { idle = 0; protocol = 1; last_input = [] }

-- the distance of bInterval `candidate` from `ms` milliseconds, in microseconds
unfoldable pub interval_error : ℕ → ℕ → ℕ
interval_error ms candidate =
    let us = 125 * 2 ^ (candidate - 1) in
    if ltb (ms * 1000) us then us - ms * 1000 else ms * 1000 - us

-- one round of the loop, on `best` and `best_err`
unfoldable pub closer : ℕ → ℕ → ℕ × ℕ → ℕ × ℕ
closer ms candidate (best, best_err) =
    if ltb (interval_error ms candidate) best_err
    then (candidate, interval_error ms candidate)
    else (best, best_err)

-- `rounds` rounds of the loop from `candidate` on
unfoldable pub closest : ℕ → ℕ → ℕ → ℕ × ℕ → ℕ × ℕ
closest ms zero candidate best = best
closest ms (suc rounds) candidate best =
    closest ms rounds (candidate + 1) (closer ms candidate best)

-- hid_encode_interval, at high speed and above or below it
unfoldable pub encode_interval : Bool → ℕ → ℕ
encode_interval high_speed ms =
    if not high_speed || ms == 0 then ms else (closest ms 16 1 (1, 2 ^ 32 - 1)).0

-- hid_desc, as bytes
unfoldable pub hid_desc : {World : Type 0} → Opts World → List ℕ
hid_desc opts = 9 ∷ 0x21 ∷ 0x11 ∷ 0x01 ∷ opts.country ∷ 1 ∷ 0x22 ∷ le16 (length opts.report_desc)

pub data Request : Type 0 where
  get_report get_idle get_protocol set_report set_idle set_protocol unknown : Request

abbrev pub decode : ℕ → Request
decode r =
    if r == 0x01
    then get_report
    else if r == 0x02
    then get_idle
    else if r == 0x03
    then get_protocol
    else if r == 0x09
    then set_report
    else if r == 0x0a
    then set_idle
    else if r == 0x0b
    then set_protocol
    else unknown

module _ {World : Type 0} (opts : Opts World) where
  -- the standard GET_DESCRIPTOR
  abbrev pub descriptor : ℕ → ℕ → Option (List ℕ)
  descriptor dt len =
      if dt == 0x22
      then some (take len opts.report_desc)
      else if dt == 0x21
      then some (take len (hid_desc opts))
      else none

  -- on_output, which may be NULL
  abbrev pub output : World → List ℕ → World
  output w bytes = elim opts.on_output [ none ↦ w | some call ↦ call w bytes ]

  -- GET_REPORT: what the application puts in the buffer, or the last Input report
  abbrev pub report_or_echo : Hid → ℕ → Option (List ℕ) × World → Option (List ℕ) × Hid × World
  report_or_echo st len (none, w) = (some (take len st.last_input), st, w)
  report_or_echo st len (some got, w) = (some got, st, w)

  abbrev pub ask : World → ℕ → ℕ → ℕ → Option (List ℕ) × World
  ask w rtype rid len = elim opts.get_report [ none ↦ (none, w) | some call ↦ call w rtype rid len ]

  abbrev pub accept : World → ℕ → ℕ → List ℕ → World
  accept w rtype rid bytes = elim opts.set_report [
    | none ↦ output w bytes
    | some call ↦ call w rtype rid bytes
  ]

  -- a class request, with the halves of wValue
  unfoldable pub answer : Request → Hid → World → ℕ → ℕ → List ℕ → ℕ → Option (List ℕ) × Hid × World
  answer get_report st w msb lsb buf len = report_or_echo st len (ask w msb lsb len)
  answer set_report st w msb lsb buf len = (some [], st, accept w msb lsb (take len buf))
  answer get_idle st w msb lsb buf len = (some (st.idle ∷ []), st, w)
  answer set_idle st w msb lsb buf len = (some [], record st { idle = msb }, w)
  answer get_protocol st w msb lsb buf len = (some (st.protocol ∷ []), st, w)
  answer set_protocol st w msb lsb buf len = (some [], record st { protocol = lsb }, w)
  answer unknown st w msb lsb buf len = (none, st, w)

  -- hid_control: `none` is a STALL.
  unfoldable pub control : Hid → World → Setup → List ℕ → ℕ → Option (List ℕ) × Hid × World
  control st w setup buf len =
      if req_type setup.request_type == 0 && setup.request == 6
      then (descriptor (setup.value / 256 % 256) len, st, w)
      else if req_type setup.request_type == usb_class
      then answer (decode setup.request) st w (setup.value / 256 % 256) (setup.value % 256) buf len
      else (none, st, w)

-- hid_send_report, before the report is written to the pipe
unfoldable pub send_report : Hid → List ℕ → Hid
send_report st bytes =
    let kept = take 64 bytes in if ltb 0 (length kept) then record st { last_input = kept } else st

-- what reaches a function: a control request with its data, a report on the interrupt OUT pipe
-- (hid_on_out), or a report of the application
pub data Input : Type 0 where
  request : Setup → List ℕ → ℕ → Input
  out_report : List ℕ → Input
  in_report : List ℕ → Input

module _ {World : Type 0} (opts : Opts World) where
  unfoldable pub step : Hid → World → Input → Hid × World
  step st w (request setup buf len) =
      let (reply, st', w') = control opts st w setup buf len in (st', w')
  step st w (out_report bytes) = (st, output opts w bytes)
  step st w (in_report bytes) = (send_report st bytes, w)

  unfoldable pub run : Hid → World → List Input → Hid × World
  run st w [] = (st, w)
  run st w (i ∷ is) = let (st1, w1) = step st w i in run st1 w1 is
