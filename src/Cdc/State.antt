-- ===== src/Cdc/State.antt =====
-- A serial port of src/classes/device/cdc_acm.c. A call of one of the application's callbacks is an
-- event; a callback that is NULL leaves out the event and changes nothing else.
use usbip_c.Base.{
  ℕ, ◌%◌, List, [], ◌∷◌, ◌++◌, Option, none, some, Bool, true, false, not, ◌&&◌, leb, ◌==◌,
  if◌then◌else◌, get_or,
}
use usbip_c.Base.Bytes.{le32, get_le32}
use usbip_c.Dfu.State.{Setup}

-- `cdc_line_coding`
pub record LineCoding : Type 0 where
  pub baud : ℕ
  pub stop_bits : ℕ
  pub parity : ℕ
  pub data_bits : ℕ

-- the part of `cdc_port` that the requests change
pub record Port : Type 0 where
  pub line_coding : LineCoding
  pub is_open : Bool

-- on_open, on_close, on_line_coding and on_rx
pub data Event : Type 0 where
  opened : LineCoding → Event
  closed : Event
  recoded : LineCoding → Event
  received : List ℕ → Event

-- the fields of a new port that cdc_build sets
abbrev pub build : Port
build = record {
  line_coding = record { baud = 9600; stop_bits = 0; parity = 0; data_bits = 8 };
  is_open = false;
}

unfoldable pub coding_from_wire : List ℕ → LineCoding
coding_from_wire wire = record {
  baud = get_le32 wire 0;
  stop_bits = get_or wire 4 0;
  parity = get_or wire 5 0;
  data_bits = get_or wire 6 0;
}

unfoldable pub coding_to_wire : LineCoding → List ℕ
coding_to_wire lc = le32 lc.baud ++ (lc.stop_bits ∷ lc.parity ∷ lc.data_bits ∷ [])

abbrev pub set_line_coding : ℕ
set_line_coding = 0x20

abbrev pub get_line_coding : ℕ
get_line_coding = 0x21

abbrev pub set_control_line_state : ℕ
set_control_line_state = 0x22

-- the SET_CONTROL_LINE_STATE case: the edges of DTR
unfoldable pub line_state : Port → Bool → Port × List Event
line_state port dtr =
    if dtr && not port.is_open
    then (record port { is_open = true }, opened port.line_coding ∷ [])
    else if not dtr && port.is_open
    then (record port { is_open = false }, closed ∷ [])
    else (port, [])

abbrev pub recode : Port → LineCoding → Port × List Event
recode port lc = (record port { line_coding = lc }, recoded lc ∷ [])

abbrev pub answer : List ℕ → Port × List Event → Option (List ℕ) × Port × List Event
answer reply r = (some reply, r.0, r.1)

-- cdc_control: `none` is a STALL, and `buf` holds the data of an OUT request.
unfoldable pub control : Port → Setup → List ℕ → ℕ → Option (List ℕ) × Port × List Event
unfolding coding_from_wire coding_to_wire line_state
control port setup buf len =
    if setup.request == set_line_coding
    then answer [] (if leb 7 len then recode port (coding_from_wire buf) else (port, []))
    else if setup.request == get_line_coding
    then answer (coding_to_wire port.line_coding) (port, [])
    else if setup.request == set_control_line_state
    then answer [] (line_state port (setup.value % 2 == 1))
    else (none, port, [])

-- what reaches the class: a control request with its data, or bytes on the bulk OUT pipe (cdc_on_out)
pub data Input : Type 0 where
  request : Setup → List ℕ → ℕ → Input
  packet : List ℕ → Input

unfoldable pub step : Port → Input → Port × List Event
unfolding control
step port (request setup buf len) =
    let (reply, port', events) = control port setup buf len in (port', events)
step port (packet bytes) = (port, received bytes ∷ [])

unfoldable pub run : Port → List Input → Port × List Event
unfolding step
run port [] = (port, [])
run port (i ∷ is) =
    let (port1, now) = step port i in let (port2, later) = run port1 is in (port2, now ++ later)
