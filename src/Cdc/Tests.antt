-- ===== src/Cdc/Tests.antt =====
-- A host that opens a port, sets its speed and closes it (src/classes/device/cdc_acm.c).
use usbip_c.Base.{ℕ, ◌≡◌, refl, List, [], ◌∷◌}
use usbip_c.Dfu.State.{Setup}
use usbip_c.Cdc.State.{
  LineCoding, opened, closed, recoded, received, build, coding_from_wire, coding_to_wire,
  set_line_coding, set_control_line_state, line_state, control, Input, request, packet, step, run,
}
use usbip_c.Cdc.Laws.{History, run-History}

abbrev class_request : ℕ → ℕ → ℕ → Setup
class_request r value len = record {
  request_type = 0x21;
  request = r;
  value = value;
  index = 0;
  length = len;
}

abbrev dtr : ℕ → Input
dtr value = request (class_request set_control_line_state value 0) [] 0

abbrev fast : LineCoding
fast = record { baud = 115200; stop_bits = 2; parity = 1; data_bits = 7 }

abbrev inputs : List Input
inputs =
    dtr 3
    ∷ dtr 1
    ∷ request (class_request set_line_coding 0 7) (coding_to_wire fast) 7
    ∷ packet (104 ∷ 105 ∷ [])
    ∷ dtr 2
    ∷ dtr 1
    ∷ []

callbacks :
    (run build inputs).1
    ≡ opened build.line_coding
      ∷ recoded fast
      ∷ received (104 ∷ 105 ∷ [])
      ∷ closed
      ∷ opened fast
      ∷ []
unfolding run step control line_state coding_from_wire coding_to_wire
callbacks = refl

run-History_example : History build (run build inputs).1 (run build inputs).0
run-History_example = run-History build inputs
