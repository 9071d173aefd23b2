-- ===== src/Cdc/Laws.antt =====
-- What an application and a host see of a serial port (src/classes/device/cdc_acm.c).
use usbip_c.Base.{
  ℕ, ◌+◌, ◌*◌, ◌/◌, ◌%◌, ◌^◌, ◌<◌, ◌≡◌, refl, ap, List, [], ◌∷◌, ◌++◌, Option, Bool, true, false,
  if_both, not, ◌&&◌, leb, ◌==◌, if◌then◌else◌, arith,
}
use usbip_c.Dfu.State.{Setup}
use usbip_c.Cdc.State.{
  LineCoding, Port, Event, opened, closed, recoded, received, coding_from_wire, coding_to_wire,
  set_line_coding, get_line_coding, set_control_line_state, line_state, control, Input, request,
  packet, step, run,
}

--- The callbacks that take a port from one state to another: it opens only while it is closed, and
--- with the coding that holds; it closes only while it is open; and a new coding is reported.
pub data History : Port → List Event → Port → Type 0 where
  quiet : {p : Port} → History p [] p
  opens :
      {p : Port} {es : List Event} {q : Port}
      → p.is_open ≡ false
      → History (record p { is_open = true }) es q
      → History p (opened p.line_coding ∷ es) q
  closes :
      {p : Port} {es : List Event} {q : Port}
      → p.is_open ≡ true
      → History (record p { is_open = false }) es q
      → History p (closed ∷ es) q
  recodes :
      {p : Port} {lc : LineCoding} {es : List Event} {q : Port}
      → History (record p { line_coding = lc }) es q
      → History p (recoded lc ∷ es) q
  receives :
      {p : Port} {bytes : List ℕ} {es : List Event} {q : Port}
      → History p es q
      → History p (received bytes ∷ es) q

history_chain :
    (p : Port) (es fs : List Event) (q r : Port)
    → History p es q
    → History q fs r
    → History p (es ++ fs) r
history_chain p es fs q r quiet k = k
history_chain p es fs q r (opens o h) k = opens o (history_chain _ _ fs q r h k)
history_chain p es fs q r (closes o h) k = closes o (history_chain _ _ fs q r h k)
history_chain p es fs q r (recodes h) k = recodes (history_chain _ _ fs q r h k)
history_chain p es fs q r (receives h) k = receives (history_chain _ _ fs q r h k)

abbrev After : Port → Port × List Event → Type 0
After p r = History p r.1 r.0

edge-History :
    (p : Port) (dtr is_open : Bool)
    → p.is_open ≡ is_open
    → After p (
        if dtr && not is_open
        then (record p { is_open = true }, opened p.line_coding ∷ [])
        else if not dtr && is_open
        then (record p { is_open = false }, closed ∷ [])
        else (p, []))
edge-History p true false h = opens h quiet
edge-History p true true h = quiet
edge-History p false true h = closes h quiet
edge-History p false false h = quiet

line_state-History : (p : Port) (dtr : Bool) → After p (line_state p dtr)
unfolding line_state
line_state-History p dtr = edge-History p dtr p.is_open refl

abbrev Answered : Port → Option (List ℕ) × Port × List Event → Type 0
Answered p r = History p r.2 r.1

control-History :
    (p : Port) (setup : Setup) (buf : List ℕ) (len : ℕ) → Answered p (control p setup buf len)
unfolding control
control-History p setup buf len =
    if_both (Answered p) (setup.request == set_line_coding) _ _
      (if_both (After p) (leb 7 len) _ _ (recodes quiet) quiet)
      (if_both (Answered p) (setup.request == get_line_coding) _ _ quiet (
        if_both (Answered p) (setup.request == set_control_line_state) _ _ (line_state-History p _)
          quiet))

step-History : (p : Port) (i : Input) → After p (step p i)
unfolding step
step-History p (request setup buf len) = control-History p setup buf len
step-History p (packet bytes) = receives quiet

-- Whatever the host sends to a port, the callbacks are a history of it from the state that it had to
-- the one that it has then: on_open and on_close take turns, and on_open has the coding in effect.
pub run-History : (p : Port) (is : List Input) → History p (run p is).1 (run p is).0
unfolding run
run-History p [] = quiet
run-History p (i ∷ is) = history_chain p _ _ _ _ (step-History p i) (run-History (step p i).0 is)

-- ---- the line coding ----

baud_read :
    (v : ℕ)
    → v < 2 ^ 32
    → v % 256 + v / 2 ^ 8 % 256 * 2 ^ 8 + v / 2 ^ 16 % 256 * 2 ^ 16 + v / 2 ^ 24 % 256 * 2 ^ 24 ≡ v
baud_read v fits = omega arith

pub coding_from_wire-to_wire :
    (lc : LineCoding) → lc.baud < 2 ^ 32 → coding_from_wire (coding_to_wire lc) ≡ lc
unfolding coding_from_wire coding_to_wire
coding_from_wire-to_wire lc fits =
    ap
      (λ (b : ℕ). record {
        baud = b;
        stop_bits = lc.stop_bits;
        parity = lc.parity;
        data_bits = lc.data_bits;
      })
      (baud_read lc.baud fits)

-- an input that does not set a line coding
abbrev pub keeps_coding : Input → Bool
keeps_coding (packet bytes) = true
keeps_coding (request setup buf len) = not (setup.request == set_line_coding)

abbrev pub all_keep : List Input → Bool
all_keep [] = true
all_keep (i ∷ is) = keeps_coding i && all_keep is

abbrev Kept : Port → Option (List ℕ) × Port × List Event → Type 0
Kept p r = r.1.line_coding ≡ p.line_coding
