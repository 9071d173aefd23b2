-- ===== src/Session/State.antt =====
-- One round of the loop of serve_conn of src/usbip.c: a command is read, dispatched, and the replies
-- are written. The capture calls are left out. Each reply carries the header fields of the URB that
-- it answers; the code keeps them with the parked URB, and here `urbs` has them by sequence number.
use usbip_c.Base.{
  ℕ, List, [], ◌∷◌, ◌++◌, Bool, Option, none, some, leb, get_or, ◌==◌, if◌then◌else◌, length,
}
use usbip_c.Wire.Header.{cmd_unlink, usb_in}
use usbip_c.Wire.Stream.{Outcome, ok, closed, fault}
use usbip_c.Wire.Command.{Urb, EpMap, read_cmd}
use usbip_c.Wire.Reply.{send_ret, send_ret_iso, send_ret_unlink}
use usbip_c.Endpoint.State.{Ret}
use usbip_c.Control.Describe.{Ident}
use usbip_c.Control.State.{Classes}
use usbip_c.Device.State.{Dev, Pipe, Sent, plain, iso_ret, dispatch, handle_unlink}

pub record Conn (World : Type 0) : Type 0 where
  pub dev : Dev World
  pub urbs : ℕ → Urb

-- whether the reply's length is that of its data: the direction of the request on endpoint 0, and
-- that of the URB elsewhere
abbrev pub sends_data : Urb → Bool
sends_data u = if u.ep == 0 then leb 128 (get_or u.setup 0 0) else u.direction == usb_in

-- the actual length: of the data on IN, and what was received on OUT
abbrev pub actual_of : Urb → Ret → ℕ
actual_of u r = if r.status == 0 then if sends_data u then length r.bytes else u.data_len else 0

unfoldable pub encode : (ℕ → Urb) → Sent → List ℕ
encode urbs (plain r) =
    let u = urbs r.seqnum in
    send_ret r.seqnum u.devid u.direction u.ep r.status r.bytes (actual_of u r)
encode urbs (iso_ret seq iso bytes) =
    send_ret_iso (record (urbs seq) { seqnum = seq; iso = iso }) bytes

unfoldable pub encode_all : (ℕ → Urb) → List Sent → List ℕ
unfolding encode
encode_all urbs [] = []
encode_all urbs (x ∷ xs) = encode urbs x ++ encode_all urbs xs

module _ {World : Type 0} (classes : Classes World) (ident : Ident) (pipes : ℕ → Pipe World)
    (paced_on high_speed : Bool) (junk : ℕ → List ℕ) where
  -- `dev->ep_map`, as the reader of commands looks at it
  abbrev pub ep_types : Dev World → EpMap
  ep_types dev n d = elim (dev.core.slot n d) [ none ↦ none | some i ↦ some (pipes i).type ]

  -- a URB was dispatched: `none` where a buffer was overrun
  abbrev pub dispatched :
      Conn World
      → Urb
      → Option (Dev World × List Sent)
      → List ℕ
      → Outcome ((Conn World × List ℕ) × List ℕ)
  dispatched conn u none s = fault
  dispatched conn u (some r) s =
      let urbs : ℕ → Urb = λ seq. if seq == u.seqnum then u else conn.urbs seq in
      ok ((record { dev = r.0; urbs = urbs }, encode_all urbs r.1), s)

  -- A command was read.
  abbrev pub answer_cmd :
      Conn World → ℕ → Outcome (Urb × List ℕ) → Outcome ((Conn World × List ℕ) × List ℕ)
  answer_cmd conn now closed = closed
  answer_cmd conn now fault = fault
  answer_cmd conn now (ok (u, s)) =
      if u.command == cmd_unlink
      then ok (
        (
          record conn {
            dev =
                handle_unlink classes ident pipes paced_on high_speed junk conn.dev u.unlink_seqnum;
          },
          send_ret_unlink u.seqnum 0,
        ),
        s,
      )
      else dispatched conn u (dispatch classes ident pipes paced_on high_speed junk conn.dev now u)
          s

  -- a round: `urb0` is the uninitialised `struct urb`
  unfoldable pub serve_round :
      Conn World → ℕ → Urb → List ℕ → Outcome ((Conn World × List ℕ) × List ℕ)
  unfolding encode_all dispatch handle_unlink read_cmd
  serve_round conn now urb0 s = answer_cmd conn now (read_cmd (ep_types conn.dev) urb0 s)
