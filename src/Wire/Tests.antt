-- ===== src/Wire/Tests.antt =====
-- Commands and replies on concrete bytes (src/usbip.c).
use usbip_c.Base.{◌≡◌, refl, List, [], ◌∷◌, ◌++◌, none, some, arith, map, ◌==◌, if◌then◌else◌}
use usbip_c.Wire.Header.{IsoPkt, usb_in, usb_out, usb_iso}
use usbip_c.Wire.Stream.{ok, fault}
use usbip_c.Wire.Command
use usbip_c.Wire.Command.{Urb}
use usbip_c.Wire.HeaderLaws.{submit_hdr, submitted}
use usbip_c.Wire.RoundTrip.{submit_out, direction_fault}
use usbip_c.Wire.IsoRoundTrip.{submit_iso_in, submit_iso_out}
use usbip_c.Wire.Reply.{send_ret, client_receive, client_code}
use usbip_c.Wire.ReplyLaws.{receive_in}

abbrev garbage : Urb
garbage = record {
  command = 9;
  seqnum = 9;
  devid = 9;
  direction = 9;
  ep = 9;
  flags = 9;
  unlink_seqnum = 9;
  length = 9;
  interval = 9;
  number_of_packets = 9;
  iso = [];
  setup = [];
  data_bytes = none;
  data_len = 9;
}

-- a device whose endpoint 3 is isochronous, both ways
abbrev eps : Command.EpMap
eps ep dir = if ep == 3 then some usb_iso else none

abbrev pkts : List IsoPkt
pkts =
    record { offset = 0; length = 2; actual_length = 0; status = 0 }
    ∷ record { offset = 4; length = 1; actual_length = 7; status = 7 }
    ∷ []

submit_out_example :
    Command.read_cmd eps garbage
      (Command.client_submit 7 65538 usb_out 2 none 0 (1 ∷ 2 ∷ 3 ∷ []) 3 ++ (255 ∷ []))
    ≡ ok (
      record (submitted garbage 7 65538 usb_out 2 0 0 3 none) {
        data_bytes = some (1 ∷ 2 ∷ 3 ∷ []);
        data_len = 3;
      },
      255 ∷ [],
    )
submit_out_example =
    submit_out eps garbage 7 65538 2 0 3 none (1 ∷ 2 ∷ 3 ∷ []) (255 ∷ []) (omega arith)
      (omega arith) (omega arith) (omega arith) (omega arith) (omega arith) refl refl

submit_iso_in_example :
    Command.read_cmd eps garbage
      (Command.client_submit_iso 9 65538 usb_in 3 1 [] pkts ++ (255 ∷ []))
    ≡ ok (
      record (submitted garbage 9 65538 usb_in 3 1 2 (Command.total_length pkts) none) {
        iso = map Command.as_request pkts;
      },
      255 ∷ [],
    )
submit_iso_in_example =
    submit_iso_in eps garbage 9 65538 3 1 pkts [] (255 ∷ []) (omega arith) (omega arith)
      (omega arith) (omega arith) (omega arith) (omega arith)
      (
        (omega arith, omega arith, omega arith, omega arith),
        ((omega arith, omega arith, omega arith, omega arith), tt),
      )
      (unfold Command.total_length in omega arith) refl

submit_iso_out_example :
    Command.read_cmd eps garbage
      (Command.client_submit_iso 9 65538 usb_out 3 1 (1 ∷ 2 ∷ 3 ∷ 4 ∷ 5 ∷ []) pkts ++ (255 ∷ []))
    ≡ ok (
      record (submitted garbage 9 65538 usb_out 3 1 2 (Command.total_length pkts) none) {
        iso = map Command.as_request pkts;
        data_bytes = some (Command.gather_out pkts (1 ∷ 2 ∷ 3 ∷ 4 ∷ 5 ∷ []));
        data_len = Command.total_length pkts;
      },
      255 ∷ [],
    )
submit_iso_out_example =
    submit_iso_out eps garbage 9 65538 3 1 pkts (1 ∷ 2 ∷ 3 ∷ 4 ∷ 5 ∷ []) (255 ∷ []) (omega arith)
      (omega arith) (omega arith) (omega arith) (omega arith) (omega arith)
      (
        (omega arith, omega arith, omega arith, omega arith),
        ((omega arith, omega arith, omega arith, omega arith), tt),
      )
      (unfold Command.total_length in omega arith) refl (unfold Command.total_length in omega arith)
      (unfold Command.total_length Command.gather_out in refl)

direction_fault_example :
    Command.read_cmd eps garbage (submit_hdr 7 65538 2 1 0 0 0 none ++ []) ≡ fault
direction_fault_example =
    direction_fault eps garbage 7 65538 2 1 0 0 0 none [] (omega arith) (omega arith) (omega arith)
      (omega arith) (omega arith) (omega arith) (omega arith) (omega arith) refl

receive_in_example :
    client_receive usb_in 2 (send_ret 7 65538 usb_in 1 0 (1 ∷ 2 ∷ 3 ∷ []) 3 ++ (255 ∷ []))
    ≡ ok (record { code = client_code 0; actual = 2; bytes = 1 ∷ 2 ∷ [] }, 255 ∷ [])
receive_in_example =
    receive_in 7 65538 1 0 3 2 (1 ∷ 2 ∷ 3 ∷ []) (255 ∷ []) (omega arith) (omega arith) (omega arith)
      refl
