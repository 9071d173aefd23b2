-- ===== src/Device/Tests.antt =====
-- A device with one interrupt IN and one isochronous OUT endpoint (src/usbip_device.c).
use usbip_c.Base.{
  ℕ, ◌+◌, ◌^◌, ◌-◌, ◌≡◌, refl, List, [], ◌∷◌, ◌++◌, map, true, false, none, some, arith, inr,
}
use usbip_c.Base.{◌==◌, if◌then◌else◌}
use usbip_c.Wire.Header.{IsoPkt}
use usbip_c.Wire.Command.{Urb, gather_out, as_request}
use usbip_c.Endpoint.State.{fresh, write, feed, serve_in, park}
use usbip_c.Msos.State.{Advert}
use usbip_c.Control.Describe.{Ident}
use usbip_c.Control.State.{Classes, write_ep}
use usbip_c.Device.State.{
  Dev, Pipe, Sent, ret, submit, tick, apply, sum, de_pad, perform, fetch, dispatch_at, dispatch,
  dispatch_iso, pacer_round, step, run,
}
use usbip_c.Device.Account.{count}
use usbip_c.Device.Ledger.{seqs, outstanding, submitted}
use usbip_c.Device.Run.{run_accounts}
use usbip_c.Device.Delivery.{Completes, whole, iso_out_delivered}

abbrev quiet : Advert
quiet = record {
  msos = [];
  groups = [];
  msos1_vendor = 0;
  msos2_vendor = 0;
  webusb = false;
  webusb_vendor = 0;
  webusb_url = [];
  bcd_usb = 0x0200;
}

abbrev gadget : Ident
gadget = record {
  vid = 0x1234;
  pid = 0x5678;
  bcd_device = 0x0100;
  dev_class = 0;
  dev_sub = 0;
  dev_proto = 0;
  i_mfr = 0;
  i_prod = 0;
  i_ser = 0;
  strings = none ∷ none ∷ none ∷ none ∷ [];
  descr = [];
  n_ifnums = 1;
  advert = quiet;
}

abbrev no_classes : Classes (List ℕ)
no_classes = record {
  ctrl = λ n. none;
  ctrl_default = none;
  set_alt_tab = λ n. none;
  outbox = λ w. ([], w);
}

-- endpoint 0 of the table is 0x81, interrupt; endpoint 1 is 0x02, isochronous, and keeps what it gets
abbrev speaker : ℕ → Pipe (List ℕ)
speaker i = record {
  type = if i == 0 then 3 else 1;
  interval = 1;
  on_out = none;
  produce = none;
  consume = some (λ w lens bytes. w ++ bytes);
}

abbrev plugged : Dev (List ℕ)
plugged = record {
  core = record {
    config = 1;
    eps = fresh ∷ fresh ∷ [];
    slot = λ n d. if n == 1 then some 0 else if n == 2 then some 1 else none;
  };
  world = [];
  deadlines = λ i. 0;
  paced = [];
}

-- an IN URB of 4 bytes for 0x81
abbrev in_urb : ℕ → Urb
in_urb seq = record {
  command = 1;
  seqnum = seq;
  devid = 1;
  direction = 1;
  ep = 1;
  flags = 0;
  unlink_seqnum = 0;
  length = 4;
  interval = 0;
  number_of_packets = 0;
  iso = [];
  setup = [];
  data_bytes = none;
  data_len = 0;
}

-- two packets, back to back
abbrev two_packets : List IsoPkt
two_packets =
    record { offset = 0; length = 1; actual_length = 0; status = 0 }
    ∷ record { offset = 1; length = 2; actual_length = 0; status = 0 }
    ∷ []

abbrev out_urb : Urb
out_urb = record (in_urb 9) {
  direction = 0;
  ep = 2;
  number_of_packets = 2;
  iso = map as_request two_packets;
  data_bytes = some (gather_out two_packets (5 ∷ 6 ∷ 7 ∷ []));
  data_len = 3;
}

-- The first of two parked URBs is answered; 7 is for no endpoint.
abbrev served : Dev (List ℕ)
served = record plugged {
  core = record plugged.core {
    eps =
        record fresh { parked = record { seqnum = 4; length = 4 } ∷ []; has_tail = true }
        ∷ fresh
        ∷ [];
  };
}

run_accounts_example :
    count 4 (seqs (ret 3 0 (8 ∷ []) ∷ ret 7 (2 ^ 32 - 19) [] ∷ [])) + count 4 (outstanding served)
    ≡ count 4 (outstanding plugged)
      + count 4 (
          submitted (
            submit 0 (in_urb 3)
            ∷ submit 0 (in_urb 4)
            ∷ apply (write_ep 0 (8 ∷ []))
            ∷ submit 0 (record (in_urb 7) { ep = 5 })
            ∷ tick 0
            ∷ []))
unfolding run step dispatch dispatch_at fetch serve_in park perform write feed pacer_round
run_accounts_example =
    run_accounts no_classes gadget speaker true true (λ n. []) plugged served
      (submit 0 (in_urb 3)
        ∷ submit 0 (in_urb 4)
        ∷ apply (write_ep 0 (8 ∷ []))
        ∷ submit 0 (record (in_urb 7) { ep = 5 })
        ∷ tick 0
        ∷ [])
      (ret 3 0 (8 ∷ []) ∷ ret 7 (2 ^ 32 - 19) [] ∷ [])
      ((inr refl, (λ e. refl), (λ e. refl)), ((inr refl, (λ e. refl), (λ e. refl)), tt)) refl 4

iso_out_delivered_example :
    (r : Dev (List ℕ) × List Sent) × (dispatch_iso no_classes gadget speaker false true
        (λ n. [])
        plugged
        100
        1
        out_urb
      ≡ some r)
    × (r.0.world ≡ 5 ∷ 6 ∷ 7 ∷ [])
    × Completes no_classes gadget speaker false true (λ n. []) plugged 9 (map whole two_packets) r
iso_out_delivered_example =
    iso_out_delivered no_classes gadget speaker false true (λ n. []) plugged 100 1 out_urb
      two_packets (5 ∷ 6 ∷ 7 ∷ []) refl refl refl (refl, (refl, tt)) (unfold sum in refl)
      (omega arith) refl

-- the importer's slots one byte apart: the second packet is lost, and the class gets what malloc left
gap_lost :
    de_pad
      (λ n. 99 ∷ [])
      (gather_out
        (record { offset = 0; length = 1; actual_length = 0; status = 0 }
          ∷ record { offset = 2; length = 1; actual_length = 0; status = 0 }
          ∷ [])
        (5 ∷ 6 ∷ 7 ∷ []))
      (map as_request (
        record { offset = 0; length = 1; actual_length = 0; status = 0 }
        ∷ record { offset = 2; length = 1; actual_length = 0; status = 0 }
        ∷ []))
    ≡ some (5 ∷ 99 ∷ [])
unfolding de_pad gather_out
gap_lost = refl
