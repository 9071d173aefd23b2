-- ===== src/Session/Tests.antt =====
-- A host that reads from a device with five bytes queued (src/usbip_host.c, src/usbip.c).
use usbip_c.Base.{ℕ, ◌≤◌, ◌<◌, ◌≡◌, refl, [], ◌∷◌, ◌++◌, true, false, none, some, arith}
use usbip_c.Base.{◌==◌, if◌then◌else◌}
use usbip_c.Wire.Stream.{ok}
use usbip_c.Wire.Command.{Urb}
use usbip_c.Wire.Reply.{success, send_ret}
use usbip_c.Endpoint.State.{Dbuf, Ep, fresh}
use usbip_c.Msos.State.{Advert}
use usbip_c.Control.Describe.{Ident}
use usbip_c.Control.State.{Classes}
use usbip_c.Device.State.{Pipe}
use usbip_c.Session.State.{Conn, serve_round}
use usbip_c.Session.Host.{Handle, data_transfer}
use usbip_c.Session.BulkIn.{after_fetch}
use usbip_c.Session.EndToEnd.{HasData, urb_of, in_transfer_completes}

abbrev plain_advert : Advert
plain_advert = record {
  msos = [];
  groups = [];
  msos1_vendor = 0;
  msos2_vendor = 0;
  webusb = false;
  webusb_vendor = 0;
  webusb_url = [];
  bcd_usb = 0x0200;
}

abbrev gadget : Ident
gadget = record {
  vid = 0x1234;
  pid = 0x5678;
  bcd_device = 0x0100;
  dev_class = 0;
  dev_sub = 0;
  dev_proto = 0;
  i_mfr = 0;
  i_prod = 0;
  i_ser = 0;
  strings = none ∷ none ∷ none ∷ none ∷ [];
  descr = [];
  n_ifnums = 1;
  advert = plain_advert;
}

abbrev no_classes : Classes ℕ
no_classes = record {
  ctrl = λ n. none;
  ctrl_default = none;
  set_alt_tab = λ n. none;
  outbox = λ w. ([], w);
}

abbrev bulk : ℕ → Pipe ℕ
bulk i = record { type = 2; interval = 0; on_out = none; produce = none; consume = none }

-- five bytes, of which one was sent
abbrev five_bytes : Dbuf
five_bytes = record { bytes = 1 ∷ 2 ∷ 3 ∷ 4 ∷ 5 ∷ []; off = 1 }

abbrev full : Ep
full = record fresh { in_queue = five_bytes ∷ [] }

abbrev no_urb : Urb
no_urb = record {
  command = 0;
  seqnum = 0;
  devid = 0;
  direction = 0;
  ep = 0;
  flags = 0;
  unlink_seqnum = 0;
  length = 0;
  interval = 0;
  number_of_packets = 0;
  iso = [];
  setup = [];
  data_bytes = none;
  data_len = 0;
}

abbrev attached : Conn ℕ
attached = record {
  dev = record {
    core = record { config = 1; eps = full ∷ []; slot = λ n d. if n == 1 then some 0 else none };
    world = 0;
    deadlines = λ i. 0;
    paced = [];
  };
  urbs = λ seq. no_urb;
}

attached-HasData : HasData attached 1 0 full five_bytes []
attached-HasData = record {
  number_pos = omega arith;
  number_fits = omega arith;
  mapped = refl;
  present = refl;
  going = refl;
  queued = refl;
  unread = omega arith;
}

abbrev host : Handle
host = record { devid = 0x10001; seq = 4 }

in_transfer_completes_example :
    let t = data_transfer host 129 [] 3 0 in
    let reply = send_ret 5 0x10001 1 1 0 (2 ∷ 3 ∷ 4 ∷ []) 3 in
    (serve_round no_classes gadget bulk false true (λ n. []) attached 0 no_urb (t.request ++ [])
      ≡ ok (
        (
          after_fetch no_classes gadget bulk false true
              (λ n. [])
              attached
              0
              full
              (urb_of no_classes gadget bulk false true (λ n. []) no_urb host 1 0 3),
          reply,
        ),
        [],
      ))
    × (t.receive (reply ++ [])
        ≡ ok (record { code = success; actual = 3; bytes = 2 ∷ 3 ∷ 4 ∷ [] }, []))
    × (0 < 3)
    × (3 ≤ 3)
in_transfer_completes_example =
    in_transfer_completes no_classes gadget bulk false true (λ n. []) host 1 0 0 3 0 [] [] [] no_urb
      attached full five_bytes [] attached-HasData (omega arith) (omega arith) (omega arith)
      (omega arith)
