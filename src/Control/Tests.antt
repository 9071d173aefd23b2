-- ===== src/Control/Tests.antt =====
-- Control requests to a mouse with one endpoint that is halted (src/usbip_device.c).
use usbip_c.Base.{
  ℕ, suc, ◌≡◌, ◌≤◌, refl, [], ◌∷◌, none, some, true, false, ◌⊎◌, arith, All, length, if◌then◌else◌,
  ◌==◌,
}
use usbip_c.Wire.Reply.{status_stall}
use usbip_c.Endpoint.State.{Ep}
use usbip_c.Dfu.State.{Setup}
use usbip_c.Msos.State.{Advert}
use usbip_c.Control.Describe.{Ident}
use usbip_c.Control.State.{Classes, Core, handle_control, route, delegate}
use usbip_c.Control.Laws.{reply_bounded, configured, set_config, get_config}

abbrev quiet : Advert
quiet = record {
  msos = [];
  groups = [];
  msos1_vendor = 0;
  msos2_vendor = 0;
  webusb = false;
  webusb_vendor = 0;
  webusb_url = [];
  bcd_usb = 0x0200;
}

abbrev mouse : Ident
mouse = record {
  vid = 0x1234;
  pid = 0x5678;
  bcd_device = 0x0100;
  dev_class = 0;
  dev_sub = 0;
  dev_proto = 0;
  i_mfr = 0;
  i_prod = 0;
  i_ser = 0;
  strings = none ∷ none ∷ none ∷ none ∷ [];
  descr = 9 ∷ 4 ∷ 0 ∷ 0 ∷ 1 ∷ 3 ∷ 1 ∷ 2 ∷ 0 ∷ 7 ∷ 5 ∷ 0x81 ∷ 3 ∷ 4 ∷ 0 ∷ 10 ∷ [];
  n_ifnums = 1;
  advert = quiet;
}

abbrev halted_ep : Ep
halted_ep = record { in_queue = []; out_queue = []; parked = []; has_tail = false; halted = true }

abbrev powered : Core
powered = record { config = 0; eps = halted_ep ∷ []; slot = λ n d. if n == 1 then some 0 else none }

-- A class whose handler answers 8 bytes and counts its calls.
abbrev counting : Classes ℕ
counting = record {
  ctrl = λ n. some (λ w setup buf len. (some (1 ∷ 2 ∷ 3 ∷ 4 ∷ 5 ∷ 6 ∷ 7 ∷ 8 ∷ []), suc w));
  ctrl_default = none;
  set_alt_tab = λ n. none;
  outbox = λ w. ([], w);
}

-- a class request to interface 0 that asks for 4 bytes
abbrev class_request : Setup
class_request = record { request_type = 0xa1; request = 1; value = 0; index = 0; length = 4 }

delegated :
    (handle_control counting mouse powered 0 class_request []).0 ≡ (0, 1 ∷ 2 ∷ 3 ∷ 4 ∷ [], 4)
unfolding handle_control route delegate
delegated = refl

reply_bounded_example :
    (length (handle_control counting mouse powered 0 class_request []).0.1 ≤ 4)
    × (((handle_control counting mouse powered 0 class_request []).0.0 ≡ 0)
        ⊎ (((handle_control counting mouse powered 0 class_request []).0.0 ≡ status_stall)
            × ((handle_control counting mouse powered 0 class_request []).0.1 ≡ [])
            × ((handle_control counting mouse powered 0 class_request []).0.2 ≡ 0)))
reply_bounded_example = reply_bounded counting mouse powered 0 class_request []

configured_example :
    let (ack, core1, w1, rets) =
      handle_control counting mouse powered 0 (set_config counting mouse 1) [] in
    (ack ≡ (0, [], 0))
    × All (λ (ep : Ep). ep.halted ≡ false) core1.eps
    × ((handle_control counting mouse core1 w1 (get_config counting mouse) []).0 ≡ (0, 1 ∷ [], 1))
configured_example = configured counting mouse powered 0 1 (omega arith)
