-- ===== src/Server/Tests.antt =====
-- The handshake and the registry on concrete devices (src/usbip.c, src/usbip_device.c).
use usbip_c.Base.{◌≡◌, ◌≢◌, refl, ap, get_or, [], ◌∷◌, ◌++◌, none, some, arith, map, true, take}
use usbip_c.Base.Buffers.{codes}
use usbip_c.Wire.Stream.{ok}
use usbip_c.Server.Record.{Device, pack_usbip_device, parse_devinfo, wire_speed}
use usbip_c.Server.RecordLaws.{IsDevice, parse-pack}
use usbip_c.Server.Handshake.{
  Shaken, handshake, import_request, devlist_request, client_import, client_devlist,
  emit_iface_list, iface_tuples,
}
use usbip_c.Server.HandshakeLaws.{info_of, import_first, import_unknown}
use usbip_c.Server.ListLaws.{devlist_complete, entry, IsListed}
use usbip_c.Server.Registry.{Listener, success, serve_start, serve_stop, idle_listener}
use usbip_c.Server.RegistryLaws.{
  IsListener, serve_start-IsListener, serve_stop-IsListener, busid_reused,
}

-- one interface of class 3
abbrev mouse : Device
mouse = record {
  vid = 0x1234;
  pid = 0x5678;
  bcd_device = 0x0100;
  speed = 2;
  dev_class = 0;
  dev_sub = 0;
  dev_proto = 0;
  n_ifnums = 1;
  descr = 9 ∷ 4 ∷ 0 ∷ 0 ∷ 1 ∷ 3 ∷ 1 ∷ 2 ∷ 0 ∷ 0 ∷ [];
  descr_len = 9;
  busid = codes "1-1";
  busnum = 1;
  devnum = 2;
}

mouse-IsDevice : IsDevice mouse
mouse-IsDevice = record {
  vid16 = omega arith;
  pid16 = omega arith;
  bcd16 = omega arith;
  busnum32 = omega arith;
  devnum32 = omega arith;
  busid_fits = omega arith;
  busid_text = (omega arith, (omega arith, (omega arith, tt)));
}

parse-pack_example : parse_devinfo (pack_usbip_device mouse) ≡ record {
  busid = codes "1-1";
  busnum = 1;
  devnum = 2;
  speed = wire_speed 2;
  vid = 0x1234;
  pid = 0x5678;
  bcd_device = 0x0100;
  dclass = 0;
  dsub = 0;
  dproto = 0;
  n_cfg = 1;
  n_ifaces = 1;
}
parse-pack_example = parse-pack mouse mouse-IsDevice

import_first_example :
    (s : Shaken) × (handshake (mouse ∷ []) (import_request (codes "1-1") ++ (1 ∷ []))
      ≡ ok (s, 1 ∷ []))
    × (s.imported ≡ some 0)
    × (client_import (s.sent ++ (2 ∷ [])) ≡ ok (some (info_of mouse), 2 ∷ []))
import_first_example =
    import_first [] [] mouse (codes "1-1") (1 ∷ []) (2 ∷ []) (omega arith)
      (omega arith, (omega arith, (omega arith, tt))) tt refl

other_busid : mouse.busid ≢ codes "1-2"
other_busid e = omega (arith, ap (λ s. get_or s 2 0) {x = codes "1-1"} {y = codes "1-2"} e)

import_unknown_example :
    (s : Shaken) × (handshake (mouse ∷ []) (import_request (codes "1-2") ++ (1 ∷ []))
      ≡ ok (s, 1 ∷ []))
    × (s.imported ≡ none)
    × (client_import (s.sent ++ (2 ∷ [])) ≡ ok (none, 2 ∷ []))
import_unknown_example =
    import_unknown (mouse ∷ []) (codes "1-2") (1 ∷ []) (2 ∷ []) (omega arith)
      (omega arith, (omega arith, (omega arith, tt))) (other_busid, tt)

mouse_tuples : emit_iface_list mouse ≡ 3 ∷ 1 ∷ 2 ∷ 0 ∷ []
unfolding emit_iface_list iface_tuples
mouse_tuples = refl

mouse-IsListed : IsListed mouse
mouse-IsListed = rw (mouse_tuples, parse-pack mouse mouse-IsDevice) refl

devlist_complete_example :
    (s : Shaken) × (handshake (mouse ∷ []) (devlist_request ++ (1 ∷ [])) ≡ ok (s, 1 ∷ []))
    × (s.imported ≡ none)
    × (client_devlist 8 (s.sent ++ (2 ∷ [])) ≡ ok (some (take 8 (map entry (mouse ∷ []))), 2 ∷ []))
devlist_complete_example =
    devlist_complete (mouse ∷ []) 8 (1 ∷ []) (2 ∷ []) (omega arith) (mouse-IsListed, tt)

idle-IsListener : IsListener idle_listener
idle-IsListener = record { capacity = omega arith; stopped = λ e. refl; addresses = tt }

serve_start-IsListener_example : IsListener (serve_start true idle_listener 100 []).1
serve_start-IsListener_example =
    serve_start-IsListener true idle_listener 100 [] idle-IsListener (omega arith)

-- three plugged devices
abbrev three : Listener
three = record {
  running = true;
  devs =
      record { dev = 100; busid = codes "1-1"; devnum = 2 }
      ∷ record { dev = 101; busid = codes "1-2"; devnum = 3 }
      ∷ record { dev = 102; busid = codes "1-3"; devnum = 4 }
      ∷ [];
  next_devnum = 5;
}

three-IsListener : IsListener three
three-IsListener = record {
  capacity = omega arith;
  stopped = λ e. absurd (cc);
  addresses = (
    omega arith,
    (omega arith, (omega arith, tt)),
    (omega arith, (omega arith, tt), (omega arith, tt, tt)),
  );
}

serve_stop-IsListener_example : IsListener (serve_stop true three 101)
serve_stop-IsListener_example = serve_stop-IsListener true three 101 three-IsListener

busid_reused_example :
    let (answer, after) = serve_start true (serve_stop true three 100) 103 [] in
    (answer ≡ success)
    × (after.devs
        ≡ record { dev = 101; busid = codes "1-2"; devnum = 3 }
          ∷ record { dev = 102; busid = codes "1-3"; devnum = 4 }
          ∷ record { dev = 103; busid = codes "1-3"; devnum = 5 }
          ∷ [])
busid_reused_example =
    busid_reused three (record { dev = 100; busid = codes "1-1"; devnum = 2 })
      (record { dev = 102; busid = codes "1-3"; devnum = 4 })
      (record { dev = 101; busid = codes "1-2"; devnum = 3 } ∷ []) 103 refl refl refl (omega arith)
