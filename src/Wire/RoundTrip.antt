-- ===== src/Wire/RoundTrip.antt =====
-- What the exporter reads with usbip_read_cmd is what the importer wrote (src/usbip.c).
use usbip_c.Base.{ℕ, ◌^◌, ◌<◌, ◌≡◌, refl, ◌∙◌, List, ◌++◌}
use usbip_c.Base.{Option, none, some, false, length, arith}
use usbip_c.Base.{append_assoc, take-all, lt→ltb, le→ltb, ◌==◌, ◌&&◌, ◌≤◌}
use usbip_c.Wire.Header.{put_basic_hdr}
use usbip_c.Wire.Header.{usb_out, usb_in}
use usbip_c.Wire.Stream.{ok, fault, ◌>>=◌}
use usbip_c.Wire.Command
use usbip_c.Wire.Command.{Urb}
use usbip_c.Wire.HeaderLaws.{
  IsU32, setup_bytes, submit_hdr, submitted, read_submitted, read_iso-skip,
}
use usbip_c.Wire.HeaderLaws.{read_payload-append, read_payload-skip}

-- The header of usbip_client_submit, with the payload behind it.
client_submit_lem :
    (seq devid dir ep interval len : ℕ) (setup : Option (List ℕ)) (buf : List ℕ)
    → Command.client_submit seq devid dir ep setup interval buf len
      ≡ submit_hdr seq devid dir ep interval 0 len setup ++ Command.client_payload dir len buf
unfolding Command.client_submit put_basic_hdr Command.put_setup
client_submit_lem seq devid dir ep interval len none buf = refl
client_submit_lem seq devid dir ep interval len (some s) buf = refl

-- An OUT submission comes through whole: the exporter reads the fields, the setup packet and the
-- payload that usbip_client_submit was given, and stops where the next command starts.
pub submit_out :
    (eps : Command.EpMap) (urb0 : Urb) (seq devid ep interval len : ℕ) (setup : Option (List ℕ))
    (buf rest : List ℕ)
    → IsU32 seq
    → IsU32 devid
    → IsU32 ep
    → IsU32 interval
    → 0 < len
    → len < 2 ^ 31
    → length buf ≡ len
    → length (setup_bytes setup) ≡ 8
    → Command.read_cmd eps urb0
        (Command.client_submit seq devid usb_out ep setup interval buf len ++ rest)
      ≡ ok (
        record (submitted urb0 seq devid usb_out ep interval 0 len setup) {
          data_bytes = some buf;
          data_len = len;
        },
        rest,
      )
submit_out eps urb0 seq devid ep interval len setup buf rest hs hv he hi pos hl e h =
    rw (client_submit_lem, append_assoc, payload)
      (read_submitted urb0 seq devid usb_out ep interval 0 len hs hv (omega arith) he hi
          (omega arith) (omega arith) eps setup (buf ++ rest) h
        ∙ rw (read_payload-append u buf rest refl e pos hl, ◌>>=◌)
            (read_iso-skip eps _ rest (omega arith) refl))
  where
    u : Urb
    u = submitted urb0 seq devid usb_out ep interval 0 len setup

    payload : Command.client_payload usb_out len buf ≡ buf
    payload =
        unfold Command.client_payload in
        rw (lt→ltb 0 len pos, lt→ltb len (2 ^ 31) hl) (take-all len buf (omega arith))

-- An IN submission comes through: the exporter reads the fields and the setup packet, no payload.
pub submit_in :
    (eps : Command.EpMap) (urb0 : Urb) (seq devid ep interval len : ℕ) (setup : Option (List ℕ))
    (buf rest : List ℕ)
    → IsU32 seq
    → IsU32 devid
    → IsU32 ep
    → IsU32 interval
    → len < 2 ^ 31
    → length (setup_bytes setup) ≡ 8
    → Command.read_cmd eps urb0
        (Command.client_submit seq devid usb_in ep setup interval buf len ++ rest)
      ≡ ok (submitted urb0 seq devid usb_in ep interval 0 len setup, rest)
submit_in eps urb0 seq devid ep interval len setup buf rest hs hv he hi hl h =
    rw (client_submit_lem, append_assoc, nothing)
      (read_submitted urb0 seq devid usb_in ep interval 0 len hs hv (omega arith) he hi
          (omega arith) (omega arith) eps setup rest h
        ∙ rw (read_payload-skip u rest refl, ◌>>=◌) (read_iso-skip eps u rest (omega arith) refl))
  where
    u : Urb
    u = submitted urb0 seq devid usb_in ep interval 0 len setup

    nothing : Command.client_payload usb_in len buf ++ rest ≡ rest
    nothing = unfold Command.client_payload in refl

is_iso-fault :
    (eps : Command.EpMap) (u : Urb) → u.ep < 16 → 2 ≤ u.direction → Command.is_iso eps u ≡ fault
unfolding Command.is_iso
is_iso-fault eps u he hd = rw (lt→ltb u.ep 16 he, le→ltb u.direction 2 hd)

-- A CMD_SUBMIT whose direction word is neither IN nor OUT, for an endpoint number below 16, makes
-- the exporter index its endpoint map outside: the direction comes from the wire unchecked.
pub direction_fault :
    (eps : Command.EpMap) (urb0 : Urb) (seq devid dir ep interval np len : ℕ)
    (setup : Option (List ℕ)) (rest : List ℕ)
    → IsU32 seq
    → IsU32 devid
    → IsU32 dir
    → 2 ≤ dir
    → ep < 16
    → IsU32 interval
    → IsU32 np
    → IsU32 len
    → length (setup_bytes setup) ≡ 8
    → Command.read_cmd eps urb0 (submit_hdr seq devid dir ep interval np len setup ++ rest) ≡ fault
direction_fault eps urb0 seq devid dir ep interval np len setup rest hs hv hd bad he hi hn hl h =
    read_submitted urb0 seq devid dir ep interval np len hs hv hd (omega arith) hi hn hl eps setup
      rest h
    ∙ rw (read_payload-skip u rest skip, ◌>>=◌) outside
  where
    u : Urb
    u = submitted urb0 seq devid dir ep interval np len setup

    skip : ((dir == usb_out) && Command.positive32 len) ≡ false
    skip = ground arith

    outside : Command.read_iso eps u rest ≡ fault
    outside = unfold Command.read_iso in rw (is_iso-fault eps u he bad, Command.read_iso)
