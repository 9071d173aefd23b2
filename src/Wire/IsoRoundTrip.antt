-- ===== src/Wire/IsoRoundTrip.antt =====
-- What the exporter reads with usbip_read_cmd is what the importer wrote,
-- isochronous transfers (src/usbip.c).
use usbip_c.Base.{ℕ, suc, ◌*◌, ◌^◌, ◌<◌, ◌≡◌, refl, ap, ap₂, sym, ◌∙◌, List, [], ◌∷◌, ◌++◌}
use usbip_c.Base.{none, some, true, length, arith, take, drop, All}
use usbip_c.Base.{append_assoc, map, lt→ltb, ◌==◌, if◌then◌else◌}
use usbip_c.Wire.Header.{put_basic_hdr, IsoPkt, iso_desc_pack, iso_desc_parse, iso_descs_pack}
use usbip_c.Wire.Header.{usb_out, usb_in, usb_iso}
use usbip_c.Wire.Stream.{ok, readn-append, ◌>>=◌}
use usbip_c.Wire.Command
use usbip_c.Wire.Command.{Urb}
use usbip_c.Wire.HeaderLaws.{IsU32, submit_hdr, submitted, read_submitted}
use usbip_c.Wire.HeaderLaws.{read_payload-append, read_payload-skip, iso_desc_parse-pack}

-- the four fields of a descriptor are 32-bit
abbrev pub IsIsoPkt : IsoPkt → Type 0
IsIsoPkt p = IsU32 p.offset × IsU32 p.length × IsU32 p.actual_length × IsU32 p.status

parse_descs-pack :
    (ps : List IsoPkt) → All IsIsoPkt ps → Command.parse_descs (length ps) (iso_descs_pack ps) ≡ ps
unfolding Command.parse_descs iso_descs_pack
parse_descs-pack [] h = refl
parse_descs-pack (p ∷ ps) h =
    ap₂ ◌∷◌ (front p (iso_descs_pack ps) h.0) (
      ap (Command.parse_descs (length ps)) (behind p (iso_descs_pack ps)) ∙ parse_descs-pack ps h.1)
  where
    cut : (p : IsoPkt) (rest : List ℕ) → take 16 (iso_desc_pack p ++ rest) ≡ iso_desc_pack p
    cut p rest = unfold iso_desc_pack in refl

    front :
        (p : IsoPkt) (rest : List ℕ)
        → IsIsoPkt p
        → iso_desc_parse (take 16 (iso_desc_pack p ++ rest)) ≡ p
    front p rest (a, b, c, d) = ap iso_desc_parse (cut p rest) ∙ iso_desc_parse-pack p a b c d

    behind : (p : IsoPkt) (rest : List ℕ) → drop 16 (iso_desc_pack p ++ rest) ≡ rest
    behind p rest = unfold iso_desc_pack in refl

length-iso_descs_pack : (ps : List IsoPkt) → length (iso_descs_pack ps) ≡ length ps * 16
unfolding iso_descs_pack iso_desc_pack
length-iso_descs_pack [] = refl
length-iso_descs_pack (p ∷ ps) = omega (arith, length-iso_descs_pack ps)

-- The endpoint is isochronous: descriptors follow.
is_iso-yes :
    (eps : Command.EpMap) (u : Urb)
    → u.ep < 16
    → u.direction < 2
    → eps u.ep u.direction ≡ some usb_iso
    → Command.is_iso eps u ≡ ok true
unfolding Command.is_iso
is_iso-yes eps u he hd look = rw (lt→ltb u.ep 16 he, lt→ltb u.direction 2 hd, look)

-- Reading the descriptors of an isochronous transfer that has some.
read_iso-append :
    (eps : Command.EpMap) (u : Urb) (ps : List IsoPkt) (rest : List ℕ)
    → u.ep < 16
    → u.direction < 2
    → eps u.ep u.direction ≡ some usb_iso
    → u.number_of_packets ≡ length ps
    → 0 < length ps
    → length ps < 2 ^ 31
    → All IsIsoPkt ps
    → Command.read_iso eps u (iso_descs_pack ps ++ rest) ≡ ok (record u { iso = ps }, rest)
unfolding Command.read_iso Command.read_descs
read_iso-append eps u ps rest he hd look n pos small w =
    rw (is_iso-yes eps u he hd look, Command.read_iso)
      (rw (n, lt→ltb 0 (length ps) pos, lt→ltb (length ps) (2 ^ 31) small)
        (rw
          (readn-append (length ps * 16) (iso_descs_pack ps) rest (length-iso_descs_pack ps), ◌>>=◌)
          (rw (parse_descs-pack ps w))))

client_submit_iso_lem :
    (seq devid dir ep interval : ℕ) (buf : List ℕ) (pkts : List IsoPkt)
    → Command.client_submit_iso seq devid dir ep interval buf pkts
      ≡ submit_hdr seq devid dir ep interval (length pkts) (Command.total_length pkts) none
        ++ ((if dir == usb_out then Command.gather_out pkts buf else [])
            ++ iso_descs_pack (map Command.as_request pkts))
unfolding Command.client_submit_iso put_basic_hdr Command.put_setup
client_submit_iso_lem seq devid dir ep interval buf pkts = refl

as_request-IsIsoPkt :
    (ps : List IsoPkt) → All IsIsoPkt ps → All IsIsoPkt (map Command.as_request ps)
as_request-IsIsoPkt [] h = h
as_request-IsIsoPkt (p ∷ ps) (h, hs) =
    ((h.0, h.1, omega arith, omega arith), as_request-IsIsoPkt ps hs)

length-as_request : (ps : List IsoPkt) → length (map Command.as_request ps) ≡ length ps
length-as_request [] = refl
length-as_request (p ∷ ps) = ap suc (length-as_request ps)

module _ (eps : Command.EpMap) (urb0 : Urb) (seq devid ep interval : ℕ) (pkts : List IsoPkt)
    (buf rest : List ℕ) (hs : IsU32 seq) (hv : IsU32 devid) (he : ep < 16) (hi : IsU32 interval)
    (pos : 0 < length pkts) (small : length pkts < 2 ^ 31) (w : All IsIsoPkt pkts)
    (total : Command.total_length pkts < 2 ^ 31) where
  abbrev iso_urb : ℕ → Urb
  iso_urb dir =
      submitted urb0 seq devid dir ep interval (length pkts) (Command.total_length pkts) none

  iso_head :
      (dir : ℕ) (tail : List ℕ)
      → dir < 2
      → Command.read_cmd eps urb0 (
          submit_hdr seq devid dir ep interval (length pkts) (Command.total_length pkts) none
          ++ tail)
        ≡ (Command.read_payload (iso_urb dir) >>= Command.read_iso eps) tail
  iso_head dir tail hd =
      read_submitted urb0 seq devid dir ep interval (length pkts) (Command.total_length pkts) hs hv
        (omega arith) (omega arith) hi (omega arith) (omega arith) eps none tail refl

  iso_tail :
      (u : Urb)
      → u.ep ≡ ep
      → u.direction < 2
      → eps u.ep u.direction ≡ some usb_iso
      → u.number_of_packets ≡ length pkts
      → Command.read_iso eps u (iso_descs_pack (map Command.as_request pkts) ++ rest)
        ≡ ok (record u { iso = map Command.as_request pkts }, rest)
  iso_tail u e d look n =
      read_iso-append eps u (map Command.as_request pkts) rest (omega arith) d look
        (n ∙ sym (length-as_request pkts)) (omega (arith, length-as_request pkts))
        (omega (arith, length-as_request pkts)) (as_request-IsIsoPkt pkts w)

  -- An isochronous IN submission comes through: the exporter reads the fields and the packet
  -- descriptors of usbip_client_submit_iso, actual length and status cleared, and nothing more.
  pub submit_iso_in :
      eps ep usb_in ≡ some usb_iso
      → Command.read_cmd eps urb0
          (Command.client_submit_iso seq devid usb_in ep interval buf pkts ++ rest)
        ≡ ok (record (iso_urb usb_in) { iso = map Command.as_request pkts }, rest)
  submit_iso_in look =
      rw (client_submit_iso_lem, append_assoc)
        (iso_head usb_in (iso_descs_pack (map Command.as_request pkts) ++ rest) (omega arith)
          ∙ rw
              (
                read_payload-skip (iso_urb usb_in)
                    (iso_descs_pack (map Command.as_request pkts) ++ rest) refl,
                ◌>>=◌,
              )
              (iso_tail (iso_urb usb_in) refl (omega arith) look refl))

  -- An isochronous OUT submission comes through: the payload gathered from the packets' slots,
  -- then the descriptors.
  pub submit_iso_out :
      eps ep usb_out ≡ some usb_iso
      → 0 < Command.total_length pkts
      → length (Command.gather_out pkts buf) ≡ Command.total_length pkts
      → Command.read_cmd eps urb0
          (Command.client_submit_iso seq devid usb_out ep interval buf pkts ++ rest)
        ≡ ok (
          record (iso_urb usb_out) {
            iso = map Command.as_request pkts;
            data_bytes = some (Command.gather_out pkts buf);
            data_len = Command.total_length pkts;
          },
          rest,
        )
  submit_iso_out look more slots =
      rw (client_submit_iso_lem, append_assoc, append_assoc)
        (iso_head usb_out
            (Command.gather_out pkts buf ++ (iso_descs_pack (map Command.as_request pkts) ++ rest))
            (omega arith)
          ∙ rw
              (
                read_payload-append (iso_urb usb_out) (Command.gather_out pkts buf)
                    (iso_descs_pack (map Command.as_request pkts) ++ rest) refl slots more total,
                ◌>>=◌,
              )
              (iso_tail
                (record (iso_urb usb_out) {
                  data_bytes = some (Command.gather_out pkts buf);
                  data_len = Command.total_length pkts;
                })
                refl (omega arith) look refl))
