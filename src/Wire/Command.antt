-- ===== src/Wire/Command.antt =====
-- Commands: what the importer's usbip_client_submit and usbip_client_submit_iso of src/usbip.c put
-- on the wire, and the exporter's usbip_read_cmd.
use usbip_c.Base.{
  ℕ, zero, suc, ◌+◌, ◌*◌, ◌%◌, ◌^◌, List, [], ◌∷◌, ◌++◌, Option, none, some, Bool, false,
}
use usbip_c.Base.{◌&&◌, ltb, ◌==◌, if◌then◌else◌, take, drop, put_at, map, length}
use usbip_c.Base.Bytes.{be32, get_be32}
use usbip_c.Wire.Header.{cmd_submit, cmd_unlink, hdr_len, iso_desc_len, usb_out, usb_iso}
use usbip_c.Wire.Header.{put_basic_hdr, IsoPkt, iso_desc_parse, iso_descs_pack}
use usbip_c.Wire.Stream.{Outcome, ok, closed, fault, Reader, ◌>>=◌, return, readn}

-- `struct urb`. A 32-bit field is its bit pattern; `data` and `iso` are `none` and `[]` where the
-- pointer is NULL.
pub record Urb : Type 0 where
  pub command : ℕ
  pub seqnum : ℕ
  pub devid : ℕ
  pub direction : ℕ
  pub ep : ℕ
  pub flags : ℕ
  pub unlink_seqnum : ℕ
  pub length : ℕ
  pub interval : ℕ
  pub number_of_packets : ℕ
  pub iso : List IsoPkt
  pub setup : List ℕ
  pub data_bytes : Option (List ℕ)
  pub data_len : ℕ

-- `x > 0` for an int32_t of bit pattern `x`
abbrev pub positive32 : ℕ → Bool
positive32 x = ltb 0 x && ltb x (2 ^ 31)

-- ---- the importer ----

-- `memcpy(hdr + USBIP_CMD_SETUP_OFF, setup, 8)`, unless `setup` is NULL
unfoldable pub put_setup : Option (List ℕ) → List ℕ → List ℕ
put_setup none hdr = hdr
put_setup (some setup) hdr = put_at 40 setup hdr

-- `if (dir == USB_OUT && len > 0) writen(fd, buf, len)`
unfoldable pub client_payload : ℕ → ℕ → List ℕ → List ℕ
client_payload dir len buf = if (dir == usb_out) && positive32 len then take len buf else []

-- What usbip_client_submit writes.
unfoldable pub client_submit : ℕ → ℕ → ℕ → ℕ → Option (List ℕ) → ℕ → List ℕ → ℕ → List ℕ
unfolding put_setup
client_submit seq devid dir ep setup interval buf len =
    put_setup setup
      (put_at 36 (be32 interval) (put_at 24 (be32 len) (put_basic_hdr cmd_submit seq devid dir ep)))
    ++ client_payload dir len buf

-- `for (i …) if (pkts[i].length) writen(fd, buf + pkts[i].offset, pkts[i].length)`
unfoldable pub gather_out : List IsoPkt → List ℕ → List ℕ
gather_out [] buf = []
gather_out (p ∷ ps) buf = take p.length (drop p.offset buf) ++ gather_out ps buf

-- `total_len`, a uint32_t sum
unfoldable pub total_length : List IsoPkt → ℕ
total_length [] = 0
total_length (p ∷ ps) = (p.length + total_length ps) % 2 ^ 32

-- the request's descriptor: actual length and status not yet known
abbrev pub as_request : IsoPkt → IsoPkt
as_request p = record { offset = p.offset; length = p.length; actual_length = 0; status = 0 }

-- What usbip_client_submit_iso writes: header, OUT data, descriptors.
unfoldable pub client_submit_iso : ℕ → ℕ → ℕ → ℕ → ℕ → List ℕ → List IsoPkt → List ℕ
client_submit_iso seq devid dir ep interval buf pkts =
    put_at 36 (be32 interval) (
      put_at 32 (be32 (length pkts))
        (put_at 24 (be32 (total_length pkts)) (put_basic_hdr cmd_submit seq devid dir ep)))
    ++ ((if dir == usb_out then gather_out pkts buf else [])
        ++ iso_descs_pack (map as_request pkts))

-- ---- the exporter ----

-- `np` descriptors of 16 bytes
unfoldable pub parse_descs : ℕ → List ℕ → List IsoPkt
parse_descs zero raw = []
parse_descs (suc np) raw =
    iso_desc_parse (take iso_desc_len raw) ∷ parse_descs np (drop iso_desc_len raw)

-- `dev->ep_map[ep][direction]`, by the endpoint's transfer type; the array has two columns.
abbrev pub EpMap : Type 0
EpMap = ℕ → ℕ → Option ℕ

-- Whether the isochronous descriptors follow; the direction comes from the wire unchecked.
unfoldable pub is_iso : EpMap → Urb → Outcome Bool
is_iso eps u =
    if ltb u.ep 16
    then if ltb u.direction 2
      then ok (elim (eps u.ep u.direction) [ none ↦ false | some type ↦ type == usb_iso ])
      else fault
    else ok false

unfoldable pub read_payload : Urb → Reader Urb
read_payload u =
    if (u.direction == usb_out) && positive32 u.length
    then (do
      bytes ← readn u.length
      return (record u { data_bytes = some bytes; data_len = u.length }))
    else return u

unfoldable pub read_descs : Urb → Reader Urb
unfolding parse_descs
read_descs u = do
  raw ← readn (u.number_of_packets * iso_desc_len)
  return (record u { iso = parse_descs u.number_of_packets raw })

unfoldable pub read_iso : EpMap → Urb → Reader Urb
unfolding is_iso read_descs
read_iso eps u s = elim (is_iso eps u) [
  | ok follows ↦ (if follows && positive32 u.number_of_packets then read_descs u else return u) s
  | closed ↦ closed
  | fault ↦ fault
]

-- `urb0` is what the stack variable held before.
unfoldable pub parse_basic : List ℕ → Urb → Urb
parse_basic hdr urb0 = record urb0 {
  command = get_be32 hdr 0;
  seqnum = get_be32 hdr 4;
  devid = get_be32 hdr 8;
  direction = get_be32 hdr 12;
  ep = get_be32 hdr 16;
  data_bytes = none;
  data_len = 0;
  number_of_packets = 0;
  iso = [];
}

unfoldable pub parse_submit : List ℕ → Urb → Urb
parse_submit hdr u = record u {
  flags = get_be32 hdr 20;
  length = get_be32 hdr 24;
  number_of_packets = get_be32 hdr 32;
  interval = get_be32 hdr 36;
  setup = take 8 (drop 40 hdr);
}

unfoldable pub read_cmd : EpMap → Urb → Reader Urb
unfolding parse_basic parse_submit read_payload read_iso
read_cmd eps urb0 = do
  hdr ← readn hdr_len
  let u = parse_basic hdr urb0
  if u.command == cmd_submit
      then (do v ← read_payload (parse_submit hdr u); read_iso eps v)
      else if u.command == cmd_unlink
      then return (record u { unlink_seqnum = get_be32 hdr 20 })
      else return u
