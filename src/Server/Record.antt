-- ===== src/Server/Record.antt =====
-- The 312-byte `usbip_usb_device` record: pack_usbip_device of src/usbip_device.c and parse_devinfo
-- of src/usbip.c. A C string is the list of its bytes before the NUL.
use usbip_c.Base.{ℕ, ◌%◌, List, [], ◌∷◌, ◌++◌, leb, ◌==◌, if◌then◌else◌, get_or, take, drop}
use usbip_c.Base.Bytes.{be16, be32, get_be16, get_be32}
use usbip_c.Base.Buffers.{codes, cstr, until_nul, put_fields, zeros}

-- What the wire says of a `struct usbip_device`; `descr` is the whole array, in use up to
-- `descr_len`.
pub record Device : Type 0 where
  pub vid : ℕ
  pub pid : ℕ
  pub bcd_device : ℕ
  pub speed : ℕ
  pub dev_class : ℕ
  pub dev_sub : ℕ
  pub dev_proto : ℕ
  pub n_ifnums : ℕ
  pub descr : List ℕ
  pub descr_len : ℕ
  pub busid : List ℕ
  pub busnum : ℕ
  pub devnum : ℕ

-- "1-1"
abbrev pub lone_busid : List ℕ
lone_busid = codes "1-1"

-- `busid[0] ? busid : "1-1"`
abbrev pub busid_of : List ℕ → List ℕ
busid_of [] = lone_busid
busid_of (c ∷ s) = c ∷ s

-- usb_speed LOW/FULL/HIGH/SUPER to the kernel's numbers; anything else counts as FULL
unfoldable pub wire_speed : ℕ → ℕ
wire_speed speed = get_or (1 ∷ 2 ∷ 3 ∷ 5 ∷ []) (if leb speed 3 then speed else 1) 0

-- `x ? x : default`
abbrev pub or_else : ℕ → ℕ → ℕ
or_else x default = if x == 0 then default else x

abbrev pub device_path : List ℕ → List ℕ
device_path busid = codes "/sys/devices/platform/vhci_hcd.0/usb1/" ++ busid

-- the stores behind the two strings
abbrev pub record_fields : Device → List (ℕ × List ℕ)
record_fields d =
    (288, be32 (or_else d.busnum 1))
    ∷ (292, be32 (or_else d.devnum 2))
    ∷ (296, be32 (wire_speed d.speed))
    ∷ (300, be16 d.vid)
    ∷ (302, be16 d.pid)
    ∷ (304, be16 d.bcd_device)
    ∷ (306, d.dev_class ∷ [])
    ∷ (307, d.dev_sub ∷ [])
    ∷ (308, d.dev_proto ∷ [])
    ∷ (309, 1 ∷ [])
    ∷ (310, 1 ∷ [])
    ∷ (311, (d.n_ifnums % 256) ∷ [])
    ∷ []

abbrev pub record_strings : Device → List (ℕ × List ℕ)
record_strings d =
    (0, cstr 256 (device_path (busid_of d.busid))) ∷ (256, cstr 32 (busid_of d.busid)) ∷ []

unfoldable pub pack_usbip_device : Device → List ℕ
pack_usbip_device d = put_fields (record_fields d) (put_fields (record_strings d) (zeros 312))

-- `struct usbip_devinfo` without the interface table
pub record DevInfo : Type 0 where
  pub busid : List ℕ
  pub busnum : ℕ
  pub devnum : ℕ
  pub speed : ℕ
  pub vid : ℕ
  pub pid : ℕ
  pub bcd_device : ℕ
  pub dclass : ℕ
  pub dsub : ℕ
  pub dproto : ℕ
  pub n_cfg : ℕ
  pub n_ifaces : ℕ

-- 31 bytes are copied to a zeroed array of 32.
unfoldable pub parse_devinfo : List ℕ → DevInfo
parse_devinfo dev = record {
  busid = until_nul (take 31 (drop 256 dev) ++ (0 ∷ []));
  busnum = get_be32 dev 288;
  devnum = get_be32 dev 292;
  speed = get_be32 dev 296;
  vid = get_be16 dev 300;
  pid = get_be16 dev 302;
  bcd_device = get_be16 dev 304;
  dclass = get_or dev 306 0;
  dsub = get_or dev 307 0;
  dproto = get_or dev 308 0;
  n_cfg = get_or dev 310 0;
  n_ifaces = get_or dev 311 0;
}
