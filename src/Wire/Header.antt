-- ===== src/Wire/Header.antt =====
-- Headers of src/usbip.c and src/usbip_device_internal.h as the bytes that they put on the wire.
use usbip_c.Base.{ℕ, List, [], ◌∷◌, ◌++◌, replicate, put_at}
use usbip_c.Base.Bytes.{be32, get_be32}

abbrev pub cmd_submit : ℕ
cmd_submit = 1

abbrev pub cmd_unlink : ℕ
cmd_unlink = 2

abbrev pub ret_submit : ℕ
ret_submit = 3

abbrev pub ret_unlink : ℕ
ret_unlink = 4

abbrev pub hdr_len : ℕ
hdr_len = 48

abbrev pub iso_desc_len : ℕ
iso_desc_len = 16

-- `usb_dir`
abbrev pub usb_out : ℕ
usb_out = 0

abbrev pub usb_in : ℕ
usb_in = 1

-- `USB_ISO`
abbrev pub usb_iso : ℕ
usb_iso = 1

-- 48 zero bytes with the five basic fields
unfoldable pub put_basic_hdr : ℕ → ℕ → ℕ → ℕ → ℕ → List ℕ
put_basic_hdr command seqnum devid direction ep = put_at 16 (be32 ep) (
    put_at 12 (be32 direction) (
      put_at 8 (be32 devid)
        (put_at 4 (be32 seqnum) (put_at 0 (be32 command) (replicate hdr_len 0)))))

-- `struct iso_pkt`
pub record IsoPkt : Type 0 where
  pub offset : ℕ
  pub length : ℕ
  pub actual_length : ℕ
  pub status : ℕ

unfoldable pub iso_desc_pack : IsoPkt → List ℕ
iso_desc_pack p = be32 p.offset ++ (be32 p.length ++ (be32 p.actual_length ++ be32 p.status))

unfoldable pub iso_desc_parse : List ℕ → IsoPkt
iso_desc_parse raw = record {
  offset = get_be32 raw 0;
  length = get_be32 raw 4;
  actual_length = get_be32 raw 8;
  status = get_be32 raw 12;
}

-- The descriptors of a transfer, one after the other.
unfoldable pub iso_descs_pack : List IsoPkt → List ℕ
iso_descs_pack [] = []
iso_descs_pack (p ∷ ps) = iso_desc_pack p ++ iso_descs_pack ps
