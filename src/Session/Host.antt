-- ===== src/Session/Host.antt =====
-- The transfers of src/usbip_host.c: what each writes to the connection, and what it makes of the
-- reply. The timeout is not used by the code.
use usbip_c.Base.{ℕ, suc, ◌+◌, ◌*◌, ◌%◌, ◌^◌, List, [], ◌∷◌, ◌++◌, Option, none, some}
use usbip_c.Base.{◌==◌, leb, if◌then◌else◌}
use Prim.Native.Nat.{bit_or}
use usbip_c.Base.{◌&&◌}
use usbip_c.Base.Bytes.{le16}
use usbip_c.Server.Record.{DevInfo}
use usbip_c.Wire.Header.{IsoPkt, usb_in, usb_out}
use usbip_c.Wire.Stream.{Reader}
use usbip_c.Wire.Command.{client_submit, client_submit_iso}
use usbip_c.Wire.Reply.{Received, client_receive}

-- `struct usbip_host_handle` without the descriptor
pub record Handle : Type 0 where
  pub devid : ℕ
  pub seq : ℕ

-- A transfer: the handle after it, the bytes that it writes, and how it reads the reply.
pub record Transfer : Type 0 where
  pub handle : Handle
  pub request : List ℕ
  pub receive : Reader Received

-- `++(*seqctr)`, a uint32_t
abbrev pub next_seq : Handle → Handle
next_seq h = record h { seq = suc h.seq % 2 ^ 32 }

abbrev pub dir_of : ℕ → ℕ
dir_of b = if leb 128 b then usb_in else usb_out

-- usbip_client_submit
abbrev pub exchange : Handle → ℕ → ℕ → Option (List ℕ) → ℕ → List ℕ → ℕ → Transfer
exchange h dir ep setup interval buf len =
    let h' = next_seq h in
    record {
      handle = h';
      request = client_submit h'.seq h'.devid dir ep setup interval buf len;
      receive = client_receive dir len;
    }

-- `USB_SETUP_BYTES`
abbrev pub setup_bytes_of : ℕ → ℕ → ℕ → ℕ → ℕ → List ℕ
setup_bytes_of type request value index len =
    ((type % 256) ∷ (request % 256) ∷ []) ++ le16 value ++ le16 index ++ le16 len

unfoldable pub control_transfer : Handle → ℕ → ℕ → ℕ → ℕ → List ℕ → ℕ → Transfer
control_transfer h type request value index buf len =
    exchange h (dir_of type) 0 (some (setup_bytes_of type request value index len)) 0 buf len

unfoldable pub data_transfer : Handle → ℕ → List ℕ → ℕ → ℕ → Transfer
data_transfer h endpoint buf len interval =
    exchange h (dir_of endpoint) (endpoint % 16) none interval buf len

unfoldable pub bulk_transfer : Handle → ℕ → List ℕ → ℕ → Transfer
unfolding data_transfer
bulk_transfer h endpoint buf len = data_transfer h endpoint buf len 0

unfoldable pub interrupt_transfer : Handle → ℕ → List ℕ → ℕ → Transfer
unfolding data_transfer
interrupt_transfer h endpoint buf len = data_transfer h endpoint buf len 1

unfoldable pub set_configuration : Handle → ℕ → Transfer
unfolding control_transfer
set_configuration h config = control_transfer h 0 9 (config % 2 ^ 16) 0 [] 0

unfoldable pub set_interface_alt_setting : Handle → ℕ → ℕ → Transfer
unfolding control_transfer
set_interface_alt_setting h iface alt = control_transfer h 1 11 (alt % 2 ^ 16) (iface % 2 ^ 16) [] 0

unfoldable pub host_clear_halt : Handle → ℕ → Transfer
unfolding control_transfer
host_clear_halt h endpoint = control_transfer h 2 1 0 endpoint [] 0

-- the packets of usbip_host_submit_transfer: each slot starts where the ones before it end
unfoldable pub slots : ℕ → List ℕ → List IsoPkt
slots off [] = []
slots off (n ∷ lens) =
    record { offset = off; length = n; actual_length = 0; status = 0 }
    ∷ slots ((off + n) % 2 ^ 32) lens

unfoldable pub iso_request : Handle → ℕ → List ℕ → List ℕ → List ℕ
unfolding slots
iso_request h endpoint buf lens =
    let h' = next_seq h in
    client_submit_iso h'.seq h'.devid (dir_of endpoint) (endpoint % 16) 0 buf (slots 0 lens)

-- usbip_host_get_device_descriptor
unfoldable pub device_descriptor : DevInfo → List ℕ
device_descriptor info =
    (18 ∷ 1 ∷ [])
    ++ le16 0x0200
    ++ (info.dclass ∷ info.dsub ∷ info.dproto ∷ 64 ∷ [])
    ++ le16 info.vid
    ++ le16 info.pid
    ++ le16 info.bcd_device
    ++ (0 ∷ 0 ∷ 0 ∷ info.n_cfg ∷ [])

-- usbip_host_open, once connected: what usbip_client_import gave, and the new handle
unfoldable pub open_handle : Option DevInfo → Option Handle
open_handle none = none
open_handle (some info) =
    some (record { devid = bit_or (info.busnum * 2 ^ 16 % 2 ^ 32) info.devnum; seq = 0 })

-- usbip_host_open_vid_pid: the device of the list that it opens, the first that matches
unfoldable pub find_vid_pid : ℕ → ℕ → List DevInfo → Option DevInfo
find_vid_pid vid pid [] = none
find_vid_pid vid pid (d ∷ ds) =
    if (d.vid == vid) && (d.pid == pid) then some d else find_vid_pid vid pid ds
