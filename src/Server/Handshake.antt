-- ===== src/Server/Handshake.antt =====
-- The import and list handshake of src/usbip.c: `handshake` with its helpers on the exporter's
-- side, usbip_client_import and usbip_client_devlist on the importer's. The results of the
-- exporter's writes are not looked at there, so a reply is the list of its bytes.
use usbip_c.Base.{
  ℕ, zero, suc, ◌+◌, List, [], ◌∷◌, ◌++◌, Bool, true, false, ◌&&◌, Option, none, some,
}
use usbip_c.Base.{leb, ◌==◌, if◌then◌else◌, get_or, take, length}
use usbip_c.Base.Bytes.{be16, be32, get_be16, get_be32}
use usbip_c.Base.Buffers.{cstr, until_nul, put_fields, zeros}
use usbip_c.Wire.Stream.{Reader, ◌>>=◌, return, readn}
use usbip_c.Server.Record.{Device, DevInfo, pack_usbip_device, parse_devinfo}

abbrev pub op_req_import : ℕ
op_req_import = 0x8003

abbrev pub op_rep_import : ℕ
op_rep_import = 0x0003

abbrev pub op_req_devlist : ℕ
op_req_devlist = 0x8005

abbrev pub op_rep_devlist : ℕ
op_rep_devlist = 0x0005

-- `!strcmp(a, b)`
abbrev pub str_eq : List ℕ → List ℕ → Bool
str_eq [] [] = true
str_eq [] (y ∷ ys) = false
str_eq (x ∷ xs) [] = false
str_eq (x ∷ xs) (y ∷ ys) = x == y && str_eq xs ys

-- ---- the exporter ----

-- `write_op_hdr`: version 0x0111, code, status
unfoldable pub op_hdr : ℕ → ℕ → List ℕ
op_hdr code status = be16 0x0111 ++ (be16 code ++ be32 status)

-- The loop of emit_iface_list from `off` on: one tuple for each interface's setting 0. A step goes
-- forward by one at least, so `descr_len` rounds are enough.
unfoldable pub iface_tuples : ℕ → List ℕ → ℕ → ℕ → List ℕ
iface_tuples zero descr len off = []
iface_tuples (suc fuel) descr len off =
    let blen = get_or descr off 0 in
    let rest = iface_tuples fuel descr len (off + (if blen == 0 then 1 else blen)) in
    let tuple =
      get_or descr (off + 5) 0 ∷ get_or descr (off + 6) 0 ∷ get_or descr (off + 7) 0 ∷ 0 ∷ [] in
    if leb (off + 2) len
    then (if get_or descr (off + 1) 0 == 4 && get_or descr (off + 3) 0 == 0
        then tuple ++ rest
        else rest)
    else []

unfoldable pub emit_iface_list : Device → List ℕ
unfolding iface_tuples
emit_iface_list d = iface_tuples (suc d.descr_len) d.descr d.descr_len 0

-- The search through the snapshot, from index `i` on.
unfoldable pub find_busid : List ℕ → List Device → ℕ → Option (ℕ × Device)
find_busid busid [] i = none
find_busid busid (d ∷ ds) i =
    if str_eq busid d.busid then some (i, d) else find_busid busid ds (i + 1)

unfoldable pub list_devices : List Device → List ℕ
list_devices [] = []
list_devices (d ∷ ds) = pack_usbip_device d ++ (emit_iface_list d ++ list_devices ds)

-- what was written, and which device of the snapshot was imported
pub record Shaken : Type 0 where
  pub sent : List ℕ
  pub imported : Option ℕ

unfoldable pub import_reply : Option (ℕ × Device) → Shaken
unfolding op_hdr
import_reply none = record { sent = op_hdr op_rep_import 1; imported = none }
import_reply (some (i, d)) = record {
  sent = op_hdr op_rep_import 0 ++ pack_usbip_device d;
  imported = some i;
}

unfoldable pub devlist_reply : List Device → Shaken
unfolding op_hdr list_devices
devlist_reply devs = record {
  sent = op_hdr op_rep_devlist 0 ++ (be32 (length devs) ++ list_devices devs);
  imported = none;
}

-- `closed` stands for the NULL after a failed read, with nothing sent.
unfoldable pub handshake : List Device → Reader Shaken
unfolding find_busid import_reply devlist_reply
handshake devs = do
  op ← readn 8
  let code = get_be16 op 2
  if code == op_req_import
      then (do
        busid ← readn 32
        return (import_reply (find_busid (until_nul (take 31 busid ++ (0 ∷ []))) devs 0)))
      else if code == op_req_devlist
      then return (devlist_reply devs)
      else return (record { sent = []; imported = none })

-- ---- the importer ----

-- the request of usbip_client_import
unfoldable pub import_request : List ℕ → List ℕ
import_request busid =
    put_fields ((0, be16 0x0111) ∷ (2, be16 op_req_import) ∷ (8, cstr 32 busid) ∷ []) (zeros 40)

-- the request of usbip_client_devlist
unfoldable pub devlist_request : List ℕ
devlist_request = put_fields ((0, be16 0x0111) ∷ (2, be16 op_req_devlist) ∷ []) (zeros 8)

-- `none` is USB_ERROR_NOT_FOUND.
unfoldable pub client_import : Reader (Option DevInfo)
client_import = do
  rep ← readn 8
  if get_be32 rep 4 == 0
      then (do dev ← readn 312; return (some (parse_devinfo dev)))
      else return none

-- The interface tuples of one device; the first 16 are stored.
unfoldable pub read_tuples : ℕ → Reader (List (List ℕ))
read_tuples zero = return []
read_tuples (suc n) = do t ← readn 4; ts ← read_tuples n; return (t ∷ ts)

unfoldable pub read_device : Reader (DevInfo × List (List ℕ))
unfolding read_tuples
read_device = do
  dev ← readn 312
  tuples ← read_tuples (parse_devinfo dev).n_ifaces
  return (parse_devinfo dev, take 16 tuples)

-- `for (i = 0; i < count; i++)`; what is beyond `max` is read and dropped.
unfoldable pub read_devices : ℕ → Reader (List (DevInfo × List (List ℕ)))
unfolding read_device
read_devices zero = return []
read_devices (suc n) = do d ← read_device; ds ← read_devices n; return (d ∷ ds)

-- `none` is USB_ERROR_IO for a status that is not 0; the count is taken below 2 ^ 31.
unfoldable pub client_devlist : ℕ → Reader (Option (List (DevInfo × List (List ℕ))))
unfolding read_devices
client_devlist max = do
  rep ← readn 8
  if get_be32 rep 4 == 0
      then (do cnt ← readn 4; ds ← read_devices (get_be32 cnt 0); return (some (take max ds)))
      else return none
