-- ===== src/Wire/Reply.antt =====
-- Replies: what the exporter's usbip_send_ret, usbip_send_ret_iso and usbip_send_ret_unlink of
-- src/usbip.c write, and how usbip_client_submit and usbip_client_submit_iso read them. The lock
-- that keeps a reply in one piece on the socket is the caller's; malloc() is taken to succeed.
use usbip_c.Base.{ℕ, zero, suc, ◌+◌, ◌-◌, ◌*◌, ◌%◌, ◌^◌, List, [], ◌∷◌, ◌++◌, Bool}
use usbip_c.Base.{◌&&◌, ◌||◌, ltb, leb, ◌==◌, if◌then◌else◌, take, drop, put_at, length}
use usbip_c.Base.Bytes.{be32, get_be32}
use usbip_c.Wire.Header.{ret_submit, ret_unlink, hdr_len, iso_desc_len, usb_in, put_basic_hdr}
use usbip_c.Wire.Header.{IsoPkt, iso_descs_pack}
use usbip_c.Wire.Stream.{Outcome, ok, closed, fault, Reader, ◌>>=◌, return, readn}
use usbip_c.Wire.Command.{Urb, positive32, parse_descs}

-- `USBIP_STATUS_STALL` (-32) and `USB_ERROR_PIPE` (-9) as int32_t bit patterns
abbrev pub status_stall : ℕ
status_stall = 2 ^ 32 - 32

abbrev pub status_pipe : ℕ
status_pipe = 2 ^ 32 - 9

-- ---- the exporter ----

-- The header of usbip_send_ret, then `actual` bytes of data on IN.
unfoldable pub send_ret : ℕ → ℕ → ℕ → ℕ → ℕ → List ℕ → ℕ → List ℕ
send_ret seqnum devid direction ep status bytes actual =
    put_at 24 (be32 actual)
      (put_at 20 (be32 status) (put_basic_hdr ret_submit seqnum devid direction ep))
    ++ (if (direction == usb_in) && positive32 actual then take actual bytes else [])

-- `total += urb->iso[i].actual_length`, a uint32_t
unfoldable pub total_actual : List IsoPkt → ℕ
total_actual [] = 0
total_actual (p ∷ ps) = (p.actual_length + total_actual ps) % 2 ^ 32

unfoldable pub send_ret_iso : Urb → List ℕ → List ℕ
send_ret_iso u bytes =
    put_at 32 (be32 u.number_of_packets) (
      put_at 24 (be32 (total_actual u.iso))
        (put_at 20 (be32 0) (put_basic_hdr ret_submit u.seqnum u.devid u.direction u.ep)))
    ++ ((if (u.direction == usb_in) && ltb 0 (total_actual u.iso)
          then take (total_actual u.iso) bytes
          else [])
        ++ iso_descs_pack u.iso)

unfoldable pub send_ret_unlink : ℕ → ℕ → List ℕ
send_ret_unlink seqnum status = put_at 20 (be32 status) (put_basic_hdr ret_unlink seqnum 0 0 0)

-- ---- the importer ----

-- `USB_SUCCESS`, `USB_ERROR_PIPE`, `USB_ERROR_IO`
pub data Code : Type 0 where
  success error_pipe error_io : Code

unfoldable pub client_status_error : ℕ → Code
client_status_error status =
    if (status == status_stall) || (status == status_pipe) then error_pipe else error_io

unfoldable pub client_code : ℕ → Code
unfolding client_status_error
client_code status = if status == 0 then success else client_status_error status

-- `while (rest > 0)`: read what the caller's buffer has no room for, 256 bytes at a time.
unfoldable pub drain : ℕ → ℕ → Reader (Unit {0})
drain zero rest s = ok (tt, s)
drain (suc fuel) rest s =
    let chunk = if ltb rest 256 then rest else 256 in
    let round : Outcome (Unit {0} × List ℕ) = elim (readn chunk s) [
      | ok (bytes, s') ↦ drain fuel (rest - chunk) s'
      | closed ↦ closed
      | fault ↦ fault
    ] in
    if ltb 0 rest then round else ok (tt, s)

-- what usbip_client_submit hands back: its result, `*actual`, and the bytes stored in `buf`
pub record Received : Type 0 where
  pub code : Code
  pub actual : ℕ
  pub bytes : List ℕ

-- `if (dir == USB_IN && act > 0)`
unfoldable pub receive_data : ℕ → ℕ → ℕ → Reader (ℕ × List ℕ)
unfolding drain
receive_data dir len act =
    if (dir == usb_in) && positive32 act
    then (let into = if ltb act len then act else len in
        do bytes ← readn into; t ← drain (act - into) (act - into); return (into, bytes))
    else return (act, [])

-- The second half of usbip_client_submit, from `readn(fd, ret, USBIP_HDR_LEN)` on, for `len >= 0`.
unfoldable pub client_receive : ℕ → ℕ → Reader Received
unfolding receive_data client_code
client_receive dir len = do
  ret ← readn hdr_len
  (act, bytes) ← receive_data dir len (get_be32 ret 24)
  return (record { code = client_code (get_be32 ret 20); actual = act; bytes = bytes })

-- The loop that files the packets: descriptor i goes to slot i, and its data, taken from `tmp` at
-- `cum`, to `buf` at its offset. A memcpy outside `buf` or `tmp` is a fault.
unfoldable pub scatter : Bool → List IsoPkt → List ℕ → ℕ → List ℕ → Outcome (List ℕ)
scatter has_tmp [] tmp cum buf = ok buf
scatter has_tmp (p ∷ ps) tmp cum buf =
    let copied : Outcome (List ℕ) =
      (if leb (p.offset + p.actual_length) (length buf) && leb (cum + p.actual_length) (length tmp)
        then scatter has_tmp ps tmp ((cum + p.actual_length) % 2 ^ 32)
            (put_at p.offset (take p.actual_length (drop cum tmp)) buf)
        else fault) in
    let skipped = scatter has_tmp ps tmp cum buf in
    if has_tmp && ltb 0 p.actual_length then copied else skipped

-- what usbip_client_submit_iso leaves: `pkts`, `buf`, `*total_actual`
pub record IsoReceived : Type 0 where
  pub code : Code
  pub actual : ℕ
  pub pkts : List IsoPkt
  pub buf : List ℕ

-- Slots beyond the reply's packets keep what they held.
unfoldable pub file_pkts : List IsoPkt → List IsoPkt → List IsoPkt
file_pkts [] pkts = pkts
file_pkts (d ∷ ds) [] = []
file_pkts (d ∷ ds) (p ∷ pkts) = d ∷ file_pkts ds pkts

-- `readn` of `n` bytes where the condition holds
abbrev pub readn_if : Bool → ℕ → Reader (List ℕ)
readn_if wanted n = if wanted then readn n else return []

-- The second half of usbip_client_submit_iso, from `readn(fd, ret, USBIP_HDR_LEN)` on.
unfoldable pub client_receive_iso : ℕ → List IsoPkt → List ℕ → Reader IsoReceived
unfolding scatter file_pkts client_code parse_descs
client_receive_iso dir pkts buf = do
  ret ← readn hdr_len
  let actual = get_be32 ret 24
  let rnp = get_be32 ret 32
  let has_tmp = (dir == usb_in) && ltb 0 actual
  tmp ← readn_if has_tmp actual
  rd ← readn_if (positive32 rnp) (rnp * iso_desc_len)
  let descs = if positive32 rnp then take (length pkts) (parse_descs rnp rd) else []
  λ s. elim (scatter has_tmp descs tmp 0 buf) [
    | ok buf' ↦ ok (
      record {
        code = client_code (get_be32 ret 20);
        actual = actual;
        pkts = file_pkts descs pkts;
        buf = buf';
      },
      s,
    )
    | closed ↦ closed
    | fault ↦ fault
  ]
