-- ===== src/Capture/Blocks.antt =====
-- What src/pcap.c writes to the capture file, as bytes in order. The clock is an argument; the file
-- and its lock are left out.
use usbip_c.Base.{
  ℕ, ◌+◌, ◌-◌, ◌*◌, ◌/◌, ◌%◌, ◌^◌, List, [], ◌∷◌, ◌++◌, Option, none, some, ltb, if◌then◌else◌,
  length,
}
use usbip_c.Base.Bytes.{le16, le32}
use usbip_c.Base.Buffers.{codes, zeros}

-- write_block
unfoldable pub write_block : ℕ → List ℕ → List ℕ
write_block btype body =
    le32 btype ++ (le32 (length body + 12) ++ (body ++ le32 (length body + 12)))

-- `(-len) & 3`
abbrev pub pad_of : ℕ → ℕ
pad_of len = (4 - len % 4) % 4

-- put_opt, as the bytes that it appends
unfoldable pub put_opt : ℕ → List ℕ → List ℕ
put_opt code val = le16 code ++ (le16 (length val) ++ (val ++ zeros (pad_of (length val))))

-- write_idb
unfoldable pub write_idb : List ℕ
unfolding write_block put_opt
write_idb = write_block 1 (
    le16 220
    ++ (le16 0
        ++ (le32 0
            ++ (put_opt 2 (codes "usbmon")
                ++ (put_opt 3 (codes "Virtual USB (USB/IP)")
                    ++ (put_opt 9 (6 ∷ []) ++ (le16 0 ++ le16 0)))))))

-- the body of an Enhanced Packet Block
abbrev pub epb_body : List ℕ → ℕ → List ℕ
epb_body bytes ts_usec =
    le32 0
    ++ (le32 (ts_usec / 2 ^ 32)
        ++ (le32 ts_usec
            ++ (le32 (length bytes)
                ++ (le32 (length bytes) ++ (bytes ++ zeros (pad_of (length bytes)))))))

-- write_epb
unfoldable pub write_epb : List ℕ → ℕ → List ℕ
unfolding write_block
write_epb bytes ts_usec = write_block 6 (epb_body bytes ts_usec)

-- the arguments of usbip_pcap_packet; `bytes` is the payload, [] for none
pub record Event : Type 0 where
  pub devid : ℕ
  pub seqnum : ℕ
  pub xfer_type : ℕ
  pub kind : ℕ
  pub ep_addr : ℕ
  pub status : ℕ
  pub setup : Option (List ℕ)
  pub bytes : List ℕ
  pub urb_len : ℕ

-- the setup packet, or zeros, and the flag that says which
abbrev pub setup_field : Option (List ℕ) → List ℕ
setup_field none = zeros 8
setup_field (some s) = s

abbrev pub setup_flag : Option (List ℕ) → ℕ
setup_flag none = 0x2d
setup_flag (some s) = 0

-- the usbmon header
unfoldable pub usbmon_hdr : Event → ℕ → ℕ → List ℕ
usbmon_hdr e sec usec =
    le32 e.seqnum
    ++ (zeros 4
        ++ (e.kind
            ∷ (e.xfer_type % 256)
            ∷ (e.ep_addr % 256)
            ∷ (e.devid % 256)
            ∷ (le16 (e.devid / 2 ^ 16)
                ++ (setup_flag e.setup
                    ∷ (if ltb 0 (length e.bytes) then 0 else 0x2d)
                    ∷ (le32 sec
                        ++ (le32 (sec / 2 ^ 32)
                            ++ (le32 usec
                                ++ (le32 e.status
                                    ++ (le32 e.urb_len
                                        ++ (le32 (length e.bytes)
                                            ++ (setup_field e.setup ++ zeros 16)))))))))))

-- usbip_pcap_packet, from the time of the clock in seconds and microseconds
unfoldable pub pcap_packet : Event → ℕ → ℕ → List ℕ
unfolding usbmon_hdr write_epb
pcap_packet e sec usec = write_epb (usbmon_hdr e sec usec ++ e.bytes) (sec * 1000000 + usec)
