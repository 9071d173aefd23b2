-- ===== src/Capture/Tests.antt =====
-- One captured packet (src/pcap.c).
use usbip_c.Base.{ℕ, ◌+◌, ◌%◌, ◌^◌, ◌<◌, ◌≡◌, refl, List, [], ◌∷◌, ◌++◌, none, some, arith, length}
use usbip_c.Capture.Blocks.{Event, usbmon_hdr, pcap_packet, write_idb, write_block, put_opt}
use usbip_c.Capture.Framing.{read_block, packet_of, packet_read}

abbrev arrival : Event
arrival = record {
  devid = 65538;
  seqnum = 7;
  xfer_type = 3;
  kind = 67;
  ep_addr = 0x81;
  status = 0;
  setup = none;
  bytes = 1 ∷ 2 ∷ 3 ∷ [];
  urb_len = 3;
}

hdr_length : length (usbmon_hdr arrival 100 5) ≡ 64
unfolding usbmon_hdr
hdr_length = refl

idb_length : length write_idb ≡ 68
unfolding write_idb write_block put_opt
idb_length = refl

arrival_fits : length (usbmon_hdr arrival 100 5 ++ arrival.bytes) + 64 < 2 ^ 31
unfolding usbmon_hdr
arrival_fits = omega arith

packet_read_example :
    (body : List ℕ) × (read_block (pcap_packet arrival 100 5 ++ (9 ∷ [])) ≡ some (6, body, 9 ∷ []))
    × (packet_of body ≡ usbmon_hdr arrival 100 5 ++ (1 ∷ 2 ∷ 3 ∷ []))
    × (length body % 4 ≡ 0)
packet_read_example = packet_read arrival 100 5 (9 ∷ []) arrival_fits
