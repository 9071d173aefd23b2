-- ===== src/Capture/Framing.antt =====
-- A reader of pcapng blocks takes a capture of src/pcap.c apart again.
use usbip_c.Base.{
  ℕ, ◌+◌, ◌-◌, ◌*◌, ◌%◌, ◌^◌, ◌<◌, ◌≡◌, ap, ◌∙◌, List, ◌++◌, Option, none, some, true, ◌==◌,
  if◌then◌else◌, length, take, drop, arith, length-append, append_assoc, take-length_append,
  drop-length_append, ==_refl,
}
use usbip_c.Base.Bytes.{le32, get_le32}
use usbip_c.Base.Buffers.{zeros, length-zeros}
use usbip_c.Capture.Blocks.{
  Event, write_block, epb_body, write_epb, pad_of, usbmon_hdr, pcap_packet,
}

-- the block after its type and its total length, `n` bytes of body
abbrev pub cut : ℕ → ℕ → ℕ → List ℕ → Option (ℕ × List ℕ × List ℕ)
cut btype total n s =
    if get_le32 (drop n s) 0 == total then some (btype, take n s, drop 4 (drop n s)) else none

-- A reader by the format: the type, the total length, the body, and the total length again.
abbrev pub read_block : List ℕ → Option (ℕ × List ℕ × List ℕ)
read_block s = cut (get_le32 s 0) (get_le32 s 4) (get_le32 s 4 - 12) (drop 8 s)

-- the packet of an Enhanced Packet Block, by its captured length
abbrev pub packet_of : List ℕ → List ℕ
packet_of body = take (get_le32 body 12) (drop 20 body)

from_le32 : (v : ℕ) → v < 2 ^ 32 → get_le32 (le32 v) 0 ≡ v
from_le32 v h = omega arith

cut-append :
    (btype total : ℕ) (body rest : List ℕ)
    → total < 2 ^ 32
    → cut btype total (length body) (body ++ (le32 total ++ rest)) ≡ some (btype, body, rest)
cut-append btype total body rest h =
    rw (drop-length_append body (le32 total ++ rest), take-length_append body (le32 total ++ rest))
      (ap (λ b. if b then some (btype, body, rest) else none) {y = true} same)
  where
    same : (get_le32 (le32 total) 0 == total) ≡ true
    same = ap (λ v. v == total) (from_le32 total h) ∙ ==_refl total

read_block-write_block :
    (btype : ℕ) (body rest : List ℕ)
    → btype < 2 ^ 32
    → length body + 12 < 2 ^ 32
    → read_block (write_block btype body ++ rest) ≡ some (btype, body, rest)
unfolding write_block
read_block-write_block btype body rest hb hl =
    ap
      (λ t.
        cut t (get_le32 (le32 (length body + 12)) 0) (get_le32 (le32 (length body + 12)) 0 - 12)
          (behind ++ rest))
      (from_le32 btype hb)
    ∙ ap (λ n. cut btype n (n - 12) (behind ++ rest)) (from_le32 (length body + 12) hl)
    ∙ ap (λ n. cut btype (length body + 12) n (behind ++ rest)) {x = length body + 12 - 12}
        (omega arith)
    ∙ ap (cut btype (length body + 12) (length body))
        (append_assoc body (le32 (length body + 12)) rest)
    ∙ cut-append btype (length body + 12) body rest hl
  where
    behind : List ℕ
    behind = body ++ le32 (length body + 12)

packet_of-epb_body :
    (bytes : List ℕ) (ts_usec : ℕ)
    → length bytes < 2 ^ 32
    → packet_of (epb_body bytes ts_usec) ≡ bytes
packet_of-epb_body bytes ts_usec h =
    ap (λ n. take n (bytes ++ zeros (pad_of (length bytes)))) (from_le32 (length bytes) h)
    ∙ take-length_append bytes (zeros (pad_of (length bytes)))

pad_lem : (n : ℕ) → (n + pad_of n) % 4 ≡ 0
pad_lem n = omega arith

-- A reader of pcapng blocks finds a packet that was captured, in front of whatever follows: one
-- Enhanced Packet Block, a multiple of 4 bytes long, whose packet is the usbmon header and the
-- payload. The packet with its header is below 2 ^ 31 - 64 bytes.
pub packet_read :
    (e : Event) (sec usec : ℕ) (rest : List ℕ)
    → length (usbmon_hdr e sec usec ++ e.bytes) + 64 < 2 ^ 31
    → (body : List ℕ) × (read_block (pcap_packet e sec usec ++ rest) ≡ some (6, body, rest))
      × (packet_of body ≡ usbmon_hdr e sec usec ++ e.bytes)
      × (length body % 4 ≡ 0)
packet_read e sec usec rest h = (
  epb_body packet (sec * 1000000 + usec),
  unfold pcap_packet write_epb in
      read_block-write_block 6 (epb_body packet (sec * 1000000 + usec)) rest (omega arith)
        (omega (arith, body_length, pad_of_small)),
  packet_of-epb_body packet (sec * 1000000 + usec) (omega arith),
  omega (arith, body_length, pad_lem (length packet)),
)
  where
    packet : List ℕ
    packet = usbmon_hdr e sec usec ++ e.bytes

    body_length :
        length (epb_body packet (sec * 1000000 + usec))
        ≡ 20 + (length packet + pad_of (length packet))
    body_length = omega (
      arith,
      length-append packet (zeros (pad_of (length packet))),
      length-zeros (pad_of (length packet)),
    )

    pad_of_small : pad_of (length packet) < 4
    pad_of_small = omega arith
