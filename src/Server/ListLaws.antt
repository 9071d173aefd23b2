-- ===== src/Server/ListLaws.antt =====
-- Listing the devices of a listener, both ends of src/usbip.c together.
use usbip_c.Base.{ℕ, zero, suc, ◌*◌, ◌^◌, ◌<◌, ◌≡◌, refl, sym, ap, ◌∙◌, List, [], ◌∷◌, ◌++◌}
use usbip_c.Base.{none, some, arith, map}
use usbip_c.Base.{length, take, drop, All, length-take, append_assoc, take-append-drop, length-drop}
use usbip_c.Base.Bytes.{be16, be32, bytes32}
use usbip_c.Wire.Stream.{ok, ◌>>=◌, readn, readn-append}
use usbip_c.Server.Record.{Device, DevInfo, pack_usbip_device}
use usbip_c.Server.RecordLaws.{length-pack}
use usbip_c.Server.Handshake.{
  op_hdr, op_rep_devlist, emit_iface_list, list_devices, Shaken, devlist_reply, handshake,
}
use usbip_c.Server.Handshake.{
  devlist_request, read_tuples, read_device, read_devices, client_devlist,
}
use usbip_c.Server.HandshakeLaws.{info_of}

-- a sequence of bytes cut in pieces of four
abbrev pub quads : ℕ → List ℕ → List (List ℕ)
quads zero bytes = []
quads (suc n) bytes = take 4 bytes ∷ quads n (drop 4 bytes)

-- what the importer stores of one device
abbrev pub entry : Device → DevInfo × List (List ℕ)
entry d = (info_of d, take 16 (quads (info_of d).n_ifaces (emit_iface_list d)))

-- The record promises as many interfaces as the list has tuples.
abbrev pub IsListed : Device → Type 0
IsListed d = length (emit_iface_list d) ≡ 4 * (info_of d).n_ifaces

read_tuples-append :
    (n : ℕ) (bytes rest : List ℕ)
    → length bytes ≡ 4 * n
    → read_tuples n (bytes ++ rest) ≡ ok (quads n bytes, rest)
unfolding read_tuples
read_tuples-append zero [] rest h = refl
read_tuples-append zero (b ∷ bytes) rest h = absurd (omega arith)
read_tuples-append (suc n) bytes rest h =
    rw (split, ◌>>=◌)
      (rw (read_tuples-append n (drop 4 bytes) rest (omega (arith, length-drop 4 bytes)), ◌>>=◌))
  where
    split : readn 4 (bytes ++ rest) ≡ ok (take 4 bytes, drop 4 bytes ++ rest)
    split =
        ap (readn 4) (
          ap (λ b. b ++ rest) (sym (take-append-drop 4 bytes))
          ∙ append_assoc (take 4 bytes) (drop 4 bytes) rest)
        ∙ readn-append 4 (take 4 bytes) (drop 4 bytes ++ rest) (omega (arith, length-take 4 bytes))

read_device-append :
    (d : Device) (rest : List ℕ)
    → IsListed d
    → read_device (pack_usbip_device d ++ (emit_iface_list d ++ rest)) ≡ ok (entry d, rest)
unfolding read_device
read_device-append d rest h =
    rw (readn-append 312 (pack_usbip_device d) (emit_iface_list d ++ rest) (length-pack d), ◌>>=◌)
      (rw (read_tuples-append (info_of d).n_ifaces (emit_iface_list d) rest h, ◌>>=◌))

read_devices-append :
    (devs : List Device) (rest : List ℕ)
    → All IsListed devs
    → read_devices (length devs) (list_devices devs ++ rest) ≡ ok (map entry devs, rest)
unfolding read_devices list_devices
read_devices-append [] rest h = refl
read_devices-append (d ∷ devs) rest (h, hs) =
    rw (append_assoc, append_assoc)
      (rw (read_device-append d (list_devices devs ++ rest) h, ◌>>=◌)
        (rw (read_devices-append devs rest hs, ◌>>=◌)))

client_devlist-reads :
    (devs : List Device) (max : ℕ) (more : List ℕ)
    → length devs < 2 ^ 31
    → All IsListed devs
    → client_devlist max ((devlist_reply devs).sent ++ more)
      ≡ ok (some (take max (map entry devs)), more)
unfolding client_devlist devlist_reply op_hdr
client_devlist-reads devs max more small h =
    rw
      (
        readn-append 8 (be16 0x0111 ++ (be16 op_rep_devlist ++ be32 0))
            (be32 (length devs) ++ (list_devices devs ++ more)) refl,
        ◌>>=◌,
      )
      (rw (readn-append 4 (be32 (length devs)) (list_devices devs ++ more) refl, ◌>>=◌)
        (rw (bytes32 (length devs) (omega arith)) (rw (read_devices-append devs more h, ◌>>=◌))))

-- Listing a listener whose devices' records count their interfaces right: the importer gets one
-- entry for each device, in the listener's order, up to its own limit, and reads the answer to its
-- last byte. No device is imported.
pub devlist_complete :
    (devs : List Device) (max : ℕ) (rest more : List ℕ)
    → length devs < 2 ^ 31
    → All IsListed devs
    → (s : Shaken) × (handshake devs (devlist_request ++ rest) ≡ ok (s, rest))
      × (s.imported ≡ none)
      × (client_devlist max (s.sent ++ more) ≡ ok (some (take max (map entry devs)), more))
unfolding handshake devlist_reply devlist_request
devlist_complete devs max rest more small h = (
  devlist_reply devs,
  rw (readn-append 8 devlist_request rest refl, ◌>>=◌),
  refl,
  client_devlist-reads devs max more small h,
)
