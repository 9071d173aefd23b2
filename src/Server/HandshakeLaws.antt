-- ===== src/Server/HandshakeLaws.antt =====
-- Both ends of the handshake of src/usbip.c together.
use usbip_c.Base.{ℕ, suc, ◌+◌, ◌-◌, ◌≤◌, ◌≡◌, ◌≢◌, refl, sym, ap, ◌∙◌, List, [], ◌∷◌, ◌++◌}
use usbip_c.Base.{true, false, none, some, arith, Bool-cases, inl, inr}
use usbip_c.Base.{length, take, All, take-all, length-append, length-take, append_assoc, append-nil}
use usbip_c.Base.Bytes.{be16, be32}
use usbip_c.Base.Buffers.{
  cstr, until_nul, zeros, put_at-behind, put_at-region, until_nul-take, length-zeros,
}
use usbip_c.Wire.Stream.{ok, ◌>>=◌, readn-append}
use usbip_c.Server.Record.{Device, DevInfo, pack_usbip_device, parse_devinfo}
use usbip_c.Server.RecordLaws.{length-pack}
use usbip_c.Server.Handshake.{op_hdr, op_req_import, op_rep_import, str_eq}
use usbip_c.Server.Handshake.{find_busid, Shaken, import_reply, handshake}
use usbip_c.Server.Handshake.{import_request, client_import}

str_eq_refl : (s : List ℕ) → str_eq s s ≡ true
str_eq_refl [] = refl
str_eq_refl (c ∷ s) = ground (arith, str_eq_refl s)

str_eq→eq : (s t : List ℕ) → str_eq s t ≡ true → s ≡ t
str_eq→eq [] [] h = refl
str_eq→eq [] (y ∷ t) h = cc
str_eq→eq (x ∷ s) [] h = cc
str_eq→eq (x ∷ s) (y ∷ t) h = ground (arith, str_eq→eq s t)

str_ne : (s t : List ℕ) → t ≢ s → str_eq s t ≡ false
str_ne s t h = elim (Bool-cases (str_eq s t)) [
  | inl e ↦ absurd (h (sym (str_eq→eq s t e)))
  | inr e ↦ e
]

-- The search stops at the first device of that busid.
find_first :
    (busid : List ℕ) (before after : List Device) (d : Device) (i : ℕ)
    → All (λ e. e.busid ≢ busid) before
    → d.busid ≡ busid
    → find_busid busid (before ++ (d ∷ after)) i ≡ some (i + length before, d)
unfolding find_busid
find_first busid [] after d i h e =
    rw (ap (str_eq busid) e ∙ str_eq_refl busid)
      (ap (λ j. some (j, d)) {x = i} {y = i + 0} (omega arith))
find_first busid (b ∷ before) after d i (hb, h) e = rw (str_ne busid b.busid hb) (
    find_first busid before after d (i + 1) h e
    ∙ ap (λ j. some (j, d)) {y = i + suc (length before)} (omega arith))

find_none :
    (busid : List ℕ) (devs : List Device) (i : ℕ)
    → All (λ e. e.busid ≢ busid) devs
    → find_busid busid devs i ≡ none
unfolding find_busid
find_none busid [] i h = refl
find_none busid (b ∷ devs) i (hb, h) = rw (str_ne busid b.busid hb) (find_none busid devs (i + 1) h)

-- the request is a header of 8 bytes and the busid's 32
abbrev import_hdr : List ℕ
import_hdr = be16 0x0111 ++ (be16 op_req_import ++ (0 ∷ 0 ∷ 0 ∷ 0 ∷ []))

abbrev busid_field : List ℕ → List ℕ
busid_field busid = cstr 32 busid ++ zeros (32 - length (cstr 32 busid))

import_request_lem :
    (busid : List ℕ) → length busid ≤ 31 → import_request busid ≡ import_hdr ++ busid_field busid
unfolding import_request
import_request_lem busid h =
    put_at-behind import_hdr (zeros 32) (cstr 32 busid) 8 0 (omega arith)
    ∙ ap (λ t. import_hdr ++ t)
        (put_at-region (cstr 32 busid) 32 0
            (omega (arith, length-append (take 31 busid) (0 ∷ []), length-take 31 busid))
          ∙ append-nil (busid_field busid))

length-busid_field : (busid : List ℕ) → length (busid_field busid) ≡ 32
length-busid_field busid = omega (
  arith,
  length-append (cstr 32 busid) (zeros (32 - length (cstr 32 busid))),
  length-append (take 31 busid) (0 ∷ []),
  length-take 31 busid,
  length-zeros (32 - length (cstr 32 busid)),
)

-- The busid that the exporter compares is the one that was asked for.
busid_asked :
    (busid : List ℕ)
    → length busid ≤ 31
    → All (λ c. c ≢ 0) busid
    → until_nul (take 31 (busid_field busid) ++ (0 ∷ [])) ≡ busid
busid_asked busid l h =
    rw (take-all 31 busid l, append_assoc)
      (until_nul-take 31 busid (zeros (32 - length (busid ++ (0 ∷ [])))) l h)

-- The exporter's answer to an import request is decided by the search for the busid.
handshake-import :
    (devs : List Device) (busid rest : List ℕ)
    → length busid ≤ 31
    → All (λ c. c ≢ 0) busid
    → handshake devs (import_request busid ++ rest)
      ≡ ok (import_reply (find_busid busid devs 0), rest)
unfolding handshake
handshake-import devs busid rest l h =
    rw (import_request_lem busid l, append_assoc)
      (rw (readn-append 8 import_hdr (busid_field busid ++ rest) refl, ◌>>=◌)
        (rw (readn-append 32 (busid_field busid) rest (length-busid_field busid), ◌>>=◌)
          (rw (busid_asked busid l h))))

-- what the importer learns of a device
abbrev pub info_of : Device → DevInfo
info_of d = parse_devinfo (pack_usbip_device d)

client_import-found :
    (d : Device) (more : List ℕ)
    → client_import ((op_hdr op_rep_import 0 ++ pack_usbip_device d) ++ more)
      ≡ ok (some (info_of d), more)
unfolding client_import op_hdr
client_import-found d more = rw append_assoc (
    rw
      (
        readn-append 8 (be16 0x0111 ++ (be16 op_rep_import ++ be32 0)) (pack_usbip_device d ++ more)
            refl,
        ◌>>=◌,
      )
      (rw (readn-append 312 (pack_usbip_device d) more (length-pack d), ◌>>=◌)))

client_import-refused :
    (more : List ℕ) → client_import (op_hdr op_rep_import 1 ++ more) ≡ ok (none, more)
unfolding client_import op_hdr
client_import-refused more =
    rw (readn-append 8 (be16 0x0111 ++ (be16 op_rep_import ++ be32 1)) more refl, ◌>>=◌)

-- Importing a busid that the listener exports: the exporter answers with the first device of that
-- busid and enters the URB phase with it, and the importer reads that device's record from the
-- answer and nothing behind it.
pub import_first :
    (before after : List Device) (d : Device) (busid rest more : List ℕ)
    → length busid ≤ 31
    → All (λ c. c ≢ 0) busid
    → All (λ e. e.busid ≢ busid) before
    → d.busid ≡ busid
    → (s : Shaken) × (handshake (before ++ (d ∷ after)) (import_request busid ++ rest)
        ≡ ok (s, rest))
      × (s.imported ≡ some (length before))
      × (client_import (s.sent ++ more) ≡ ok (some (info_of d), more))
unfolding import_reply
import_first before after d busid rest more l h hb e = (
  import_reply (some (length before, d)),
  handshake-import (before ++ (d ∷ after)) busid rest l h
      ∙ ap (λ o. ok (import_reply o, rest))
          (find_first busid before after d 0 hb e
            ∙ ap (λ j. some (j, d)) {x = 0 + length before} {y = length before} (omega arith)),
  refl,
  client_import-found d more,
)

-- Importing a busid that no device of the listener has is refused, and no device is imported.
pub import_unknown :
    (devs : List Device) (busid rest more : List ℕ)
    → length busid ≤ 31
    → All (λ c. c ≢ 0) busid
    → All (λ e. e.busid ≢ busid) devs
    → (s : Shaken) × (handshake devs (import_request busid ++ rest) ≡ ok (s, rest))
      × (s.imported ≡ none)
      × (client_import (s.sent ++ more) ≡ ok (none, more))
unfolding import_reply
import_unknown devs busid rest more l h hb = (
  import_reply none,
  handshake-import devs busid rest l h
      ∙ ap (λ o. ok (import_reply o, rest)) (find_none busid devs 0 hb),
  refl,
  client_import-refused more,
)
