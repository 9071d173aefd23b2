-- ===== src/Wire/HeaderLaws.antt =====
-- The exporter's reader of src/usbip.c, step by step, on a header that the importer wrote.
use usbip_c.Base.{ℕ, ◌^◌, ◌<◌, ◌≡◌, refl, ap, ◌∙◌, List, [], ◌∷◌, ◌++◌}
use usbip_c.Base.{Option, none, some, true, false, length, arith, take, put_at, replicate}
use usbip_c.Base.{length-put_at, lt→ltb, ltb, Bool, Bool-cases, inl, inr, ◌==◌, ◌&&◌, take-all}
use usbip_c.Base.Bytes.{be32, get_be32, bytes32}
use usbip_c.Wire.Header.{put_basic_hdr, IsoPkt, iso_desc_pack, iso_desc_parse}
use usbip_c.Wire.Header.{cmd_submit, usb_out, usb_iso}
use usbip_c.Wire.Stream.{ok, readn-append, ◌>>=◌}
use usbip_c.Wire.Command
use usbip_c.Wire.Command.{Urb}

abbrev pub IsU32 : ℕ → Type 0
IsU32 x = x < 2 ^ 32

pub iso_desc_parse-pack :
    (p : IsoPkt)
    → IsU32 p.offset
    → IsU32 p.length
    → IsU32 p.actual_length
    → IsU32 p.status
    → iso_desc_parse (iso_desc_pack p) ≡ p
unfolding iso_desc_parse iso_desc_pack
iso_desc_parse-pack p a b c d = λ i. record {
  offset = bytes32 p.offset a i;
  length = bytes32 p.length b i;
  actual_length = bytes32 p.actual_length c i;
  status = bytes32 p.status d i;
}

put_at_full : (s dst : List ℕ) → length s ≡ length dst → put_at 0 s dst ≡ s
put_at_full [] [] h = refl
put_at_full [] (y ∷ dst) h = absurd (omega arith)
put_at_full (x ∷ s) [] h = absurd (omega arith)
put_at_full (x ∷ s) (y ∷ dst) h = ap (λ t. x ∷ t) (put_at_full s dst (omega arith))

-- The last eight bytes of a header are the setup packet that was put there.
eight : (s : List ℕ) → length s ≡ 8 → take 8 (put_at 0 s (replicate 8 0)) ≡ s
eight s h = rw (put_at_full s (replicate 8 0) h) (take-all 8 s (omega arith))

-- what the eight setup bytes of a header are
abbrev pub setup_bytes : Option (List ℕ) → List ℕ
setup_bytes none = replicate 8 0
setup_bytes (some s) = s

-- A header of usbip_client_submit and its isochronous sibling.
abbrev pub submit_hdr : ℕ → ℕ → ℕ → ℕ → ℕ → ℕ → ℕ → Option (List ℕ) → List ℕ
submit_hdr seq devid dir ep interval np len setup = Command.put_setup setup (
    put_at 36 (be32 interval)
      (put_at 32 (be32 np) (put_at 24 (be32 len) (put_basic_hdr cmd_submit seq devid dir ep))))

-- the URB that such a header stands for
abbrev pub submitted : Urb → ℕ → ℕ → ℕ → ℕ → ℕ → ℕ → ℕ → Option (List ℕ) → Urb
submitted urb0 seq devid dir ep interval np len setup = record urb0 {
  command = cmd_submit;
  seqnum = seq;
  devid = devid;
  direction = dir;
  ep = ep;
  flags = 0;
  length = len;
  interval = interval;
  number_of_packets = np;
  iso = [];
  setup = setup_bytes setup;
  data_bytes = none;
  data_len = 0;
}

-- Reading a payload that is there, or none.
pub read_payload-append :
    (u : Urb) (bytes rest : List ℕ)
    → u.direction ≡ usb_out
    → length bytes ≡ u.length
    → 0 < u.length
    → u.length < 2 ^ 31
    → Command.read_payload u (bytes ++ rest)
      ≡ ok (record u { data_bytes = some bytes; data_len = u.length }, rest)
unfolding Command.read_payload
read_payload-append u bytes rest d l p q =
    rw (d, lt→ltb 0 u.length p, lt→ltb u.length (2 ^ 31) q)
      (rw (readn-append u.length bytes rest l, ◌>>=◌))

pub read_payload-skip :
    (u : Urb) (rest : List ℕ)
    → ((u.direction == usb_out) && Command.positive32 u.length) ≡ false
    → Command.read_payload u rest ≡ ok (u, rest)
unfolding Command.read_payload
read_payload-skip u rest e = rw e

and-false : (b : Bool) → (b && false) ≡ false
and-false true = refl
and-false false = refl

-- A direction that the endpoint map has is looked up.
pub is_iso-ok :
    (eps : Command.EpMap) (u : Urb) → u.direction < 2 → (b : Bool) × (Command.is_iso eps u ≡ ok b)
unfolding Command.is_iso
is_iso-ok eps u d = elim (Bool-cases (ltb u.ep 16)) [
  | inl e ↦ (
    elim (eps u.ep u.direction) [ none ↦ false | some type ↦ type == usb_iso ],
    rw (e, lt→ltb u.direction 2 d),
  )
  | inr e ↦ (false, rw e)
]

pub read_iso-skip :
    (eps : Command.EpMap) (u : Urb) (rest : List ℕ)
    → u.direction < 2
    → Command.positive32 u.number_of_packets ≡ false
    → Command.read_iso eps u rest ≡ ok (u, rest)
unfolding Command.read_iso
read_iso-skip eps u rest d e =
    let (b, p) = is_iso-ok eps u d in rw (p, Command.read_iso) (rw (e, and-false b))

-- After a header of 48 bytes that says CMD_SUBMIT.
read_cmd-submit :
    (eps : Command.EpMap) (urb0 : Urb) (hdr rest : List ℕ)
    → length hdr ≡ 48
    → get_be32 hdr 0 ≡ cmd_submit
    → Command.read_cmd eps urb0 (hdr ++ rest)
      ≡ (Command.read_payload (Command.parse_submit hdr (Command.parse_basic hdr urb0))
            >>= Command.read_iso eps)
          rest
unfolding Command.read_cmd
read_cmd-submit eps urb0 hdr rest l c = rw (readn-append 48 hdr rest l, ◌>>=◌) (rw c)

module _ (urb0 : Urb) (seq devid dir ep interval np len : ℕ) (hs : IsU32 seq) (hv : IsU32 devid)
    (hd : IsU32 dir) (he : IsU32 ep) (hi : IsU32 interval) (hn : IsU32 np) (hl : IsU32 len) where
  length-submit_hdr :
      (setup : Option (List ℕ)) → length (submit_hdr seq devid dir ep interval np len setup) ≡ 48
  unfolding put_basic_hdr Command.put_setup
  length-submit_hdr none = refl
  length-submit_hdr (some s) = length-put_at 40 s (submit_hdr seq devid dir ep interval np len none)

  parse_hdr :
      (setup : Option (List ℕ))
      → length (setup_bytes setup) ≡ 8
      → let hdr = submit_hdr seq devid dir ep interval np len setup in
        Command.parse_submit hdr (Command.parse_basic hdr urb0)
        ≡ submitted urb0 seq devid dir ep interval np len setup
  unfolding put_basic_hdr Command.put_setup Command.parse_submit Command.parse_basic
  parse_hdr none h = λ i. record {
    command = cmd_submit;
    seqnum = bytes32 seq hs i;
    devid = bytes32 devid hv i;
    direction = bytes32 dir hd i;
    ep = bytes32 ep he i;
    flags = 0;
    unlink_seqnum = urb0.unlink_seqnum;
    length = bytes32 len hl i;
    interval = bytes32 interval hi i;
    number_of_packets = bytes32 np hn i;
    iso = [];
    setup = replicate 8 0;
    data_bytes = none;
    data_len = 0;
  }
  parse_hdr (some s) h = λ i. record {
    command = cmd_submit;
    seqnum = bytes32 seq hs i;
    devid = bytes32 devid hv i;
    direction = bytes32 dir hd i;
    ep = bytes32 ep he i;
    flags = 0;
    unlink_seqnum = urb0.unlink_seqnum;
    length = bytes32 len hl i;
    interval = bytes32 interval hi i;
    number_of_packets = bytes32 np hn i;
    iso = [];
    setup = eight s h i;
    data_bytes = none;
    data_len = 0;
  }

  first_word :
      (setup : Option (List ℕ))
      → get_be32 (submit_hdr seq devid dir ep interval np len setup) 0 ≡ cmd_submit
  unfolding put_basic_hdr Command.put_setup
  first_word none = refl
  first_word (some s) = refl

  -- The reader on a header that stands for a submission: what is left is the payload.
  pub read_submitted :
      (eps : Command.EpMap) (setup : Option (List ℕ)) (rest : List ℕ)
      → length (setup_bytes setup) ≡ 8
      → Command.read_cmd eps urb0 (submit_hdr seq devid dir ep interval np len setup ++ rest)
        ≡ (Command.read_payload (submitted urb0 seq devid dir ep interval np len setup)
              >>= Command.read_iso eps)
            rest
  read_submitted eps setup rest h =
      read_cmd-submit eps urb0 (submit_hdr seq devid dir ep interval np len setup) rest
        (length-submit_hdr setup) (first_word setup)
      ∙ ap (λ u. (Command.read_payload u >>= Command.read_iso eps) rest) (parse_hdr setup h)
