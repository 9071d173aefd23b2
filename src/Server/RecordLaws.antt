-- ===== src/Server/RecordLaws.antt =====
-- The importer reads from the 312-byte record what the exporter put in.
use usbip_c.Base.{ℕ, ◌+◌, ◌-◌, ◌%◌, ◌^◌, ◌≤◌, ◌<◌, ◌≡◌, ◌≢◌, sym, ap, ◌∙◌, List, [], ◌∷◌, ◌++◌}
use usbip_c.Base.{
  leb, Bool-cases, inl, inr, zero, suc, length, put_at, take, drop, All, arith, get_or, take-all,
  length-append, length-take, append_assoc, drop-length_append,
}
use usbip_c.Base.Bytes.{be16, be32, get_be16, get_be32, bytes16, bytes32}
use usbip_c.Base.Buffers.{
  cstr, until_nul, put_fields, zeros, put_fields-behind, put_at-region, put_at-behind,
}
use usbip_c.Base.Buffers.{get_or-drop, get_be32-drop, get_be16-drop, until_nul-take, length-zeros}
use usbip_c.Server.Record.{Device, busid_of, wire_speed, or_else, device_path, record_fields}
use usbip_c.Server.Record.{record_strings, pack_usbip_device, parse_devinfo}

-- the fields hold what their C types allow, and the busid fits its array
pub record IsDevice (d : Device) : Type 0 where
  pub vid16 : d.vid < 2 ^ 16
  pub pid16 : d.pid < 2 ^ 16
  pub bcd16 : d.bcd_device < 2 ^ 16
  pub busnum32 : d.busnum < 2 ^ 32
  pub devnum32 : d.devnum < 2 ^ 32
  pub busid_fits : length d.busid ≤ 31
  pub busid_text : All (λ c. c ≢ 0) d.busid

-- A string field and the zeros after it.
abbrev region : ℕ → List ℕ → List ℕ
region n p = p ++ zeros (n - length p)

length-region : (n : ℕ) (p : List ℕ) → length p ≤ n → length (region n p) ≡ n
length-region n p h =
    omega (arith, length-append p (zeros (n - length p)), length-zeros (n - length p))

length-cstr : (n : ℕ) (s : List ℕ) → 0 < n → length (cstr n s) ≤ n
length-cstr n s h = omega (arith, length-append (take (n - 1) s) (0 ∷ []), length-take (n - 1) s)

abbrev path_field : Device → List ℕ
path_field d = cstr 256 (device_path (busid_of d.busid))

abbrev busid_field : Device → List ℕ
busid_field d = cstr 32 (busid_of d.busid)

-- the 288 bytes before the numbers
abbrev strings_part : Device → List ℕ
strings_part d = region 256 (path_field d) ++ region 32 (busid_field d)

-- the last 24 bytes
abbrev numbers_part : Device → List ℕ
numbers_part d =
    be32 (or_else d.busnum 1)
    ++ (be32 (or_else d.devnum 2)
        ++ (be32 (wire_speed d.speed)
            ++ (be16 d.vid
                ++ (be16 d.pid
                    ++ (be16 d.bcd_device
                        ++ (d.dev_class
                            ∷ d.dev_sub
                            ∷ d.dev_proto
                            ∷ 1
                            ∷ 1
                            ∷ (d.n_ifnums % 256)
                            ∷ []))))))

strings_stored :
    (d : Device) → put_fields (record_strings d) (zeros 312) ≡ strings_part d ++ zeros 24
strings_stored d =
    ap (put_at 256 (busid_field d)) (
      put_at-region (path_field d) 256 56
        (length-cstr 256 (device_path (busid_of d.busid)) (omega arith)))
    ∙ put_at-behind (region 256 (path_field d)) (zeros 56) (busid_field d) 256 0 (
        omega (
          arith,
          length-region 256 (path_field d)
              (length-cstr 256 (device_path (busid_of d.busid)) (omega arith)),
        ))
    ∙ ap (λ t. region 256 (path_field d) ++ t)
        (put_at-region (busid_field d) 32 24 (length-cstr 32 (busid_of d.busid) (omega arith)))
    ∙ sym (append_assoc (region 256 (path_field d)) (region 32 (busid_field d)) (zeros 24))

length-strings_part : (d : Device) → length (strings_part d) ≡ 288
length-strings_part d = omega (
  arith,
  length-append (region 256 (path_field d)) (region 32 (busid_field d)),
  length-region 256 (path_field d) (length-cstr 256 (device_path (busid_of d.busid)) (omega arith)),
  length-region 32 (busid_field d) (length-cstr 32 (busid_of d.busid) (omega arith)),
)

abbrev number_fields : Device → List (ℕ × List ℕ)
number_fields d =
    (0, be32 (or_else d.busnum 1))
    ∷ (4, be32 (or_else d.devnum 2))
    ∷ (8, be32 (wire_speed d.speed))
    ∷ (12, be16 d.vid)
    ∷ (14, be16 d.pid)
    ∷ (16, be16 d.bcd_device)
    ∷ (18, d.dev_class ∷ [])
    ∷ (19, d.dev_sub ∷ [])
    ∷ (20, d.dev_proto ∷ [])
    ∷ (21, 1 ∷ [])
    ∷ (22, 1 ∷ [])
    ∷ (23, (d.n_ifnums % 256) ∷ [])
    ∷ []

packed : (d : Device) → pack_usbip_device d ≡ strings_part d ++ numbers_part d
unfolding pack_usbip_device
packed d =
    ap (put_fields (record_fields d)) (strings_stored d)
    ∙ put_fields-behind 288 (number_fields d) (strings_part d) (zeros 24) (length-strings_part d)

-- The record always has its 312 bytes.
pub length-pack : (d : Device) → length (pack_usbip_device d) ≡ 312
length-pack d =
    rw (packed d)
      (omega (arith, length-append (strings_part d) (numbers_part d), length-strings_part d))

drop-packed : (d : Device) → drop 288 (pack_usbip_device d) ≡ numbers_part d
drop-packed d = rw (packed d) (
    ap (λ n. drop n (strings_part d ++ numbers_part d)) (sym (length-strings_part d))
    ∙ drop-length_append (strings_part d) (numbers_part d))

drop-busid :
    (d : Device) → drop 256 (pack_usbip_device d) ≡ region 32 (busid_field d) ++ numbers_part d
drop-busid d =
    ap (drop 256) (
      packed d
      ∙ append_assoc (region 256 (path_field d)) (region 32 (busid_field d)) (numbers_part d))
    ∙ ap (λ n. drop n (region 256 (path_field d) ++ (region 32 (busid_field d) ++ numbers_part d)))
        (sym (
          length-region 256 (path_field d)
            (length-cstr 256 (device_path (busid_of d.busid)) (omega arith))))
    ∙ drop-length_append (region 256 (path_field d)) (region 32 (busid_field d) ++ numbers_part d)

-- The busid that stands for an empty one fits too.
busid_of_text :
    (s : List ℕ)
    → length s ≤ 31
    → All (λ c. c ≢ 0) s
    → (length (busid_of s) ≤ 31) × All (λ c. c ≢ 0) (busid_of s)
busid_of_text [] l h = (omega arith, omega arith)
busid_of_text (c ∷ s) l h = (l, h)

busid_read :
    (d : Device)
    → IsDevice d
    → until_nul (take 31 (drop 256 (pack_usbip_device d)) ++ (0 ∷ [])) ≡ busid_of d.busid
busid_read d v =
    let (l, h) = busid_of_text d.busid v.busid_fits v.busid_text in
    rw (drop-busid d, take-all 31 (busid_of d.busid) l)
      (ap (λ t. until_nul (take 31 t ++ (0 ∷ [])))
          (append_assoc (busid_of d.busid ++ (0 ∷ []))
              (zeros (32 - length (busid_of d.busid ++ (0 ∷ [])))) (numbers_part d)
            ∙ append_assoc (busid_of d.busid) (0 ∷ [])
                (zeros (32 - length (busid_of d.busid ++ (0 ∷ []))) ++ numbers_part d))
        ∙ until_nul-take 31 (busid_of d.busid)
            (zeros (32 - length (busid_of d.busid ++ (0 ∷ []))) ++ numbers_part d) l h)

or_else32 : (x y : ℕ) → x < 2 ^ 32 → y < 2 ^ 32 → or_else x y < 2 ^ 32
or_else32 x y h k = ground arith

wire_speed32 : (s : ℕ) → wire_speed s < 2 ^ 32
unfolding wire_speed
wire_speed32 s = elim (Bool-cases (leb s 3)) [ inl e ↦ rw e (small s) | inr e ↦ rw e (omega arith) ]
  where
    small : (s : ℕ) → get_or (1 ∷ 2 ∷ 3 ∷ 5 ∷ []) s 0 < 2 ^ 32
    small zero = omega arith
    small (suc zero) = omega arith
    small (suc (suc zero)) = omega arith
    small (suc (suc (suc zero))) = omega arith
    small (suc (suc (suc (suc s)))) = omega arith

-- The importer reads from the record of a device what the device says of itself: its busid, or
-- "1-1" where it has none, its numbers and its class, and the speed in the kernel's numbering.
pub parse-pack :
    (d : Device)
    → IsDevice d
    → parse_devinfo (pack_usbip_device d) ≡ record {
      busid = busid_of d.busid;
      busnum = or_else d.busnum 1;
      devnum = or_else d.devnum 2;
      speed = wire_speed d.speed;
      vid = d.vid;
      pid = d.pid;
      bcd_device = d.bcd_device;
      dclass = d.dev_class;
      dsub = d.dev_sub;
      dproto = d.dev_proto;
      n_cfg = 1;
      n_ifaces = d.n_ifnums % 256;
    }
unfolding parse_devinfo
parse-pack d v = λ i. record {
  busid = busid_read d v i;
  busnum =
      (word 0 ∙ bytes32 (or_else d.busnum 1) (or_else32 d.busnum 1 v.busnum32 (omega arith))) i;
  devnum =
      (word 4 ∙ bytes32 (or_else d.devnum 2) (or_else32 d.devnum 2 v.devnum32 (omega arith))) i;
  speed = (word 8 ∙ bytes32 (wire_speed d.speed) (wire_speed32 d.speed)) i;
  vid = (half 12 ∙ bytes16 d.vid v.vid16) i;
  pid = (half 14 ∙ bytes16 d.pid v.pid16) i;
  bcd_device = (half 16 ∙ bytes16 d.bcd_device v.bcd16) i;
  dclass = byte 18 i;
  dsub = byte 19 i;
  dproto = byte 20 i;
  n_cfg = byte 22 i;
  n_ifaces = byte 23 i;
}
  where
    word : (k : ℕ) → get_be32 (pack_usbip_device d) (288 + k) ≡ get_be32 (numbers_part d) k
    word k = get_be32-drop 288 k (pack_usbip_device d) ∙ ap (λ t. get_be32 t k) (drop-packed d)

    half : (k : ℕ) → get_be16 (pack_usbip_device d) (288 + k) ≡ get_be16 (numbers_part d) k
    half k = get_be16-drop 288 k (pack_usbip_device d) ∙ ap (λ t. get_be16 t k) (drop-packed d)

    byte : (k : ℕ) → get_or (pack_usbip_device d) (288 + k) 0 ≡ get_or (numbers_part d) k 0
    byte k = get_or-drop 288 k (pack_usbip_device d) ∙ ap (λ t. get_or t k 0) (drop-packed d)
