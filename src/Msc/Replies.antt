-- ===== src/Msc/Replies.antt =====
-- The replies that src/classes/device/msc.c builds. Each is the bytes that the code sends of its
-- buffer.
use usbip_c.Base.{ℕ, ◌+◌, ◌-◌, ◌*◌, ◌/◌, ◌%◌, ◌^◌, List, [], ◌∷◌, ◌++◌, ◌||◌, Option, none, some}
use usbip_c.Base.{ltb, ◌==◌, if◌then◌else◌, length, take, replicate}
use usbip_c.Base.Bytes.{be16, be24, be32}
use usbip_c.Base.Buffers.{codes, zeros, put_fields}
use usbip_c.Msc.State.{Lun, Msc, cdrom, floppy, or_else}

-- the field of `cap` bytes that set_str fills
unfoldable pub set_str : List ℕ → ℕ → List ℕ
set_str src cap =
    let len = if ltb cap (length src) then cap else length src in
    take len src ++ replicate (cap - len) 32

unfoldable pub inq_pdt : Lun → ℕ
inq_pdt lun = if lun.medium == cdrom then 5 else 0

-- the stores behind the memset, in order
abbrev pub inquiry_fields : Msc → Lun → List (ℕ × List ℕ)
inquiry_fields st lun =
    (0, inq_pdt lun ∷ [])
    ∷ (1, 128 ∷ [])
    ∷ (2, 4 ∷ [])
    ∷ (3, 2 ∷ [])
    ∷ (4, 31 ∷ [])
    ∷ (8, set_str (or_else st.vendor (codes "USB-IP")) 8)
    ∷ (16, set_str lun.product 16)
    ∷ (32, set_str (or_else st.revision (codes "0001")) 4)
    ∷ []

unfoldable pub build_inquiry : Msc → Lun → List ℕ
unfolding set_str inq_pdt
build_inquiry st lun = put_fields (inquiry_fields st lun) (zeros 36)

abbrev pub vpd_head : Lun → ℕ → List ℕ
vpd_head lun page = inq_pdt lun ∷ page ∷ []

-- the page of the serial number, at most 20 bytes of it
abbrev pub serial_page : List ℕ → List ℕ → List ℕ
serial_page head serial =
    take (4 + length serial)
      (put_fields ((0, head) ∷ (4, serial) ∷ (3, length serial ∷ []) ∷ []) (zeros 24))

-- `none`: a page that the unit does not publish
unfoldable pub build_vpd : Lun → ℕ → Option (List ℕ)
unfolding inq_pdt
build_vpd lun page =
    let head = vpd_head lun page in
    if page == 0
    then some (take 6 (put_fields ((0, head) ∷ (4, 0 ∷ 128 ∷ []) ∷ (3, 2 ∷ []) ∷ []) (zeros 24)))
    else if page == 128
    then some (serial_page head (take 20 lun.serial))
    else none

-- ---- floppy formats ----

-- an entry of `FLOPPY_FORMATS`
pub record Format : Type 0 where
  pub blocks : ℕ
  pub medium_type : ℕ
  pub cylinders : ℕ
  pub heads : ℕ
  pub sectors : ℕ
  pub rate_kbps : ℕ
  pub format : ℕ

abbrev pub format_row : ℕ → ℕ → ℕ → ℕ → ℕ → ℕ → ℕ → Format
format_row blocks medium_type cylinders heads sectors rate_kbps format = record {
  blocks = blocks;
  medium_type = medium_type;
  cylinders = cylinders;
  heads = heads;
  sectors = sectors;
  rate_kbps = rate_kbps;
  format = format;
}

-- `FLOPPY_DEFAULT`
abbrev pub format_1_44m : Format
format_1_44m = format_row 2880 148 80 2 18 500 1

abbrev pub floppy_formats : List Format
floppy_formats =
    format_row 5760 0 80 2 36 1000 0
    ∷ format_1_44m
    ∷ format_row 2400 147 80 2 15 500 2
    ∷ format_row 1440 30 80 2 9 250 3
    ∷ format_row 720 0 40 2 9 250 4
    ∷ []

unfoldable pub find_blocks : ℕ → List Format → Option Format
find_blocks blocks [] = none
find_blocks blocks (f ∷ fs) = if f.blocks == blocks then some f else find_blocks blocks fs

-- floppy_format_index: the entry in place of its index
unfoldable pub floppy_format : ℕ → ℕ → Option Format
unfolding find_blocks
floppy_format blocks bs = if bs == 512 then find_blocks blocks floppy_formats else none

abbrev pub medium_type_of : Option Format → ℕ
medium_type_of none = 0
medium_type_of (some f) = f.medium_type

unfoldable pub floppy_medium_type : ℕ → ℕ → ℕ
unfolding floppy_format
floppy_medium_type blocks bs = medium_type_of (floppy_format blocks bs)

-- an odd image: the default's heads and sectors, the cylinders from the capacity
abbrev pub cylinders_of : Option Format → ℕ → ℕ
cylinders_of none blocks = blocks / (format_1_44m.heads * format_1_44m.sectors)
cylinders_of (some f) blocks = f.cylinders

unfoldable pub build_flex_page : ℕ → ℕ → List ℕ
unfolding floppy_format
build_flex_page blocks bs =
    let found = floppy_format blocks bs in
    let shape = or_else found format_1_44m in
    let cylinders = cylinders_of found blocks in
    let cylinders = if ltb 65535 cylinders then 65535 else cylinders in
    put_fields
      ((0, 5 ∷ [])
        ∷ (1, 30 ∷ [])
        ∷ (2, be16 shape.rate_kbps)
        ∷ (4, shape.heads ∷ [])
        ∷ (5, shape.sectors ∷ [])
        ∷ (6, be16 (bs % 2 ^ 16))
        ∷ (8, be16 cylinders)
        ∷ (28, be16 300)
        ∷ [])
      (zeros 32)

-- put_capacity_desc
unfoldable pub capacity_desc : ℕ → ℕ → ℕ → List ℕ
capacity_desc blocks bs type = be32 blocks ++ (type ∷ []) ++ be24 bs

unfoldable pub formattable : List Format → List ℕ
unfolding capacity_desc
formattable [] = []
formattable (f ∷ fs) = capacity_desc f.blocks 512 0 ++ formattable fs

unfoldable pub build_format_capacities : Lun → ℕ → ℕ → List ℕ
unfolding capacity_desc formattable
build_format_capacities lun blocks bs =
    let descs =
      capacity_desc blocks bs 2
      ++ (if lun.medium == floppy then formattable floppy_formats else []) in
    0 ∷ 0 ∷ 0 ∷ (length descs % 256) ∷ descs

-- ---- MODE SENSE ----

-- the page that is asked for, as far as the unit has it
unfoldable pub mode_page : Lun → ℕ → ℕ → ℕ → List ℕ
unfolding build_flex_page
mode_page lun page nb bs =
    if lun.medium == floppy
    then if (page == 5) || (page == 63) then build_flex_page nb bs else []
    else []

abbrev pub protect_bit : Lun → ℕ
protect_bit lun = if lun.read_only then 128 else 0

unfoldable pub mode_medium : Lun → ℕ → ℕ → ℕ
unfolding floppy_medium_type
mode_medium lun nb bs = if lun.medium == floppy then floppy_medium_type nb bs else 0

unfoldable pub mode_sense_6 : Lun → ℕ → ℕ → ℕ → List ℕ
unfolding mode_page mode_medium
mode_sense_6 lun page nb bs =
    let pages = mode_page lun page nb bs in
    ((4 + length pages - 1) % 256) ∷ mode_medium lun nb bs ∷ protect_bit lun ∷ 0 ∷ pages

unfoldable pub mode_sense_10 : Lun → ℕ → ℕ → ℕ → List ℕ
unfolding mode_page mode_medium
mode_sense_10 lun page nb bs =
    let pages = mode_page lun page nb bs in
    be16 ((8 + length pages - 2) % 2 ^ 16)
    ++ (mode_medium lun nb bs ∷ protect_bit lun ∷ 0 ∷ 0 ∷ 0 ∷ 0 ∷ pages)

-- ---- the others ----

unfoldable pub read_capacity_10 : ℕ → ℕ → List ℕ
read_capacity_10 nb bs = be32 ((nb + (2 ^ 32 - 1)) % 2 ^ 32) ++ be32 bs

unfoldable pub read_capacity_16 : ℕ → ℕ → List ℕ
read_capacity_16 nb bs =
    put_fields ((4, be32 ((nb + (2 ^ 32 - 1)) % 2 ^ 32)) ∷ (8, be32 bs) ∷ []) (zeros 32)

unfoldable pub request_sense : Lun → List ℕ
request_sense lun =
    put_fields
      ((0, 112 ∷ [])
        ∷ (2, lun.sense.key ∷ [])
        ∷ (7, 10 ∷ [])
        ∷ (12, lun.sense.asc ∷ [])
        ∷ (13, lun.sense.ascq ∷ [])
        ∷ [])
      (zeros 18)

abbrev pub read_toc : List ℕ
read_toc = 0 ∷ 18 ∷ 1 ∷ 1 ∷ 0 ∷ 20 ∷ 1 ∷ 0 ∷ 0 ∷ 0 ∷ 0 ∷ 0 ∷ 0 ∷ 20 ∷ 170 ∷ 0 ∷ 0 ∷ 0 ∷ 0 ∷ 0 ∷ []

abbrev pub get_configuration : List ℕ
get_configuration = 0 ∷ 0 ∷ 0 ∷ 0 ∷ 0 ∷ 0 ∷ 0 ∷ 8 ∷ []

abbrev pub get_event_status : List ℕ
get_event_status = 0 ∷ 6 ∷ 128 ∷ 0 ∷ 0 ∷ 0 ∷ 0 ∷ 0 ∷ []

-- msc_floppy_format_size
unfoldable pub find_size : ℕ → List Format → ℕ
find_size format [] = 0
find_size format (f ∷ fs) = if f.format == format then f.blocks * 512 else find_size format fs

unfoldable pub msc_floppy_format_size : ℕ → ℕ
unfolding find_size
msc_floppy_format_size format = find_size format floppy_formats
