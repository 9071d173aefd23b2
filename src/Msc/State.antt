-- ===== src/Msc/State.antt =====
-- The state of src/classes/device/msc.c, its bulk pipes and the ends of a command. What the class
-- does to the pipes is a list of actions, in order; log lines are left out. malloc() succeeds.
use usbip_c.Base.{◌^◌, ℕ, ◌-◌, List, [], ◌∷◌, ◌++◌, Bool, true, false, ◌||◌, Option, none, some}
use usbip_c.Base.{ltb, ◌==◌, if◌then◌else◌, get_or, set, take}
use usbip_c.Base.Bytes.{le32}
use usbip_c.Base.Buffers.{codes}

-- `msc_opts`' callbacks, a parameter: they work on a `World`, the application's memory, and take the
-- unit's context pointer. `read` answers the bytes that it put in the buffer.
pub record Backend (World : Type 0) : Type 0 where
  pub num_blocks : World → ℕ → ℕ
  pub block_size : World → ℕ → ℕ
  pub read : World → ℕ → ℕ → ℕ → ℕ × List ℕ × World
  pub write : World → ℕ → ℕ → ℕ → List ℕ → ℕ × World

-- `SENSE_*`: (key, asc, ascq)
pub record Sense : Type 0 where
  pub key : ℕ
  pub asc : ℕ
  pub ascq : ℕ

abbrev pub sense_ok : Sense
sense_ok = record { key = 0; asc = 0; ascq = 0 }

abbrev pub unrecovered_read : Sense
unrecovered_read = record { key = 3; asc = 17; ascq = 0 }

abbrev pub invalid_command : Sense
invalid_command = record { key = 5; asc = 32; ascq = 0 }

abbrev pub lba_range : Sense
lba_range = record { key = 5; asc = 33; ascq = 0 }

abbrev pub invalid_field : Sense
invalid_field = record { key = 5; asc = 36; ascq = 0 }

abbrev pub lun_not_supported : Sense
lun_not_supported = record { key = 5; asc = 37; ascq = 0 }

abbrev pub write_protect : Sense
write_protect = record { key = 7; asc = 39; ascq = 0 }

-- MSC_MEDIUM_CDROM, MSC_MEDIUM_FLOPPY
abbrev pub cdrom : ℕ
cdrom = 1

abbrev pub floppy : ℕ
floppy = 2

-- `msc_lun`, a unit that the application declares; NULL is `none`.
pub record Declared : Type 0 where
  pub user : ℕ
  pub medium : ℕ
  pub read_only : Bool
  pub product : Option (List ℕ)
  pub serial : Option (List ℕ)

-- the fields of `msc_opts` that the class reads later than msc_build's descriptors
pub record Opts : Type 0 where
  pub luns : List Declared
  pub read_only : Bool
  pub medium : ℕ
  pub vendor : Option (List ℕ)
  pub product : Option (List ℕ)
  pub revision : Option (List ℕ)
  pub serial : Option (List ℕ)
  pub user : ℕ

-- `struct lun_state`
pub record Lun : Type 0 where
  pub user : ℕ
  pub medium : ℕ
  pub read_only : Bool
  pub product : List ℕ
  pub serial : List ℕ
  pub sense : Sense

-- `struct msc_state`: `luns` are the first `n_luns` of the array. Of `wbuf` the bytes written so
-- far, the first `wgot`; the rest of the block is indeterminate.
pub record Msc : Type 0 where
  pub vendor : Option (List ℕ)
  pub revision : Option (List ℕ)
  pub luns : List Lun
  pub n_luns : ℕ
  pub cbw_in : Bool
  pub writing : Bool
  pub wop : ℕ
  pub wlun : ℕ
  pub wtag : List ℕ
  pub wlba : ℕ
  pub wcount : ℕ
  pub wneed : ℕ
  pub wgot : ℕ
  pub wbuf : List ℕ

-- usbip_device_write on the IN pipe, usbip_ep_stall of either pipe
pub data Action : Type 0 where
  write_in : List ℕ → Action
  stall_in stall_out : Action

-- ---- lun_init ----

abbrev pub or_else {ℓ} : {A : Type ℓ} → Option A → A → A
or_else none d = d
or_else (some a) d = a

abbrev pub first_of {ℓ} : {A : Type ℓ} → Option A → Option A → Option A
first_of none b = b
first_of (some a) b = some a

unfoldable pub default_product : ℕ → List ℕ
default_product medium =
    if medium == cdrom
    then codes "CD-ROM"
    else if medium == floppy
    then codes "FLOPPY"
    else codes "DISK"

-- `src && src->medium ? src->medium : opts->medium`, and the two strings alike
abbrev pub medium_of : Option Declared → Opts → ℕ
medium_of none opts = opts.medium
medium_of (some src) opts = if src.medium == 0 then opts.medium else src.medium

abbrev pub declared_product : Option Declared → Option (List ℕ)
declared_product none = none
declared_product (some src) = src.product

abbrev pub declared_serial : Option Declared → Option (List ℕ)
declared_serial none = none
declared_serial (some src) = src.serial

abbrev pub user_of : Option Declared → Opts → ℕ
user_of none opts = opts.user
user_of (some src) opts = src.user

abbrev pub declared_read_only : Option Declared → Bool
declared_read_only none = false
declared_read_only (some src) = src.read_only

unfoldable pub lun_init : Option Declared → Opts → Lun
unfolding default_product
lun_init src opts =
    let medium = medium_of src opts in
    let protected = declared_read_only src || opts.read_only in
    record {
      user = user_of src opts;
      medium = medium;
      read_only = if medium == cdrom then true else protected;
      product = or_else (first_of (declared_product src) opts.product) (default_product medium);
      serial = or_else (first_of (declared_serial src) opts.serial) (codes "0123456789ABCDEF");
      sense = sense_ok;
    }

-- a row that no command reads, for an index that is out of range
abbrev pub no_lun : Lun
no_lun = record {
  user = 0;
  medium = 0;
  read_only = false;
  product = [];
  serial = [];
  sense = sense_ok;
}

abbrev pub lun_at : Msc → ℕ → Lun
lun_at st i = get_or st.luns i no_lun

-- ---- the ends of a command ----

unfoldable pub set_sense : Msc → ℕ → Sense → Msc
set_sense st i s = record st { luns = set st.luns i (record (lun_at st i) { sense = s }) }

-- the CSW that msc_csw writes
unfoldable pub csw : List ℕ → ℕ → ℕ → List ℕ
csw tag residue status = codes "USBS" ++ tag ++ le32 residue ++ (status ∷ [])

unfoldable pub msc_csw : List ℕ → ℕ → ℕ → List Action
unfolding csw
msc_csw tag residue status = write_in (csw tag residue status) ∷ []

unfoldable pub msc_stall_data_phase : Msc → ℕ → List Action
msc_stall_data_phase st dlen =
    if dlen == 0 then [] else (if st.cbw_in then stall_in else stall_out) ∷ []

-- usbip_device_write of `(int)n` bytes, which does nothing where that is negative
abbrev pub write_int : ℕ → List ℕ → List Action
write_int n bytes = if ltb n (2 ^ 31) then write_in (take n bytes) ∷ [] else []

-- `data` holds at least the bytes that are sent.
unfoldable pub msc_data_in : Msc → List ℕ → ℕ → List ℕ → ℕ → List Action
unfolding msc_csw msc_stall_data_phase
msc_data_in st tag dlen bytes datalen =
    let send = if ltb datalen dlen then datalen else dlen in
    (if send == 0 then msc_stall_data_phase st dlen else write_int send bytes)
    ++ msc_csw tag (dlen - send) 0

unfoldable pub msc_fail : Msc → ℕ → List ℕ → ℕ → Sense → Msc × List Action
unfolding set_sense msc_csw msc_stall_data_phase
msc_fail st i tag dlen s = (set_sense st i s, msc_stall_data_phase st dlen ++ msc_csw tag dlen 1)
