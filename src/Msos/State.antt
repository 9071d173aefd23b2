-- ===== src/Msos/State.antt =====
-- What a device advertises (src/usbip_device.c, src/usbip_device_internal.h): the MS-OS table, and
-- which entry describes which function. The strdup() calls are taken to succeed.
use usbip_c.Base.{
  ℕ, ◌+◌, List, [], ◌∷◌, ◌++◌, Option, none, some, Bool, true, false, ◌&&◌, ltb, leb, ◌==◌,
  if◌then◌else◌, length, get_elem?,
}
use usbip_c.Base.Buffers.{codes}

-- `struct msos_entry`; `none` is the group -1, the whole device.
pub record MsosEntry : Type 0 where
  pub group : Option ℕ
  pub compatible : List ℕ
  pub guid : Option (List ℕ)

-- `struct descr_group`
pub record Group : Type 0 where
  pub first_ifnum : ℕ
  pub n_ifs : ℕ

-- the part of `struct usbip_device` that this is about
pub record Advert : Type 0 where
  pub msos : List MsosEntry
  pub groups : List Group
  pub msos1_vendor : ℕ
  pub msos2_vendor : ℕ
  pub webusb : Bool
  pub webusb_vendor : ℕ
  pub webusb_url : List ℕ
  pub bcd_usb : ℕ

abbrev pub same_group : Option ℕ → Option ℕ → Bool
same_group none none = true
same_group none (some g) = false
same_group (some f) none = false
same_group (some f) (some g) = f == g

-- The first entry of the same scope is overwritten in place; `none` where there is none.
unfoldable pub replace_entry : MsosEntry → List MsosEntry → Option (List MsosEntry)
replace_entry e [] = none
replace_entry e (x ∷ xs) =
    let later : Option (List MsosEntry) = elim (replace_entry e xs) [
      | none ↦ none
      | some ys ↦ some (x ∷ ys)
    ] in
    if same_group x.group e.group then some (e ∷ xs) else later

-- The table has 8 places; `none` is a table that is full.
unfoldable pub place_entry : MsosEntry → List MsosEntry → Option (List MsosEntry)
unfolding replace_entry
place_entry e es = elim (replace_entry e es) [
  | some es' ↦ some es'
  | none ↦ if leb 8 (length es) then none else some (es ++ (e ∷ []))
]

abbrev pub or_default : Option (List ℕ) → List ℕ → List ℕ
or_default none d = d
or_default (some s) d = s

-- msos_add: `none` is the NULL result.
unfoldable pub msos_add : Advert → Option ℕ → Option (List ℕ) → Option (List ℕ) → Option Advert
unfolding place_entry
msos_add dev group compatible guid =
    elim (place_entry
      (record { group = group; compatible = or_default compatible (codes "WINUSB"); guid = guid })
      dev.msos) [
        | none ↦ none
        | some es ↦ some (record dev {
          msos = es;
          bcd_usb = 0x0210;
          msos1_vendor = if dev.msos1_vendor == 0 then 0x20 else dev.msos1_vendor;
          msos2_vendor = if dev.msos2_vendor == 0 then 0x21 else dev.msos2_vendor;
        })
      ]

-- usbip_device_enable_webusb
unfoldable pub enable_webusb : Advert → ℕ → Option (List ℕ) → Advert
enable_webusb dev vendor url = record dev {
  webusb = true;
  webusb_vendor = vendor;
  webusb_url = or_default url [];
  bcd_usb = 0x0210;
}

-- the first entry that passes a test
unfoldable pub find_entry : (MsosEntry → Bool) → List MsosEntry → Option MsosEntry
find_entry test [] = none
find_entry test (e ∷ es) = if test e then some e else find_entry test es

abbrev pub or_entry : Option MsosEntry → Option MsosEntry → Option MsosEntry
or_entry none o = o
or_entry (some e) o = some e

abbrev pub msos_n_groups : Advert → ℕ
msos_n_groups dev = if length dev.groups == 0 then 1 else length dev.groups

unfoldable pub group_first_ifnum : Advert → ℕ → ℕ
group_first_ifnum dev group = elim (get_elem? dev.groups group) [
  | none ↦ 0
  | some g ↦ if g.n_ifs == 0 then 0 else g.first_ifnum
]

abbrev pub is_device_wide : MsosEntry → Bool
is_device_wide e = same_group e.group none

unfoldable pub msos_entry_for_group : Advert → ℕ → Option MsosEntry
unfolding find_entry
msos_entry_for_group dev group =
    or_entry (find_entry (λ e. same_group e.group (some group)) dev.msos)
      (find_entry is_device_wide dev.msos)

abbrev pub msos_needs_subsets : Advert → Bool
msos_needs_subsets dev = ltb 1 (length dev.groups) && ltb 0 (length dev.msos)

-- whether an interface number is one of a group's
abbrev pub in_group : Group → ℕ → Bool
in_group g ifnum = leb g.first_ifnum ifnum && ltb ifnum (g.first_ifnum + g.n_ifs)

-- the test of the first loop of msos_entry_for_interface
unfoldable pub covers : Advert → ℕ → MsosEntry → Bool
covers dev ifnum e = elim e.group [
  | none ↦ false
  | some group ↦ elim (get_elem? dev.groups group) [ none ↦ false | some g ↦ in_group g ifnum ]
]

unfoldable pub msos_entry_for_interface : Advert → ℕ → Option MsosEntry
unfolding find_entry covers
msos_entry_for_interface dev ifnum =
    or_entry (find_entry (covers dev ifnum) dev.msos) (find_entry is_device_wide dev.msos)
