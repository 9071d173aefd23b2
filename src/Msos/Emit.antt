-- ===== src/Msos/Emit.antt =====
-- The descriptors that src/usbip_device.c builds from an advertisement, as the bytes in wire order,
-- and the sizes that it computes beforehand.
use usbip_c.Base.{
  ℕ, zero, suc, ◌+◌, ◌-◌, ◌*◌, ◌%◌, List, [], ◌∷◌, ◌++◌, Option, none, some, Bool, true, false, ltb,
  ◌==◌, ◌&&◌, if◌then◌else◌, length, take, drop,
}
use usbip_c.Base.Bytes.{le16, le32}
use usbip_c.Base.Buffers.{codes, zeros}
use usbip_c.Msos.State.{MsosEntry, Advert, or_entry, msos_n_groups, group_first_ifnum}
use usbip_c.Msos.State.{msos_entry_for_group, msos_needs_subsets}

-- `put_utf16`: each byte with a zero behind it, then the NULs
unfoldable pub put_utf16 : List ℕ → ℕ → List ℕ
put_utf16 [] n_nul = zeros (2 * n_nul)
put_utf16 (c ∷ s) n_nul = c ∷ 0 ∷ put_utf16 s n_nul

abbrev pub utf16_len : List ℕ → ℕ → ℕ
utf16_len s n_nul = 2 * (length s + n_nul)

unfoldable pub msos1_string : ℕ → List ℕ
unfolding put_utf16
msos1_string vendor = 0x12 ∷ 3 ∷ (put_utf16 (codes "MSFT100") 0 ++ (vendor ∷ 0 ∷ []))

-- ---- MS OS 1.0 ----

-- the compatible ID in its field of 8 bytes, in `n` zero bytes
abbrev pub compat_field : ℕ → List ℕ → List ℕ
compat_field n compatible = take 8 compatible ++ zeros (n - length (take 8 compatible))

unfoldable pub compat_section : ℕ → MsosEntry → List ℕ
compat_section first e = first ∷ 1 ∷ compat_field 22 e.compatible

-- The sections of `n` groups from group `i` on, 8 sections at most in all.
unfoldable pub compat_sections : Advert → ℕ → ℕ → ℕ → List (List ℕ)
unfolding compat_section
compat_sections dev zero i count = []
compat_sections dev (suc n) i count =
    let skipped = compat_sections dev n (i + 1) count in
    let added = compat_sections dev n (i + 1) (count + 1) in
    if ltb count 8
    then elim (msos_entry_for_group dev i) [
      | none ↦ skipped
      | some e ↦ compat_section (group_first_ifnum dev i) e ∷ added
    ]
    else []

abbrev pub concat : List (List ℕ) → List ℕ
concat [] = []
concat (x ∷ xs) = x ++ concat xs

-- the header of `sections`, and the sections
abbrev pub compat_set : List (List ℕ) → List ℕ
compat_set sections =
    le32 (16 + 24 * length sections)
    ++ (le16 0x0100 ++ (le16 4 ++ ((length sections % 256) ∷ (zeros 7 ++ concat sections))))

unfoldable pub msos1_compatid : Advert → List ℕ
unfolding compat_sections
msos1_compatid dev = compat_set (compat_sections dev (msos_n_groups dev) 0 0)

unfoldable pub msos1_extprops_size : Option (List ℕ) → ℕ
msos1_extprops_size none = 10
msos1_extprops_size (some guid) =
    10 + 10 + utf16_len (codes "DeviceInterfaceGUID") 1 + 4 + utf16_len guid 1

-- a section from its name and its data
abbrev pub prop_section : List ℕ → List ℕ → List ℕ
prop_section name value =
    le32 (10 + length name + 4 + length value)
    ++ (le32 1 ++ (le16 (length name) ++ (name ++ (le32 (length value) ++ value))))

unfoldable pub msos1_extprops : Option (List ℕ) → List ℕ
unfolding put_utf16
msos1_extprops none = le32 10 ++ (le16 0x0100 ++ (le16 5 ++ le16 0))
msos1_extprops (some guid) =
    let name = put_utf16 (codes "DeviceInterfaceGUID") 1 in
    let value = put_utf16 guid 1 in
    le32 (10 + (10 + length name + 4 + length value))
    ++ (le16 0x0100 ++ (le16 5 ++ (le16 1 ++ prop_section name value)))

-- ---- MS OS 2.0 ----

unfoldable pub msos2_feature_size : Option (List ℕ) → ℕ
msos2_feature_size none = 20
msos2_feature_size (some guid) =
    20 + (8 + utf16_len (codes "DeviceInterfaceGUIDs") 1 + 2 + utf16_len guid 2)

-- the optional registry property
unfoldable pub registry_property : Option (List ℕ) → List ℕ
unfolding put_utf16
registry_property none = []
registry_property (some guid) =
    let name = put_utf16 (codes "DeviceInterfaceGUIDs") 1 in
    let value = put_utf16 guid 2 in
    le16 (8 + length name + 2 + length value)
    ++ (le16 4 ++ (le16 7 ++ (le16 (length name) ++ (name ++ (le16 (length value) ++ value)))))

unfoldable pub msos2_feature : List ℕ → Option (List ℕ) → List ℕ
unfolding registry_property
msos2_feature compatible guid =
    le16 0x14 ++ (le16 3 ++ (compat_field 16 compatible ++ registry_property guid))

-- `entry ? … : nothing`
abbrev pub feature_size_of : Option MsosEntry → ℕ
feature_size_of none = 0
feature_size_of (some e) = msos2_feature_size e.guid

abbrev pub feature_of : Option MsosEntry → List ℕ
feature_of none = []
feature_of (some e) = msos2_feature e.compatible e.guid

-- `if (!entry && dev->n_msos) entry = &dev->msos[0]`
abbrev pub first_entry : List MsosEntry → Option MsosEntry
first_entry [] = none
first_entry (e ∷ es) = some e

abbrev pub flat_entry : Advert → Option MsosEntry
flat_entry dev = or_entry (msos_entry_for_group dev 0) (first_entry dev.msos)

-- what the groups from `i` on add to the configuration subset, `n` of them
unfoldable pub subsets_size : Advert → ℕ → ℕ → ℕ
subsets_size dev zero i = 0
subsets_size dev (suc n) i =
    let rest = subsets_size dev n (i + 1) in
    elim (msos_entry_for_group dev i) [
      | none ↦ rest
      | some e ↦ 8 + msos2_feature_size e.guid + rest
    ]

unfoldable pub msos2_set_size : Advert → ℕ
unfolding msos2_feature_size subsets_size
msos2_set_size dev =
    10
    + (if msos_needs_subsets dev
        then 8 + subsets_size dev (msos_n_groups dev) 0
        else feature_size_of (flat_entry dev))

unfoldable pub function_subset : ℕ → MsosEntry → List ℕ
unfolding msos2_feature
function_subset first e =
    let feature = msos2_feature e.compatible e.guid in
    le16 8 ++ (le16 2 ++ (first ∷ 0 ∷ (le16 (8 + length feature) ++ feature)))

unfoldable pub function_subsets : Advert → ℕ → ℕ → List ℕ
unfolding function_subset
function_subsets dev zero i = []
function_subsets dev (suc n) i =
    let rest = function_subsets dev n (i + 1) in
    elim (msos_entry_for_group dev i) [
      | none ↦ rest
      | some e ↦ function_subset (group_first_ifnum dev i) e ++ rest
    ]

-- the configuration subset around the function subsets
abbrev pub configuration : List ℕ → List ℕ
configuration subsets = le16 8 ++ (le16 1 ++ (0 ∷ 0 ∷ (le16 (8 + length subsets) ++ subsets)))

abbrev pub set_header : List ℕ → List ℕ
set_header body = le16 10 ++ (le16 0 ++ (le32 0x06030000 ++ (le16 (10 + length body) ++ body)))

unfoldable pub msos2_set : Advert → List ℕ
unfolding msos2_feature function_subsets
msos2_set dev = set_header (
    if msos_needs_subsets dev
    then configuration (function_subsets dev (msos_n_groups dev) 0)
    else feature_of (flat_entry dev))

-- ---- BOS and WebUSB ----

abbrev pub webusb_uuid : List ℕ
webusb_uuid =
    0x38 ∷ 0xb6 ∷ 0x08 ∷ 0x34 ∷ 0xa9 ∷ 0x09 ∷ 0xa0 ∷ 0x47 ∷ 0x8b ∷ 0xfd ∷ 0xa0 ∷ 0x76 ∷ 0x88 ∷ 0x15
    ∷ 0xb6 ∷ 0x65 ∷ []

abbrev pub msos20_uuid : List ℕ
msos20_uuid =
    0xdf ∷ 0x60 ∷ 0xdd ∷ 0xd8 ∷ 0x89 ∷ 0x45 ∷ 0xc7 ∷ 0x4c ∷ 0x9c ∷ 0xd2 ∷ 0x65 ∷ 0x9d ∷ 0x9e ∷ 0x64
    ∷ 0x8a ∷ 0x9f ∷ []

abbrev pub platform_cap : ℕ → List ℕ → List ℕ
platform_cap len rest = len ∷ 0x10 ∷ 5 ∷ 0 ∷ rest

unfoldable pub webusb_cap : Advert → List ℕ
webusb_cap dev =
    if dev.webusb
    then platform_cap 24 (
        webusb_uuid
        ++ (le16 0x0100
            ++ (dev.webusb_vendor ∷ (if ltb 0 (length dev.webusb_url) then 1 else 0) ∷ [])))
    else []

unfoldable pub msos2_cap : Advert → List ℕ
unfolding msos2_set_size
msos2_cap dev =
    if ltb 0 (length dev.msos)
    then platform_cap 28 (
        msos20_uuid
        ++ (le32 0x06030000 ++ (le16 (msos2_set_size dev) ++ (dev.msos2_vendor ∷ 0 ∷ []))))
    else []

abbrev pub count_if : Bool → ℕ
count_if true = 1
count_if false = 0

-- the header, then the capabilities
unfoldable pub build_bos_desc : Advert → List ℕ
unfolding webusb_cap msos2_cap
build_bos_desc dev =
    5
    ∷ 0x0f
    ∷ (le16 (5 + (length (webusb_cap dev) + length (msos2_cap dev)))
        ++ ((count_if dev.webusb + count_if (ltb 0 (length dev.msos)))
            ∷ (webusb_cap dev ++ msos2_cap dev)))

-- `strncmp(s, prefix, strlen(prefix)) == 0`
abbrev pub starts_with : List ℕ → List ℕ → Bool
starts_with [] s = true
starts_with (c ∷ p) [] = false
starts_with (c ∷ p) (d ∷ s) = c == d && starts_with p s

abbrev pub url_desc : ℕ → List ℕ → List ℕ
url_desc scheme url = ((3 + length url) % 256) ∷ 3 ∷ scheme ∷ url

unfoldable pub build_webusb_url : List ℕ → List ℕ
build_webusb_url url =
    if starts_with (codes "https://") url
    then url_desc 1 (drop 8 url)
    else if starts_with (codes "http://") url
    then url_desc 0 (drop 7 url)
    else url_desc 255 url
