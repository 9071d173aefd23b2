-- ===== src/Msos/Sizes.antt =====
-- The sizes that src/usbip_device.c computes before it builds, and the length fields that it sends,
-- against the bytes that it builds.
use usbip_c.Base.{
  ℕ, zero, suc, ◌+◌, ◌-◌, ◌*◌, ◌^◌, ◌≤◌, ◌<◌, ◌≡◌, refl, ap, ◌∙◌, List, [], ◌∷◌, ◌++◌, Option, none,
  some, Bool, true, false, ltb, if◌then◌else◌, length, take, arith, length-append, length-take,
  lt→ltb,
}
use usbip_c.Base.Bytes.{le16, le32, get_le16, get_le32}
use usbip_c.Base.Buffers.{codes, zeros, length-zeros}
use usbip_c.Msos.State.{
  MsosEntry, Advert, msos_n_groups, group_first_ifnum, msos_entry_for_group, msos_needs_subsets,
}
use usbip_c.Msos.Emit

length-put_utf16 : (s : List ℕ) (n : ℕ) → length (Emit.put_utf16 s n) ≡ Emit.utf16_len s n
unfolding Emit.put_utf16
length-put_utf16 [] n = length-zeros (2 * n) ∙ omega arith
length-put_utf16 (c ∷ s) n = omega (arith, length-put_utf16 s n)

length-compat_field :
    (n : ℕ) (compatible : List ℕ) → 8 ≤ n → length (Emit.compat_field n compatible) ≡ n
length-compat_field n compatible h = omega (
  arith,
  length-append (take 8 compatible) (zeros (n - length (take 8 compatible))),
  length-zeros (n - length (take 8 compatible)),
  length-take 8 compatible,
)

length-registry :
    (guid : List ℕ)
    → length (Emit.registry_property (some guid))
      ≡ 8 + Emit.utf16_len (codes "DeviceInterfaceGUIDs") 1 + 2 + Emit.utf16_len guid 2
unfolding Emit.registry_property
length-registry guid = omega (
  arith,
  length-append name (le16 (length value) ++ value),
  length-put_utf16 (codes "DeviceInterfaceGUIDs") 1,
  length-put_utf16 guid 2,
)
  where
    name : List ℕ
    name = Emit.put_utf16 (codes "DeviceInterfaceGUIDs") 1

    value : List ℕ
    value = Emit.put_utf16 guid 2

length-feature :
    (compatible : List ℕ) (guid : Option (List ℕ))
    → length (Emit.msos2_feature compatible guid) ≡ Emit.msos2_feature_size guid
unfolding Emit.msos2_feature Emit.msos2_feature_size
length-feature compatible none = omega (
  arith,
  length-append (Emit.compat_field 16 compatible) (Emit.registry_property none),
  length-compat_field 16 compatible (omega arith),
  ap length none_lem,
)
  where
    none_lem : Emit.registry_property none ≡ []
    none_lem = unfold Emit.registry_property in refl
length-feature compatible (some guid) = omega (
  arith,
  length-append (Emit.compat_field 16 compatible) (Emit.registry_property (some guid)),
  length-compat_field 16 compatible (omega arith),
  length-registry guid,
)

length-feature_of : (o : Option MsosEntry) → length (Emit.feature_of o) ≡ Emit.feature_size_of o
length-feature_of none = refl
length-feature_of (some e) = length-feature e.compatible e.guid

length-function_subset :
    (first : ℕ) (e : MsosEntry)
    → length (Emit.function_subset first e) ≡ 8 + Emit.msos2_feature_size e.guid
unfolding Emit.function_subset
length-function_subset first e = omega (arith, length-feature e.compatible e.guid)

length-function_subsets :
    (dev : Advert) (n i : ℕ) → length (Emit.function_subsets dev n i) ≡ Emit.subsets_size dev n i
unfolding Emit.function_subsets Emit.subsets_size
length-function_subsets dev zero i = refl
length-function_subsets dev (suc n) i =
    one (msos_entry_for_group dev i) (length-function_subsets dev n (i + 1))
  where
    one :
        (o : Option MsosEntry)
        → length (Emit.function_subsets dev n (i + 1)) ≡ Emit.subsets_size dev n (i + 1)
        → length (elim o [
          | none ↦ Emit.function_subsets dev n (i + 1)
          | some e ↦
              Emit.function_subset (group_first_ifnum dev i) e
              ++ Emit.function_subsets dev n (i + 1)
        ])
          ≡ elim o [
            | none ↦ Emit.subsets_size dev n (i + 1)
            | some e ↦ 8 + Emit.msos2_feature_size e.guid + Emit.subsets_size dev n (i + 1)
          ]
    one none rest = rest
    one (some e) rest =
        length-append (Emit.function_subset (group_first_ifnum dev i) e)
          (Emit.function_subsets dev n (i + 1))
        ∙ omega (arith, length-function_subset (group_first_ifnum dev i) e, rest)

-- The MS OS 2.0 descriptor set has just the size that is computed for it beforehand, flat or with
-- a subset for each function, whatever is advertised.
pub length-msos2_set : (dev : Advert) → length (Emit.msos2_set dev) ≡ Emit.msos2_set_size dev
unfolding Emit.msos2_set Emit.msos2_set_size
length-msos2_set dev = body (msos_needs_subsets dev)
  where
    body :
        (b : Bool)
        → length (
            Emit.set_header (
              if b
              then Emit.configuration (Emit.function_subsets dev (msos_n_groups dev) 0)
              else Emit.feature_of (Emit.flat_entry dev)))
          ≡ 10
            + (if b
                then 8 + Emit.subsets_size dev (msos_n_groups dev) 0
                else Emit.feature_size_of (Emit.flat_entry dev))
    body true = omega (arith, length-function_subsets dev (msos_n_groups dev) 0)
    body false = omega (arith, length-feature_of (Emit.flat_entry dev))

length-prop_section :
    (name value : List ℕ)
    → length (Emit.prop_section name value) ≡ 10 + length name + 4 + length value
length-prop_section name value = omega (arith, length-append name (le32 (length value) ++ value))

-- The MS OS 1.0 extended properties have just the size that is tested against the scratch buffer
-- before they are built, and their first field is that size, where it is below 2 ^ 32.
pub extprops_sized :
    (guid : Option (List ℕ))
    → Emit.msos1_extprops_size guid < 2 ^ 32
    → (length (Emit.msos1_extprops guid) ≡ Emit.msos1_extprops_size guid)
      × (get_le32 (Emit.msos1_extprops guid) 0 ≡ Emit.msos1_extprops_size guid)
unfolding Emit.msos1_extprops Emit.msos1_extprops_size
extprops_sized none h = (refl, refl)
extprops_sized (some guid) h = (
  omega (
    arith,
    length-prop_section name value,
    length-put_utf16 (codes "DeviceInterfaceGUID") 1,
    length-put_utf16 guid 1,
  ),
  omega (arith, length-put_utf16 (codes "DeviceInterfaceGUID") 1, length-put_utf16 guid 1),
)
  where
    name : List ℕ
    name = Emit.put_utf16 (codes "DeviceInterfaceGUID") 1

    value : List ℕ
    value = Emit.put_utf16 guid 1

-- the two capabilities, by the tests that they are under
web : Advert → Bool → List ℕ
web dev b =
    if b
    then Emit.platform_cap 24 (
        Emit.webusb_uuid
        ++ (le16 0x0100
            ++ (dev.webusb_vendor ∷ (if ltb 0 (length dev.webusb_url) then 1 else 0) ∷ [])))
    else []

length-web : (dev : Advert) (b : Bool) → length (web dev b) ≡ (if b then 24 else 0)
unfolding web
length-web dev true = refl
length-web dev false = refl

webusb_cap_lem : (dev : Advert) → Emit.webusb_cap dev ≡ web dev dev.webusb
unfolding Emit.webusb_cap web
webusb_cap_lem dev = refl

abbrev set_cap : Advert → List ℕ
set_cap dev = Emit.platform_cap 28 (
    Emit.msos20_uuid
    ++ (le32 0x06030000 ++ (le16 (Emit.msos2_set_size dev) ++ (dev.msos2_vendor ∷ 0 ∷ []))))

msos2_cap_lem : (dev : Advert) → 0 < length dev.msos → Emit.msos2_cap dev ≡ set_cap dev
unfolding Emit.msos2_cap
msos2_cap_lem dev h = rw (lt→ltb 0 (length dev.msos) h)

-- the descriptor, the first capability by its test
abbrev bos : Advert → Bool → List ℕ
bos dev b =
    5
    ∷ 0x0f
    ∷ (le16 (5 + (length (web dev b) + length (set_cap dev)))
        ++ ((Emit.count_if dev.webusb + Emit.count_if (ltb 0 (length dev.msos)))
            ∷ (web dev b ++ set_cap dev)))

bos_lem : (dev : Advert) → 0 < length dev.msos → Emit.build_bos_desc dev ≡ bos dev dev.webusb
unfolding Emit.build_bos_desc
bos_lem dev h = rw (webusb_cap_lem dev, msos2_cap_lem dev h)

bos-fields :
    (dev : Advert) (b : Bool)
    → Emit.msos2_set_size dev < 2 ^ 16
    → (get_le16 (bos dev b) (5 + (if b then 24 else 0) + 24) ≡ Emit.msos2_set_size dev)
      × (get_le16 (bos dev b) 2 ≡ length (bos dev b))
unfolding web
bos-fields dev true small = (omega arith, refl)
bos-fields dev false small = (omega arith, refl)

-- A device that advertises MS OS descriptors announces in its BOS descriptor the length of the set
-- that it then serves, if that is below 2 ^ 16: at offset 29, or at 53 behind a WebUSB capability.
-- The descriptor's total length is its length.
pub bos_announces :
    (dev : Advert)
    → 0 < length dev.msos
    → Emit.msos2_set_size dev < 2 ^ 16
    → (get_le16 (Emit.build_bos_desc dev) (5 + (if dev.webusb then 24 else 0) + 24)
        ≡ length (Emit.msos2_set dev))
      × (get_le16 (Emit.build_bos_desc dev) 2 ≡ length (Emit.build_bos_desc dev))
bos_announces dev h small =
    rw (length-msos2_set dev, bos_lem dev h) (bos-fields dev dev.webusb small)
