-- ===== src/Msos/Tests.antt =====
-- Two advertised functions (src/usbip_device.c).
use usbip_c.Base.{All, ◌≡◌, ◌<◌, ◌^◌, refl, [], ◌∷◌, none, some, true, ◌⊎◌, arith, length}
use usbip_c.Base.Buffers.{codes}
use usbip_c.Msos.State.{MsosEntry, Advert, covers, find_entry, msos_entry_for_interface}
use usbip_c.Msos.State.{msos_entry_for_group}
use usbip_c.Msos.Emit
use usbip_c.Msos.Sizes.{length-msos2_set}
use usbip_c.Msos.Scope.{HasInterface, entry_scoped}
use usbip_c.Msos.Advertise.{advertised_found}
use usbip_c.Msos.State.{msos_add, place_entry, replace_entry}

abbrev winusb : MsosEntry
winusb = record { group = some 0; compatible = codes "WINUSB"; guid = some (codes "{1}") }

abbrev mtp : MsosEntry
mtp = record { group = some 1; compatible = codes "MTP"; guid = none }

abbrev composite : Advert
composite = record {
  msos = winusb ∷ mtp ∷ [];
  groups = record { first_ifnum = 0; n_ifs = 2 } ∷ record { first_ifnum = 2; n_ifs = 1 } ∷ [];
  msos1_vendor = 0x20;
  msos2_vendor = 0x21;
  webusb = true;
  webusb_vendor = 1;
  webusb_url = codes "https://x";
  bcd_usb = 0x0210;
}

sizes : Emit.msos2_set_size composite ≡ 136
unfolding Emit.msos2_set_size Emit.subsets_size msos_entry_for_group find_entry
    Emit.msos2_feature_size
sizes = refl

by_interface :
    (msos_entry_for_interface composite 1 ≡ some winusb)
    × (msos_entry_for_interface composite 2 ≡ some mtp)
unfolding msos_entry_for_interface find_entry covers
by_interface = (refl, refl)

length-msos2_set_example : length (Emit.msos2_set composite) ≡ Emit.msos2_set_size composite
length-msos2_set_example = length-msos2_set composite

guid_fits : Emit.msos1_extprops_size (some (codes "{1}")) < 2 ^ 32
unfolding Emit.msos1_extprops_size
guid_fits = omega arith

set_fits : Emit.msos2_set_size composite < 2 ^ 16
set_fits = rw sizes (omega arith)

entry_scoped_example :
    HasInterface composite 2 mtp.group
    ⊎ ((mtp.group ≡ none)
        × All (λ (x : MsosEntry). ¬ HasInterface composite 2 x.group) composite.msos)
entry_scoped_example = entry_scoped composite 2 mtp by_interface.1

-- A new claim for function 1 replaces the old one.
abbrev reclaimed : Advert
reclaimed = record composite {
  msos = winusb ∷ record { group = some 1; compatible = codes "WINUSB"; guid = none } ∷ [];
}

claims_again : msos_add composite (some 1) none none ≡ some reclaimed
unfolding msos_add place_entry replace_entry
claims_again = refl

advertised_found_example :
    msos_entry_for_group reclaimed 1
    ≡ some (record { group = some 1; compatible = codes "WINUSB"; guid = none })
advertised_found_example = advertised_found composite reclaimed 1 none none claims_again
