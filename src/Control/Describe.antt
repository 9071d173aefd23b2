-- ===== src/Control/Describe.antt =====
-- The standard descriptors of src/usbip_device.c, as the bytes in wire order.
use usbip_c.Base.{
  ℕ, ◌+◌, ◌-◌, ◌*◌, ◌%◌, List, [], ◌∷◌, ◌++◌, Option, none, some, ltb, ◌==◌, ◌&&◌, if◌then◌else◌,
  length, get_or, take,
}
use usbip_c.Base.Bytes.{le16}
use usbip_c.Msos.State.{Advert}
use usbip_c.Msos.Emit.{put_utf16, msos1_string}

-- the part of `struct usbip_device` that they say; a string slot may be empty
pub record Ident : Type 0 where
  pub vid : ℕ
  pub pid : ℕ
  pub bcd_device : ℕ
  pub dev_class : ℕ
  pub dev_sub : ℕ
  pub dev_proto : ℕ
  pub i_mfr : ℕ
  pub i_prod : ℕ
  pub i_ser : ℕ
  pub strings : List (Option (List ℕ))
  pub descr : List ℕ
  pub n_ifnums : ℕ
  pub advert : Advert

unfoldable pub build_device_desc : Ident → List ℕ
build_device_desc dev =
    18
    ∷ 1
    ∷ (le16 dev.advert.bcd_usb
        ++ (dev.dev_class
            ∷ dev.dev_sub
            ∷ dev.dev_proto
            ∷ 64
            ∷ (le16 dev.vid
                ++ (le16 dev.pid
                    ++ (le16 dev.bcd_device ++ (dev.i_mfr ∷ dev.i_prod ∷ dev.i_ser ∷ 1 ∷ []))))))

-- `cap` is the size of the buffer.
unfoldable pub build_config_desc : Ident → ℕ → List ℕ
build_config_desc dev cap =
    let total = if ltb cap (9 + length dev.descr) then cap else 9 + length dev.descr in
    9 ∷ 2 ∷ (le16 total ++ ((dev.n_ifnums % 256) ∷ 1 ∷ 0 ∷ 0x80 ∷ 50 ∷ take (total - 9) dev.descr))

-- the descriptor of a string of one byte for each character
abbrev pub text_desc : List ℕ → List ℕ
text_desc s = ((2 + 2 * length s) % 256) ∷ 3 ∷ put_utf16 s 0

abbrev pub text_or_stall : Option (List ℕ) → Option (List ℕ)
text_or_stall none = none
text_or_stall (some s) = some (text_desc s)

-- `none` is the STALL.
unfoldable pub build_string_desc : Ident → ℕ → Option (List ℕ)
unfolding put_utf16
build_string_desc dev idx =
    if idx == 0
    then some (4 ∷ 3 ∷ 9 ∷ 4 ∷ [])
    else if idx == 0xee && ltb 0 (length dev.advert.msos)
    then some (msos1_string dev.advert.msos1_vendor)
    else text_or_stall (get_or dev.strings idx none)
