-- ===== src/Msc/Sizes.antt =====
-- The length fields of the replies of src/classes/device/msc.c.
use usbip_c.Base.{ℕ, suc, ◌+◌, subst, ◌%◌, ◌≤◌, ◌≡◌, refl, sym, ◌∙◌}
use usbip_c.Base.{List, [], ◌∷◌, ◌++◌, ◌||◌, Option, none, some, arith, ◌⊎◌, inl, inr}
use usbip_c.Base.{◌==◌, if◌then◌else◌, if_both, length, length-take, get_or, take}
use usbip_c.Base.Bytes.{get_be16}
use usbip_c.Base.Buffers.{zeros, put_fields}
use usbip_c.Base.{put_at, length-put_at}
use usbip_c.Msc.State.{Lun, Msc, floppy}
use usbip_c.Msc.Replies.{
  build_inquiry, build_vpd, inquiry_fields, inq_pdt, vpd_head, serial_page, build_flex_page,
  build_format_capacities, formattable, floppy_formats, capacity_desc, mode_page, mode_sense_6,
  mode_sense_10, request_sense,
}

length-formattable : length (formattable floppy_formats) ≡ 40
unfolding formattable capacity_desc
length-formattable = refl

length-mode_page :
    (lun : Lun) (page nb bs : ℕ)
    → (length (mode_page lun page nb bs) ≡ 0) ⊎ (length (mode_page lun page nb bs) ≡ 32)
unfolding mode_page build_flex_page
length-mode_page lun page nb bs =
    let P : List ℕ → Type 0 = λ xs. (length xs ≡ 0) ⊎ (length xs ≡ 32) in
    if_both P (lun.medium == floppy)
      (if (page == 5) || (page == 63) then build_flex_page nb bs else []) []
      (if_both P ((page == 5) || (page == 63)) (build_flex_page nb bs) [] (inr refl) (inl refl))
      (inl refl)

length-put_fields :
    (fs : List (ℕ × List ℕ)) (buf : List ℕ) → length (put_fields fs buf) ≡ length buf
length-put_fields [] buf = refl
length-put_fields ((off, bytes) ∷ fs) buf =
    length-put_fields fs (put_at off bytes buf) ∙ length-put_at off bytes buf

-- a page whose length byte counts what follows it
abbrev Announces : List ℕ → Type 0
Announces bytes = get_or bytes 3 0 + 4 ≡ length bytes

serial_page-Announces :
    (pdt page : ℕ) (serial : List ℕ)
    → length serial ≤ 20
    → Announces (serial_page (pdt ∷ page ∷ []) serial)
serial_page-Announces pdt page serial h =
    let body = put_at 0 [] (put_at 0 serial (zeros 20)) in
    let l : length body ≡ 20 =
      length-put_at 0 [] (put_at 0 serial (zeros 20)) ∙ length-put_at 0 serial (zeros 20) in
    subst (λ n. Announces (take n (pdt ∷ page ∷ 0 ∷ length serial ∷ body)))
      {x = suc (suc (suc (suc (length serial))))} (omega arith)
      (omega (arith, length-take (length serial) body, l))

build_vpd-Announces :
    (lun : Lun) (page : ℕ) (bytes : List ℕ) → build_vpd lun page ≡ some bytes → Announces bytes
unfolding build_vpd
build_vpd-Announces lun page bytes e =
    let P : Option (List ℕ) → Type 0 = λ o. o ≡ some bytes → Announces bytes in
    let serial = take 20 lun.serial in
    if_both P (page == 0) (some (inq_pdt lun ∷ page ∷ 0 ∷ 2 ∷ 0 ∷ 128 ∷ []))
      (if page == 128 then some (serial_page (vpd_head lun page) serial) else none)
      (λ h. subst Announces {x = inq_pdt lun ∷ page ∷ 0 ∷ 2 ∷ 0 ∷ 128 ∷ []} (cc h) refl)
      (if_both P (page == 128) (some (serial_page (vpd_head lun page) serial)) none
        (λ h. subst Announces {x = serial_page (vpd_head lun page) serial} (cc h) (
          serial_page-Announces (inq_pdt lun) page serial
            (omega (arith, length-take 20 lun.serial))))
        (λ h. absurd (cc h)))
      e

build_format_capacities-Announces :
    (lun : Lun) (nb bs : ℕ) → Announces (build_format_capacities lun nb bs)
unfolding build_format_capacities
build_format_capacities-Announces lun nb bs =
    if_both
      (λ xs.
        Announces (
          0 ∷ 0 ∷ 0 ∷ (length (capacity_desc nb bs 2 ++ xs) % 256) ∷ (capacity_desc nb bs 2 ++ xs)))
      (lun.medium == floppy) (formattable floppy_formats) [] refl refl

-- The length fields of the replies count the bytes that follow them: MODE SENSE(6) and (10) with or
-- without the floppy's page, the capacity list with or without the floppy formats, INQUIRY and
-- REQUEST SENSE, and a product data page that there is, with a serial number of any length.
pub lengths_announced :
    (st : Msc) (lun : Lun) (page nb bs : ℕ)
    → (get_or (mode_sense_6 lun page nb bs) 0 0 + 1 ≡ length (mode_sense_6 lun page nb bs))
      × (get_be16 (mode_sense_10 lun page nb bs) 0 + 2 ≡ length (mode_sense_10 lun page nb bs))
      × (get_or (build_format_capacities lun nb bs) 3 0 + 4
          ≡ length (build_format_capacities lun nb bs))
      × (get_or (build_inquiry st lun) 4 0 + 5 ≡ length (build_inquiry st lun))
      × (get_or (request_sense lun) 7 0 + 8 ≡ length (request_sense lun))
      × ((bytes : List ℕ) → build_vpd lun page ≡ some bytes → get_or bytes 3 0 + 4 ≡ length bytes)
unfolding mode_sense_6 mode_sense_10 build_format_capacities build_inquiry request_sense build_vpd
lengths_announced st lun page nb bs =
    let l = length-mode_page lun page nb bs in
    (
      ground (arith, l),
      ground (arith, l),
      build_format_capacities-Announces lun nb bs,
      sym (length-put_fields (inquiry_fields st lun) (zeros 36)),
      refl,
      build_vpd-Announces lun page,
    )
