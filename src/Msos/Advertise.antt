-- ===== src/Msos/Advertise.antt =====
-- What msos_add of src/usbip_device.c puts in the table is what a lookup finds.
use usbip_c.Base.{
  ℕ, ◌≡◌, refl, sym, ap, subst, ◌∙◌, List, [], ◌∷◌, ◌++◌, Option, none, some, Bool, true, false,
  inl, inr, Bool-cases, if◌then◌else◌, ==_refl, leb, length,
}
use usbip_c.Base.Buffers.{codes}
use usbip_c.Msos.State.{
  MsosEntry, Advert, same_group, replace_entry, place_entry, or_default, msos_add, find_entry,
  or_entry,
}
use usbip_c.Msos.State.{is_device_wide, msos_entry_for_group}

-- an entry for group `g`
abbrev entry : ℕ → List ℕ → Option (List ℕ) → MsosEntry
entry g compatible guid = record { group = some g; compatible = compatible; guid = guid }

module _ (g : ℕ) (compatible : List ℕ) (guid : Option (List ℕ)) where
  abbrev look : List MsosEntry → Option MsosEntry
  look es = find_entry (λ e. same_group e.group (some g)) es

  look_here :
      (es : List MsosEntry) → look (entry g compatible guid ∷ es) ≡ some (entry g compatible guid)
  unfolding find_entry
  look_here es = ap (λ b. if b then some (entry g compatible guid) else look es) (==_refl g)

  look_past :
      (x : MsosEntry) (es : List MsosEntry)
      → same_group x.group (some g) ≡ false
      → look (x ∷ es) ≡ look es
  unfolding find_entry
  look_past x es h = ap (λ b. if b then some x else look es) h

  -- the branches of replace_entry
  abbrev behind : MsosEntry → Option (List MsosEntry) → Option (List MsosEntry)
  behind x o = elim o [ none ↦ none | some ys ↦ some (x ∷ ys) ]

  replace_entry_same :
      (x : MsosEntry) (xs : List MsosEntry) (b : Bool)
      → same_group x.group (some g) ≡ b
      → replace_entry (entry g compatible guid) (x ∷ xs) ≡ (
          if b
          then some (entry g compatible guid ∷ xs)
          else behind x (replace_entry (entry g compatible guid) xs))
  unfolding replace_entry
  replace_entry_same x xs b h =
      ap
        (λ b.
          if b
          then some (entry g compatible guid ∷ xs)
          else behind x (replace_entry (entry g compatible guid) xs))
        h

  -- Both results of the replacement: the entry is found in place, or behind a table without it.
  abbrev Found : List MsosEntry → Option (List MsosEntry) → Type 0
  Found es none = look (es ++ (entry g compatible guid ∷ [])) ≡ some (entry g compatible guid)
  Found es (some es') = look es' ≡ some (entry g compatible guid)

  behind-Found :
      (x : MsosEntry) (xs : List MsosEntry) (o : Option (List MsosEntry))
      → same_group x.group (some g) ≡ false
      → Found xs o
      → Found (x ∷ xs) (behind x o)
  behind-Found x xs none h f = look_past x (xs ++ (entry g compatible guid ∷ [])) h ∙ f
  behind-Found x xs (some ys) h f = look_past x ys h ∙ f

  replace_entry-Found :
      (es : List MsosEntry) → Found es (replace_entry (entry g compatible guid) es)
  replace_entry-Found [] = unfold replace_entry in look_here []
  replace_entry-Found (x ∷ xs) = elim (Bool-cases (same_group x.group (some g))) [
    | inl same ↦ subst (Found (x ∷ xs)) (sym (replace_entry_same x xs true same)) (look_here xs)
    | inr other ↦ subst (Found (x ∷ xs)) (sym (replace_entry_same x xs false other)) (
        behind-Found x xs (replace_entry (entry g compatible guid) xs) other
          (replace_entry-Found xs))
  ]

  full_or :
      (b : Bool) (es es' : List MsosEntry) → (if b then none else some es) ≡ some es' → es ≡ es'
  full_or true es es' h = absurd (cc)
  full_or false es es' h = cc

  placed :
      (es es' : List MsosEntry) (o : Option (List MsosEntry))
      → Found es o
      → (elim o [
        | some t ↦ some t
        | none ↦ if leb 8 (length es) then none else some (es ++ (entry g compatible guid ∷ []))
      ])
        ≡ some es'
      → look es' ≡ some (entry g compatible guid)
  placed es es' none f h =
      ap look (sym (full_or (leb 8 (length es)) (es ++ (entry g compatible guid ∷ [])) es' h)) ∙ f
  placed es es' (some t) f h = let same : t ≡ es' = cc in ap look (sym same) ∙ f

  place_entry-look :
      (es es' : List MsosEntry)
      → place_entry (entry g compatible guid) es ≡ some es'
      → look es' ≡ some (entry g compatible guid)
  unfolding place_entry
  place_entry-look es es' h =
      placed es es' (replace_entry (entry g compatible guid) es) (replace_entry-Found es) h

some_table :
    (o : Option (List MsosEntry)) (f : List MsosEntry → Advert) (dev' : Advert)
    → (elim o [ none ↦ none | some es ↦ some (f es) ]) ≡ some dev'
    → (es : List MsosEntry) × (o ≡ some es) × (f es ≡ dev')
some_table none f dev' h = absurd (cc)
some_table (some es) f dev' h = (es, refl, cc)

-- What a function advertises with success is what its group is then described by, whether it had an
-- entry before or not, and whatever the other groups and the device as a whole advertise.
pub advertised_found :
    (dev dev' : Advert) (g : ℕ) (compatible guid : Option (List ℕ))
    → msos_add dev (some g) compatible guid ≡ some dev'
    → msos_entry_for_group dev' g
      ≡ some (record {
        group = some g;
        compatible = or_default compatible (codes "WINUSB");
        guid = guid;
      })
unfolding msos_add msos_entry_for_group
advertised_found dev dev' g compatible guid h =
    let (es, placed_in, table) =
      some_table (place_entry (entry g (or_default compatible (codes "WINUSB")) guid) dev.msos) _
        dev' h in
    ap (λ o. or_entry o (find_entry is_device_wide dev'.msos))
      (ap (λ (d : Advert). look g (or_default compatible (codes "WINUSB")) guid d.msos) (sym table)
        ∙ place_entry-look g (or_default compatible (codes "WINUSB")) guid dev.msos es placed_in)
