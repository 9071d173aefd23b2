-- ===== src/Msos/Scope.antt =====
-- Which MS-OS entry an interface is answered with (src/usbip_device.c).
use usbip_c.Base.{
  ℕ, ◌+◌, ◌≤◌, ◌<◌, ◌&&◌, ltb, leb, ltb→lt, leb→le, lt→ltb, both_true, get_elem?, All, arith, ◌≡◌,
  refl, ap, ◌∙◌, List, [], ◌∷◌, Option, none, some, Bool, true, false, ◌⊎◌, inl, inr, Bool-cases,
  if◌then◌else◌,
}
use usbip_c.Msos.State.{MsosEntry, Group, Advert, in_group, same_group, find_entry, or_entry}
use usbip_c.Msos.State.{is_device_wide, covers, msos_entry_for_interface}

-- What the search answers has passed its test.
find_entry_passes :
    (test : MsosEntry → Bool) (es : List MsosEntry) (e : MsosEntry)
    → find_entry test es ≡ some e
    → test e ≡ true
unfolding find_entry
find_entry_passes test [] e h = absurd (cc)
find_entry_passes test (x ∷ es) e h = elim (Bool-cases (test x)) [
  | inl passes ↦
      let found : some x ≡ some e =
        ap (λ b. if b then some x else find_entry test es) {x = true} {y = test x} (cc) ∙ h in
      let same : x ≡ e = cc in ap test {x = e} {y = x} (cc) ∙ passes
  | inr fails ↦
      find_entry_passes test es e
        (ap (λ b. if b then some x else find_entry test es) {x = false} {y = test x} (cc) ∙ h)
]

or_entry_cases :
    (o p : Option MsosEntry) (e : MsosEntry)
    → or_entry o p ≡ some e
    → (o ≡ some e) ⊎ ((o ≡ none) × (p ≡ some e))
or_entry_cases none p e h = inr (refl, h)
or_entry_cases (some x) p e h = inl h

find_entry-none :
    (test : MsosEntry → Bool) (es : List MsosEntry)
    → find_entry test es ≡ none
    → All (λ (e : MsosEntry). test e ≡ false) es
unfolding find_entry
find_entry-none test [] h = tt
find_entry-none test (x ∷ es) h = elim (Bool-cases (test x)) [
  | inl passes ↦
      let found : some x ≡ none =
        ap (λ b. if b then some x else find_entry test es) {x = true} {y = test x} (cc) ∙ h in
      absurd (cc)
  | inr fails ↦ (
    fails,
    find_entry-none test es
        (ap (λ b. if b then some x else find_entry test es) {x = false} {y = test x} (cc) ∙ h),
  )
]

-- The group of an entry, which is not -1, is one of the device's, and the interface number is one of
-- its numbers.
abbrev pub HasInterface : Advert → ℕ → Option ℕ → Type 0
HasInterface dev ifnum group =
    (k : ℕ) × (g : Group) × (group ≡ some k)
    × (get_elem? dev.groups k ≡ some g)
    × (g.first_ifnum ≤ ifnum)
    × (ifnum < g.first_ifnum + g.n_ifs)

-- the group's part of `covers`
abbrev is_of : Option Group → ℕ → Bool
is_of o ifnum = elim o [ none ↦ false | some g ↦ in_group g ifnum ]

is_of-bounds :
    (o : Option Group) (ifnum : ℕ)
    → is_of o ifnum ≡ true
    → (g : Group) × (o ≡ some g) × (g.first_ifnum ≤ ifnum) × (ifnum < g.first_ifnum + g.n_ifs)
is_of-bounds none ifnum h = absurd (cc)
is_of-bounds (some g) ifnum h =
    let (low, high) = both_true (leb g.first_ifnum ifnum) (ltb ifnum (g.first_ifnum + g.n_ifs)) h in
    (g, refl, leb→le g.first_ifnum ifnum low, ltb→lt ifnum (g.first_ifnum + g.n_ifs) high)

abbrev covers_group : Advert → ℕ → Option ℕ → Bool
covers_group dev ifnum group = elim group [
  | none ↦ false
  | some k ↦ is_of (get_elem? dev.groups k) ifnum
]

covers_group-HasInterface :
    (dev : Advert) (ifnum : ℕ) (group : Option ℕ)
    → covers_group dev ifnum group ≡ true
    → HasInterface dev ifnum group
covers_group-HasInterface dev ifnum none h = absurd (cc)
covers_group-HasInterface dev ifnum (some k) h =
    let (g, there, low, high) = is_of-bounds (get_elem? dev.groups k) ifnum h in
    (k, g, refl, there, low, high)

HasInterface-covers :
    (dev : Advert) (ifnum : ℕ) (group : Option ℕ)
    → HasInterface dev ifnum group
    → covers_group dev ifnum group ≡ true
HasInterface-covers dev ifnum group (k, g, own, there, low, high) =
    ap (covers_group dev ifnum) own
    ∙ ap (λ (o : Option Group). is_of o ifnum) there
    ∙ ap (λ b. b && ltb ifnum (g.first_ifnum + g.n_ifs)) {y = true} (ground arith)
    ∙ lt→ltb ifnum (g.first_ifnum + g.n_ifs) high

wide_group : (o : Option ℕ) → same_group o none ≡ true → o ≡ none
wide_group none h = refl
wide_group (some k) h = absurd (cc)

none_covers :
    (dev : Advert) (ifnum : ℕ) (es : List MsosEntry)
    → All (λ (e : MsosEntry). covers dev ifnum e ≡ false) es
    → All (λ (e : MsosEntry). ¬ HasInterface dev ifnum e.group) es
unfolding covers
none_covers dev ifnum [] h = tt
none_covers dev ifnum (e ∷ es) (h, hs) = (
  λ own.
      let yes : covers_group dev ifnum e.group ≡ true = HasInterface-covers dev ifnum e.group own in
      absurd (cc),
  none_covers dev ifnum es hs,
)

-- The entry that answers for an interface is one of a group among whose interface numbers this one
-- is, or else the one for the whole device, and then no entry's group has this interface: so where no
-- two groups share an interface, a function never gets the GUID of another.
pub entry_scoped :
    (dev : Advert) (ifnum : ℕ) (e : MsosEntry)
    → msos_entry_for_interface dev ifnum ≡ some e
    → HasInterface dev ifnum e.group
      ⊎ ((e.group ≡ none) × All (λ (x : MsosEntry). ¬ HasInterface dev ifnum x.group) dev.msos)
unfolding msos_entry_for_interface covers
entry_scoped dev ifnum e h =
    elim (or_entry_cases (find_entry (covers dev ifnum) dev.msos)
      (find_entry is_device_wide dev.msos) e h) [
        | inl own ↦ inl (
            covers_group-HasInterface dev ifnum e.group
              (find_entry_passes (covers dev ifnum) dev.msos e own))
        | inr (nobody, wide) ↦ inr (
          wide_group e.group (find_entry_passes is_device_wide dev.msos e wide),
          none_covers dev ifnum dev.msos (find_entry-none (covers dev ifnum) dev.msos nobody),
        )
      ]
