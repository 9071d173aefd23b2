-- ===== src/Build/State.antt =====
-- usbip_device_add_descriptor of src/usbip_device.c with what it calls. calloc() is taken to succeed.
use usbip_c.Base.{
  ℕ, zero, suc, ◌+◌, ◌-◌, ◌*◌, ◌%◌, List, [], ◌∷◌, ◌++◌, Option, none, some, Bool, true, false,
  ◌&&◌, ◌||◌, ltb, leb, ◌==◌, not, if◌then◌else◌, length, get_or, set, take,
}
use usbip_c.Base.Bytes.{get_le16}
use usbip_c.Msos.State.{Group}

-- the part of `struct usbip_ep` that the descriptor sets
pub record EpInfo : Type 0 where
  pub number : ℕ
  pub dir : ℕ
  pub type : ℕ
  pub mps : ℕ
  pub interval : ℕ
  pub ifnum : ℕ

-- `struct ifalt`
pub record IfAlt : Type 0 where
  pub ifnum : ℕ
  pub alt : ℕ
  pub off : ℕ

-- The part of `struct usbip_device` that is built. `descr` is the blob up to `descr_len`, the
-- tables are the lists of the entries in use, and `cur_ifnum` is `none` for -1.
pub record Blueprint : Type 0 where
  pub descr : List ℕ
  pub ifalts : List IfAlt
  pub cur_ifnum : Option ℕ
  pub cur_alt : ℕ
  pub if_present : ℕ → Bool
  pub n_ifnums : ℕ
  pub eps : List EpInfo
  pub ep_map : ℕ → ℕ → Option EpInfo
  pub ep_reserved : ℕ → ℕ → ℕ
  pub groups : List Group

-- usbip_device_create. The setting -1 is not told from 0: it is used only where there is an interface.
abbrev pub blank : Blueprint
blank = record {
  descr = [];
  ifalts = [];
  cur_ifnum = none;
  cur_alt = 0;
  if_present = λ n. false;
  n_ifnums = 0;
  eps = [];
  ep_map = λ n d. none;
  ep_reserved = λ n d. 0;
  groups = [];
}

abbrev pub no_ifnum : ℕ
no_ifnum = 255

-- `desc[i]`
abbrev pub byte : List ℕ → ℕ → ℕ
byte desc i = get_or desc i 0

-- the length inferred from the type
abbrev pub known_len : ℕ → ℕ
known_len t =
    if t == 1 then 18 else if t == 2 then 9 else if t == 4 then 9 else if t == 5 then 7 else 0

abbrev pub desc_len : List ℕ → ℕ
desc_len desc = if byte desc 0 == 0 then known_len (byte desc 1) else byte desc 0

unfoldable pub ifalt_for : List IfAlt → ℕ → ℕ → Option IfAlt
ifalt_for [] ifnum alt = none
ifalt_for (x ∷ xs) ifnum alt =
    if x.ifnum == ifnum && x.alt == alt then some x else ifalt_for xs ifnum alt

-- The record of the setting gets its offset; a new one is appended while there is room.
unfoldable pub note_ifalt : List IfAlt → ℕ → ℕ → ℕ → ℕ → List IfAlt
note_ifalt [] room ifnum alt off =
    if room == 0 then [] else record { ifnum = ifnum; alt = alt; off = off } ∷ []
note_ifalt (x ∷ xs) room ifnum alt off =
    let rest = note_ifalt xs room ifnum alt off in
    if x.ifnum == ifnum && x.alt == alt then record x { off = off } ∷ xs else x ∷ rest

-- the latest group takes the interface
unfoldable pub note_group : List Group → ℕ → List Group
note_group [] ifnum = []
note_group (g ∷ []) ifnum =
    record { first_ifnum = if g.n_ifs == 0 then ifnum else g.first_ifnum; n_ifs = g.n_ifs + 1 } ∷ []
note_group (g ∷ h ∷ gs) ifnum = g ∷ note_group (h ∷ gs) ifnum

unfoldable pub register_ifnum : Blueprint → ℕ → Blueprint
unfolding note_group
register_ifnum dev ifnum =
    let counted = record dev {
      n_ifnums = if ltb dev.n_ifnums (ifnum + 1) then ifnum + 1 else dev.n_ifnums;
    } in
    if leb 16 ifnum || dev.if_present ifnum then counted else record counted {
      if_present = λ n. if n == ifnum then true else dev.if_present n;
      groups = note_group dev.groups ifnum;
    }

abbrev pub ep_reservation_allows : Blueprint → ℕ → ℕ → ℕ → Bool
ep_reservation_allows dev owner n dir =
    dev.ep_reserved n dir == 0 || dev.ep_reserved n dir == (owner + 1) % 256

abbrev pub is_free : Blueprint → ℕ → ℕ → Bool
is_free dev n dir = elim (dev.ep_map n dir) [ none ↦ true | some held ↦ false ]

-- `!held || held->ifnum == owner`
abbrev pub may_share : Blueprint → ℕ → ℕ → ℕ → Bool
may_share dev owner n dir = elim (dev.ep_map n dir) [
  | none ↦ true
  | some held ↦ held.ifnum == owner
]

-- the loop over the numbers, `fuel` of them from `n` on
unfoldable pub first_free : Blueprint → ℕ → ℕ → ℕ → ℕ → Option ℕ
first_free dev owner dir zero n = none
first_free dev owner dir (suc fuel) n =
    let rest = first_free dev owner dir fuel (n + 1) in
    if is_free dev n dir && ep_reservation_allows dev owner n dir then some n else rest

-- `none` is the -1.
unfoldable pub ep_alloc_number : Blueprint → ℕ → ℕ → ℕ → Option ℕ
unfolding first_free
ep_alloc_number dev owner want dir =
    if not (want == 0) && (may_share dev owner want dir && ep_reservation_allows dev owner want dir)
    then some want
    else first_free dev owner dir 15 1

abbrev pub owner_of : Blueprint → ℕ
owner_of dev = elim dev.cur_ifnum [ none ↦ no_ifnum | some n ↦ n ]

abbrev pub direction_of : ℕ → ℕ
direction_of addr = if leb 128 addr then 1 else 0

-- `ep_map[number][dir] = v`
abbrev pub put_slot {ℓ} : {A : Type ℓ} → (ℕ → ℕ → A) → ℕ → ℕ → A → ℕ → ℕ → A
put_slot m number dir v n d = if n == number && d == dir then v else m n d

-- `descr[ia->off + 4]++` where the setting is known
unfoldable pub count_endpoint : Blueprint → List ℕ → List ℕ
unfolding ifalt_for
count_endpoint dev descr = elim dev.cur_ifnum [
  | none ↦ descr
  | some ifnum ↦ elim (ifalt_for dev.ifalts ifnum dev.cur_alt) [
    | none ↦ descr
    | some ia ↦ set descr (ia.off + 4) ((get_or descr (ia.off + 4) 0 + 1) % 256)
  ]
]

unfoldable pub add_interface : Blueprint → List ℕ → Blueprint
unfolding register_ifnum note_ifalt
add_interface dev desc =
    let seen = register_ifnum dev (byte desc 2) in
    record seen {
      descr = dev.descr ++ set (take (desc_len desc) desc) 0 (desc_len desc);
      cur_ifnum = some (byte desc 2);
      cur_alt = byte desc 3;
      ifalts =
          note_ifalt dev.ifalts (64 - length dev.ifalts) (byte desc 2) (byte desc 3)
            (length dev.descr);
    }

-- the endpoint once it has its number
unfoldable pub install : Blueprint → List ℕ → ℕ → Blueprint
unfolding count_endpoint
install dev desc number =
    let dir = direction_of (byte desc 2) in
    let ep : EpInfo = record {
      number = number;
      dir = dir;
      type = byte desc 3 % 4;
      mps = get_le16 desc 4;
      interval = byte desc 6;
      ifnum = owner_of dev;
    } in
    let wire = set (set (take (desc_len desc) desc) 0 (desc_len desc)) 2 (number + 128 * dir) in
    record dev {
      descr = count_endpoint dev (dev.descr ++ wire);
      eps = dev.eps ++ (ep ∷ []);
      ep_map = put_slot dev.ep_map number dir (some ep);
      ep_reserved = put_slot dev.ep_reserved number dir 0;
    }

-- `none` is USB_ERROR_NO_MEM, with the device as it was.
unfoldable pub add_endpoint : Blueprint → List ℕ → Option Blueprint
unfolding ep_alloc_number install
add_endpoint dev desc =
    let number =
      ep_alloc_number dev (owner_of dev) (byte desc 2 % 16) (direction_of (byte desc 2)) in
    if leb 128 (length dev.eps)
    then none
    else elim number [ none ↦ none | some n ↦ some (install dev desc n) ]

-- usbip_device_add_descriptor
unfoldable pub add_descriptor : Blueprint → List ℕ → Option Blueprint
unfolding add_interface add_endpoint
add_descriptor dev desc =
    if ltb 2048 (length dev.descr + desc_len desc)
    then none
    else if byte desc 1 == 4
    then some (add_interface dev desc)
    else if byte desc 1 == 5
    then add_endpoint dev desc
    else some
        (record dev { descr = dev.descr ++ set (take (desc_len desc) desc) 0 (desc_len desc) })

-- usbip_device_reserve_endpoint: the address, 0 for a refusal, and the device
unfoldable pub reserve_endpoint : Blueprint → ℕ → ℕ × Blueprint
unfolding ep_alloc_number
reserve_endpoint dev want_addr =
    let dir = direction_of want_addr in
    elim dev.cur_ifnum [
      | none ↦ (0, dev)
      | some owner ↦ elim (ep_alloc_number dev owner (want_addr % 16) dir) [
        | none ↦ (0, dev)
        | some n ↦ (
          n + 128 * dir,
          record dev { ep_reserved = put_slot dev.ep_reserved n dir ((owner + 1) % 256) },
        )
      ]
    ]

-- the test of one endpoint in check_endpoint_conflicts
unfoldable pub agrees : Blueprint → EpInfo → Bool
agrees dev ep = may_share dev ep.ifnum ep.number ep.dir

-- check_endpoint_conflicts, `true` for USB_SUCCESS
unfoldable pub check_endpoint_conflicts : Blueprint → List EpInfo → Bool
unfolding agrees
check_endpoint_conflicts dev [] = true
check_endpoint_conflicts dev (ep ∷ eps) = agrees dev ep && check_endpoint_conflicts dev eps

-- What the application does to a device that it builds; a failure changes nothing.
pub data Action : Type 0 where
  append : List ℕ → Action
  reserve : ℕ → Action

abbrev pub kept {ℓ} : {A : Type ℓ} → Option A → A → A
kept none a = a
kept (some b) a = b

unfoldable pub act : Blueprint → Action → Blueprint
unfolding add_descriptor reserve_endpoint
act dev (append desc) = kept (add_descriptor dev desc) dev
act dev (reserve addr) = (reserve_endpoint dev addr).1

unfoldable pub assemble : Blueprint → List Action → Blueprint
unfolding act
assemble dev [] = dev
assemble dev (a ∷ more) = assemble (act dev a) more
