-- ===== src/Build/Conflicts.antt =====
-- Endpoint addresses of a device under construction (src/usbip_device.c): the allocator never gives
-- one address to two interfaces.
use usbip_c.Base.{
  both_true, ℕ, zero, suc, ◌+◌, ◌%◌, ◌≡◌, subst, refl, sym, ap, ap₂, ◌∙◌, List, [], ◌∷◌, ◌++◌,
  Option, none, some, Bool, true, false, ◌&&◌, ltb, leb, ◌==◌, ◌||◌, ◌*◌, not, if◌then◌else◌,
  length, All, ◌⊎◌, inl, inr, Bool-cases, if_both, ==_iff, ==_refl,
}
use usbip_c.Build.State.{
  EpInfo, Blueprint, blank, byte, desc_len, register_ifnum, is_free, may_share, first_free,
}
use usbip_c.Build.State.{
  ep_reservation_allows, ep_alloc_number, owner_of, direction_of, put_slot, add_interface, install,
}
use usbip_c.Build.State.{
  add_endpoint, add_descriptor, reserve_endpoint, agrees, check_endpoint_conflicts,
}
use usbip_c.Build.State.{Action, append, reserve, kept, act, assemble}

-- The endpoint's address is held by an endpoint of its own interface.
abbrev Holds : (ℕ → ℕ → Option EpInfo) → EpInfo → Type 0
Holds m ep = (h : EpInfo) × (m ep.number ep.dir ≡ some h) × (h.ifnum ≡ ep.ifnum)

abbrev pub IsHeld : Blueprint → Type 0
IsHeld dev = All (Holds dev.ep_map) dev.eps

free_shares :
    (o : Option EpInfo) (owner : ℕ)
    → (elim o [ none ↦ true | some held ↦ false ]) ≡ true
    → (elim o [ none ↦ true | some held ↦ held.ifnum == owner ]) ≡ true
free_shares none owner h = refl
free_shares (some held) owner h = absurd (cc)

-- by the value of a test
if_some :
    (b : Bool) (x y : Option ℕ) (n : ℕ)
    → (if b then x else y) ≡ some n
    → ((b ≡ true) × (x ≡ some n)) ⊎ (y ≡ some n)
if_some true x y n h = inl (refl, h)
if_some false x y n h = inr h

some_same : (P : ℕ → Type 0) (m n : ℕ) → some m ≡ some n → P m → P n
some_same P m n h p = let e : m ≡ n = cc in subst P e p

-- The allocator answers with a number that the interface may use.
first_free-shares :
    (dev : Blueprint) (owner dir fuel i n : ℕ)
    → first_free dev owner dir fuel i ≡ some n
    → may_share dev owner n dir ≡ true
unfolding first_free
first_free-shares dev owner dir zero i n h = absurd (cc)
first_free-shares dev owner dir (suc fuel) i n h =
    elim (if_some (is_free dev i dir && ep_reservation_allows dev owner i dir) (some i)
      (first_free dev owner dir fuel (i + 1)) n h) [
        | inl (test, here) ↦
            some_same (λ m. may_share dev owner m dir ≡ true) i n here
              (free_shares (dev.ep_map i dir) owner
                (both_true (is_free dev i dir) (ep_reservation_allows dev owner i dir) test).0)
        | inr later ↦ first_free-shares dev owner dir fuel (i + 1) n later
      ]

ep_alloc_number-shares :
    (dev : Blueprint) (owner want dir n : ℕ)
    → ep_alloc_number dev owner want dir ≡ some n
    → may_share dev owner n dir ≡ true
unfolding ep_alloc_number
ep_alloc_number-shares dev owner want dir n h =
    elim (if_some
      (not (want == 0)
        && (may_share dev owner want dir && ep_reservation_allows dev owner want dir))
      (some want) (first_free dev owner dir 15 1) n h) [
        | inl (test, here) ↦
            some_same (λ m. may_share dev owner m dir ≡ true) want n here
              (both_true (may_share dev owner want dir) (ep_reservation_allows dev owner want dir)
                (both_true (not (want == 0))
                  (may_share dev owner want dir && ep_reservation_allows dev owner want dir)
                  test).1).0
        | inr later ↦ first_free-shares dev owner dir 15 1 n later
      ]

shared_owner :
    (o : Option EpInfo) (owner : ℕ) (h : EpInfo)
    → o ≡ some h
    → (elim o [ none ↦ true | some held ↦ held.ifnum == owner ]) ≡ true
    → h.ifnum ≡ owner
shared_owner none owner h e test = absurd (cc)
shared_owner (some g) owner h e test =
    let same : g ≡ h = cc in ap (λ (x : EpInfo). x.ifnum) (sym same) ∙ (==_iff g.ifnum owner).0 test

-- A slot that the interface may use goes to it; every endpoint stays held.
put_slot-Holds :
    (m : ℕ → ℕ → Option EpInfo) (new ep : EpInfo)
    → (elim (m new.number new.dir) [ none ↦ true | some held ↦ held.ifnum == new.ifnum ]) ≡ true
    → Holds m ep
    → Holds (put_slot m new.number new.dir (some new)) ep
put_slot-Holds m new ep free (h, at_slot, same) =
    elim (Bool-cases (ep.number == new.number && ep.dir == new.dir)) [
      | inl e ↦
          let (n, d) = both_true (ep.number == new.number) (ep.dir == new.dir) e in
          let here : m new.number new.dir ≡ some h =
            sym (ap₂ m ((==_iff ep.number new.number).0 n) ((==_iff ep.dir new.dir).0 d))
            ∙ at_slot in
          (
            new,
            ap (λ b. if b then some new else m ep.number ep.dir) e,
            sym (shared_owner (m new.number new.dir) new.ifnum h here free) ∙ same,
          )
      | inr e ↦ (h, ap (λ b. if b then some new else m ep.number ep.dir) e ∙ at_slot, same)
    ]

All-put_slot :
    (m : ℕ → ℕ → Option EpInfo) (new : EpInfo) (eps : List EpInfo)
    → (elim (m new.number new.dir) [ none ↦ true | some held ↦ held.ifnum == new.ifnum ]) ≡ true
    → All (Holds m) eps
    → All (Holds (put_slot m new.number new.dir (some new))) (eps ++ (new ∷ []))
All-put_slot m new [] free h = ((new, own, refl), tt)
  where
    own : put_slot m new.number new.dir (some new) new.number new.dir ≡ some new
    own = rw (==_refl new.number, ==_refl new.dir)
All-put_slot m new (ep ∷ eps) free (h, hs) =
    (put_slot-Holds m new ep free h, All-put_slot m new eps free hs)

install-IsHeld :
    (dev : Blueprint) (desc : List ℕ) (n : ℕ)
    → may_share dev (owner_of dev) n (direction_of (byte desc 2)) ≡ true
    → IsHeld dev
    → IsHeld (install dev desc n)
install-IsHeld dev desc n free h = unfold install in All-put_slot dev.ep_map _ dev.eps free h

some-IsHeld :
    (o : Option ℕ) (f : ℕ → Blueprint) (dev : Blueprint)
    → IsHeld dev
    → ((n : ℕ) → o ≡ some n → IsHeld (f n))
    → IsHeld (kept (elim o [ none ↦ none | some n ↦ some (f n) ]) dev)
some-IsHeld none f dev h k = h
some-IsHeld (some n) f dev h k = k n refl

add_endpoint-IsHeld :
    (dev : Blueprint) (desc : List ℕ) → IsHeld dev → IsHeld (kept (add_endpoint dev desc) dev)
unfolding add_endpoint
add_endpoint-IsHeld dev desc h =
    if_both (λ o. IsHeld (kept o dev)) (leb 128 (length dev.eps)) none
      (elim (ep_alloc_number dev (owner_of dev) (byte desc 2 % 16) (direction_of (byte desc 2))) [
        | none ↦ none
        | some n ↦ some (install dev desc n)
      ])
      h
      (some-IsHeld
        (ep_alloc_number dev (owner_of dev) (byte desc 2 % 16) (direction_of (byte desc 2)))
        (install dev desc) dev h
        (λ n e.
          install-IsHeld dev desc n
            (ep_alloc_number-shares dev (owner_of dev) (byte desc 2 % 16)
              (direction_of (byte desc 2)) n e)
            h))

register_ifnum-IsHeld :
    (dev : Blueprint) (ifnum : ℕ) → IsHeld dev → IsHeld (register_ifnum dev ifnum)
unfolding register_ifnum
register_ifnum-IsHeld dev ifnum h = if_both IsHeld (leb 16 ifnum || dev.if_present ifnum) _ _ h h

add_interface-IsHeld :
    (dev : Blueprint) (desc : List ℕ) → IsHeld dev → IsHeld (add_interface dev desc)
unfolding add_interface
add_interface-IsHeld dev desc h = register_ifnum-IsHeld dev (byte desc 2) h

add_descriptor-IsHeld :
    (dev : Blueprint) (desc : List ℕ) → IsHeld dev → IsHeld (kept (add_descriptor dev desc) dev)
unfolding add_descriptor
add_descriptor-IsHeld dev desc h =
    if_both keeps (ltb 2048 (length dev.descr + desc_len desc)) _ _ h (
      if_both keeps (byte desc 1 == 4) _ _ (add_interface-IsHeld dev desc h)
        (if_both keeps (byte desc 1 == 5) _ _ (add_endpoint-IsHeld dev desc h) h))
  where
    keeps : Option Blueprint → Type 0
    keeps o = IsHeld (kept o dev)

reserve_endpoint-IsHeld :
    (dev : Blueprint) (addr : ℕ) → IsHeld dev → IsHeld (reserve_endpoint dev addr).1
unfolding reserve_endpoint
reserve_endpoint-IsHeld dev addr h = by_owner dev.cur_ifnum
  where
    by_number :
        (owner : ℕ) (o : Option ℕ)
        → IsHeld
            (elim o as (λ x. ℕ × Blueprint) [
              | none ↦ (0, dev)
              | some n ↦ (
                n + 128 * direction_of addr,
                record dev {
                  ep_reserved = put_slot dev.ep_reserved n (direction_of addr) ((owner + 1) % 256);
                },
              )
            ]).1
    by_number owner none = h
    by_number owner (some n) = h

    by_owner :
        (o : Option ℕ)
        → IsHeld
            (elim o as (λ x. ℕ × Blueprint) [
              | none ↦ (0, dev)
              | some owner ↦ elim (ep_alloc_number dev owner (addr % 16) (direction_of addr)) [
                | none ↦ (0, dev)
                | some n ↦ (
                  n + 128 * direction_of addr,
                  record dev {
                    ep_reserved =
                        put_slot dev.ep_reserved n (direction_of addr) ((owner + 1) % 256);
                  },
                )
              ]
            ]).1
    by_owner none = h
    by_owner (some owner) =
        by_number owner (ep_alloc_number dev owner (addr % 16) (direction_of addr))

assemble-IsHeld :
    (actions : List Action) (dev : Blueprint) → IsHeld dev → IsHeld (assemble dev actions)
unfolding assemble act
assemble-IsHeld [] dev h = h
assemble-IsHeld (append desc ∷ more) dev h =
    assemble-IsHeld more (kept (add_descriptor dev desc) dev) (add_descriptor-IsHeld dev desc h)
assemble-IsHeld (reserve addr ∷ more) dev h =
    assemble-IsHeld more (reserve_endpoint dev addr).1 (reserve_endpoint-IsHeld dev addr h)

held_agrees :
    (o : Option EpInfo) (h : EpInfo) (ifnum : ℕ)
    → o ≡ some h
    → h.ifnum ≡ ifnum
    → (elim o [ none ↦ true | some held ↦ held.ifnum == ifnum ]) ≡ true
held_agrees none h ifnum e same = refl
held_agrees (some g) h ifnum e same =
    let g_is : g ≡ h = cc in (==_iff g.ifnum ifnum).1 (ap (λ (x : EpInfo). x.ifnum) g_is ∙ same)

check-IsHeld :
    (dev : Blueprint) (eps : List EpInfo)
    → All (Holds dev.ep_map) eps
    → check_endpoint_conflicts dev eps ≡ true
unfolding check_endpoint_conflicts agrees
check-IsHeld dev [] h = refl
check-IsHeld dev (ep ∷ eps) ((g, at_slot, same), hs) =
    rw (held_agrees (dev.ep_map ep.number ep.dir) g ep.ifnum at_slot same) (check-IsHeld dev eps hs)

-- However a device is put together from descriptors and reservations, whatever addresses they ask
-- for and whichever of them fail, the check at plug time finds no endpoint address that two
-- interfaces claim.
pub no_conflicts :
    (actions : List Action)
    → check_endpoint_conflicts (assemble blank actions) (assemble blank actions).eps ≡ true
no_conflicts actions =
    check-IsHeld (assemble blank actions) (assemble blank actions).eps
      (assemble-IsHeld actions blank tt)
