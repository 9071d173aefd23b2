-- ===== src/Build/Tests.antt =====
-- Two interfaces that ask for the same endpoint address (src/usbip_device.c).
use usbip_c.Base.{ℕ, ◌≡◌, refl, List, [], ◌∷◌, map, true}
use usbip_c.Build.State.{
  EpInfo, blank, Action, append, reserve, assemble, act, add_descriptor, add_interface,
  add_endpoint,
}
use usbip_c.Build.State.{
  register_ifnum, note_ifalt, note_group, install, count_endpoint, ifalt_for, ep_alloc_number,
  first_free,
}
use usbip_c.Build.State.{check_endpoint_conflicts, reserve_endpoint}
use usbip_c.Build.Conflicts.{no_conflicts}

-- an interface with no endpoints yet, and a bulk endpoint
abbrev interface_desc : ℕ → List ℕ
interface_desc n = 9 ∷ 4 ∷ n ∷ 0 ∷ 0 ∷ 255 ∷ 0 ∷ 0 ∷ 0 ∷ []

abbrev endpoint_desc : ℕ → List ℕ
endpoint_desc addr = 7 ∷ 5 ∷ addr ∷ 2 ∷ 64 ∷ 0 ∷ 0 ∷ []

abbrev two_claims : List Action
two_claims =
    append (interface_desc 0)
    ∷ append (endpoint_desc 0x81)
    ∷ reserve 0x82
    ∷ append (interface_desc 1)
    ∷ append (endpoint_desc 0x81)
    ∷ []

-- The second one is moved past the reserved number, and each interface counts its endpoint.
relocated :
    (map (λ (ep : EpInfo). ep.number) (assemble blank two_claims).eps ≡ 1 ∷ 3 ∷ [])
    × ((assemble blank two_claims).descr
        ≡ 9 ∷ 4 ∷ 0 ∷ 0 ∷ 1 ∷ 255 ∷ 0 ∷ 0 ∷ 0 ∷ 7 ∷ 5 ∷ 0x81 ∷ 2 ∷ 64 ∷ 0 ∷ 0 ∷ 9 ∷ 4 ∷ 1 ∷ 0 ∷ 1
          ∷ 255 ∷ 0 ∷ 0 ∷ 0 ∷ 7 ∷ 5 ∷ 0x83 ∷ 2 ∷ 64 ∷ 0 ∷ 0 ∷ [])
unfolding assemble act add_descriptor add_interface add_endpoint register_ifnum note_ifalt
    note_group install count_endpoint ifalt_for ep_alloc_number first_free reserve_endpoint
relocated = (refl, refl)

no_conflicts_example :
    check_endpoint_conflicts (assemble blank two_claims) (assemble blank two_claims).eps ≡ true
no_conflicts_example = no_conflicts two_claims
