-- ===== src/Control/Laws.antt =====
-- What a host may rely on at endpoint 0 (src/usbip_device.c).
use usbip_c.Base.{
  ℕ, ◌+◌, ◌-◌, ◌*◌, ◌/◌, ◌%◌, ◌^◌, ◌≤◌, ◌<◌, ◌≡◌, refl, ap, List, [], ◌∷◌, false, ltb,
  if◌then◌else◌, length, take, map, All, arith, length-take, ◌⊎◌, inl, inr, if_both,
}
use usbip_c.Base.Bytes.{get_le16}
use usbip_c.Wire.Reply.{status_stall}
use usbip_c.Endpoint.State.{Ep, clear_halt}
use usbip_c.Dfu.State.{Setup}
use usbip_c.Control.Describe.{Ident, build_config_desc}
use usbip_c.Control.State.{
  Classes, Core, Answer, pass, done, refuse, standard, finish, is_in, handle_control,
}

-- The configuration descriptor announces as its total length just the bytes that are built, also
-- where the buffer cuts it short, for a buffer of 9 to 65535 bytes.
pub config_announces :
    (dev : Ident) (cap : ℕ)
    → 9 ≤ cap
    → cap < 2 ^ 16
    → get_le16 (build_config_desc dev cap) 2 ≡ length (build_config_desc dev cap)
unfolding build_config_desc
config_announces dev cap low high =
    announced (if ltb cap (9 + length dev.descr) then cap else 9 + length dev.descr) (ground arith)
      (ground arith) (ground arith)
  where
    announced :
        (total : ℕ)
        → 9 ≤ total
        → total ≤ cap
        → total ≤ 9 + length dev.descr
        → total % 256 + total / 2 ^ 8 % 256 * 2 ^ 8
          ≡ length (0 ∷ 0 ∷ 0 ∷ 0 ∷ 0 ∷ 0 ∷ 0 ∷ 0 ∷ 0 ∷ take (total - 9) dev.descr)
    announced total a b c = omega (arith, length-take (total - 9) dev.descr)

module _ {World : Type 0} (classes : Classes World) (dev : Ident) where
  finish-bounded :
      (setup : Setup) (bytes : List ℕ) (answer : Answer)
      → (length (finish classes dev setup bytes answer).1 ≤ setup.length)
        × (((finish classes dev setup bytes answer).0 ≡ 0)
            ⊎ (((finish classes dev setup bytes answer).0 ≡ status_stall)
                × ((finish classes dev setup bytes answer).1 ≡ [])
                × ((finish classes dev setup bytes answer).2 ≡ 0)))
  finish-bounded setup bytes pass = (omega arith, inr (refl, refl, refl))
  finish-bounded setup bytes refuse = (omega arith, inr (refl, refl, refl))
  finish-bounded setup bytes (done reply) =
      if_both
        (λ (r : ℕ × List ℕ × ℕ).
          (length r.1 ≤ setup.length)
          × ((r.0 ≡ 0) ⊎ ((r.0 ≡ status_stall) × (r.1 ≡ []) × (r.2 ≡ 0))))
        (is_in classes dev setup) (0, take setup.length reply, length (take setup.length reply))
        (0, [], length bytes) (omega (arith, length-take setup.length reply), inl refl)
        (omega arith, inl refl)

  -- Whatever the request and whatever the class's handler answers, the reply carries wLength bytes at
  -- most, and its status is 0 or that of a STALL, which carries nothing.
  pub reply_bounded :
      (core : Core) (w : World) (setup : Setup) (bytes : List ℕ)
      → (length (handle_control classes dev core w setup bytes).0.1 ≤ setup.length)
        × (((handle_control classes dev core w setup bytes).0.0 ≡ 0)
            ⊎ (((handle_control classes dev core w setup bytes).0.0 ≡ status_stall)
                × ((handle_control classes dev core w setup bytes).0.1 ≡ [])
                × ((handle_control classes dev core w setup bytes).0.2 ≡ 0)))
  unfolding handle_control
  reply_bounded core w setup bytes = finish-bounded setup bytes _

  no_halts : (eps : List Ep) → All (λ ep. ep.halted ≡ false) (map clear_halt eps)
  unfolding clear_halt
  no_halts [] = tt
  no_halts (ep ∷ eps) = (refl, no_halts eps)

  -- the two standard requests for the configuration
  abbrev pub set_config : ℕ → Setup
  set_config value = record { request_type = 0; request = 9; value = value; index = 0; length = 0 }

  abbrev pub get_config : Setup
  get_config = record { request_type = 0x80; request = 8; value = 0; index = 0; length = 1 }

  -- After SET_CONFIGURATION with a value below 256, which is acknowledged, no endpoint is halted and
  -- GET_CONFIGURATION answers that value.
  pub configured :
      (core : Core) (w : World) (value : ℕ)
      → value < 256
      → let (ack, core1, w1, rets) = handle_control classes dev core w (set_config value) [] in
        (ack ≡ (0, [], 0))
        × All (λ ep. ep.halted ≡ false) core1.eps
        × ((handle_control classes dev core1 w1 get_config []).0 ≡ (0, value ∷ [], 1))
  unfolding handle_control standard
  configured core w value h = (refl, no_halts core.eps, ap (λ v. (0, v ∷ [], 1)) (small value h))
    where
      small : (v : ℕ) → v < 256 → v % 256 % 256 ≡ v
      small v h = omega arith
